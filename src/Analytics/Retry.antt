-- ===== src/Analytics/Retry.antt =====
-- analytics/common/delta.py: `retry`. Whether a text stands in another, Python's `in`, is a parameter.
use tikblog_unsubscribe_plat.Base.{
  ℕ, zero, suc, ◌+◌, ◌≡◌, refl, ◌≤◌, ◌<◌, ◌⊎◌, inl, inr, String, Bool, true, false, not, ◌||◌,
  Option, none, some, List, [], ◌∷◌, arith,
}
use tikblog_unsubscribe_plat.Base.Tests.{◌==◌, if◌then◌else◌, Bool-cases}
use tikblog_unsubscribe_plat.Base.Lists.{length, any, All}
use tikblog_unsubscribe_plat.Base.Errors.{Result, ok, raised, Exn, Result-cases}

-- The names that mark a conflict of concurrent Delta transactions.
abbrev pub conflict_names : List String
conflict_names =
    "ConcurrentAppendException" ∷ "ConcurrentWriteException" ∷ "ConcurrentDeleteReadException"
    ∷ "ConcurrentDeleteDeleteException" ∷ "MetadataChangedException" ∷ "ProtocolChangedException"
    ∷ "DELTA_CONCURRENT" ∷ []

-- A pause of `merge_backoff_seconds * 2**attempt` and a random part is recorded by its attempt; the
-- exceptions of the operation are recorded too, both the newest first.
pub record Run (W : Type 0) : Type 0 where
  pub world : W
  pub calls : ℕ
  pub slept : List ℕ
  pub raises : List Exn

module _ {A W : Type 0} (contains : String → String → Bool) (operation : W → Result A × W)
    (merge_attempts : ℕ) where
  unfoldable pub is_conflict : Exn → Bool
  is_conflict e = any (λ name. contains name e.message) conflict_names

  -- One call of the operation.
  unfoldable pub call : Run W → Result A × Run W
  call s =
      let (r, w) = operation s.world in
      elim r [
        | ok a ↦ (ok a, record s { world = w; calls = s.calls + 1 })
        | raised e ↦ (raised e, record s { world = w; calls = s.calls + 1; raises = e ∷ s.raises })
      ]

  -- The rounds that are left of `range(merge_attempts)`, from `attempt`; none is Python's None.
  unfoldable pub retry_from : ℕ → ℕ → Run W → Result (Option A) × Run W
  unfolding is_conflict call
  retry_from zero attempt s = (ok none, s)
  retry_from (suc left) attempt s =
      let (r, s') = call s in
      let again = retry_from left (attempt + 1) (record s' { slept = attempt ∷ s'.slept }) in
      elim r [
        | ok a ↦ (ok (some a), s')
        | raised e ↦
            if not (is_conflict e) || attempt + 1 == merge_attempts then (raised e, s') else again
      ]

  unfoldable pub retry : W → Result (Option A) × Run W
  unfolding retry_from
  retry w = retry_from merge_attempts 0 (record { world = w; calls = 0; slept = []; raises = [] })

  call-ok :
      (s : Run W) (a : A)
      → (operation s.world).0 ≡ ok a
      → call s ≡ (ok a, record s { world = (operation s.world).1; calls = s.calls + 1 })
  unfolding call
  call-ok s a h = rw (h, call) refl

  call-raised :
      (s : Run W) (e : Exn)
      → (operation s.world).0 ≡ raised e
      → call s ≡ (
        raised e,
        record s { world = (operation s.world).1; calls = s.calls + 1; raises = e ∷ s.raises },
      )
  unfolding call
  call-raised s e h = rw (h, call) refl

  -- The process after a call that raises.
  abbrev pub after_raise : Run W → Exn → Run W
  after_raise s e = record s {
    world = (operation s.world).1;
    calls = s.calls + 1;
    raises = e ∷ s.raises;
  }

  pub retry_from-ok :
      (left attempt : ℕ) (s : Run W) (a : A)
      → (operation s.world).0 ≡ ok a
      → retry_from (suc left) attempt s
        ≡ (ok (some a), record s { world = (operation s.world).1; calls = s.calls + 1 })
  unfolding retry_from
  retry_from-ok left attempt s a h = simp (call-ok s a h, retry_from)

  pub retry_from-last :
      (left attempt : ℕ) (s : Run W) (e : Exn)
      → (operation s.world).0 ≡ raised e
      → not (is_conflict e) || attempt + 1 == merge_attempts ≡ true
      → retry_from (suc left) attempt s ≡ (raised e, after_raise s e)
  unfolding retry_from
  retry_from-last left attempt s e h last = simp (call-raised s e h, last, retry_from)

  pub retry_from-again :
      (left attempt : ℕ) (s : Run W) (e : Exn)
      → (operation s.world).0 ≡ raised e
      → not (is_conflict e) || attempt + 1 == merge_attempts ≡ false
      → retry_from (suc left) attempt s
        ≡ retry_from left (attempt + 1) (record (after_raise s e) { slept = attempt ∷ s.slept })
  unfolding retry_from
  retry_from-again left attempt s e h early = simp (call-raised s e h, early, retry_from)

  -- How a call of `retry` ends: with the value of a call that follows conflicts only, or with the
  -- exception of the last call, which is no conflict or has used up the attempts.
  abbrev pub Ended : Result (Option A) × Run W → Type 0
  Ended (ok none, s) = ⊥
  Ended (ok (some a), s) =
      (s.calls ≤ merge_attempts)
      × (s.calls ≡ length s.slept + 1)
      × All (λ e. is_conflict e ≡ true) s.raises
  Ended (raised e, s) =
      (s.calls ≤ merge_attempts)
      × (s.calls ≡ length s.slept + 1)
      × ((is_conflict e ≡ false) ⊎ (s.calls ≡ merge_attempts))
      × ((earlier : List Exn) × (s.raises ≡ e ∷ earlier)
          × All (λ e'. is_conflict e' ≡ true) earlier)

  retry_from-Ended :
      (left attempt : ℕ) (s : Run W)
      → left + attempt ≡ merge_attempts
      → 0 < left
      → s.calls ≡ attempt
      → length s.slept ≡ attempt
      → All (λ e. is_conflict e ≡ true) s.raises
      → Ended (retry_from left attempt s)
  unfolding retry_from
  retry_from-Ended zero attempt s total more calls slept earlier = absurd (omega arith)
  retry_from-Ended (suc left) attempt s total more calls slept earlier =
      elim (Result-cases (operation s.world).0) [
        | inl (a, returns) ↦
            rw (retry_from-ok left attempt s a returns) (omega arith, omega arith, earlier)
        | inr (e, raises) ↦ elim (Bool-cases (is_conflict e)) [
          | inr other ↦
              rw (retry_from-last left attempt s e raises (ground arith))
                (omega arith, omega arith, inl other, (s.raises, refl, earlier))
          | inl conflict ↦ elim (Bool-cases (attempt + 1 == merge_attempts)) [
            | inl last ↦
                let used : s.calls + 1 ≡ merge_attempts = ground arith in
                rw (retry_from-last left attempt s e raises (ground arith))
                  (omega arith, omega arith, inr used, (s.raises, refl, earlier))
            | inr early ↦
                let rounds : 0 < left = ground arith in
                let ih =
                  retry_from-Ended left (attempt + 1)
                    (record (after_raise s e) { slept = attempt ∷ s.slept }) (omega arith) rounds
                    (omega arith) (omega arith) (conflict, earlier) in
                rw (retry_from-again left attempt s e raises (ground arith)) ih
          ]
        ]
      ]

  -- With at least one attempt, `retry` calls the operation at most `merge_attempts` times, pauses
  -- between two calls, and never ends with None: it returns the value of a call after which all
  -- earlier ones had conflicts, or it raises the exception of the last call, which is no conflict or
  -- has used up the attempts, and again all earlier ones had conflicts.
  pub retry-Ended : (w : W) → 0 < merge_attempts → Ended (retry w)
  unfolding retry
  retry-Ended w some_attempt =
      retry_from-Ended merge_attempts 0 (record { world = w; calls = 0; slept = []; raises = [] })
        (omega arith) some_attempt refl refl tt
