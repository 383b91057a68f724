-- ===== src/Analytics/Lake/Retried.antt =====
-- analytics/common/delta.py: what holds of the tables after a write that is retried on conflicts.
use tikblog_unsubscribe_plat.Base.{
  ℕ, zero, suc, ◌+◌, ◌<◌, ◌≡◌, ◌≢◌, inl, inr, not, ◌||◌, Option, none, some, [], arith,
}
use tikblog_unsubscribe_plat.Base.Tests.{◌==◌, Bool-cases, Option-cases}
use tikblog_unsubscribe_plat.Base.Errors.{Result, ok, raised, Exn, Result-cases}
use tikblog_unsubscribe_plat.Analytics.Retry
use tikblog_unsubscribe_plat.Analytics.Retry.{Run, retry_from}
use tikblog_unsubscribe_plat.Analytics.Lake.{
  Lake, Spark, Store, Step, ◌>>◌, settled, transact, retried,
}

pub raised_ok : {A : Type 0} {e : Exn} {a : A} → raised e ≢ ok a
raised_ok h = cc

module _ {F W : Type 0} (spark : Spark F W) (merge_attempts : ℕ) where
  -- Other writers keep a property of the tables.
  abbrev pub OthersKeep : (Lake F → Type 0) → Type 0
  OthersKeep I = (w : W) (l : Lake F) → I l → I (spark.others w l)

  -- A step keeps `I`, and `J` holds if it returns.
  abbrev pub Ends : (Lake F → Type 0) → (Lake F → Type 0) → Result {0} Unit × Store F W → Type 0
  Ends I J (ok u, s) = I s.lake × J s.lake
  Ends I J (raised e, s) = I s.lake

  pub Ends-ok :
      (I J : Lake F → Type 0) (p : Result {0} Unit × Store F W) {u : Unit {0}}
      → Ends I J p
      → p.0 ≡ ok u
      → I p.1.lake × J p.1.lake
  Ends-ok I J (ok u, s) end h = end
  Ends-ok I J (raised e, s) end h = absurd (raised_ok h)

  pub Ends-kept :
      (I J : Lake F → Type 0) (p : Result {0} Unit × Store F W) → Ends I J p → I p.1.lake
  Ends-kept I J (ok u, s) end = end.0
  Ends-kept I J (raised e, s) end = end

  pub Ends-imp :
      (I J I' J' : Lake F → Type 0) (p : Result {0} Unit × Store F W)
      → ((l : Lake F) → I l → I' l)
      → ((l : Lake F) → J l → J' l)
      → Ends I J p
      → Ends I' J' p
  Ends-imp I J I' J' (ok u, s) weaken_I weaken_J end =
      (weaken_I s.lake end.0, weaken_J s.lake end.1)
  Ends-imp I J I' J' (raised e, s) weaken_I weaken_J end = weaken_I s.lake end

  module _ (I J : Lake F → Type 0) (keep : OthersKeep I) (change : Lake F → Lake F)
      (does : (l : Lake F) → I l → I (change l) × J (change l)) where
    transact-Ends : (s : Store F W) → I s.lake → Ends I J (transact spark merge_attempts change s)
    unfolding transact
    transact-Ends s h =
        let h' = keep s.world s.lake h in
        elim (Option-cases (spark.commit s.world).0) [
          | inl fine ↦ rw (fine, transact) (does (spark.others s.world s.lake) h')
          | inr (e, fails) ↦ rw (fails, transact) h'
        ]

    abbrev RunEnds : Result (Option (Unit {0})) × Run (Store F W) → Type 0
    RunEnds (ok none, run) = ⊥
    RunEnds (ok (some u), run) = I run.world.lake × J run.world.lake
    RunEnds (raised e, run) = I run.world.lake

    retry_from-RunEnds :
        (left attempt : ℕ) (run : Run (Store F W))
        → left + attempt ≡ merge_attempts
        → 0 < left
        → I run.world.lake
        → RunEnds (
            retry_from spark.contains
              (transact spark merge_attempts change)
              merge_attempts
              left
              attempt
              run)
    retry_from-RunEnds zero attempt run total more h = absurd (omega arith)
    retry_from-RunEnds (suc left) attempt run total more h =
        let operation = transact spark merge_attempts change in
        let end : Ends I J (operation run.world) = transact-Ends run.world h in
        elim (Result-cases (operation run.world).0) [
          | inl (u, returns) ↦
              rw
                (Retry.retry_from-ok spark.contains operation merge_attempts left attempt run u
                  returns)
                (Ends-ok I J (operation run.world) end returns)
          | inr (e, raises) ↦
              let kept : I (operation run.world).1.lake = Ends-kept I J (operation run.world) end in
              elim (Bool-cases (
                not (Retry.is_conflict spark.contains operation merge_attempts e)
                || attempt + 1 == merge_attempts)) [
                  | inl last ↦
                      rw
                        (Retry.retry_from-last spark.contains operation merge_attempts left attempt
                          run e raises last)
                        kept
                  | inr early ↦
                      let rounds : 0 < left = ground arith in
                      rw
                        (Retry.retry_from-again spark.contains operation merge_attempts left attempt
                          run e raises early)
                        (retry_from-RunEnds left (attempt + 1) _ (omega arith) rounds kept)
                ]
        ]

    settled-Ends :
        (p : Result (Option (Unit {0})) × Run (Store F W)) → RunEnds p → Ends I J (settled p)
    settled-Ends (ok none, run) end = absurd end
    settled-Ends (ok (some u), run) end = end
    settled-Ends (raised e, run) end = end

    -- A retried write keeps `I`, and if it returns, the change has been made to the tables as they
    -- stood after other writers had come first, so that `J` holds too.
    pub retried-Ends :
        (s : Store F W)
        → 0 < merge_attempts
        → I s.lake
        → Ends I J (retried spark merge_attempts change s)
    unfolding retried Retry.retry
    retried-Ends s some_attempt h = settled-Ends _ (
        retry_from-RunEnds merge_attempts 0
          (record { world = s; calls = 0; slept = []; raises = [] }) (omega arith) some_attempt h)

  -- One step after another.
  pub seq-Ends :
      (I J K : Lake F → Type 0) (m k : Step F W) (s : Store F W)
      → Ends I J (m s)
      → ((s' : Store F W) → I s'.lake → J s'.lake → Ends I K (k s'))
      → Ends I K ((m >> k) s)
  seq-Ends I J K m k s end next = elim (Result-cases (m s).0) [
    | inl (u, returns) ↦
        let both = Ends-ok I J (m s) end returns in rw (returns, ◌>>◌) (next (m s).1 both.0 both.1)
    | inr (e, raises) ↦ rw (raises, ◌>>◌) (Ends-kept I J (m s) end)
  ]
