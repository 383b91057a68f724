-- ===== src/Consumer/Attempts.antt =====
-- How often `deliver` calls UnsubscribeMe, and how long it pauses between the calls.
use tikblog_unsubscribe_plat.Base.{
  ℕ, suc, ◌+◌, ◌≤◌, ◌≡◌, refl, ap, ◌⊎◌, inl, inr, String, Bool, true, false, List, [], ◌∷◌, ◌++◌,
  arith,
}
use tikblog_unsubscribe_plat.Base.Tests.{Bool-cases, Option-cases}
use tikblog_unsubscribe_plat.Base.Lists.{All, count, length}
use tikblog_unsubscribe_plat.Base.Errors.{ok, raised, Exn, transient_error}
use tikblog_unsubscribe_plat.Base.Floats.{Floats, py_min}
use tikblog_unsubscribe_plat.Contracts.Model.{UnsubscribeEvent}
use tikblog_unsubscribe_plat.Kafka.Message.{Message}
use tikblog_unsubscribe_plat.Kafka.Dlq
use tikblog_unsubscribe_plat.Kafka.Dlq.{DlqRecord, dlq_record}
use tikblog_unsubscribe_plat.Consumer.Client.{interpret}
use tikblog_unsubscribe_plat.Consumer.Process.{
  Effect, posted, parked, slept, committed, Services, Settings, Process,
}
use tikblog_unsubscribe_plat.Consumer.Deliver.{call, park, sleep, deliver}
use tikblog_unsubscribe_plat.Consumer.Deliver.Rule.{attempts_rule}

abbrev pub is_post : {F : Type 0} → Effect F → Bool
is_post (posted _ _) = true
is_post (parked _) = false
is_post (slept _) = false
is_post (committed _) = false

abbrev pub posts : {F W : Type 0} → Process F W → ℕ
posts s = count is_post s.effects

-- The pauses among the effects, the newest first.
abbrev pub pauses : {F : Type 0} → List (Effect F) → List F
pauses [] = []
pauses (slept d ∷ es) = d ∷ pauses es
pauses (posted _ _ ∷ es) = pauses es
pauses (parked _ ∷ es) = pauses es
pauses (committed _ ∷ es) = pauses es

module _ {F W : Type 0} ⦃fl : Floats F⦄ (sv : Services W) (st : Settings F) where
  -- What parking adds to the effects: nothing if it raises, otherwise one record.
  park-effects :
      (m : Message) (reason error : String) (attempts : ℕ) (s : Process F W)
      → ((park sv st m reason error attempts s).1.effects ≡ s.effects)
        ⊎ ((park sv st m reason error attempts s).1.effects
            ≡ parked (dlq_record m reason error attempts (sv.broker.now s.world)) ∷ s.effects)
  unfolding park Dlq.park
  park-effects m reason error attempts s =
      elim (Option-cases
        (sv.broker.produce (dlq_record m reason error attempts (sv.broker.now s.world))
          s.world).0) [
            | inl queued ↦ inr (rw (queued, park, Dlq.park))
            | inr (x, raises) ↦ inl (rw (raises, park, Dlq.park))
          ]

  park-posts :
      (m : Message) (reason error : String) (attempts : ℕ) (s : Process F W)
      → posts (park sv st m reason error attempts s).1 ≡ posts s
  unfolding count
  park-posts m reason error attempts s = elim (park-effects m reason error attempts s) [
    | inl same ↦ rw same
    | inr more ↦ rw more (omega arith)
  ]

  park-pauses :
      (m : Message) (reason error : String) (attempts : ℕ) (s : Process F W)
      → pauses (park sv st m reason error attempts s).1.effects ≡ pauses s.effects
  park-pauses m reason error attempts s = elim (park-effects m reason error attempts s) [
    | inl same ↦ rw same
    | inr more ↦ rw more
  ]

  -- One delivery calls UnsubscribeMe at least once and at most `max_attempts` times, if at least one
  -- attempt is configured.
  pub deliver-posts :
      (e : UnsubscribeEvent) (m : Message) (s : Process F W)
      → 1 ≤ st.max_attempts
      → (posts s + 1 ≤ posts (deliver sv st e m s).1)
        × (posts (deliver sv st e m s).1 ≤ posts s + st.max_attempts)
  unfolding deliver call sleep count
  deliver-posts e m s some_attempt =
      attempts_rule sv st e m
        {I = λ n attempt _ t. (posts t + n ≡ posts s + st.max_attempts) × (n ≤ st.max_attempts)}
        {Q = λ p. (posts s + 1 ≤ posts p.1) × (posts p.1 ≤ posts s + st.max_attempts)}
        (record {
          no_round = λ attempt delay t i. omega arith;
          accepted = λ n attempt delay t o i good. omega arith;
          rejected = λ n attempt delay t x i bad c.
              omega (arith, park-posts m "permanent_rejection" x.message attempt);
          exhausted = λ n attempt delay t x i bad c last.
              omega (arith, park-posts m "transient_exhausted" x.message attempt);
          retried = λ n attempt delay t x i bad c more. omega arith;
          escaped = λ n attempt delay t x i bad c. omega arith;
        })
        st.max_attempts 1 st.backoff_initial_seconds s (omega arith)

  -- A pause does not exceed the configured maximum.
  abbrev pub WithinMax : F → Type 0
  WithinMax d = fl.lt st.backoff_max_seconds d ≡ false

  -- The pauses since a process: none, or the initial one and, after it, pauses within the maximum.
  abbrev pub Paced : List F → List F → Type 0
  Paced before after =
      (after ≡ before)
      ⊎ ((later : List F) × (after ≡ later ++ st.backoff_initial_seconds ∷ before)
          × All WithinMax later)

  py_min-WithinMax : (d : F) → WithinMax (py_min d st.backoff_max_seconds)
  unfolding py_min
  py_min-WithinMax d = elim (Bool-cases (fl.lt st.backoff_max_seconds d)) [
    | inl over ↦ rw (over) (fl.lt_irrefl st.backoff_max_seconds)
    | inr within ↦ rw within within
  ]

  -- The next pause is the initial one until a pause has been made, and within the maximum after it.
  abbrev NextPause : List F → F → List F → Type 0
  NextPause before delay after =
      ((after ≡ before) × (delay ≡ st.backoff_initial_seconds))
      ⊎ ((later : List F) × (after ≡ later ++ st.backoff_initial_seconds ∷ before)
          × All WithinMax later
          × WithinMax delay)

  NextPause-Paced :
      {before after : List F} {delay : F} → NextPause before delay after → Paced before after
  NextPause-Paced (inl (same, _)) = inl same
  NextPause-Paced (inr (later, e, within, _)) = inr (later, e, within)

  NextPause-sleep :
      {before after : List F} {delay : F} (next : F)
      → WithinMax next
      → NextPause before delay after
      → NextPause before next (delay ∷ after)
  NextPause-sleep next ok_next (inl (same, first)) = inr ([], rw (same, first), tt, ok_next)
  NextPause-sleep {delay} next ok_next (inr (later, e, within, ok_delay)) =
      inr (delay ∷ later, ap (λ l. delay ∷ l) e, (ok_delay, within), ok_next)

  -- The pauses of one delivery are the initial one, if there is any, and then pauses that do not
  -- exceed the configured maximum.
  pub deliver-Paced :
      (e : UnsubscribeEvent) (m : Message) (s : Process F W)
      → Paced (pauses s.effects) (pauses (deliver sv st e m s).1.effects)
  unfolding deliver call sleep
  deliver-Paced e m s =
      attempts_rule sv st e m
        {I = λ n attempt delay t. NextPause (pauses s.effects) delay (pauses t.effects)}
        {Q = λ p. Paced (pauses s.effects) (pauses p.1.effects)}
        (record {
          no_round = λ attempt delay t i. NextPause-Paced i;
          accepted = λ n attempt delay t o i good. NextPause-Paced i;
          rejected = λ n attempt delay t x i bad c. rw park-pauses (NextPause-Paced i);
          exhausted = λ n attempt delay t x i bad c last. rw park-pauses (NextPause-Paced i);
          retried = λ n attempt delay t x i bad c more.
              NextPause-sleep _ (py_min-WithinMax (fl.mul delay st.backoff_multiplier)) i;
          escaped = λ n attempt delay t x i bad c. NextPause-Paced i;
        })
        st.max_attempts 1 st.backoff_initial_seconds s (inl (refl, refl))

  -- Every request that is made fails in a way that is worth a retry.
  abbrev pub AlwaysTransient : UnsubscribeEvent → Type 0
  AlwaysTransient e =
      (w : W) → (x : Exn) × (interpret (sv.post e w).0 ≡ raised x) × (x.kind ≡ transient_error)

  -- The newest effect is a record of the message, parked after the last attempt.
  abbrev pub EndsParked : Message → List (Effect F) → Type 0
  EndsParked m es =
      (error : String) × (at : String) × (rest : List (Effect F)) × (es
        ≡ parked (dlq_record m "transient_exhausted" error st.max_attempts at) ∷ rest)

  park-EndsParked :
      (m : Message) (error : String) (attempt : ℕ) (s : Process F W)
      → attempt ≡ st.max_attempts
      → (park sv st m "transient_exhausted" error attempt s).0 ≡ ok tt
      → EndsParked m (park sv st m "transient_exhausted" error attempt s).1.effects
  unfolding park Dlq.park
  park-EndsParked m error attempt s last returned =
      let x = dlq_record m "transient_exhausted" error attempt (sv.broker.now s.world) in
      elim (Option-cases (sv.broker.produce x s.world).0) [
        | inl queued ↦
            (error, sv.broker.now s.world, s.effects, rw (queued, park, Dlq.park, ← last))
        | inr (y, raises) ↦ ground (arith, raises, returned)
      ]

  exhausted_as :
      (e : UnsubscribeEvent) (m : Message) (s : Process F W)
      → 1 ≤ st.max_attempts
      → AlwaysTransient e
      → let (r, s') = deliver sv st e m s in
        (posts s' ≡ posts s + st.max_attempts)
        × (length (pauses s'.effects) + 1 ≡ length (pauses s.effects) + st.max_attempts)
        × (r ≡ ok tt → EndsParked m s'.effects)
  unfolding deliver call sleep count
  exhausted_as e m s some_attempt always =
      attempts_rule sv st e m
        {I = λ n attempt _ t.
          (posts t + n ≡ posts s + st.max_attempts)
          × (length (pauses t.effects) + n ≡ length (pauses s.effects) + st.max_attempts)
          × (n + attempt ≡ suc st.max_attempts)
          × (1 ≤ n)}
        {Q = λ p.
          (posts p.1 ≡ posts s + st.max_attempts)
          × (length (pauses p.1.effects) + 1 ≡ length (pauses s.effects) + st.max_attempts)
          × (p.0 ≡ ok tt → EndsParked m p.1.effects)}
        (record {
          no_round = λ attempt delay t i. absurd (omega arith);
          accepted = λ n attempt delay t o i good. cc (good, (always t.world).1);
          rejected = λ n attempt delay t x i bad c. ground (arith, always t.world);
          exhausted = λ n attempt delay t x i bad c last.
              let reached : attempt ≡ st.max_attempts = ground arith in
              (
                omega (arith, park-posts m "transient_exhausted" x.message attempt),
                rw park-pauses (omega arith),
                park-EndsParked m x.message attempt _ reached,
              );
          retried = λ n attempt delay t x i bad c more.
              (omega arith, omega arith, omega arith, ground arith);
          escaped = λ n attempt delay t x i bad c. ground (arith, always t.world);
        })
        st.max_attempts 1 st.backoff_initial_seconds s
        (omega arith, omega arith, omega arith, some_attempt)

  -- When every request fails transiently, a delivery that returns has made exactly `max_attempts`
  -- requests, paused between them, and ended by parking the message with the number of attempts.
  pub deliver_exhausts :
      (e : UnsubscribeEvent) (m : Message) (s : Process F W)
      → 1 ≤ st.max_attempts
      → AlwaysTransient e
      → (deliver sv st e m s).0 ≡ ok tt
      → let s' = (deliver sv st e m s).1 in
        (posts s' ≡ posts s + st.max_attempts)
        × (length (pauses s'.effects) + 1 ≡ length (pauses s.effects) + st.max_attempts)
        × EndsParked m s'.effects
  deliver_exhausts e m s some_attempt always returned =
      let (made, paused, parks) = exhausted_as e m s some_attempt always in
      (made, paused, parks returned)
