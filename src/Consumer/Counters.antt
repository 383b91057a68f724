-- ===== src/Consumer/Counters.antt =====
-- The counters that `main` logs when it stops.
use tikblog_unsubscribe_plat.Base.{
  ℕ, String, ◌+◌, ◌≡◌, refl, inl, inr, Bool, true, false, List, [], ◌∷◌, arith,
}
use tikblog_unsubscribe_plat.Base.Tests.{Option-cases}
use tikblog_unsubscribe_plat.Base.Lists.{count}
use tikblog_unsubscribe_plat.Base.Errors.{Result, ok, raised, Result-cases}
use tikblog_unsubscribe_plat.Base.Floats.{Floats}
use tikblog_unsubscribe_plat.Contracts.Model.{UnsubscribeEvent}
use tikblog_unsubscribe_plat.Kafka.Message.{Message}
use tikblog_unsubscribe_plat.Kafka.Dlq
use tikblog_unsubscribe_plat.Consumer.Process.{
  Effect, posted, parked, slept, committed, Services, Settings, Process, Action, ◌>>◌,
}
use tikblog_unsubscribe_plat.Consumer.Deliver.{call, park, sleep, deliver}
use tikblog_unsubscribe_plat.Consumer.Deliver.Rule.{attempts_rule}
use tikblog_unsubscribe_plat.Consumer.Main.{
  Poll, nothing, failed, received, commit, on_poll, run, main,
}
use tikblog_unsubscribe_plat.Consumer.Main.Rounds.{
  on_poll-absent, on_poll-decoded, on_poll-undecodable,
}

abbrev pub is_commit : {F : Type 0} → Effect F → Bool
is_commit (posted _ _) = false
is_commit (parked _) = false
is_commit (slept _) = false
is_commit (committed _) = true

abbrev pub commits : {F W : Type 0} → Process F W → ℕ
commits s = count is_commit s.effects

module _ {F W : Type 0} ⦃fl : Floats F⦄ (sv : Services W) (st : Settings F) where
  -- A step that commits nothing and counts nothing.
  abbrev Quiet : Process F W → Process F W → Type 0
  Quiet s t =
      (t.received_count ≡ s.received_count)
      × (t.processed_count ≡ s.processed_count)
      × (commits t ≡ commits s)

  park-Quiet :
      (m : Message) (reason error : String) (attempts : ℕ) (s : Process F W)
      → Quiet s (park sv st m reason error attempts s).1
  unfolding park Dlq.park count
  park-Quiet m reason error attempts s = ground arith

  deliver-Quiet :
      (e : UnsubscribeEvent) (m : Message) (s : Process F W) → Quiet s (deliver sv st e m s).1
  unfolding deliver call sleep count
  deliver-Quiet e m s =
      attempts_rule sv st e m {I = λ n attempt _ t. Quiet s t} {Q = λ p. Quiet s p.1}
        (record {
          no_round = λ attempt delay t i. i;
          accepted = λ n attempt delay t o i good. omega arith;
          rejected = λ n attempt delay t x i bad c.
              omega (arith, park-Quiet m "permanent_rejection" x.message attempt);
          exhausted = λ n attempt delay t x i bad c last.
              omega (arith, park-Quiet m "transient_exhausted" x.message attempt);
          retried = λ n attempt delay t x i bad c more. omega arith;
          escaped = λ n attempt delay t x i bad c. omega arith;
        })
        st.max_attempts 1 st.backoff_initial_seconds s (refl, refl, refl)

  -- One more received; one more processed, and committed, if the step returned.
  abbrev pub Counted : Process F W → Result (Unit {0}) → Process F W → Type 0
  Counted s (ok _) t =
      (t.received_count + s.processed_count ≡ s.received_count + t.processed_count)
      × (t.processed_count + commits s ≡ s.processed_count + commits t)
  Counted s (raised _) t =
      (t.received_count + s.processed_count ≡ s.received_count + t.processed_count + 1)
      × (t.processed_count + commits s ≡ s.processed_count + commits t)

  then_commit-Counted :
      (m : Message) (a : Action F W) (s t : Process F W)
      → t.received_count ≡ s.received_count + 1
      → t.processed_count ≡ s.processed_count
      → commits t ≡ commits s
      → Quiet t (a t).1
      → let (r, u) = (a >> commit sv st m) t in Counted s r u
  unfolding commit count
  then_commit-Counted m a s t hr hp hc quiet = elim (Result-cases (a t).0) [
    | inr (x, failure) ↦ rw (failure, ◌>>◌) (omega arith)
    | inl (_, returned) ↦ elim (Option-cases (sv.commit m (a t).1.world).0) [
      | inl fine ↦ rw (returned, fine, ◌>>◌, commit) (omega arith)
      | inr (x, raises) ↦ rw (returned, raises, ◌>>◌, commit) (omega arith)
    ]
  ]

  on_poll-Counted : (p : Poll) (s : Process F W) → let (r, t) = on_poll sv st p s in Counted s r t
  unfolding on_poll
  on_poll-Counted nothing s = (refl, refl)
  on_poll-Counted (failed e) s = (refl, refl)
  on_poll-Counted (received m) s = elim (Option-cases m.value) [
    | inl absent ↦ rw (on_poll-absent sv st m s absent) (omega arith)
    | inr (v, present) ↦ elim (Result-cases (sv.from_bytes v s.world)) [
      | inl (e, decoded) ↦
          rw (on_poll-decoded sv st m v e s present decoded)
            (then_commit-Counted m (deliver sv st e m) s _ refl refl refl (deliver-Quiet e m _))
      | inr (x, failure) ↦
          rw (on_poll-undecodable sv st m v x s present failure)
            (then_commit-Counted m (park sv st m _ _ 0) s _ refl refl refl (park-Quiet m _ _ 0 _))
    ]
  ]

  Counted-trans :
      (s t u : Process F W) (r : Result (Unit {0}))
      → Counted s (ok tt) t
      → Counted t r u
      → Counted s r u
  Counted-trans s t u (ok _) h k = omega arith
  Counted-trans s t u (raised _) h k = omega arith

  run-Counted : (ps : List Poll) (s : Process F W) → let (r, t) = run sv st ps s in Counted s r t
  unfolding run
  run-Counted [] s = (refl, refl)
  run-Counted (p ∷ ps) s =
      let t = (on_poll sv st p s).1 in
      let one = on_poll-Counted p s in
      elim (Result-cases (on_poll sv st p s).0) [
        | inl (_, returned) ↦
            rw (returned, run)
              (Counted-trans s t (run sv st ps t).1 (run sv st ps t).0 (rw returned at one)
                (run-Counted ps t))
        | inr (x, failure) ↦ rw (failure, run) (rw failure at one)
      ]

  -- As many messages are counted as processed as are committed; and at the end of `main` all that are
  -- received are processed, except that one is missing when an exception ended it.
  pub main-Counted :
      (ps : List Poll) (s : Process F W) → let (r, t) = main sv st ps s in Counted s r t
  unfolding main
  main-Counted ps s = go (run sv st ps s).0 (run-Counted ps s)
    where
      go :
          (r : Result (Unit {0})) → Counted s r (run sv st ps s).1 → Counted s r (main sv st ps s).1
      go (ok _) h = h
      go (raised _) h = h
