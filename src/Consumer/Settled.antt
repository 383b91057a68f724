-- ===== src/Consumer/Settled.antt =====
-- No message is committed before it has been accepted by UnsubscribeMe or handed to the dead-letter
-- producer.
use tikblog_unsubscribe_plat.Base.{
  ℕ, suc, ◌+◌, ◌≤◌, ◌≡◌, refl, inl, inr, String, some, List, [], ◌∷◌, arith,
}
use tikblog_unsubscribe_plat.Base.Tests.{Option-cases}
use tikblog_unsubscribe_plat.Base.Lists.{Any}
use tikblog_unsubscribe_plat.Base.Errors.{Result, ok, Result-cases}
use tikblog_unsubscribe_plat.Base.Floats.{Floats}
use tikblog_unsubscribe_plat.Contracts.Model.{UnsubscribeEvent}
use tikblog_unsubscribe_plat.Kafka.Message.{Bytes, Message}
use tikblog_unsubscribe_plat.Kafka.Dlq
use tikblog_unsubscribe_plat.Kafka.Dlq.{DlqRecord, dlq_record}
use tikblog_unsubscribe_plat.Consumer.Client.{UnsubscribeOutcome, interpret}
use tikblog_unsubscribe_plat.Consumer.Process.{
  Effect, posted, parked, slept, committed, Services, Settings, Process, Action, ◌>>◌,
}
use tikblog_unsubscribe_plat.Consumer.Deliver.{call, park, sleep, deliver}
use tikblog_unsubscribe_plat.Consumer.Deliver.Rule.{attempts_rule}
use tikblog_unsubscribe_plat.Consumer.Main.{
  Poll, nothing, failed, received, commit, on_poll, run, main,
}
use tikblog_unsubscribe_plat.Consumer.Main.Rounds.{
  on_poll-absent, on_poll-decoded, on_poll-undecodable,
}

-- A record is the copy of a message that `park` makes: its key and value, and its coordinates.
abbrev pub IsCopy : Message → DlqRecord → Type 0
IsCopy m x =
    (reason : String) × (error : String) × (attempts : ℕ) × (at : String) × (x
      ≡ dlq_record m reason error attempts at)

module _ {F W : Type 0} ⦃fl : Floats F⦄ (sv : Services W) (st : Settings F) where
  -- An effect settles a message: its event was posted and accepted, or its copy was parked.
  abbrev pub Settles : Message → Effect F → Type 0
  Settles m (posted e r) =
      (v : Bytes) × (o : UnsubscribeOutcome) × (m.value ≡ some v)
      × ((w : W) × (sv.from_bytes v w ≡ ok e))
      × (interpret r ≡ ok o)
  Settles m (parked x) = IsCopy m x
  Settles m (slept d) = ⊥
  Settles m (committed n) = ⊥

  -- Every commit in the trace has an earlier effect that settles its message.
  abbrev pub SettledCommits : List (Effect F) → Type 0
  SettledCommits [] = Unit
  SettledCommits (committed m ∷ es) = Any (Settles m) es × SettledCommits es
  SettledCommits (posted e r ∷ es) = SettledCommits es
  SettledCommits (parked x ∷ es) = SettledCommits es
  SettledCommits (slept d ∷ es) = SettledCommits es

  -- After a step that deals with one message: if it returned, the message is settled.
  abbrev Settling : Message → Result (Unit {0}) × Process F W → Type 0
  Settling m (r, s) = SettledCommits s.effects × (r ≡ ok tt → Any (Settles m) s.effects)

  park-Settling :
      (m : Message) (reason error : String) (attempts : ℕ) (s : Process F W)
      → SettledCommits s.effects
      → Settling m (park sv st m reason error attempts s)
  unfolding park Dlq.park
  park-Settling m reason error attempts s h =
      let x = dlq_record m reason error attempts (sv.broker.now s.world) in
      elim (Option-cases (sv.broker.produce x s.world).0) [
        | inl queued ↦
            rw (queued, park, Dlq.park)
              (h, λ _. inl (reason, error, attempts, sv.broker.now s.world, refl))
        | inr (failure, raises) ↦ rw (raises, park, Dlq.park) (h, λ e. cc)
      ]

  -- The rounds left always reach the last attempt, which parks the message.
  deliver-Settling :
      (e : UnsubscribeEvent) (m : Message) (v : Bytes) (w : W) (s : Process F W)
      → m.value ≡ some v
      → sv.from_bytes v w ≡ ok e
      → 1 ≤ st.max_attempts
      → SettledCommits s.effects
      → Settling m (deliver sv st e m s)
  unfolding deliver call sleep
  deliver-Settling e m v w s hv he some_attempt h =
      attempts_rule sv st e m
        {I = λ n attempt _ t.
          (n + attempt ≡ suc st.max_attempts) × (1 ≤ n) × SettledCommits t.effects}
        {Q = Settling m}
        (record {
          no_round = λ attempt delay t i. absurd (omega arith);
          accepted = λ n attempt delay t o i good. (i.2, λ _. inl (v, o, hv, (w, he), good));
          rejected = λ n attempt delay t x i bad c. park-Settling m _ _ _ _ i.2;
          exhausted = λ n attempt delay t x i bad c last. park-Settling m _ _ _ _ i.2;
          retried = λ n attempt delay t x i bad c more. (ground arith, ground arith, i.2);
          escaped = λ n attempt delay t x i bad c. (i.2, λ e'. cc);
        })
        st.max_attempts 1 st.backoff_initial_seconds s (omega arith, some_attempt, h)

  -- Once a step has settled its message, the commit that follows keeps the trace in order.
  then_commit :
      (m : Message) (a : Action F W) (s : Process F W)
      → Settling m (a s)
      → SettledCommits ((a >> commit sv st m) s).1.effects
  unfolding commit
  then_commit m a s h = elim (Result-cases (a s).0) [
    | inr (x, failure) ↦ rw (failure, ◌>>◌) h.0
    | inl (_, returned) ↦ elim (Option-cases (sv.commit m (a s).1.world).0) [
      | inl fine ↦ rw (returned, fine, ◌>>◌, commit) (h.1 (returned), h.0)
      | inr (x, raises) ↦ rw (returned, raises, ◌>>◌, commit) h.0
    ]
  ]

  on_poll-SettledCommits :
      (p : Poll) (s : Process F W)
      → 1 ≤ st.max_attempts
      → SettledCommits s.effects
      → SettledCommits (on_poll sv st p s).1.effects
  unfolding on_poll
  on_poll-SettledCommits nothing s some_attempt h = h
  on_poll-SettledCommits (failed e) s some_attempt h = h
  on_poll-SettledCommits (received m) s some_attempt h = elim (Option-cases m.value) [
    | inl absent ↦ rw (on_poll-absent sv st m s absent) h
    | inr (v, present) ↦ elim (Result-cases (sv.from_bytes v s.world)) [
      | inl (e, decoded) ↦ rw (on_poll-decoded sv st m v e s present decoded) (
          then_commit m (deliver sv st e m) _
            (deliver-Settling e m v s.world _ present decoded some_attempt h))
      | inr (x, failure) ↦
          rw (on_poll-undecodable sv st m v x s present failure)
            (then_commit m (park sv st m _ _ 0) _ (park-Settling m _ _ 0 _ h))
    ]
  ]

  run-SettledCommits :
      (ps : List Poll) (s : Process F W)
      → 1 ≤ st.max_attempts
      → SettledCommits s.effects
      → SettledCommits (run sv st ps s).1.effects
  unfolding run
  run-SettledCommits [] s some_attempt h = h
  run-SettledCommits (p ∷ ps) s some_attempt h =
      let h' : SettledCommits (on_poll sv st p s).1.effects =
        on_poll-SettledCommits p s some_attempt h in
      elim (Result-cases (on_poll sv st p s).0) [
        | inl (_, returned) ↦ rw (returned, run) (run-SettledCommits ps _ some_attempt h')
        | inr (x, failure) ↦ rw (failure, run) h'
      ]

  -- Whatever the services and the polls do, and whether `main` returns or an exception ends it: every
  -- message that it commits was, before that, accepted by UnsubscribeMe or copied to the dead-letter
  -- producer, if at least one attempt is configured.
  pub main-SettledCommits :
      (ps : List Poll) (s : Process F W)
      → 1 ≤ st.max_attempts
      → SettledCommits s.effects
      → SettledCommits (main sv st ps s).1.effects
  unfolding main
  main-SettledCommits ps s some_attempt h = run-SettledCommits ps s some_attempt h
