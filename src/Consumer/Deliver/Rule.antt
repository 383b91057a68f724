-- ===== src/Consumer/Deliver/Rule.antt =====
-- The rule by which a property of the attempt loop is proved: one case for each way a round ends.
use tikblog_unsubscribe_plat.Base.{ℕ, zero, suc, ◌+◌, ◌≡◌, refl, ◌⊎◌, inl, inr, true, false}
use tikblog_unsubscribe_plat.Base.Tests.{◌==◌, Bool-cases}
use tikblog_unsubscribe_plat.Base.Errors.{Result, ok, raised, Exn, Result-cases}
use tikblog_unsubscribe_plat.Base.Floats.{Floats, py_min}
use tikblog_unsubscribe_plat.Contracts.Model.{UnsubscribeEvent}
use tikblog_unsubscribe_plat.Kafka.Message.{Message}
use tikblog_unsubscribe_plat.Consumer.Client.{UnsubscribeOutcome, interpret}
use tikblog_unsubscribe_plat.Consumer.Process.{Services, Settings, Process}
use tikblog_unsubscribe_plat.Consumer.Deliver.{
  Clause, clause_for, on_permanent, on_transient, uncaught, call, park, sleep, attempts_from,
}

Clause-cases : (c : Clause) → (c ≡ on_permanent) ⊎ (c ≡ on_transient) ⊎ (c ≡ uncaught)
Clause-cases on_permanent = inl refl
Clause-cases on_transient = inr (inl refl)
Clause-cases uncaught = inr (inr refl)

module _ {F W : Type 0} ⦃fl : Floats F⦄ (sv : Services W) (st : Settings F) where
  module _ (e : UnsubscribeEvent) (m : Message) where
    -- The invariant `I` speaks of the rounds left, the attempt's number, the next pause and the
    -- process; `Q` of how the loop ends.
    pub record LoopRule (I : ℕ → ℕ → F → Process F W → Type 0)
        (Q : Result (Unit {0}) × Process F W → Type 0) : Type 0 where
      pub no_round :
          (attempt : ℕ) (delay : F) (s : Process F W) → I zero attempt delay s → Q (ok tt, s)
      pub accepted :
          (n attempt : ℕ) (delay : F) (s : Process F W) (o : UnsubscribeOutcome)
          → I (suc n) attempt delay s
          → interpret (sv.post e s.world).0 ≡ ok o
          → Q (ok tt, (call sv st e s).1)
      pub rejected :
          (n attempt : ℕ) (delay : F) (s : Process F W) (x : Exn)
          → I (suc n) attempt delay s
          → interpret (sv.post e s.world).0 ≡ raised x
          → clause_for x.kind ≡ on_permanent
          → Q (park sv st m "permanent_rejection" x.message attempt (call sv st e s).1)
      pub exhausted :
          (n attempt : ℕ) (delay : F) (s : Process F W) (x : Exn)
          → I (suc n) attempt delay s
          → interpret (sv.post e s.world).0 ≡ raised x
          → clause_for x.kind ≡ on_transient
          → (attempt == st.max_attempts) ≡ true
          → Q (park sv st m "transient_exhausted" x.message attempt (call sv st e s).1)
      pub retried :
          (n attempt : ℕ) (delay : F) (s : Process F W) (x : Exn)
          → I (suc n) attempt delay s
          → interpret (sv.post e s.world).0 ≡ raised x
          → clause_for x.kind ≡ on_transient
          → (attempt == st.max_attempts) ≡ false
          → I n
              (attempt + 1)
              (py_min (fl.mul delay st.backoff_multiplier) st.backoff_max_seconds)
              (sleep sv st delay (call sv st e s).1)
      pub escaped :
          (n attempt : ℕ) (delay : F) (s : Process F W) (x : Exn)
          → I (suc n) attempt delay s
          → interpret (sv.post e s.world).0 ≡ raised x
          → clause_for x.kind ≡ uncaught
          → Q (raised x, (call sv st e s).1)

    pub attempts_rule :
        {I : ℕ → ℕ → F → Process F W → Type 0} {Q : Result (Unit {0}) × Process F W → Type 0}
        → LoopRule I Q
        → (n attempt : ℕ) (delay : F) (s : Process F W) → I n attempt delay s
        → Q (attempts_from sv st n attempt delay e m s)
    unfolding attempts_from call
    attempts_rule rule zero attempt delay s h = rule.no_round attempt delay s h
    attempts_rule rule (suc n) attempt delay s h =
        elim (Result-cases (interpret (sv.post e s.world).0)) [
          | inl (o, good) ↦ rw (good, attempts_from) (rule.accepted n attempt delay s o h good)
          | inr (x, bad) ↦ elim (Clause-cases (clause_for x.kind)) [
            | inl c ↦ rw (bad, c, attempts_from) (rule.rejected n attempt delay s x h bad c)
            | inr (inr c) ↦ rw (bad, c, attempts_from) (rule.escaped n attempt delay s x h bad c)
            | inr (inl c) ↦ elim (Bool-cases (attempt == st.max_attempts)) [
              | inl last ↦
                  rw (bad, c, last, attempts_from) (rule.exhausted n attempt delay s x h bad c last)
              | inr more ↦
                  rw (bad, c, more, attempts_from)
                    (attempts_rule rule n (attempt + 1) _ _
                      (rule.retried n attempt delay s x h bad c more))
            ]
          ]
        ]
