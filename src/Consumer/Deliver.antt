-- ===== src/Consumer/Deliver.antt =====
-- services/unsubscribe-consumer/unsubscribe_consumer/main.py: `deliver`.
pub mod Rule
use tikblog_unsubscribe_plat.Base.{
  ℕ, zero, suc, ◌+◌, String, Bool, true, false, Option, none, some, ◌∷◌,
}
use tikblog_unsubscribe_plat.Base.Tests.{◌==◌}
use tikblog_unsubscribe_plat.Base.Errors.{
  Result, ok, raised, Exn, ExnKind, permanent_rejection, transient_error,
}
use tikblog_unsubscribe_plat.Base.Floats.{Floats, py_min}
use tikblog_unsubscribe_plat.Contracts.Model.{UnsubscribeEvent}
use tikblog_unsubscribe_plat.Kafka.Message.{Message}
use tikblog_unsubscribe_plat.Kafka.Dlq
use tikblog_unsubscribe_plat.Kafka.Dlq.{DlqRecord}
use tikblog_unsubscribe_plat.Consumer.Client.{UnsubscribeOutcome, interpret}
use tikblog_unsubscribe_plat.Consumer.Process.{
  posted, parked, slept, Services, Settings, Process, Action,
}

-- The `except` clause that takes an exception.
pub data Clause : Type 0 where
  on_permanent : Clause
  on_transient : Clause
  uncaught : Clause

abbrev pub clause_for : ExnKind → Clause
clause_for permanent_rejection = on_permanent
clause_for transient_error = on_transient
clause_for _ = uncaught

module _ {F W : Type 0} ⦃fl : Floats F⦄ (sv : Services W) (st : Settings F) where
  -- `client.unsubscribe(event)`
  unfoldable pub call : UnsubscribeEvent → Process F W → Result UnsubscribeOutcome × Process F W
  call e s =
      let (r, w) = sv.post e s.world in
      (interpret r, record s { world = w; effects = posted e r ∷ s.effects })

  -- `dlq.park(message, reason=…, error=…, attempts=…)`
  unfoldable pub park : Message → String → String → ℕ → Action F W
  park m reason error attempts s =
      let (r, d, w) = Dlq.park sv.broker m reason error attempts s.dlq s.world in
      elim r [
        | raised e ↦ (raised e, record s { dlq = d; world = w })
        | ok x ↦ (ok tt, record s { dlq = d; world = w; effects = parked x ∷ s.effects })
      ]

  -- `time.sleep(delay)`
  unfoldable pub sleep : F → Process F W → Process F W
  sleep delay s = record s { effects = slept delay ∷ s.effects }

  -- The rounds of `for attempt in range(1, max_attempts + 1)` that are left, from `attempt`.
  unfoldable pub attempts_from : ℕ → ℕ → F → UnsubscribeEvent → Message → Action F W
  attempts_from zero attempt delay e m s = (ok tt, s)
  attempts_from (suc n) attempt delay e m s =
      let (r, s') = call e s in
      elim r [
        | ok _ ↦ (ok tt, s')
        | raised x ↦ elim (clause_for x.kind) [
          | on_permanent ↦ park m "permanent_rejection" x.message attempt s'
          | on_transient ↦ elim (attempt == st.max_attempts) [
            | true ↦ park m "transient_exhausted" x.message attempt s'
            | false ↦
                attempts_from n (attempt + 1)
                  (py_min (fl.mul delay st.backoff_multiplier) st.backoff_max_seconds) e m
                  (sleep delay s')
          ]
          | uncaught ↦ (raised x, s')
        ]
      ]

  -- `deliver`
  unfoldable pub deliver : UnsubscribeEvent → Message → Action F W
  unfolding attempts_from
  deliver e m = attempts_from st.max_attempts 1 st.backoff_initial_seconds e m
