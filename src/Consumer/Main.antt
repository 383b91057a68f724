-- ===== src/Consumer/Main.antt =====
-- services/unsubscribe-consumer/unsubscribe_consumer/main.py: `main`, over `messages` and `commit` of
-- libs/tikblog_kafka/consumer.py. The polls up to the shutdown request are a list.
pub mod Rounds
use tikblog_unsubscribe_plat.Base.{
  ℕ, ◌+◌, String, Bool, true, false, Option, none, some, List, [], ◌∷◌,
}
use tikblog_unsubscribe_plat.Base.Tests.{str_eq, if◌then◌else◌}
use tikblog_unsubscribe_plat.Base.Errors.{Result, ok, raised, Exn, exn, other_error}
use tikblog_unsubscribe_plat.Base.Floats.{Floats}
use tikblog_unsubscribe_plat.Contracts.Model.{UnsubscribeEvent}
use tikblog_unsubscribe_plat.Kafka.Message.{Bytes, Message}
use tikblog_unsubscribe_plat.Kafka.Dlq
use tikblog_unsubscribe_plat.Consumer.Process.{committed, Services, Settings, Process, Action, ◌>>◌}
use tikblog_unsubscribe_plat.Consumer.Deliver.{park, deliver}

-- What `poll` gives: nothing in time, a message with an error, or one without.
pub data Poll : Type 0 where
  nothing : Poll
  failed : String → Poll
  received : Message → Poll

-- `ConsumedRecord`
pub record ConsumedRecord : Type 0 where
  pub message : Message
  pub event : Option UnsubscribeEvent
  pub deserialization_error : Option String

-- `record.deserialization_error or "unknown"`
abbrev pub error_or_unknown : Option String → String
error_or_unknown none = "unknown"
error_or_unknown (some e) = if str_eq e "" then "unknown" else e

module _ {F W : Type 0} ⦃fl : Floats F⦄ (sv : Services W) (st : Settings F) where
  -- One round of `messages` for a message without an error, up to its `yield`.
  unfoldable pub consume : Message → Process F W → Result ConsumedRecord × Process F W
  consume m s =
      let s' = record s { received_count = s.received_count + 1 } in
      elim m.value [
        | none ↦ (raised (exn other_error "message without error() must have a value"), s')
        | some value ↦ elim (sv.from_bytes value s.world) [
          | ok e ↦ (ok (record { message = m; event = some e; deserialization_error = none }), s')
          | raised x ↦ (
            ok (record { message = m; event = none; deserialization_error = some x.message }),
            record s' { failed_count = s'.failed_count + 1 },
          )
        ]
      ]

  -- `UnsubscribeConsumer.commit`
  unfoldable pub commit : Message → Action F W
  commit m s =
      let (failure, w) = sv.commit m s.world in
      elim failure [
        | some e ↦ (raised e, record s { world = w })
        | none ↦ (
          ok tt,
          record s {
            world = w;
            processed_count = s.processed_count + 1;
            effects = committed m ∷ s.effects;
          },
        )
      ]

  -- The body of the loop of `main`
  unfoldable pub handle : ConsumedRecord → Action F W
  handle c = elim c.event [
    | none ↦
        park sv st c.message "deserialization_failed" (error_or_unknown c.deserialization_error) 0
        >> commit c.message
    | some e ↦ deliver sv st e c.message >> commit c.message
  ]

  unfoldable pub on_poll : Poll → Action F W
  unfolding consume handle
  on_poll nothing s = (ok tt, s)
  on_poll (failed e) s = (ok tt, s)
  on_poll (received m) s =
      let (r, s') = consume m s in elim r [ raised e ↦ (raised e, s') | ok c ↦ handle c s' ]

  -- The `for` loop of `main`: an exception ends it.
  unfoldable pub run : List Poll → Action F W
  unfolding on_poll
  run [] s = (ok tt, s)
  run (p ∷ ps) s =
      let (r, s') = on_poll p s in elim r [ raised e ↦ (raised e, s') | ok _ ↦ run ps s' ]

  -- `main` from the built clients: the loop, and the `finally` that closes the dead-letter producer.
  unfoldable pub main : List Poll → Action F W
  unfolding run
  main ps s =
      let (r, s') = run ps s in
      let (d, w) = Dlq.flush sv.broker s'.dlq s'.world in (r, record s' { dlq = d; world = w })
