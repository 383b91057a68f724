-- ===== src/Kafka/Dlq.antt =====
-- libs/tikblog_kafka/dlq.py: `DeadLetterProducer`. The broker decides what becomes of each message
-- during a flush; `confirmed` records which ones it has acknowledged, the newest first.
use tikblog_unsubscribe_plat.Base.{ℕ, String, ◌+◌, Option, none, some, List, [], ◌∷◌, ◌++◌}
use tikblog_unsubscribe_plat.Base.Errors.{Result, ok, raised, Exn}
use tikblog_unsubscribe_plat.Base.Texts.{decimal, take_chars}
use tikblog_unsubscribe_plat.Kafka.Message.{Bytes, Message}

-- What `produce` is given: the original key and value, and the headers.
pub record DlqRecord : Type 0 where
  pub key : Option Bytes
  pub value : Option Bytes
  pub headers : List (String × String)

-- The fate of one queued message during a flush: acknowledged, refused with an error, or neither
-- before the timeout.
pub data Delivery : Type 0 where
  acknowledged : Delivery
  refused : String → Delivery
  unfinished : Delivery

-- The client library and the brokers behind it, over the state of the outside world.
pub record Broker (W : Type 0) : Type 0 where
  -- The exception of a call of `produce`, if it raises.
  pub produce : DlqRecord → W → Option Exn × W
  pub deliver : DlqRecord → W → Delivery × W
  -- `datetime.now(tz=UTC).isoformat()`
  pub now : W → String

pub record Dlq : Type 0 where
  pub queue : List DlqRecord
  pub confirmed : List DlqRecord
  pub sent_count : ℕ
  pub failed_count : ℕ

-- The headers of a parked message; a header's bytes are written as the text they encode.
unfoldable pub park_headers : Message → String → String → ℕ → String → List (String × String)
park_headers m reason error attempts failed_at =
    ("dlq_reason", reason)
    ∷ ("dlq_error", take_chars 500 error)
    ∷ ("dlq_attempts", decimal attempts)
    ∷ ("dlq_failed_at", failed_at)
    ∷ ("source_topic", m.topic)
    ∷ ("source_partition", decimal m.partition)
    ∷ ("source_offset", decimal m.offset)
    ∷ []

unfoldable pub dlq_record : Message → String → String → ℕ → String → DlqRecord
dlq_record m reason error attempts failed_at = record {
  key = m.key;
  value = m.value;
  headers = park_headers m reason error attempts failed_at;
}

-- `_on_delivery`, which the client calls for a message that is finished; others stay in its queue.
unfoldable pub on_delivery : DlqRecord → Delivery → Dlq → Dlq
on_delivery r acknowledged d = record d {
  confirmed = r ∷ d.confirmed;
  sent_count = d.sent_count + 1;
}
on_delivery r (refused e) d = record d { failed_count = d.failed_count + 1 }
on_delivery r unfinished d = record d { queue = d.queue ++ r ∷ [] }

module _ {W : Type 0} (broker : Broker W) where
  unfoldable pub flush_each : List DlqRecord → Dlq → W → Dlq × W
  flush_each [] d w = (d, w)
  flush_each (r ∷ rs) d w =
      let (fate, w') = broker.deliver r w in flush_each rs (on_delivery r fate d) w'

  -- `self._producer.flush(timeout)`; its result, the number still queued, is not looked at.
  unfoldable pub flush : Dlq → W → Dlq × W
  unfolding flush_each
  flush d w = flush_each d.queue (record d { queue = [] }) w

  -- `park`: queue the record, then flush.
  unfoldable pub park : Message → String → String → ℕ → Dlq → W → Result DlqRecord × Dlq × W
  park m reason error attempts d w =
      let r = dlq_record m reason error attempts (broker.now w) in
      let (failure, w') = broker.produce r w in
      elim failure [
        | some e ↦ (raised e, d, w')
        | none ↦
            let (d', w'') = flush (record d { queue = d.queue ++ r ∷ [] }) w' in (ok r, d', w'')
      ]
