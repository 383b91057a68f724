-- ===== src/Kafka/Producer.antt =====
-- libs/tikblog_kafka/producer.py: `UnsubscribeProducer`, and the loop of
-- services/event-producers/event_producers/main.py. Times are counted in whole ticks of the clock.
pub mod Laws
pub mod Sends
pub mod Terminates
use tikblog_unsubscribe_plat.Base.{
  ℕ, zero, suc, String, Bool, ◌||◌, ◌+◌, ◌-◌, min, Option, none, some, List, [], ◌∷◌,
}
use tikblog_unsubscribe_plat.Base.Tests.{ltb, leb, str_eq, if◌then◌else◌}
use tikblog_unsubscribe_plat.Base.Errors.{Result, ok, raised, Exn, ExnKind, buffer_error}
use tikblog_unsubscribe_plat.Contracts.Model.{UnsubscribeEvent}
use tikblog_unsubscribe_plat.Contracts.Avro.{message_key}
use tikblog_unsubscribe_plat.Kafka.Message.{Bytes}

-- A call of `produce`: it queues the message, raises BufferError, or raises something else.
pub data Produced : Type 0 where
  queued : Produced
  queue_full : Exn → Produced
  failed : Exn → Produced

-- The reply for one message: None for a message that Kafka has saved, or the error.
abbrev pub Report : Type 0
Report = Option String

-- The client library, the serializer and the clock, over the state `W` of the outside world.
pub record Client (W : Type 0) : Type 0 where
  pub to_bytes : UnsubscribeEvent → Result Bytes
  pub produce : String → Bytes → W → Produced × W
  -- `poll(timeout)`: the replies whose callbacks it runs.
  pub poll : ℕ → W → List Report × W
  -- `flush(timeout)`: the replies, and the number of messages still in the queue.
  pub flush : ℕ → W → List Report × ℕ × W
  -- `time.monotonic()`
  pub monotonic : W → ℕ

pub record ProducerConfig : Type 0 where
  -- The ticks of one second.
  pub second : ℕ
  pub queue_full_timeout : ℕ
  pub flush_timeout : ℕ

pub record UnsubscribeProducer (W : Type 0) : Type 0 where
  pub sent_count : ℕ
  pub delivered_count : ℕ
  pub failed_count : ℕ
  pub world : W

-- `_report_delivery`
unfoldable pub report_delivery :
    {W : Type 0} → Report → UnsubscribeProducer W → UnsubscribeProducer W
report_delivery none p = record p { delivered_count = p.delivered_count + 1 }
report_delivery (some e) p = record p { failed_count = p.failed_count + 1 }

unfoldable pub report_all :
    {W : Type 0} → List Report → UnsubscribeProducer W → UnsubscribeProducer W
unfolding report_delivery
report_all [] p = p
report_all (r ∷ rs) p = report_all rs (report_delivery r p)

module _ {W : Type 0} (client : Client W) (cfg : ProducerConfig) where
  -- `self._producer.poll(timeout)`, with its callbacks.
  unfoldable pub serve : ℕ → UnsubscribeProducer W → UnsubscribeProducer W
  unfolding report_all
  serve timeout p =
      let (reports, w) = client.poll timeout p.world in report_all reports (record p { world = w })

  unfoldable pub poll : UnsubscribeProducer W → UnsubscribeProducer W
  unfolding serve
  poll p = serve 0 p

  unfoldable pub flush : UnsubscribeProducer W → ℕ × UnsubscribeProducer W
  unfolding report_all
  flush p =
      let (reports, still_queued, w) = client.flush cfg.flush_timeout p.world in
      (still_queued, report_all reports (record p { world = w }))

  -- `_enqueue` after the deadline is set, with fuel for the turns of its loop.
  unfoldable pub enqueue_until :
      ℕ
      → ℕ
      → String
      → Bytes
      → UnsubscribeProducer W
      → Option (Result {0} Unit × UnsubscribeProducer W)
  unfolding serve poll
  enqueue_until zero deadline key payload p = none
  enqueue_until (suc fuel) deadline key payload p =
      let (outcome, w) = client.produce key payload p.world in
      let p1 : UnsubscribeProducer W = record p { world = w } in
      let remaining = deadline - client.monotonic w in
      let waited = serve (min cfg.second remaining) p1 in
      let again = enqueue_until fuel deadline key payload waited in
      elim outcome [
        | queued ↦ some (ok tt, poll (record p1 { sent_count = p1.sent_count + 1 }))
        | queue_full e ↦
            if leb remaining 0
            then some (raised e, record p1 { failed_count = p1.failed_count + 1 })
            else again
        | failed e ↦ some (raised e, p1)
      ]

  unfoldable pub enqueue :
      ℕ → String → Bytes → UnsubscribeProducer W → Option (Result {0} Unit × UnsubscribeProducer W)
  unfolding enqueue_until
  enqueue fuel key payload p =
      enqueue_until fuel (client.monotonic p.world + cfg.queue_full_timeout) key payload p

  unfoldable pub send :
      ℕ
      → UnsubscribeEvent
      → UnsubscribeProducer W
      → Option (Result {0} Unit × UnsubscribeProducer W)
  unfolding enqueue
  send fuel e p = elim (client.to_bytes e) [
    | raised x ↦ some (raised x, p)
    | ok payload ↦ enqueue fuel (message_key e) payload p
  ]

  unfoldable pub send_raw :
      ℕ → Bytes → UnsubscribeProducer W → Option (Result {0} Unit × UnsubscribeProducer W)
  unfolding enqueue
  send_raw fuel payload p = enqueue fuel "garbage" payload p

  -- One call after another; an exception or the end of the fuel ends the sequence.
  abbrev pub and_then :
      Option (Result {0} Unit × UnsubscribeProducer W)
      → (UnsubscribeProducer W → Option (Result {0} Unit × UnsubscribeProducer W))
      → Option (Result {0} Unit × UnsubscribeProducer W)
  and_then none f = none
  and_then (some (raised e, p)) f = some (raised e, p)
  and_then (some (ok u, p)) f = f p

  unfoldable pub send_all :
      ℕ
      → List UnsubscribeEvent
      → UnsubscribeProducer W
      → Option (Result {0} Unit × UnsubscribeProducer W)
  unfolding send
  send_all fuel [] p = some (ok tt, p)
  send_all fuel (e ∷ es) p = and_then (send fuel e p) (λ p'. send_all fuel es p')

  unfoldable pub send_garbage :
      ℕ → List Bytes → UnsubscribeProducer W → Option (Result {0} Unit × UnsubscribeProducer W)
  unfolding send_raw
  send_garbage fuel [] p = some (ok tt, p)
  send_garbage fuel (b ∷ bs) p = and_then (send_raw fuel b p) (λ p'. send_garbage fuel bs p')

  -- The loop of `main`, over the batches that the generator makes until the shutdown.
  unfoldable pub send_batches :
      ℕ
      → List (List UnsubscribeEvent × List Bytes)
      → UnsubscribeProducer W
      → Option (Result {0} Unit × UnsubscribeProducer W)
  unfolding send_all send_garbage
  send_batches fuel [] p = some (ok tt, p)
  send_batches fuel (batch ∷ batches) p =
      and_then (send_all fuel batch.0 p)
        (λ p1. and_then (send_garbage fuel batch.1 p1) (λ p2. send_batches fuel batches p2))

  -- The `finally` block and the exit code; an exception of the loop goes on after the flush.
  unfoldable pub finish : Result {0} Unit × UnsubscribeProducer W → Result ℕ × UnsubscribeProducer W
  unfolding flush
  finish (raised e, p) = (raised e, (flush p).1)
  finish (ok u, p) =
      let (still_queued, p') = flush p in
      (ok (if ltb 0 p'.failed_count || ltb 0 still_queued then 1 else 0), p')

  abbrev pub finish_some :
      Option (Result {0} Unit × UnsubscribeProducer W) → Option (Result ℕ × UnsubscribeProducer W)
  finish_some none = none
  finish_some (some end) = some (finish end)

  unfoldable pub main :
      ℕ → List (List UnsubscribeEvent × List Bytes) → W → Option (Result ℕ × UnsubscribeProducer W)
  unfolding finish send_batches
  main fuel batches w = finish_some (
      send_batches fuel batches
        (record { sent_count = 0; delivered_count = 0; failed_count = 0; world = w }))
