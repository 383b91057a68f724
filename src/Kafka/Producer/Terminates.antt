-- ===== src/Kafka/Producer/Terminates.antt =====
-- libs/tikblog_kafka/producer.py: the loop of `_enqueue` ends, and when.
use tikblog_unsubscribe_plat.Base.{ℕ, ◌+◌, ◌*◌, ◌≡◌, ◌<◌, ◌≤◌, ◌⊎◌, String}
use tikblog_unsubscribe_plat.Base.Errors.{Result, ok, raised}
use tikblog_unsubscribe_plat.Kafka.Message.{Bytes}
use tikblog_unsubscribe_plat.Kafka.Producer
use tikblog_unsubscribe_plat.Kafka.Producer.{
  Client, ProducerConfig, UnsubscribeProducer, Produced, queued, queue_full, failed, report_all,
}
use tikblog_unsubscribe_plat.Kafka.Producer.Laws.{ClientLaws, ClockLaws}

module _ {W : Type 0} (client : Client W) (cfg : ProducerConfig) (laws : ClientLaws client)
    (clock : ClockLaws client) where
  abbrev now : UnsubscribeProducer W → ℕ
  now p = client.monotonic p.world

  -- A poll takes at most its timeout, and it takes time or takes messages off the queue.
  abbrev Waits : ℕ → W → W → Type 0
  Waits t w w' =
      (client.monotonic w ≤ client.monotonic w')
      × (client.monotonic w' ≤ client.monotonic w + t + clock.call_time)
      × (laws.in_flight w' ≤ laws.in_flight w)
      × ((client.monotonic w + t ≤ client.monotonic w') ⊎ (laws.in_flight w' < laws.in_flight w))

  -- How `_enqueue` ends: at most three calls after the deadline; and with an exception only of a call
  -- of `produce` that is not a full queue, or once the deadline has passed.
  abbrev pub Ended : String → Bytes → ℕ → Result {0} Unit × UnsubscribeProducer W → Type 0
  Ended key b deadline (ok _, p) = now p ≤ deadline + 3 * clock.call_time
  Ended key b deadline (raised e, p) =
      (now p ≤ deadline + 3 * clock.call_time)
      × ((deadline ≤ now p) ⊎ ((w : W) × ((client.produce key b w).0 ≡ failed e)))
