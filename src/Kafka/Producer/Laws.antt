-- ===== src/Kafka/Producer/Laws.antt =====
-- What the producer relies on in the Kafka client: every message that it takes into its queue gets
-- one reply, and `poll` keeps to its timeout.
use tikblog_unsubscribe_plat.Base.{ℕ, ◌+◌, ◌≡◌, ◌≤◌, String}
use tikblog_unsubscribe_plat.Base.Lists.{length}
use tikblog_unsubscribe_plat.Kafka.Message.{Bytes}
use tikblog_unsubscribe_plat.Kafka.Producer.{Client, Produced, queued, queue_full, failed}

-- The number of messages that a call of `produce` adds to the queue.
unfoldable pub accepted : Produced → ℕ
accepted queued = 1
accepted (queue_full e) = 0
accepted (failed e) = 0

-- `in_flight w` is the number of messages in the client's queue.
pub record ClientLaws {W : Type 0} (client : Client W) : Type 0 where
  pub in_flight : W → ℕ
  pub produce_law :
      (key : String) (b : Bytes) (w : W)
      → in_flight (client.produce key b w).1 ≡ in_flight w + accepted (client.produce key b w).0
  pub poll_law :
      (t : ℕ) (w : W) → length (client.poll t w).0 + in_flight (client.poll t w).1 ≡ in_flight w
  pub flush_law : (t : ℕ) (w : W) → length (client.flush t w).0 + (client.flush t w).1 ≡ in_flight w

-- What `produce` and `poll` do to the clock: neither takes it back; `produce` does not wait, and
-- `poll(timeout)` waits for at most its timeout, in both cases up to the time `call_time` that the
-- call itself takes with its callbacks; a poll that has served no reply has waited for its timeout.
pub record ClockLaws {W : Type 0} (client : Client W) : Type 0 where
  pub call_time : ℕ
  pub produce_after :
      (key : String) (b : Bytes) (w : W)
      → client.monotonic w ≤ client.monotonic (client.produce key b w).1
  pub produce_within :
      (key : String) (b : Bytes) (w : W)
      → client.monotonic (client.produce key b w).1 ≤ client.monotonic w + call_time
  pub poll_after : (t : ℕ) (w : W) → client.monotonic w ≤ client.monotonic (client.poll t w).1
  pub poll_within :
      (t : ℕ) (w : W) → client.monotonic (client.poll t w).1 ≤ client.monotonic w + t + call_time
  pub poll_waits :
      (t : ℕ) (w : W)
      → length (client.poll t w).0 ≡ 0
      → client.monotonic w + t ≤ client.monotonic (client.poll t w).1
