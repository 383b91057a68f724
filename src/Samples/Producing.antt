-- ===== src/Samples/Producing.antt =====
-- Runs of the event producer over a client that saves every message at once,
-- and of one call over a client whose queue is full.
use tikblog_unsubscribe_plat.Base.{ℕ, zero, suc, ◌+◌, ◌≡◌, refl, none, List, [], ◌∷◌, arith}
use tikblog_unsubscribe_plat.Base.Lists.{length}
use tikblog_unsubscribe_plat.Base.Errors.{ok, exn, buffer_error}
use tikblog_unsubscribe_plat.Base.Tests.{leb, if◌then◌else◌}
use tikblog_unsubscribe_plat.Contracts.Model.{UnsubscribeEvent}
use tikblog_unsubscribe_plat.Kafka.Message.{Bytes}
use tikblog_unsubscribe_plat.Kafka.Producer.{
  Client, ProducerConfig, UnsubscribeProducer, queued, queue_full, Report, main, send_batches,
  send_all, send, send_garbage, send_raw, enqueue, enqueue_until, poll, serve, flush, finish,
  report_all, report_delivery,
}
use tikblog_unsubscribe_plat.Kafka.Producer.Laws.{ClientLaws, accepted}
use tikblog_unsubscribe_plat.Kafka.Producer.Sends.{main-exit_zero}
use tikblog_unsubscribe_plat.Samples.Events.{event}

-- One delivered report for each message in the queue.
abbrev delivered : ℕ → List Report
delivered zero = []
delivered (suc n) = none ∷ delivered n

-- The queue's length, and the clock.
abbrev client : Client (ℕ × ℕ)
client = record {
  to_bytes = λ e. ok (1 ∷ []);
  produce = λ key b w. (queued, (w.0 + 1, w.1));
  poll = λ t w. (delivered w.0, (0, w.1 + 1));
  flush = λ t w. (delivered w.0, 0, (0, w.1 + 1));
  monotonic = λ w. w.1;
}

length-delivered : (n : ℕ) → length (delivered n) ≡ n
length-delivered zero = refl
length-delivered (suc n) = omega (arith, length-delivered n)

laws : ClientLaws client
unfolding accepted
laws = record {
  in_flight = λ w. w.0;
  produce_law = λ key b w. refl;
  poll_law = λ t w. omega (arith, length-delivered w.0);
  flush_law = λ t w. omega (arith, length-delivered w.0);
}

abbrev cfg : ProducerConfig
cfg = record { second = 10; queue_full_timeout = 50; flush_timeout = 100 }

abbrev batches : List (List UnsubscribeEvent × List Bytes)
batches = (event ∷ [], (9 ∷ []) ∷ []) ∷ []

abbrev finished : UnsubscribeProducer (ℕ × ℕ)
finished = record { sent_count = 2; delivered_count = 2; failed_count = 0; world = (0, 3) }

main-exit_zero_example :
    (finished.failed_count ≡ 0) × (finished.delivered_count ≡ finished.sent_count)
unfolding laws main send_batches send_all send send_garbage send_raw enqueue enqueue_until poll
    serve flush finish report_all report_delivery
main-exit_zero_example = main-exit_zero client cfg laws 51 batches (0, 0) finished refl refl

-- A client with room for one message, whose broker takes it at the time 30: a poll waits until then.
abbrev slow_client : Client (ℕ × ℕ)
slow_client = record client {
  produce = λ key b w.
      if leb 1 w.0
      then (queue_full (exn buffer_error "Local: Queue full"), (w.0, w.1 + 1))
      else (queued, (w.0 + 1, w.1 + 1));
  poll = λ t w. if leb 30 w.1 then (delivered w.0, (0, w.1 + t)) else ([], (w.0, w.1 + t));
}

slow_laws : ClientLaws slow_client
unfolding accepted
slow_laws = record {
  in_flight = λ w. w.0;
  produce_law = λ key b w. ground arith;
  poll_law = λ t w. ground (arith, length-delivered w.0);
  flush_law = λ t w. omega (arith, length-delivered w.0);
}

abbrev full : UnsubscribeProducer (ℕ × ℕ)
full = record { sent_count = 1; delivered_count = 0; failed_count = 0; world = (1, 0) }
