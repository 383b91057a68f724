-- ===== src/Samples/Consumption.antt =====
-- Runs of the consumer on messages with two bytes, whose event is the sample event.
use tikblog_unsubscribe_plat.Base.{ℕ, ◌+◌, ◌≡◌, refl, none, some, [], ◌∷◌, arith}
use tikblog_unsubscribe_plat.Base.Lists.{length}
use tikblog_unsubscribe_plat.Base.Errors.{ok, exn, permanent_rejection}
use tikblog_unsubscribe_plat.Base.Texts.{decimal}
use tikblog_unsubscribe_plat.Kafka.Message.{Message}
use tikblog_unsubscribe_plat.Kafka.Dlq.{Broker, Dlq, acknowledged, refused}
use tikblog_unsubscribe_plat.Consumer.Client.{
  HttpResult, http_error, responded, interpret, is_success, is_transient,
}
use tikblog_unsubscribe_plat.Consumer.Process.{committed, Services, Settings, Process}
use tikblog_unsubscribe_plat.Consumer.Deliver.{deliver}
use tikblog_unsubscribe_plat.Consumer.Main.{received, nothing, on_poll, main}
use tikblog_unsubscribe_plat.Consumer.Settled.{SettledCommits, main-SettledCommits}
use tikblog_unsubscribe_plat.Consumer.Attempts.{
  posts, pauses, Paced, EndsParked, deliver-Paced, deliver_exhausts,
}
use tikblog_unsubscribe_plat.Consumer.Counters.{Counted, main-Counted}
use tikblog_unsubscribe_plat.Consumer.Lost.{newest, commits_unconfirmed}
use tikblog_unsubscribe_plat.Samples.Db.{counting}
use tikblog_unsubscribe_plat.Samples.Events.{event}

-- The outside world counts what it is asked.
abbrev broker_up : Broker ℕ
broker_up = record {
  produce = λ r w. (none, w + 1);
  deliver = λ r w. (acknowledged, w + 1);
  now = λ w. "now";
}

-- A dead-letter topic whose broker refuses every record.
abbrev broker_down : Broker ℕ
broker_down = record {
  produce = λ r w. (none, w + 1);
  deliver = λ r w. (refused "MSG_TIMED_OUT", w + 1);
  now = λ w. "now";
}

abbrev services : Broker ℕ → HttpResult → Services ℕ
services b r = record {
  post = λ e w. (r, w + 1);
  broker = b;
  commit = λ m w. (none, w + 1);
  from_bytes = λ bytes w. ok event;
}

abbrev settings : Settings ℕ
settings = record {
  max_attempts = 3;
  backoff_initial_seconds = 1;
  backoff_multiplier = 2;
  backoff_max_seconds = 4;
}

abbrev process : Process ℕ ℕ
process = record {
  world = 0;
  dlq = record { queue = []; confirmed = []; sent_count = 0; failed_count = 0 };
  received_count = 0;
  processed_count = 0;
  failed_count = 0;
  effects = [];
}

abbrev message : Message
message = record {
  topic = "unsubscribe-priority";
  partition = 0;
  offset = 7;
  key = none;
  value = some (0 ∷ 1 ∷ []);
}

abbrev timing_out : Services ℕ
timing_out = services broker_up (http_error "timeout")

abbrev rejecting : Services ℕ
rejecting =
    services broker_down (responded (record { status_code = 404; json = none; content = "no" }))

main-SettledCommits_example :
    SettledCommits timing_out settings
      (main timing_out settings (nothing ∷ received message ∷ []) process).1.effects
main-SettledCommits_example =
    main-SettledCommits timing_out settings (nothing ∷ received message ∷ []) process (omega arith)
      tt

deliver-Paced_example :
    Paced timing_out settings
      (pauses process.effects)
      (pauses (deliver timing_out settings event message process).1.effects)
deliver-Paced_example = deliver-Paced timing_out settings event message process

deliver_exhausts_example :
    let s' = (deliver timing_out settings event message process).1 in
    (posts s' ≡ posts process + 3)
    × (length (pauses s'.effects) + 1 ≡ length (pauses process.effects) + 3)
    × EndsParked timing_out settings message s'.effects
unfolding deliver interpret tikblog_unsubscribe_plat.Consumer.Deliver.call
    tikblog_unsubscribe_plat.Consumer.Deliver.park tikblog_unsubscribe_plat.Kafka.Dlq.park
deliver_exhausts_example =
    deliver_exhausts timing_out settings event message process (omega arith) (λ w. (_, refl, refl))
      refl

main-Counted_example :
    let out = main timing_out settings (received message ∷ []) process in
    Counted timing_out settings process out.0 out.1
main-Counted_example = main-Counted timing_out settings (received message ∷ []) process

commits_unconfirmed_example :
    let out = on_poll rejecting settings (received message) process in
    (out.0 ≡ ok tt) × (newest out.1.effects ≡ some (committed message)) × (out.1.dlq.confirmed ≡ [])
unfolding interpret is_success is_transient decimal
commits_unconfirmed_example =
    commits_unconfirmed rejecting settings message (0 ∷ 1 ∷ []) event process
      (exn permanent_rejection "UnsubscribeMe rejected the request with 404: no")
      (record {
        queued = λ x w. refl;
        not_acknowledged = λ x w. ground arith;
        commit_works = λ m w. refl;
      })
      (omega arith) refl refl refl refl
