-- ===== src/Samples/Operations.antt =====
-- Runs of the topic tool, the alerts, the retries and the sensor.
use tikblog_unsubscribe_plat.Base.{
  ℕ, zero, suc, inl, inr, ◌++◌, ◌+◌, ◌≡◌, refl, false, Option, none, some, List, [], ◌∷◌, map,
  arith,
}
use tikblog_unsubscribe_plat.Base.Tests.{str_eq, ◌==◌, if◌then◌else◌}
use tikblog_unsubscribe_plat.Base.Lists.{All, Any, all, any}
use tikblog_unsubscribe_plat.Base.Errors.{Result, ok, raised, exn, other_error}
use tikblog_unsubscribe_plat.Topics.Model.{
  RawTopic, TopicSpec, Metadata, AdminClient, load_topic_specs, topic_spec, str_items, config_items,
  dict_set, to_str, text, dict_get,
}
use tikblog_unsubscribe_plat.Topics.Apply.{apply_topics, only}
use tikblog_unsubscribe_plat.Topics.Requests.{Serves, apply_topics-Serves}
use tikblog_unsubscribe_plat.Topics.Idle.{apply_topics-UpToDate}
use tikblog_unsubscribe_plat.Analytics.Status.{Monitoring, yellow, dq_result}
use tikblog_unsubscribe_plat.Base.Texts.{take_chars}
use tikblog_unsubscribe_plat.Analytics.Alerts.{quality_alert, emit_alerts, emit_alerts-dq_result}
use tikblog_unsubscribe_plat.Analytics.Retry.{retry, retry-Ended, Ended}
use tikblog_unsubscribe_plat.Analytics.Sensor.{
  SensorConsumer, SensorEvent, CommitLaws, pending_offsets, acknowledge_sensor, is_pending, start,
  acknowledge_sensor-pending_offsets,
}
use tikblog_unsubscribe_plat.Samples.Db.{counting}

abbrev raw : RawTopic
raw = record {
  name = some "unsubscribe-legal";
  partitions = some 3;
  replication_factor = some 2;
  config = some (some ((text "min.insync.replicas", text "2") ∷ []));
}

abbrev wanted : TopicSpec
wanted = record {
  name = "unsubscribe-legal";
  partitions = 3;
  replication_factor = 2;
  config = ("min.insync.replicas", "2") ∷ [];
}

abbrev two_partitions : Metadata
two_partitions = ("unsubscribe-legal", record { error = none; partitions = 2 ∷ 2 ∷ [] }) ∷ []

abbrev three_partitions : Metadata
three_partitions = ("unsubscribe-legal", record { error = none; partitions = 2 ∷ 2 ∷ 2 ∷ [] }) ∷ []

abbrev cluster : Metadata → AdminClient ℕ
cluster m = record {
  list_topics = λ w. ok m;
  describe_configs = λ name w. ok (("min.insync.replicas", some "2") ∷ []);
  perform = λ r w. (ok tt, w + 1);
}

apply_topics-Serves_example :
    All
      (λ r. Any (Serves two_partitions r) (wanted ∷ []))
      (apply_topics (cluster two_partitions) (raw ∷ []) 0).1.requests
unfolding load_topic_specs topic_spec str_items config_items dict_set to_str
apply_topics-Serves_example =
    apply_topics-Serves (cluster two_partitions) (raw ∷ []) 0 (wanted ∷ []) two_partitions refl refl

apply_topics-UpToDate_example :
    apply_topics (cluster three_partitions) (raw ∷ []) 0
    ≡ (ok tt, record { requests = []; world = 0 })
unfolding load_topic_specs topic_spec str_items config_items dict_set to_str dict_get str_eq only
    all
apply_topics-UpToDate_example =
    apply_topics-UpToDate (cluster three_partitions) (raw ∷ []) 0 (wanted ∷ []) three_partitions
      refl refl
      (
        (
          (record { error = none; partitions = 2 ∷ 2 ∷ 2 ∷ [] }, refl, refl, refl, refl),
          (("min.insync.replicas", some "2") ∷ [], refl, (refl, tt)),
        ),
        tt,
      )

abbrev pub monitoring : Monitoring ℕ
monitoring = record {
  dq_failed_rate = record { yellow_at = 1; red_at = 5 };
  duplicate_failed_rate = record { yellow_at = 2; red_at = 10 };
  by_source = λ name source. none;
  by_default = λ name. none;
}

emit_alerts-dq_result_example :
    emit_alerts
      (dq_result monitoring "run" "batch" (some "UI") "user_id_required" 10 3 false ∷ [])
      "DQ"
    ≡ quality_alert "run" "batch" "UI" "user_id_required" 3 yellow 1 ∷ []
unfolding take_chars str_eq
emit_alerts-dq_result_example =
    emit_alerts-dq_result monitoring "run" "batch" (some "UI") "user_id_required" 10 3 false

-- A write that meets a conflict twice and then succeeds.
abbrev write : ℕ → Result ℕ × ℕ
write zero = (raised (exn other_error "ConcurrentAppendException"), 1)
write (suc zero) = (raised (exn other_error "ConcurrentAppendException"), 2)
write (suc (suc w)) = (ok w, suc (suc w))

retry-Ended_example : Ended str_eq write 3 (retry str_eq write 3 0)
retry-Ended_example = retry-Ended str_eq write 3 0 (omega arith)

-- The world is the end of both partitions, and the committed offsets, the newest first.
abbrev lookup : List (ℕ × ℕ) → ℕ → Option ℕ
lookup [] p = none
lookup (po ∷ os) p = if po.0 == p then some po.1 else lookup os p

abbrev sensor : SensorConsumer (ℕ × List (ℕ × ℕ))
sensor = record {
  error = λ topic w. none;
  partitions = λ topic w. 0 ∷ 1 ∷ [];
  committed = λ topic w p. lookup w.1 p;
  low = λ topic w p. 0;
  high = λ topic w p. w.0;
  commit = λ topic os w. (ok tt, (w.0, os ++ w.1));
}

lookup-map :
    (f : ℕ → ℕ) (ps : List ℕ) (w : List (ℕ × ℕ)) (p : ℕ)
    → Any (λ q. q ≡ p) ps
    → lookup (map (λ q. (q, f q)) ps ++ w) p ≡ some (f p)
lookup-map f [] w p h = absurd h
lookup-map f (q ∷ ps) w p (inl e) = ground arith
lookup-map f (q ∷ ps) w p (inr h) = ground (arith, lookup-map f ps w p h)

lookup-All :
    (f : ℕ → ℕ) (ps : List ℕ) (w : List (ℕ × ℕ)) (qs : List ℕ)
    → ((p : ℕ) → Any (λ q. q ≡ p) qs → Any (λ q. q ≡ p) ps)
    → All (λ p. lookup (map (λ q. (q, f q)) ps ++ w) p ≡ some (f p)) qs
lookup-All f ps w [] sub = tt
lookup-All f ps w (q ∷ qs) sub =
    (lookup-map f ps w q (sub q (inl refl)), lookup-All f ps w qs (λ p h. sub p (inr h)))

sensor_laws : CommitLaws sensor
sensor_laws = record {
  commit_law = λ topic f ps w done. lookup-All f ps w.1 ps (λ p h. h);
  topic_law = λ topic os w. (refl, refl, (λ p. refl));
}

abbrev fired : SensorEvent
fired = record { topic = "unsubscribe-legal"; offsets = (0, 5) ∷ (1, 5) ∷ [] }

-- Two messages arrive in each partition before the commit.
acknowledge_sensor-pending_offsets_example :
    let after = (acknowledge_sensor sensor fired (7, (0, 3) ∷ [])).1 in
    All (λ p. lookup after.1 p ≡ some 5) (0 ∷ 1 ∷ [])
    × (pending_offsets sensor "unsubscribe-legal" after
        ≡ ok (some (record { topic = "unsubscribe-legal"; offsets = (0, 7) ∷ (1, 7) ∷ [] })))
unfolding pending_offsets is_pending start acknowledge_sensor any
acknowledge_sensor-pending_offsets_example =
    acknowledge_sensor-pending_offsets sensor sensor_laws "unsubscribe-legal" (5, (0, 3) ∷ [])
      (7, (0, 3) ∷ []) fired refl refl refl refl
