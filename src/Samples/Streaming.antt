-- ===== src/Samples/Streaming.antt =====
-- Runs of the streams and of a backfill.
use tikblog_unsubscribe_plat.Base.{ℕ, ◌≡◌, refl, ap, subst, none, some, [], ◌∷◌, arith}
use tikblog_unsubscribe_plat.Base.Tests.{str_eq}
use tikblog_unsubscribe_plat.Base.Lists.{select, any, elem, flat_map, count}
use tikblog_unsubscribe_plat.Base.Errors.{ok}
use tikblog_unsubscribe_plat.Analytics.Sql.{same_text, same_number, same_text_iff, same_number_iff}
use tikblog_unsubscribe_plat.Analytics.Status.{Monitoring}
use tikblog_unsubscribe_plat.Analytics.Lake
use tikblog_unsubscribe_plat.Analytics.Sql
use tikblog_unsubscribe_plat.Analytics.Status
use tikblog_unsubscribe_plat.Analytics.Alerts
use tikblog_unsubscribe_plat.Base.Texts.{strip_chars, take_chars}
use tikblog_unsubscribe_plat.Analytics.Retry
use tikblog_unsubscribe_plat.Analytics.Observed
use tikblog_unsubscribe_plat.Analytics.Quality.Checks
use tikblog_unsubscribe_plat.Analytics.Lake.{
  Event, SilverRow, Lake, Spark, Store, Channel, priority, bronze_of,
}
use tikblog_unsubscribe_plat.Analytics.Quality
use tikblog_unsubscribe_plat.Analytics.Quality.Checks.{Schema}
use tikblog_unsubscribe_plat.Analytics.Gold.Groups.{Group, same_group}
use tikblog_unsubscribe_plat.Samples.Db.{counting}
use tikblog_unsubscribe_plat.Samples.Operations.{monitoring}
use tikblog_unsubscribe_plat.Samples.Distinct.{
  first_of_each, first_of_each-NoRepeat, first_of_each-covered,
}
use tikblog_unsubscribe_plat.Analytics.Decode
use tikblog_unsubscribe_plat.Analytics.Decode.{Message, Decoder, Writer, Payload}
use tikblog_unsubscribe_plat.Analytics.Decode.Complete.{FindsIds, Complete, decode-Complete}
use tikblog_unsubscribe_plat.Analytics.Streams
use tikblog_unsubscribe_plat.Analytics.Streams.Stored.{InBronze, process_bronze-InBronze}
use tikblog_unsubscribe_plat.Analytics.Maintenance
use tikblog_unsubscribe_plat.Analytics.Maintenance.Agreement.{Rebuilt}
use tikblog_unsubscribe_plat.Analytics.Maintenance.Rebuilt.{backfill-Rebuilt}
use tikblog_unsubscribe_plat.Analytics.Gold
use tikblog_unsubscribe_plat.Analytics.Gold.Groups
use tikblog_unsubscribe_plat.Samples.Warehouse.{warehouse, finds, empty, event, start, target}
use tikblog_unsubscribe_plat.Samples.Refreshes.{alone}
use tikblog_unsubscribe_plat.Base.{subst, List, map}
use tikblog_unsubscribe_plat.Base.Members.{NoRepeat}
use tikblog_unsubscribe_plat.Analytics.Lake.{legal}

abbrev payload : Payload
payload = record {
  event_id = some "e1";
  user_id = some "reader";
  writer_id = some "writer";
  source = some "UI";
  requested_at = some 20;
  request_id = none;
  cs_agent_id = none;
  legal_batch_id = none;
}

abbrev decoder : Decoder
decoder = record {
  registry_schema =
      λ id. ok (record { columns = Decode.event_schema; from_avro = λ bytes. payload });
  cast_int = λ n. some n;
  distinct_ids = first_of_each (λ i. i) same_number;
  base64 = λ bytes. "bytes";
  to_date = λ t. 7;
  now = 100;
}

map-same : {A : Type 0} (xs : List A) → map (λ x. x) xs ≡ xs
map-same [] = refl
map-same (x ∷ xs) = ap (λ ys. x ∷ ys) (map-same xs)

finds_ids : FindsIds decoder
finds_ids = record {
  unique = λ ids.
      subst NoRepeat (map-same (first_of_each (λ i. i) same_number ids))
        (first_of_each-NoRepeat (λ i. i) same_number same_number_iff ids);
  covered = first_of_each-covered (λ i. i) same_number same_number_iff;
}

-- A framed message, and one that is not.
abbrev messages : List Message
messages =
    record {
      value = some (0 ∷ 0 ∷ 0 ∷ 0 ∷ 1 ∷ 9 ∷ []);
      topic = "unsubscribe-legal";
      partition = 0;
      offset = 5;
      timestamp = 21;
    }
    ∷ record {
      value = none;
      topic = "unsubscribe-legal";
      partition = 0;
      offset = 6;
      timestamp = 22;
    }
    ∷ []

decode-Complete_example : Complete decoder messages (Decode.decode decoder messages)
decode-Complete_example = decode-Complete decoder finds_ids messages

processed :
    (Streams.process_bronze warehouse 3 monitoring decoder legal "stream" messages 4 start).0
    ≡ ok tt
unfolding Streams.process_bronze Decode.decode Decode.schema_id Decode.frame_id Decode.decode_ids
    Decode.converter Decode.rows_with Decode.mismatched Decode.read_row Decode.bronze_row
    Decode.payload_of Checks.type_of Lake.append_bronze Lake.append_once Lake.last_version
    Lake.retried Lake.transact Retry.retry Retry.retry_from Retry.call Retry.is_conflict
    first_of_each select any str_eq
processed = refl

process_bronze-InBronze_example :
    InBronze decoder legal messages
      (Streams.process_bronze warehouse 3 monitoring decoder legal "stream" messages 4 start).1.lake
unfolding Lake.last_version
process_bronze-InBronze_example =
    process_bronze-InBronze warehouse 3 monitoring decoder legal (omega arith) (λ w l. refl)
      finds_ids "stream" messages 4 start refl processed

-- Bronze has an event that Silver lacks.
abbrev refilled : Store ℕ ℕ
refilled = record {
  world = 0;
  lake = record empty { bronze_priority = record { rows = event ∷ []; transactions = [] } };
}

backfilled :
    (Maintenance.backfill warehouse 3 monitoring target target 5 9 "silver" "run" refilled).0
    ≡ ok tt
unfolding Quality.validate_and_merge Quality.process_rows Quality.quarantine Quality.write_results
    Quality.merge_unique Quality.measure Quality.checked_rows Quality.valid_events
    Quality.check_results Quality.duplicate_results Quality.stored_results Quality.quarantine_rows
    Quality.prepared_rows Quality.processing_times Quality.failed_rows Quality.unique_ids
    Quality.already_stored Checks.align Checks.incompatible Checks.is_incompatible Checks.type_of
    Checks.check_row Checks.checks Checks.failing Checks.source_or_unknown Checks.is_valid
    Sql.not_blank Sql.trim Sql.is_in Sql.at_most Lake.insert_quarantine Lake.silver_merge
    Lake.record_results Lake.record_metrics Lake.record_alerts Lake.retried Lake.transact Lake.merge
    Retry.retry Retry.retry_from Retry.call Retry.is_conflict Observed.write_dq
    Observed.write_metrics Observed.latency_metrics first_of_each select any elem str_eq flat_map
    count Alerts.emit_alerts Status.dq_result Status.metric strip_chars take_chars
    Maintenance.backfill Maintenance.replay Maintenance.rebuild Maintenance.backfill_dates
    Gold.refresh Gold.overwrite Gold.fresh_rows Gold.daily_rows Gold.daily_row Gold.count_distinct
    Gold.events_on Gold.gold_on Gold.replace_dates Gold.report Gold.gold_times Gold.gold_sources
    Gold.reconciliation Gold.reconciled Groups.full_join Groups.gold_checks
backfilled = refl

backfill-Rebuilt_example :
    Rebuilt warehouse 3 monitoring finds 5 9
      (Maintenance.backfill warehouse 3 monitoring target target 5 9 "silver" "run" refilled).1.lake
backfill-Rebuilt_example =
    backfill-Rebuilt warehouse 3 monitoring finds target target 5 9 alone (omega arith) "silver"
      "run" refilled backfilled
