-- ===== src/Samples/Warehouse.antt =====
-- Runs of the analytics tables: a batch into Silver, a micro-batch into Bronze.
use tikblog_unsubscribe_plat.Base.{
  ℕ, String, zero, suc, ◌≡◌, ◌↔◌, refl, ap, ◌∙◌, inl, true, Option, none, some, [], ◌∷◌, arith,
  List,
}
use tikblog_unsubscribe_plat.Base.Tests.{str_eq}
use tikblog_unsubscribe_plat.Base.Lists.{All, Any, select, any, elem, flat_map, count}
use tikblog_unsubscribe_plat.Base.Errors.{ok, Exn, exn, other_error}
use tikblog_unsubscribe_plat.Analytics.Sql.{same_text, same_number, same_text_iff, same_number_iff}
use tikblog_unsubscribe_plat.Analytics.Status.{Monitoring}
use tikblog_unsubscribe_plat.Analytics.Lake
use tikblog_unsubscribe_plat.Analytics.Sql
use tikblog_unsubscribe_plat.Analytics.Status
use tikblog_unsubscribe_plat.Analytics.Alerts
use tikblog_unsubscribe_plat.Base.Texts.{strip_chars, take_chars}
use tikblog_unsubscribe_plat.Analytics.Retry
use tikblog_unsubscribe_plat.Analytics.Observed
use tikblog_unsubscribe_plat.Analytics.Quality.Checks
use tikblog_unsubscribe_plat.Analytics.Lake.{
  Event, SilverRow, Lake, Spark, Store, Channel, priority, bronze_of,
}
use tikblog_unsubscribe_plat.Analytics.Lake.Append.{append_bronze-again}
use tikblog_unsubscribe_plat.Analytics.Lake.Returns.{append_bronze-returns}
use tikblog_unsubscribe_plat.Analytics.Quality
use tikblog_unsubscribe_plat.Analytics.Quality.Checks.{Schema}
use tikblog_unsubscribe_plat.Analytics.Quality.Silver.{
  DropsDuplicates, UniqueIds, validate_and_merge-UniqueIds,
}
use tikblog_unsubscribe_plat.Analytics.Quality.Valid.{AllStandard, validate_and_merge-AllStandard}
use tikblog_unsubscribe_plat.Analytics.Quality.Stored.{OthersAdd, InSilver}
use tikblog_unsubscribe_plat.Analytics.Quality.Accounted.{Accounted, validate_and_merge-Accounted}
use tikblog_unsubscribe_plat.Analytics.Quality.Replay.{validate_and_merge-again}
use tikblog_unsubscribe_plat.Analytics.Gold.Groups.{Group, same_group}
use tikblog_unsubscribe_plat.Analytics.Gold.Refreshed.{FindsDistinct}
use tikblog_unsubscribe_plat.Base.Found.{Found, Found-All}
use tikblog_unsubscribe_plat.Samples.Db.{counting}
use tikblog_unsubscribe_plat.Samples.Operations.{monitoring}
use tikblog_unsubscribe_plat.Samples.Distinct.{
  first_of_each, first_of_each-kept, first_of_each-NoRepeat, first_of_each-covered,
  first_of_each-fewer,
}

-- The first commit has a conflict, the later ones succeed.
abbrev first_conflict : ℕ → Option Exn × ℕ
first_conflict zero = (some (exn other_error "ConcurrentAppendException"), 1)
first_conflict (suc w) = (none, suc (suc w))

same_group_iff : (a b : Group) → (same_group a b ≡ true) ↔ (a ≡ b)
same_group_iff a b = (
  λ h.
      let date = (same_number_iff a.0 b.0).0 (ground arith) in
      let source = (same_text_iff a.1 b.1).0 (ground arith) in
      ap (λ d. (d, a.1)) date ∙ ap (λ t. (b.0, t)) source,
  λ e. ground (
    arith,
    (same_number_iff a.0 b.0).1 (ap (λ k. k.0) e),
    (same_text_iff a.1 b.1).1 (ap (λ k. k.1) e),
  ),
)

abbrev pub warehouse : Spark ℕ ℕ
warehouse = record {
  now = λ w. 100;
  distinct_texts = first_of_each (λ t. t) same_text;
  distinct_dates = first_of_each (λ d. d) same_number;
  distinct_groups = first_of_each (λ k. k) same_group;
  drop_duplicates = first_of_each (λ e. e.event_id) same_text;
  to_json = λ e. "row";
  seconds = λ a b. a;
  whole_seconds = λ a b. a;
  percentiles = λ xs. some (1, 2);
  alert_id = λ a. "alert";
  commit = first_conflict;
  others = λ w l. l;
  contains = str_eq;
}

drops : DropsDuplicates warehouse
drops = record {
  kept = first_of_each-kept (λ e. e.event_id) same_text;
  unique = first_of_each-NoRepeat (λ e. e.event_id) same_text same_text_iff;
  covered = first_of_each-covered (λ e. e.event_id) same_text same_text_iff;
}

pub finds : FindsDistinct warehouse
finds = record {
  groups_kept = first_of_each-kept (λ k. k) same_group;
  groups_covered = first_of_each-covered (λ k. k) same_group same_group_iff;
  dates_covered = first_of_each-covered (λ d. d) same_number same_number_iff;
  texts_fewer = first_of_each-fewer (λ t. t) same_text;
}

pub texts_covered :
    (ts : List (Option String)) → All (λ t. Any (λ u. u ≡ t) (warehouse.distinct_texts ts)) ts
texts_covered = first_of_each-covered (λ t. t) same_text same_text_iff

abbrev pub event : Event
event = record {
  event_id = some "e1";
  user_id = some "reader";
  writer_id = some "writer";
  source = some "UI";
  requested_at = some 20;
  request_id = some "r1";
  cs_agent_id = none;
  legal_batch_id = none;
  schema_id = some 1;
  kafka_topic = some "unsubscribe-priority";
  kafka_partition = some 0;
  kafka_offset = some 5;
  kafka_timestamp = some 21;
  bronze_ingested_at = some 30;
  event_date = some 7;
  decode_error = none;
  raw_value = none;
}

abbrev blank_reader : Event
blank_reader = record event { event_id = some "e2"; user_id = some "  "; kafka_offset = some 6 }

abbrev pub target : Schema
target = ("event_id", "string") ∷ ("source", "string") ∷ []

-- A row twice, and a row with a blank reader.
abbrev batch : Quality.Batch
batch = record { schema = target; rows = event ∷ event ∷ blank_reader ∷ [] }

abbrev pub empty : Lake ℕ
empty = record {
  bronze_priority = record { rows = []; transactions = [] };
  bronze_legal = record { rows = []; transactions = [] };
  silver = [];
  gold = [];
  dq_results = [];
  dq_quarantine = [];
  pipeline_metrics = [];
  alert_events = [];
}

abbrev pub start : Store ℕ ℕ
start = record { world = 0; lake = empty }

validate_and_merge-UniqueIds_example :
    UniqueIds
      (Quality.validate_and_merge warehouse 3 monitoring target batch "run" "legal" start).1.lake
validate_and_merge-UniqueIds_example =
    validate_and_merge-UniqueIds warehouse 3 monitoring target drops (λ w l h. h) (omega arith)
      batch "run" "legal" start tt

validate_and_merge-AllStandard_example :
    AllStandard
      (warehouse.now 0)
      (Quality.validate_and_merge warehouse 3 monitoring target batch "run" "legal" start).1.lake
validate_and_merge-AllStandard_example =
    validate_and_merge-AllStandard warehouse 3 monitoring target (warehouse.now 0) drops
      (λ w l h. h) (omega arith) batch "run" "legal" start (omega arith) tt

adds : OthersAdd warehouse
adds = record {
  silver = λ w l. Found-All (λ r. Found r l.silver) l.silver (λ r found. found);
  dq_quarantine =
      λ w l. Found-All (λ r. Found r l.dq_quarantine) l.dq_quarantine (λ r found. found);
}

returns :
    (Quality.validate_and_merge warehouse 3 monitoring target batch "run" "legal" start).0 ≡ ok tt
unfolding Quality.validate_and_merge Quality.process_rows Quality.quarantine Quality.write_results
    Quality.merge_unique Quality.measure Quality.checked_rows Quality.valid_events
    Quality.check_results Quality.duplicate_results Quality.stored_results Quality.quarantine_rows
    Quality.prepared_rows Quality.processing_times Quality.failed_rows Quality.unique_ids
    Quality.already_stored Checks.align Checks.incompatible Checks.is_incompatible Checks.type_of
    Checks.check_row Checks.checks Checks.failing Checks.source_or_unknown Checks.is_valid
    Sql.not_blank Sql.trim Sql.is_in Sql.at_most Lake.insert_quarantine Lake.silver_merge
    Lake.record_results Lake.record_metrics Lake.record_alerts Lake.retried Lake.transact Lake.merge
    Retry.retry Retry.retry_from Retry.call Retry.is_conflict Observed.write_dq
    Observed.write_metrics Observed.latency_metrics first_of_each select any elem str_eq flat_map
    count Alerts.emit_alerts Status.dq_result Status.metric strip_chars take_chars
returns = refl

validate_and_merge-Accounted_example :
    All
      (Accounted
        (Quality.validate_and_merge warehouse 3 monitoring target batch "run" "legal" start).1.lake
        "run")
      (Quality.checked_rows warehouse 3 monitoring target 100 batch)
validate_and_merge-Accounted_example =
    validate_and_merge-Accounted warehouse 3 monitoring target drops adds (omega arith) batch "run"
      "legal" start returns

abbrev stored_event : SilverRow
stored_event = record { event = event; silver_processed_at = 50 }

-- Silver has the row's event already.
abbrev pub filled : Store ℕ ℕ
filled = record { world = 0; lake = record empty { silver = stored_event ∷ [] } }

valid_events_stored :
    All
      (InSilver filled.lake)
      (Quality.valid_events (Quality.checked_rows warehouse 3 monitoring target 100 batch))
unfolding Quality.checked_rows Quality.valid_events Checks.align Checks.incompatible
    Checks.is_incompatible Checks.type_of Checks.check_row Checks.checks Checks.failing
    Checks.source_or_unknown Checks.is_valid Sql.not_blank Sql.trim Sql.is_in Sql.at_most select
    elem str_eq strip_chars
valid_events_stored = (inl refl, (inl refl, tt))

validate_and_merge-again_example :
    (Quality.validate_and_merge warehouse 3 monitoring target batch "replay" "backfill_silver"
      filled).1.lake.silver
    ≡ stored_event ∷ []
validate_and_merge-again_example =
    validate_and_merge-again warehouse 3 monitoring target drops (λ w l. refl) (omega arith) batch
      "replay" "backfill_silver" filled valid_events_stored

conflict : any (λ name. str_eq name "ConcurrentAppendException") Retry.conflict_names ≡ true
unfolding any str_eq
conflict = refl

append_bronze-returns_example :
    ((Lake.append_bronze warehouse 3 priority (event ∷ []) "stream" 4 start).0 ≡ ok tt)
    × (bronze_of priority
          (Lake.append_bronze warehouse 3 priority (event ∷ []) "stream" 4 start).1.lake
        ≡ record { rows = event ∷ []; transactions = ("stream", 4) ∷ [] })
unfolding Lake.last_version
append_bronze-returns_example =
    append_bronze-returns warehouse 3 priority "stream" 4 (λ w l. refl) (event ∷ []) 1 start refl
      (omega arith) ((exn other_error "ConcurrentAppendException", refl, conflict), refl)

appended : (Lake.append_bronze warehouse 3 priority (event ∷ []) "stream" 4 start).0 ≡ ok tt
unfolding Lake.append_bronze Lake.append_once Lake.last_version Lake.retried Lake.transact
    Retry.retry Retry.retry_from Retry.call Retry.is_conflict any str_eq
appended = refl

append_bronze-again_example :
    bronze_of priority
      (Lake.append_bronze warehouse 3 priority
        (blank_reader ∷ [])
        "stream"
        4
        (Lake.append_bronze warehouse 3 priority (event ∷ []) "stream" 4 start).1).1.lake
    ≡ bronze_of priority
        (Lake.append_bronze warehouse 3 priority (event ∷ []) "stream" 4 start).1.lake
append_bronze-again_example =
    append_bronze-again warehouse 3 (omega arith) priority "stream" 4 (λ w l. refl) (event ∷ [])
      (blank_reader ∷ []) start appended
