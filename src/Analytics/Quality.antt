-- ===== src/Analytics/Quality.antt =====
-- analytics/common/dq.py: `validate_and_merge`, from Bronze rows to Silver, the quarantine and the
-- results of the checks. The lock around it is held by one process and does not show in the steps.
pub mod Checks
pub mod Steps
pub mod Silver
pub mod Stored
pub mod Accounted
pub mod Replay
pub mod Valid
use Prim.Native.String.{◌++◌ as text_append}
use tikblog_unsubscribe_plat.Base.{
  ℕ, ◌-◌, String, Bool, true, false, not, ◌&&◌, Option, none, some, List, [], ◌∷◌, ◌++◌, map,
}
use tikblog_unsubscribe_plat.Base.Tests.{str_eq, ltb, if◌then◌else◌}
use tikblog_unsubscribe_plat.Base.Floats.{Floats}
use tikblog_unsubscribe_plat.Base.Errors.{Result, ok, raised, exn, type_error}
use tikblog_unsubscribe_plat.Base.Lists.{length, select, count, any, elem, flat_map}
use tikblog_unsubscribe_plat.Analytics.Sql.{is_true, is_not_null, equals, same_text}
use tikblog_unsubscribe_plat.Analytics.Status.{Row, Monitoring, dq_result, metric}
use tikblog_unsubscribe_plat.Analytics.Alerts.{emit_alerts}
use tikblog_unsubscribe_plat.Analytics.Lake.{
  Event, SilverRow, Quarantined, Lake, Spark, Store, Step, ◌>>◌, insert_quarantine, silver_merge,
  record_results, record_metrics, record_alerts,
}
use tikblog_unsubscribe_plat.Analytics.Observed.{write_dq, write_metrics, latency_metrics}
use tikblog_unsubscribe_plat.Analytics.Quality.Checks.{
  Checked, Schema, check_names, check_row, is_valid, align,
}

pub record Batch : Type 0 where
  pub schema : Schema
  pub rows : List Event

-- The rows of a group.
abbrev pub of_source : Option String → Event → Bool
of_source k e = same_text k e.source

abbrev pub events_of : List Checked → List Event
events_of = map (λ c. c.event)

-- `valid`
unfoldable pub valid_events : List Checked → List Event
valid_events rows = events_of (select is_valid rows)

-- How many rows of a source have failed a check.
unfoldable pub failed_rows : Option String → String → List Checked → ℕ
failed_rows k name rows = count (λ c. of_source k c.event && elem name c.failed_checks) rows

-- Nothing is done for an empty batch.
abbrev pub unless_empty : {F W : Type 0} → List Event → Step F W → Step F W
unless_empty [] m s = (ok tt, s)
unless_empty (e ∷ es) m s = m s

module _ {F W : Type 0} ⦃fl : Floats F⦄ (spark : Spark F W) (merge_attempts : ℕ)
    (monitoring : Monitoring F) (target : Schema) where
  unfoldable pub checked_rows : ℕ → Batch → List Checked
  unfolding align check_row
  checked_rows now batch =
      map (λ e. check_row now (align spark.to_json batch.schema target e)) batch.rows

  -- The results of the checks, by source and check.
  unfoldable pub check_results : String → String → List Checked → List (Row F)
  unfolding failed_rows
  check_results run_id pipeline rows =
      flat_map
        (λ k.
          map
            (λ name.
              let failed = failed_rows k name rows in
              dq_result monitoring run_id pipeline k name (count (λ c. of_source k c.event) rows)
                failed (str_eq name "schema_and_decode" && ltb 0 failed))
            check_names)
        (spark.distinct_texts (map (λ c. c.event.source) rows))

  -- The distinct event ids of a source, without NULL.
  unfoldable pub unique_ids : Option String → List Event → ℕ
  unique_ids k events = length (
      spark.distinct_texts
        (select is_not_null (map (λ e. e.event_id) (select (of_source k) events))))

  unfoldable pub duplicate_results : String → String → List Event → List (Row F)
  unfolding unique_ids
  duplicate_results run_id pipeline valid =
      map
        (λ k.
          let total = count (of_source k) valid in
          dq_result monitoring run_id pipeline k "duplicate_event_id_in_batch" total
            (total - unique_ids k valid) false)
        (spark.distinct_texts (map (λ e. e.source) valid))

  -- The rows of a source whose id is in Silver already.
  unfoldable pub already_stored : Option String → List Event → List SilverRow → ℕ
  already_stored k unique silver =
      count (λ e. of_source k e && any (λ t. is_true (equals t.event.event_id e.event_id)) silver)
        unique

  unfoldable pub stored_results :
      String → String → List Event → List Event → List SilverRow → List (Row F)
  unfolding already_stored unique_ids
  stored_results run_id pipeline valid unique silver =
      map
        (λ k.
          dq_result monitoring run_id pipeline k "duplicate_event_id_already_in_silver"
            (unique_ids k valid) (already_stored k unique silver) false)
        (spark.distinct_texts (map (λ e. e.source) valid))

  unfoldable pub quarantine_rows : ℕ → String → String → List Checked → List Quarantined
  quarantine_rows now run_id pipeline rows =
      map
        (λ c. record {
          run_id = run_id;
          pipeline_name = pipeline;
          event = c.event;
          failed_checks = c.failed_checks;
          quarantined_at = now;
        })
        (select (λ c. not (is_valid c)) rows)

  -- The processing times of a source, where the row has an ingestion time.
  unfoldable pub processing_times : List SilverRow → Option String → List F
  processing_times [] k = []
  processing_times (r ∷ rs) k =
      let rest = processing_times rs k in
      elim r.event.bronze_ingested_at [
        | none ↦ rest
        | some t ↦
            if of_source k r.event then spark.seconds r.silver_processed_at t ∷ rest else rest
      ]

  unfoldable pub measure : List SilverRow → String → String → Step F W
  unfolding latency_metrics processing_times write_metrics
  measure prepared run_id pipeline s =
      elim (latency_metrics spark monitoring (processing_times prepared) "processing" run_id
        pipeline (spark.distinct_texts (map (λ r. r.event.source) prepared))) [
          | raised e ↦ (raised e, s)
          | ok rows ↦ write_metrics spark merge_attempts rows s
        ]

  unfoldable pub prepared_rows : ℕ → List Event → List SilverRow
  prepared_rows now = map (λ e. record { event = e; silver_processed_at = now })

  -- From `prepared` on.
  unfoldable pub merge_unique : List Event → String → String → Step F W
  unfolding prepared_rows silver_merge measure
  merge_unique unique run_id pipeline s =
      let prepared = prepared_rows (spark.now s.world) unique in
      (silver_merge spark merge_attempts prepared >> measure prepared run_id pipeline) s

  unfoldable pub write_results : List Checked → String → String → Step F W
  unfolding check_results duplicate_results stored_results valid_events write_dq
  write_results rows run_id pipeline s =
      let valid = valid_events rows in
      write_dq spark merge_attempts
        (check_results run_id pipeline rows
          ++ (duplicate_results run_id pipeline valid
              ++ stored_results run_id pipeline valid (spark.drop_duplicates valid) s.lake.silver))
        s

  unfoldable pub quarantine : List Checked → String → String → Step F W
  unfolding quarantine_rows insert_quarantine
  quarantine rows run_id pipeline s =
      insert_quarantine spark merge_attempts
        (quarantine_rows (spark.now s.world) run_id pipeline rows) s

  unfoldable pub process_rows : List Checked → String → String → Step F W
  unfolding quarantine write_results merge_unique valid_events
  process_rows rows run_id pipeline =
      quarantine rows run_id pipeline
      >> (write_results rows run_id pipeline
          >> merge_unique (spark.drop_duplicates (valid_events rows)) run_id pipeline)

  -- `validate_and_merge`
  unfoldable pub validate_and_merge : Batch → String → String → Step F W
  unfolding checked_rows process_rows
  validate_and_merge batch run_id pipeline s =
      unless_empty batch.rows
        (process_rows (checked_rows (spark.now s.world) batch) run_id pipeline) s
