-- ===== src/Analytics/Observed.antt =====
-- analytics/common/observability.py: the writes of check results and metrics with their alerts, and the
-- percentiles of a latency.
pub mod Kept
use Prim.Native.String.{◌++◌ as text_append}
use tikblog_unsubscribe_plat.Base.{ℕ, String, Option, none, some, List, [], ◌∷◌}
use tikblog_unsubscribe_plat.Base.Floats.{Floats}
use tikblog_unsubscribe_plat.Base.Errors.{Result, ok, raised, exn, type_error}
use tikblog_unsubscribe_plat.Analytics.Status.{Row, Monitoring, metric}
use tikblog_unsubscribe_plat.Analytics.Alerts.{emit_alerts}
use tikblog_unsubscribe_plat.Analytics.Lake.{
  Spark, Step, ◌>>◌, record_results, record_metrics, record_alerts,
}

-- The source of a group. Rows that reach Silver or Gold have one.
abbrev pub group_name : Option String → String
group_name none = "None"
group_name (some s) = s

module _ {F W : Type 0} ⦃fl : Floats F⦄ (spark : Spark F W) (merge_attempts : ℕ) where
  unfoldable pub write_dq : List (Row F) → Step F W
  unfolding record_results record_alerts
  write_dq rows =
      record_results spark merge_attempts rows
      >> record_alerts spark merge_attempts (emit_alerts rows "DQ")

  unfoldable pub write_metrics : List (Row F) → Step F W
  unfolding record_metrics record_alerts
  write_metrics rows =
      record_metrics spark merge_attempts rows
      >> record_alerts spark merge_attempts (emit_alerts rows "METRIC")

module _ {F W : Type 0} ⦃fl : Floats F⦄ (spark : Spark F W) (monitoring : Monitoring F) where
  -- `latency_metrics` from the samples of each group; a NULL array of percentiles is a TypeError.
  unfoldable pub latency_metrics :
      (Option String → List F)
      → String
      → String
      → String
      → List (Option String)
      → Result (List (Row F))
  latency_metrics samples name run_id pipeline [] = ok []
  latency_metrics samples name run_id pipeline (k ∷ ks) =
      let rest = latency_metrics samples name run_id pipeline ks in
      elim (spark.percentiles (samples k)) [
        | none ↦ raised (exn type_error "'NoneType' object is not iterable")
        | some (p50, p95) ↦ elim rest [
          | raised e ↦ raised e
          | ok rows ↦ ok (
              metric monitoring run_id pipeline (group_name k) (text_append name "_p50_seconds")
                (some p50) none none
              ∷ metric monitoring run_id pipeline (group_name k) (text_append name "_p95_seconds")
                  (some p95) none none
              ∷ rows)
        ]
      ]
