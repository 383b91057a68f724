-- ===== src/Analytics/Observed/Kept.antt =====
-- analytics/common/observability.py: a property of the tables that does not speak of the monitoring
-- tables is kept by the writes to them.
use tikblog_unsubscribe_plat.Base.{ℕ, ◌<◌, List, [], ◌∷◌}
use tikblog_unsubscribe_plat.Base.Tests.{str_eq}
use tikblog_unsubscribe_plat.Base.Floats.{Floats}
use tikblog_unsubscribe_plat.Analytics.Status.{Row}
use tikblog_unsubscribe_plat.Analytics.Alerts.{Alert, emit_alerts}
use tikblog_unsubscribe_plat.Analytics.Lake
use tikblog_unsubscribe_plat.Analytics.Lake.{
  Event, SilverRow, Quarantined, Lake, Spark, Store, Step, ◌>>◌, merge, same_event,
  same_quarantined, same_check, same_metric,
}
use tikblog_unsubscribe_plat.Analytics.Lake.Retried.{OthersKeep, Ends, retried-Ends, seq-Ends}
use tikblog_unsubscribe_plat.Analytics.Observed

module _ {F W : Type 0} ⦃fl : Floats F⦄ (spark : Spark F W) (n : ℕ) where
  -- The writes to the monitoring tables other than the quarantine keep `I`.
  pub record KeptByMonitoring (I : Lake F → Type 0) : Type 0 where
    pub others : OthersKeep spark n I
    pub results : (l : Lake F) (rows : List (Row F)) → I l → I (record l { dq_results = rows })
    pub metrics :
        (l : Lake F) (rows : List (Row F)) → I l → I (record l { pipeline_metrics = rows })
    pub alerts : (l : Lake F) (rows : List (Alert F)) → I l → I (record l { alert_events = rows })

  module _ (some_attempt : 0 < n) (I : Lake F → Type 0) (kept : KeptByMonitoring I) where
    pub record_results-Ends :
        (rows : List (Row F)) (s : Store F W)
        → I s.lake
        → Ends spark n I I (Lake.record_results spark n rows s)
    unfolding Lake.record_results
    record_results-Ends [] s h = (h, h)
    record_results-Ends (r ∷ rows) s h =
        retried-Ends spark n I I kept.others _
          (λ l i. let i' = kept.results l (merge same_check l.dq_results (r ∷ rows)) i in (i', i'))
          s some_attempt h

    pub record_metrics-Ends :
        (rows : List (Row F)) (s : Store F W)
        → I s.lake
        → Ends spark n I I (Lake.record_metrics spark n rows s)
    unfolding Lake.record_metrics
    record_metrics-Ends [] s h = (h, h)
    record_metrics-Ends (r ∷ rows) s h =
        retried-Ends spark n I I kept.others _
          (λ l i.
            let i' = kept.metrics l (merge same_metric l.pipeline_metrics (r ∷ rows)) i in (i', i'))
          s some_attempt h

    pub record_alerts-Ends :
        (rows : List (Alert F)) (s : Store F W)
        → I s.lake
        → Ends spark n I I (Lake.record_alerts spark n rows s)
    unfolding Lake.record_alerts
    record_alerts-Ends [] s h = (h, h)
    record_alerts-Ends (r ∷ rows) s h =
        retried-Ends spark n I I kept.others _
          (λ l i.
            let i' =
              kept.alerts l
                (merge (λ t s. str_eq (spark.alert_id t) (spark.alert_id s)) l.alert_events
                  (r ∷ rows))
                i in
            (i', i'))
          s some_attempt h

    pub write_dq-Ends :
        (rows : List (Row F)) (s : Store F W)
        → I s.lake
        → Ends spark n I I (Observed.write_dq spark n rows s)
    unfolding Observed.write_dq
    write_dq-Ends rows s h =
        seq-Ends spark n I I I (Lake.record_results spark n rows)
          (Lake.record_alerts spark n (emit_alerts rows "DQ")) s (record_results-Ends rows s h)
          (λ s' i j. record_alerts-Ends (emit_alerts rows "DQ") s' i)

    pub write_metrics-Ends :
        (rows : List (Row F)) (s : Store F W)
        → I s.lake
        → Ends spark n I I (Observed.write_metrics spark n rows s)
    unfolding Observed.write_metrics
    write_metrics-Ends rows s h =
        seq-Ends spark n I I I (Lake.record_metrics spark n rows)
          (Lake.record_alerts spark n (emit_alerts rows "METRIC")) s (record_metrics-Ends rows s h)
          (λ s' i j. record_alerts-Ends (emit_alerts rows "METRIC") s' i)
