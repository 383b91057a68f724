-- ===== src/Analytics/Gold/Freshness.antt =====
-- analytics/jobs/gold.py: `freshness`.
use tikblog_unsubscribe_plat.Base.{
  ℕ, String, Bool, true, false, ◌&&◌, some, none, List, [], ◌∷◌, map,
}
use tikblog_unsubscribe_plat.Base.Tests.{if◌then◌else◌}
use tikblog_unsubscribe_plat.Base.Floats.{Floats}
use tikblog_unsubscribe_plat.Base.Lists.{select}
use tikblog_unsubscribe_plat.Analytics.Sql.{same_text}
use tikblog_unsubscribe_plat.Analytics.Status.{
  Row, Level, yellow, red, green, unknown, Monitoring, dq_result, metric,
}
use tikblog_unsubscribe_plat.Analytics.Lake.{Lake, Spark, Step, ◌>>◌}
use tikblog_unsubscribe_plat.Analytics.Observed.{write_dq, write_metrics}
use tikblog_unsubscribe_plat.Analytics.Gold.Groups.{group_of, is_pending}

module _ {F W : Type 0} ⦃fl : Floats F⦄ (spark : Spark F W) (merge_attempts : ℕ)
    (monitoring : Monitoring F) where
  -- `max` of floats, by `max(a, b)` of Spark: the greater one.
  unfoldable pub oldest : List F → F
  oldest [] = fl.zero_float
  oldest (x ∷ []) = x
  oldest (x ∷ y ∷ ys) = let rest = oldest (y ∷ ys) in if fl.lt x rest then rest else x

  -- `pending_age.get(source, 0)`: the age of the oldest row of a source that Gold lacks.
  unfoldable pub pending_age : ℕ → Lake F → String → F
  unfolding is_pending oldest
  pending_age now l source = oldest (
      map (λ r. spark.whole_seconds now r.silver_processed_at)
        (select
          (λ r.
            same_text (some source) r.event.source
            && is_pending l.gold (group_of r) r.silver_processed_at)
          l.silver))

  abbrev pub is_alarming : Level → Bool
  is_alarming green = false
  is_alarming yellow = true
  is_alarming red = true
  is_alarming unknown = false

  unfoldable pub freshness_results : String → List (Row F) → List (Row F)
  freshness_results run_id rows =
      map
        (λ r.
          record (dq_result monitoring run_id "gold_refresh" (some r.source) "dashboard_freshness" 1
            (if is_alarming r.status then 1 else 0) false) { status = r.status })
        rows

  unfoldable pub freshness : String → Step F W
  unfolding pending_age freshness_results write_dq write_metrics
  freshness run_id s =
      let rows =
        map
          (λ source.
            metric monitoring run_id "gold_refresh" source "gold_freshness_seconds"
              (some (pending_age (spark.now s.world) s.lake source)) none none)
          ("UI" ∷ "CUSTOMER_SUCCESS" ∷ "LEGAL" ∷ []) in
      (write_metrics spark merge_attempts rows
          >> write_dq spark merge_attempts (freshness_results run_id rows))
        s
