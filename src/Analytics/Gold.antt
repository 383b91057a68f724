-- ===== src/Analytics/Gold.antt =====
-- analytics/jobs/gold.py: the dates that a refresh has to cover, and the refresh of the Gold rows of
-- some dates with its self-checks. The lock is held by one process and does not show.
pub mod Groups
pub mod Freshness
pub mod Results
pub mod Refreshed
pub mod Counts
pub mod Reconciled
pub mod Fresh
use tikblog_unsubscribe_plat.Base.{
  ℕ, ◌-◌, ◌*◌, String, Bool, not, ◌&&◌, Option, none, some, List, [], ◌∷◌, ◌++◌, map, false,
}
use tikblog_unsubscribe_plat.Base.Tests.{ltb, leb, if◌then◌else◌}
use tikblog_unsubscribe_plat.Base.Floats.{Floats}
use tikblog_unsubscribe_plat.Base.Errors.{Result, ok, raised}
use tikblog_unsubscribe_plat.Base.Lists.{length, select, count, any, flat_map}
use tikblog_unsubscribe_plat.Analytics.Sql.{Truth, is_true, is_not_null, same_text}
use tikblog_unsubscribe_plat.Analytics.Status.{Row, Monitoring, dq_result}
use tikblog_unsubscribe_plat.Analytics.Lake.{
  SilverRow, GoldRow, Lake, Spark, Store, Step, ◌>>◌, retried,
}
use tikblog_unsubscribe_plat.Analytics.Observed.{write_dq, write_metrics, latency_metrics}
use tikblog_unsubscribe_plat.Analytics.Gold.Groups.{
  Group, group_of, gold_group, same_group, joins, date_in, silver_latest, is_pending, Joined,
  full_join, gold_checks,
}

module _ {F W : Type 0} ⦃fl : Floats F⦄ (spark : Spark F W) (merge_attempts : ℕ)
    (monitoring : Monitoring F) where
  unfoldable pub interval_dates : ℕ → ℕ → Lake F → List (Option ℕ)
  interval_dates from end l =
      map (λ r. r.event.event_date)
        (select (λ r. leb from r.silver_processed_at && ltb r.silver_processed_at end) l.silver)

  -- The dates of `pending`.
  unfoldable pub pending_dates : Lake F → List (Option ℕ)
  unfolding silver_latest is_pending
  pending_dates l =
      map (λ k. k.0)
        (select (λ k. is_pending l.gold k (silver_latest k l.silver))
          (spark.distinct_groups (map group_of l.silver)))

  -- `lookback` is gold_lookback_minutes.
  unfoldable pub touched : ℕ → ℕ → ℕ → Lake F → List (Option ℕ)
  unfolding interval_dates pending_dates
  touched lookback start end l =
      spark.distinct_dates (interval_dates (start - lookback * 60000000) end l ++ pending_dates l)

  -- `countDistinct`: NULL is not counted.
  unfoldable pub count_distinct : List (Option String) → ℕ
  count_distinct xs = length (spark.distinct_texts (select is_not_null xs))

  -- The row of a group.
  unfoldable pub daily_row : ℕ → List SilverRow → Group → GoldRow
  unfolding count_distinct
  daily_row now events k =
      let rows = select (λ r. same_group k (group_of r)) events in
      record {
        event_date = k.0;
        source = k.1;
        unsubscribe_count = length rows;
        unique_readers = count_distinct (map (λ r. r.event.user_id) rows);
        unique_writers = count_distinct (map (λ r. r.event.writer_id) rows);
        gold_updated_at = now;
      }

  -- `counts` with `gold_updated_at`.
  unfoldable pub daily_rows : ℕ → List SilverRow → List GoldRow
  unfolding daily_row
  daily_rows now events = map (daily_row now events) (spark.distinct_groups (map group_of events))

  unfoldable pub events_on : List ℕ → Lake F → List SilverRow
  events_on dates l = select (λ r. date_in dates r.event.event_date) l.silver

  unfoldable pub gold_on : List ℕ → Lake F → List GoldRow
  gold_on dates l = select (λ g. date_in dates g.event_date) l.gold

  -- The overwrite with `replaceWhere`.
  unfoldable pub replace_dates : List ℕ → List GoldRow → Lake F → Lake F
  replace_dates dates rows l = record l {
    gold = select (λ g. not (date_in dates g.event_date)) l.gold ++ rows;
  }

  -- The result of a check for a source.
  unfoldable pub reconciled :
      String → List Joined → Option String → String × (Joined → Truth) → Row F
  reconciled run_id rows k check =
      dq_result monitoring run_id "gold_refresh" k check.0 (count (λ j. same_text k j.group.1) rows)
        (count (λ j. same_text k j.group.1 && not (is_true (check.1 j))) rows) false

  unfoldable pub reconciliation : String → List Joined → List (Row F)
  unfolding reconciled gold_checks
  reconciliation run_id rows =
      flat_map (λ k. map (reconciled run_id rows k) gold_checks)
        (spark.distinct_texts (map (λ j. j.group.1) rows))

  -- The times from the request of an event to its Gold row, of a source.
  unfoldable pub gold_times : List GoldRow → List SilverRow → Option String → List F
  gold_times actual [] k = []
  gold_times actual (r ∷ rs) k =
      let rest = gold_times actual rs k in
      elim r.event.requested_at [
        | none ↦ rest
        | some t ↦
            if same_text k r.event.source
            then map (λ g. spark.seconds g.gold_updated_at t)
                (select (λ g. joins (group_of r) (gold_group g)) actual)
              ++ rest
            else rest
      ]

  -- The sources of `ready`.
  unfoldable pub gold_sources : List GoldRow → List SilverRow → List (Option String)
  gold_sources actual events = spark.distinct_texts (
      map (λ r. r.event.source)
        (select (λ r. any (λ g. joins (group_of r) (gold_group g)) actual) events))

  -- What follows the overwrite.
  unfoldable pub report : List ℕ → String → List SilverRow → List GoldRow → Step F W
  unfolding gold_on full_join reconciliation gold_times gold_sources latency_metrics write_dq
      write_metrics
  report dates run_id events counts s =
      let actual = gold_on dates s.lake in
      elim (latency_metrics spark monitoring (gold_times actual events) "e2e" run_id "gold_refresh"
        (gold_sources actual events)) [
          | raised e ↦ (raised e, s)
          | ok metrics ↦
              (write_dq spark merge_attempts (reconciliation run_id (full_join actual counts))
                  >> write_metrics spark merge_attempts metrics)
                s
        ]

  -- `gold`, from the Silver rows of the dates.
  unfoldable pub fresh_rows : List ℕ → Store F W → List GoldRow
  unfolding daily_rows events_on
  fresh_rows dates s = daily_rows (spark.now s.world) (events_on dates s.lake)

  unfoldable pub overwrite : List ℕ → Step F W
  unfolding replace_dates fresh_rows retried
  overwrite dates s = retried spark merge_attempts (replace_dates dates (fresh_rows dates s)) s

  -- `refresh`
  unfoldable pub refresh : List ℕ → String → Step F W
  unfolding events_on fresh_rows overwrite report
  refresh [] run_id s = (ok tt, s)
  refresh (d ∷ ds) run_id s =
      (overwrite (d ∷ ds)
          >> report (d ∷ ds) run_id (events_on (d ∷ ds) s.lake) (fresh_rows (d ∷ ds) s))
        s
