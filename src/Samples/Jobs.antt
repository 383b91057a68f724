-- ===== src/Samples/Jobs.antt =====
-- A run of the two tasks that refresh Gold.
use tikblog_unsubscribe_plat.Base.{ℕ, ◌≡◌, refl, some, [], ◌∷◌, arith}
use tikblog_unsubscribe_plat.Base.Tests.{str_eq}
use tikblog_unsubscribe_plat.Base.Lists.{All, select, any, flat_map, count}
use tikblog_unsubscribe_plat.Base.Errors.{ok}
use tikblog_unsubscribe_plat.Analytics.Status.{Monitoring}
use tikblog_unsubscribe_plat.Analytics.Lake
use tikblog_unsubscribe_plat.Analytics.Status
use tikblog_unsubscribe_plat.Analytics.Alerts
use tikblog_unsubscribe_plat.Base.Texts.{take_chars}
use tikblog_unsubscribe_plat.Analytics.Retry
use tikblog_unsubscribe_plat.Analytics.Observed
use tikblog_unsubscribe_plat.Analytics.Lake.{
  Event, SilverRow, Lake, Spark, Store, Channel, priority, bronze_of,
}
use tikblog_unsubscribe_plat.Analytics.Gold
use tikblog_unsubscribe_plat.Analytics.Gold.Groups
use tikblog_unsubscribe_plat.Analytics.Gold.Groups.{Group, group_of, joins, same_group, full_join}
use tikblog_unsubscribe_plat.Analytics.Gold.Fresh.{Shows}
use tikblog_unsubscribe_plat.Samples.Db.{counting}
use tikblog_unsubscribe_plat.Samples.Operations.{monitoring}
use tikblog_unsubscribe_plat.Samples.Distinct.{first_of_each}
use tikblog_unsubscribe_plat.Samples.Warehouse.{warehouse, finds, filled}
use Prim.Native.String.{String, [], ◌∷◌}
use tikblog_unsubscribe_plat.Base.{zero, suc, none, List, false}
use tikblog_unsubscribe_plat.Analytics.Jobs
use tikblog_unsubscribe_plat.Analytics.Jobs.Refreshing.{execute-Shows}
use tikblog_unsubscribe_plat.Samples.Refreshes.{alone}

-- Dates written as tallies.
abbrev tally : ℕ → String
tally zero = ""
tally (suc n) = "1" ∷ tally n

abbrev count_marks : String → ℕ
count_marks [] = 0
count_marks (c ∷ s) = suc (count_marks s)

count_marks-tally : (n : ℕ) → ok (count_marks (tally n)) ≡ ok n
count_marks-tally zero = refl
count_marks-tally (suc n) = ground (arith, count_marks-tally n)

abbrev jobs : Jobs.Jobs ℕ ℕ
jobs = record {
  create_tables = λ s. (ok tt, s);
  run_stream = λ layer s. (ok tt, s);
  datetime_of = λ t. ok 50;
  date_of = λ t. ok (count_marks t);
  isoformat = tally;
  gold_lookback_minutes = 1;
  housekeeping_settings = record {
    optimize_gold = false;
    bronze_retention_days = 30;
    monitoring_retention_days = 0;
    maintain = λ table w. (ok tt, w);
    checked_at = λ r. 0;
    observed_at = λ r. 0;
    created_at = λ a. 0;
  };
  bronze_schema = [];
  silver_schema = [];
}

abbrev find : Jobs.Args
find = record {
  action = "touched";
  channel = none;
  layer = none;
  start = some "2026-01-07T00:00:00";
  end = some "2026-01-07T01:00:00";
  dates = none;
  run_id = some "run";
  step = none;
}

abbrev texts : List String
texts = "1111111" ∷ []

abbrev rebuild : Jobs.Args
rebuild = record find { action = "gold"; dates = some texts }

found : (Jobs.execute warehouse 3 monitoring jobs find filled).0 ≡ ok (some texts)
unfolding Gold.refresh Gold.overwrite Gold.fresh_rows Gold.daily_rows Gold.daily_row
    Gold.count_distinct Gold.events_on Gold.gold_on Gold.replace_dates Gold.report Gold.gold_times
    Gold.gold_sources Gold.reconciliation Gold.reconciled Groups.full_join Groups.gold_checks
    Observed.write_dq Observed.write_metrics Observed.latency_metrics Lake.record_results
    Lake.record_metrics Lake.record_alerts Lake.retried Lake.transact Lake.merge Retry.retry
    Retry.retry_from Retry.call Retry.is_conflict first_of_each select any str_eq flat_map count
    Alerts.emit_alerts Status.dq_result Status.metric take_chars Gold.touched Gold.interval_dates
    Gold.pending_dates Groups.silver_latest Groups.is_pending Jobs.execute Jobs.touched_texts
    Jobs.isoformats Jobs.gold Jobs.dates_of
found = refl

rebuilt : (Jobs.execute warehouse 3 monitoring jobs rebuild filled).0 ≡ ok none
unfolding Gold.refresh Gold.overwrite Gold.fresh_rows Gold.daily_rows Gold.daily_row
    Gold.count_distinct Gold.events_on Gold.gold_on Gold.replace_dates Gold.report Gold.gold_times
    Gold.gold_sources Gold.reconciliation Gold.reconciled Groups.full_join Groups.gold_checks
    Observed.write_dq Observed.write_metrics Observed.latency_metrics Lake.record_results
    Lake.record_metrics Lake.record_alerts Lake.retried Lake.transact Lake.merge Retry.retry
    Retry.retry_from Retry.call Retry.is_conflict first_of_each select any str_eq flat_map count
    Alerts.emit_alerts Status.dq_result Status.metric take_chars Gold.touched Gold.interval_dates
    Gold.pending_dates Groups.silver_latest Groups.is_pending Jobs.execute Jobs.touched_texts
    Jobs.isoformats Jobs.gold Jobs.dates_of
rebuilt = refl

execute-Shows_example :
    All
      (Shows (Jobs.execute warehouse 3 monitoring jobs rebuild filled).1.lake.gold)
      (Jobs.execute warehouse 3 monitoring jobs rebuild filled).1.lake.silver
execute-Shows_example =
    execute-Shows warehouse 3 monitoring jobs finds alone (omega arith) count_marks-tally find
      rebuild texts "run" filled refl refl refl refl (omega arith, tt) found rebuilt
