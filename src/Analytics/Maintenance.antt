-- ===== src/Analytics/Maintenance.antt =====
-- analytics/jobs/maintenance.py: housekeeping and backfill. OPTIMIZE and VACUUM change files and no
-- rows; they are a parameter. So are the times of the monitoring rows that `Row` and `Alert` leave out.
pub mod Agreement
pub mod Rebuilt
use Prim.Native.String.{◌++◌ as text_append}
use tikblog_unsubscribe_plat.Base.{
  ℕ, ◌-◌, ◌*◌, String, Bool, true, false, not, ◌&&◌, Option, none, some, List, [], ◌∷◌, ◌++◌, map,
}
use tikblog_unsubscribe_plat.Base.Tests.{str_eq, ltb, leb, if◌then◌else◌}
use tikblog_unsubscribe_plat.Base.Floats.{Floats}
use tikblog_unsubscribe_plat.Base.Errors.{Result, ok, raised, exn, value_error}
use tikblog_unsubscribe_plat.Base.Lists.{select}
use tikblog_unsubscribe_plat.Analytics.Status.{Row, Monitoring}
use tikblog_unsubscribe_plat.Analytics.Alerts.{Alert}
use tikblog_unsubscribe_plat.Analytics.Lake.{
  Event, SilverRow, GoldRow, Bronze, Channel, priority, legal, Lake, Spark, Store, Step, ◌>>◌,
  retried, bronze_of, set_bronze,
}
use tikblog_unsubscribe_plat.Analytics.Quality.Checks.{Schema}
use tikblog_unsubscribe_plat.Analytics.Quality.{validate_and_merge}
use tikblog_unsubscribe_plat.Analytics.Gold.{refresh}

pub record Housekeeping (F W : Type 0) : Type 0 where
  pub optimize_gold : Bool
  pub bronze_retention_days : ℕ
  pub monitoring_retention_days : ℕ
  -- OPTIMIZE or VACUUM of a table.
  pub maintain : String → W → Result {0} Unit × W
  pub checked_at : Row F → ℕ
  pub observed_at : Row F → ℕ
  pub created_at : Alert F → ℕ

-- The start of a retention of some days, in microseconds.
abbrev pub expiry : ℕ → ℕ → ℕ
expiry now days = now - days * 86400000000

-- `c < expiry`; NULL is not.
abbrev pub is_expired : ℕ → Option ℕ → Bool
is_expired limit none = false
is_expired limit (some t) = ltb t limit

-- `between(start, end)`
abbrev pub between : ℕ → ℕ → Option ℕ → Bool
between start end none = false
between start end (some d) = leb start d && leb d end

-- The dates of a column that has no NULL.
abbrev pub known_dates : List (Option ℕ) → List ℕ
known_dates [] = []
known_dates (none ∷ ds) = known_dates ds
known_dates (some d ∷ ds) = d ∷ known_dates ds

module _ {F W : Type 0} ⦃fl : Floats F⦄ (spark : Spark F W) (merge_attempts : ℕ) where
  abbrev pub maintained : Housekeeping F W → String → Step F W
  maintained cfg table s = let (r, w) = cfg.maintain table s.world in (r, record s { world = w })

  unfoldable pub enforce_bronze_retention : Housekeeping F W → Channel → Step F W
  unfolding retried
  enforce_bronze_retention cfg channel s =
      let limit = expiry (spark.now s.world) cfg.bronze_retention_days in
      retried spark merge_attempts
        (λ l.
          let b = bronze_of channel l in
          set_bronze channel
            (record b { rows = select (λ e. not (is_expired limit e.bronze_ingested_at)) b.rows })
            l)
        s

  -- The four deletes of monitoring_retention_cleanup.
  unfoldable pub monitoring_cleanup : Housekeeping F W → Step F W
  unfolding retried
  monitoring_cleanup cfg =
      let limit = λ (s : Store F W). expiry (spark.now s.world) cfg.monitoring_retention_days in
      (λ s.
        retried spark merge_attempts
          (λ l. record l {
            dq_results = select (λ r. not (ltb (cfg.checked_at r) (limit s))) l.dq_results;
          })
          s)
      >> ((λ s.
            retried spark merge_attempts
              (λ l. record l {
                dq_quarantine = select (λ q. not (ltb q.quarantined_at (limit s))) l.dq_quarantine;
              })
              s)
          >> ((λ s.
                retried spark merge_attempts
                  (λ l. record l {
                    pipeline_metrics =
                        select (λ r. not (ltb (cfg.observed_at r) (limit s))) l.pipeline_metrics;
                  })
                  s)
              >> (λ s.
                  retried spark merge_attempts
                    (λ l. record l {
                      alert_events =
                          select (λ a. not (ltb (cfg.created_at a) (limit s))) l.alert_events;
                    })
                    s)))

  unfoldable pub housekeeping : Housekeeping F W → String → Step F W
  unfolding enforce_bronze_retention monitoring_cleanup
  housekeeping cfg step =
      if str_eq step "optimize_silver"
      then maintained cfg "silver.unsubscribe_events"
      else if str_eq step "optimize_gold_if_needed" && cfg.optimize_gold
      then maintained cfg "gold.unsubscribe_daily"
      else if str_eq step "enforce_bronze_retention"
      then enforce_bronze_retention cfg priority >> enforce_bronze_retention cfg legal
      else if str_eq step "vacuum"
      then maintained cfg "bronze.unsubscribe_priority"
        >> (maintained cfg "bronze.unsubscribe_legal"
            >> (maintained cfg "silver.unsubscribe_events"
                >> maintained cfg "gold.unsubscribe_daily"))
      else if str_eq step "monitoring_retention_cleanup" && ltb 0 cfg.monitoring_retention_days
      then monitoring_cleanup cfg
      else λ s. (ok tt, s)

module _ {F W : Type 0} ⦃fl : Floats F⦄ (spark : Spark F W) (merge_attempts : ℕ)
    (monitoring : Monitoring F) (bronze_schema target : Schema) (start end : ℕ) where
  -- The Bronze rows of a channel into Silver again.
  unfoldable pub replay : Channel → String → Step F W
  unfolding validate_and_merge
  replay channel run_id s =
      validate_and_merge spark merge_attempts monitoring target
        (record {
          schema = bronze_schema;
          rows = select (λ e. between start end e.event_date) (bronze_of channel s.lake).rows;
        })
        run_id "backfill_silver" s

  unfoldable pub backfill_dates : Lake F → List ℕ
  backfill_dates l = known_dates (
      spark.distinct_dates (
        map (λ r. r.event.event_date) (select (λ r. between start end r.event.event_date) l.silver)
        ++ map (λ g. g.event_date) (select (λ g. between start end g.event_date) l.gold)))

  unfoldable pub rebuild : String → Step F W
  unfolding backfill_dates refresh
  rebuild run_id s = refresh spark merge_attempts monitoring (backfill_dates s.lake) run_id s

  unfoldable pub backfill : String → String → Step F W
  unfolding replay rebuild
  backfill layer run_id =
      if ltb end start
      then (λ s. (raised (exn value_error "from_date must not exceed to_date"), s))
      else if str_eq layer "silver"
      then (replay priority (text_append run_id ":priority")
          >> replay legal (text_append run_id ":legal"))
        >> rebuild run_id
      else rebuild run_id
