-- ===== src/Analytics/Lake.antt =====
-- analytics/common/tables.py and delta.py: the Delta tables, and the writes to them. Spark and Delta
-- are not in the repository. A table is a list of its rows; what Spark leaves open (the order of groups,
-- which of two duplicates stays) and what concurrent writers do are parameters.
pub mod Retried
pub mod Merged
pub mod Append
pub mod Returns
use tikblog_unsubscribe_plat.Base.{
  ℕ, suc, ◌+◌, String, Bool, true, false, not, ◌&&◌, Option, none, some, List, [], ◌∷◌, ◌++◌,
}
use tikblog_unsubscribe_plat.Base.Tests.{str_eq, ltb, ◌==◌, if◌then◌else◌}
use tikblog_unsubscribe_plat.Base.Lists.{select, any}
use tikblog_unsubscribe_plat.Base.Errors.{Result, ok, raised, Exn}
use tikblog_unsubscribe_plat.Analytics.Sql.{same_text, same_number}
use tikblog_unsubscribe_plat.Analytics.Status.{Row}
use tikblog_unsubscribe_plat.Analytics.Alerts.{Alert}
use tikblog_unsubscribe_plat.Analytics.Retry.{Run, retry}

-- A row of Bronze: EVENT and META; times are microseconds and dates are days.
pub record Event : Type 0 where
  pub event_id : Option String
  pub user_id : Option String
  pub writer_id : Option String
  pub source : Option String
  pub requested_at : Option ℕ
  pub request_id : Option String
  pub cs_agent_id : Option String
  pub legal_batch_id : Option String
  pub schema_id : Option ℕ
  pub kafka_topic : Option String
  pub kafka_partition : Option ℕ
  pub kafka_offset : Option ℕ
  pub kafka_timestamp : Option ℕ
  pub bronze_ingested_at : Option ℕ
  pub event_date : Option ℕ
  pub decode_error : Option String
  pub raw_value : Option String

pub record SilverRow : Type 0 where
  pub event : Event
  pub silver_processed_at : ℕ

pub record GoldRow : Type 0 where
  pub event_date : Option ℕ
  pub source : Option String
  pub unsubscribe_count : ℕ
  pub unique_readers : ℕ
  pub unique_writers : ℕ
  pub gold_updated_at : ℕ

-- A row of monitoring.dq_quarantine; `event` stands for the columns that are taken over.
pub record Quarantined : Type 0 where
  pub run_id : String
  pub pipeline_name : String
  pub event : Event
  pub failed_checks : List String
  pub quarantined_at : ℕ

-- A Bronze table, with the last txnVersion that it has taken for each txnAppId.
pub record Bronze : Type 0 where
  pub rows : List Event
  pub transactions : List (String × ℕ)

-- The tables.
pub record Lake (F : Type 0) : Type 0 where
  pub bronze_priority : Bronze
  pub bronze_legal : Bronze
  pub silver : List SilverRow
  pub gold : List GoldRow
  pub dq_results : List (Row F)
  pub dq_quarantine : List Quarantined
  pub pipeline_metrics : List (Row F)
  pub alert_events : List (Alert F)

pub data Channel : Type 0 where
  priority legal : Channel

pub record Spark (F W : Type 0) : Type 0 where
  -- `current_timestamp()` and `datetime.utcnow()`
  pub now : W → ℕ
  -- The keys of a `groupBy`, or a `distinct`.
  pub distinct_texts : List (Option String) → List (Option String)
  pub distinct_dates : List (Option ℕ) → List (Option ℕ)
  pub distinct_groups : List (Option ℕ × Option String) → List (Option ℕ × Option String)
  -- `dropDuplicates(["event_id"])`
  pub drop_duplicates : List Event → List Event
  -- `to_json(struct("*"))`
  pub to_json : Event → String
  -- The difference of two timestamps in seconds.
  pub seconds : ℕ → ℕ → F
  -- The difference of two values of `unix_timestamp`, as a float.
  pub whole_seconds : ℕ → ℕ → F
  -- `percentile_approx` at 0.5 and 0.95; none for NULL.
  pub percentiles : List F → Option (F × F)
  -- The SHA-256 digest of an alert's identity.
  pub alert_id : Alert F → String
  -- The exception of the next Delta transaction, if it fails.
  pub commit : W → Option Exn × W
  -- What other writers have committed before it.
  pub others : W → Lake F → Lake F
  -- `a in b` of texts
  pub contains : String → String → Bool

pub record Store (F W : Type 0) : Type 0 where
  pub world : W
  pub lake : Lake F

-- A step of a job: it returns or raises, and what it has written stays written.
abbrev pub Step : Type 0 → Type 0 → Type 0
Step F W = Store F W → Result {0} Unit × Store F W

infixl 5 ◌>>◌
abbrev pub ◌>>◌ : {F W : Type 0} → Step F W → Step F W → Step F W
◌>>◌ m k s = let (r, s') = m s in elim r [ ok _ ↦ k s' | raised e ↦ (raised e, s') ]

-- A write returns nothing.
abbrev pub settled :
    {F W : Type 0} → Result (Option (Unit {0})) × Run (Store F W) → Result {0} Unit × Store F W
settled (ok u, run) = (ok tt, run.world)
settled (raised e, run) = (raised e, run.world)

-- MERGE … WHEN NOT MATCHED THEN INSERT *, on the version of the table that the commit extends.
unfoldable pub merge {ℓ} : {A : Type ℓ} → (A → A → Bool) → List A → List A → List A
merge matches target source = target ++ select (λ s. not (any (λ t. matches t s) target)) source

-- The conditions from KEYS, and the one of `silver_merge`.
abbrev pub same_event : SilverRow → SilverRow → Bool
same_event t s = same_text t.event.event_id s.event.event_id

abbrev pub same_coordinates : Event → Event → Bool
same_coordinates t s =
    same_text t.kafka_topic s.kafka_topic
    && (same_number t.kafka_partition s.kafka_partition
        && same_number t.kafka_offset s.kafka_offset)

abbrev pub same_quarantined : Quarantined → Quarantined → Bool
same_quarantined t s = str_eq t.run_id s.run_id && same_coordinates t.event s.event

abbrev pub same_check : {F : Type 0} → Row F → Row F → Bool
same_check t s =
    str_eq t.run_id s.run_id && (str_eq t.source s.source && same_text t.check_name s.check_name)

abbrev pub same_metric : {F : Type 0} → Row F → Row F → Bool
same_metric t s =
    str_eq t.run_id s.run_id
    && (str_eq t.source s.source
        && (same_text t.metric_name s.metric_name
            && (same_text t.kafka_topic s.kafka_topic
                && same_number t.kafka_partition s.kafka_partition)))

-- The last version that an application has written.
unfoldable pub last_version : String → List (String × ℕ) → Option ℕ
last_version app [] = none
last_version app (t ∷ ts) = if str_eq app t.0 then some t.1 else last_version app ts

abbrev pub is_new_version : Option ℕ → ℕ → Bool
is_new_version none n = true
is_new_version (some last) n = ltb last n

abbrev pub bronze_of : {F : Type 0} → Channel → Lake F → Bronze
bronze_of priority l = l.bronze_priority
bronze_of legal l = l.bronze_legal

abbrev pub set_bronze : {F : Type 0} → Channel → Bronze → Lake F → Lake F
set_bronze priority b l = record l { bronze_priority = b }
set_bronze legal b l = record l { bronze_legal = b }

-- An append with txnAppId and txnVersion: Delta skips a version that the table has taken.
unfoldable pub append_once : List Event → String → ℕ → Bronze → Bronze
unfolding last_version
append_once rows app version b =
    if is_new_version (last_version app b.transactions) version
    then record { rows = b.rows ++ rows; transactions = (app, version) ∷ b.transactions }
    else b

module _ {F W : Type 0} (spark : Spark F W) (merge_attempts : ℕ) where
  -- One transaction.
  unfoldable pub transact : (Lake F → Lake F) → Store F W → Result {0} Unit × Store F W
  transact change s =
      let current = spark.others s.world s.lake in
      let (failure, w) = spark.commit s.world in
      elim failure [
        | some e ↦ (raised e, record { world = w; lake = current })
        | none ↦ (ok tt, record { world = w; lake = change current })
      ]

  -- `retry(cfg, write)`
  unfoldable pub retried : (Lake F → Lake F) → Step F W
  unfolding transact retry
  retried change s = settled (retry spark.contains (transact change) merge_attempts s)

  -- `insert_once` for each table that the jobs use it with.
  unfoldable pub insert_quarantine : List Quarantined → Step F W
  unfolding retried merge
  insert_quarantine rows =
      retried (λ l. record l { dq_quarantine = merge same_quarantined l.dq_quarantine rows })

  unfoldable pub silver_merge : List SilverRow → Step F W
  unfolding retried merge
  silver_merge rows = retried (λ l. record l { silver = merge same_event l.silver rows })

  -- `records`: nothing is written for no rows.
  unfoldable pub record_results : List (Row F) → Step F W
  unfolding retried merge
  record_results [] s = (ok tt, s)
  record_results (r ∷ rows) s =
      retried (λ l. record l { dq_results = merge same_check l.dq_results (r ∷ rows) }) s

  unfoldable pub record_metrics : List (Row F) → Step F W
  unfolding retried merge
  record_metrics [] s = (ok tt, s)
  record_metrics (r ∷ rows) s =
      retried (λ l. record l { pipeline_metrics = merge same_metric l.pipeline_metrics (r ∷ rows) })
        s

  unfoldable pub record_alerts : List (Alert F) → Step F W
  unfolding retried merge
  record_alerts [] s = (ok tt, s)
  record_alerts (a ∷ rows) s =
      retried
        (λ l. record l {
          alert_events =
              merge (λ t s. str_eq (spark.alert_id t) (spark.alert_id s)) l.alert_events (a ∷ rows);
        })
        s

  unfoldable pub append_bronze : Channel → List Event → String → ℕ → Step F W
  unfolding retried append_once
  append_bronze channel rows run_id batch_id =
      retried (λ l. set_bronze channel (append_once rows run_id batch_id (bronze_of channel l)) l)
