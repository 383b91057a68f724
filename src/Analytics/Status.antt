-- ===== src/Analytics/Status.antt =====
-- analytics/common/config.py: `status`; analytics/common/observability.py: `dq_result` and `metric`.
use tikblog_unsubscribe_plat.Base.{ℕ, String, Bool, not, Option, none, some}
use tikblog_unsubscribe_plat.Base.Tests.{str_eq, ◌==◌, if◌then◌else◌}
use tikblog_unsubscribe_plat.Base.Floats.{Floats}
use tikblog_unsubscribe_plat.Base.Texts.{take_chars}

pub data Level : Type 0 where
  green yellow red unknown : Level

pub record Thresholds (F : Type 0) : Type 0 where
  pub yellow_at : F
  pub red_at : F

-- config/monitoring.yaml, which is external; a metric has thresholds by source and a default.
pub record Monitoring (F : Type 0) : Type 0 where
  pub dq_failed_rate : Thresholds F
  pub duplicate_failed_rate : Thresholds F
  pub by_source : String → String → Option (Thresholds F)
  pub by_default : String → Option (Thresholds F)

-- The entries of a row that the alerts look at; a check's value is its failed rate.
pub record Row (F : Type 0) : Type 0 where
  pub run_id : String
  pub pipeline_name : String
  pub source : String
  pub metric_name : Option String
  pub check_name : Option String
  pub status : Level
  pub value : Option F
  pub total_rows : ℕ
  pub failed_rows : ℕ
  pub threshold : Option F
  pub kafka_topic : Option String
  pub kafka_partition : Option ℕ

-- `check.startswith("duplicate_")`
unfoldable pub is_duplicate_check : String → Bool
is_duplicate_check check = str_eq (take_chars 10 check) "duplicate_"

module _ {F : Type 0} ⦃fl : Floats F⦄ where
  -- `value >= threshold`
  abbrev pub reaches : F → F → Bool
  reaches v t = not (fl.lt v t)

  unfoldable pub status : Option F → Option (Thresholds F) → Level
  status v none = unknown
  status none (some t) = unknown
  status (some v) (some t) =
      if reaches v t.red_at then red else if reaches v t.yellow_at then yellow else green

  unfoldable pub dq_thresholds : Monitoring F → String → Thresholds F
  unfolding is_duplicate_check
  dq_thresholds m check =
      if is_duplicate_check check then m.duplicate_failed_rate else m.dq_failed_rate

  -- `failed / total if total else 0.0`
  unfoldable pub failed_rate : ℕ → ℕ → F
  failed_rate failed total = if total == 0 then fl.zero_float else fl.div failed total

  -- `thresholds.get(level.lower(), 0)` of a level that is not GREEN; None for GREEN.
  unfoldable pub dq_threshold : Thresholds F → Level → Option F
  dq_threshold t green = none
  dq_threshold t yellow = some t.yellow_at
  dq_threshold t red = some t.red_at
  dq_threshold t unknown = some fl.zero_float

  unfoldable pub dq_result :
      Monitoring F → String → String → Option String → String → ℕ → ℕ → Bool → Row F
  unfolding dq_thresholds failed_rate status dq_threshold
  dq_result m run_id pipeline source check total failed force_red =
      let t = dq_thresholds m check in
      let rate = failed_rate failed total in
      let level = if force_red then red else status (some rate) (some t) in
      record {
        run_id = run_id;
        pipeline_name = pipeline;
        source = source_or_unknown source;
        metric_name = none;
        check_name = some check;
        status = level;
        value = some rate;
        total_rows = total;
        failed_rows = failed;
        threshold = dq_threshold t level;
        kafka_topic = none;
        kafka_partition = none;
      }
    where
      -- `source or "UNKNOWN"`
      source_or_unknown : Option String → String
      source_or_unknown none = "UNKNOWN"
      source_or_unknown (some s) = if str_eq s "" then "UNKNOWN" else s

  -- `metric`, without its window and unit; `thresholds[level.lower()]` only for YELLOW and RED.
  unfoldable pub metric_thresholds : Monitoring F → String → String → Option (Thresholds F)
  metric_thresholds m source name = elim (m.by_source name source) [
    | some t ↦ some t
    | none ↦ m.by_default name
  ]

  unfoldable pub metric_threshold : Option (Thresholds F) → Level → Option F
  metric_threshold (some t) red = some t.red_at
  metric_threshold (some t) yellow = some t.yellow_at
  metric_threshold t l = none

  unfoldable pub metric :
      Monitoring F → String → String → String → String → Option F → Option String → Option ℕ → Row F
  unfolding metric_thresholds status metric_threshold
  metric m run_id pipeline source name value topic partition =
      let t = metric_thresholds m source name in
      let level = status value t in
      record {
        run_id = run_id;
        pipeline_name = pipeline;
        source = source;
        metric_name = some name;
        check_name = none;
        status = level;
        value = value;
        total_rows = 0;
        failed_rows = 0;
        threshold = metric_threshold t level;
        kafka_topic = topic;
        kafka_partition = partition;
      }
