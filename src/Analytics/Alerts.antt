-- ===== src/Analytics/Alerts.antt =====
-- analytics/common/observability.py: `emit_alerts`, and which results of checks raise an alert.
use tikblog_unsubscribe_plat.Base.{
  ℕ, String, Bool, true, false, ◌||◌, not, ◌≡◌, Option, none, some, List, [], ◌∷◌, arith,
}
use tikblog_unsubscribe_plat.Base.Tests.{str_eq, ◌==◌, if◌then◌else◌}
use tikblog_unsubscribe_plat.Base.Texts.{take_chars}
use tikblog_unsubscribe_plat.Base.Floats.{Floats}
use tikblog_unsubscribe_plat.Analytics.Status.{
  Level, green, yellow, red, unknown, Monitoring, Row, status, dq_threshold, dq_thresholds,
  failed_rate, is_duplicate_check, dq_result,
}

-- What an alert says; `identity` are the parts that are joined and hashed into its id.
pub record Alert (F : Type 0) : Type 0 where
  pub identity : List (Option String) × Option ℕ
  pub pipeline_name : String
  pub source : String
  pub alert_type : String
  pub severity : Level
  pub metric_name : Option String
  pub current_value : F
  pub threshold : Option F
  pub run_id : String

-- `row["status"] in ("YELLOW", "RED")`
unfoldable pub is_alarming : Level → Bool
is_alarming yellow = true
is_alarming red = true
is_alarming green = false
is_alarming unknown = false

-- `row.get("metric_name", row.get("check_name"))`
unfoldable pub row_name : {F : Type 0} → Row F → Option String
row_name r = elim r.metric_name [ some n ↦ some n | none ↦ r.check_name ]

-- `source or "UNKNOWN"`
abbrev pub known_source : Option String → String
known_source none = "UNKNOWN"
known_source (some s) = if str_eq s "" then "UNKNOWN" else s

module _ {F : Type 0} ⦃fl : Floats F⦄ where
  -- `float(value or 0)`
  unfoldable pub value_or_zero : Option F → F
  value_or_zero none = fl.zero_float
  value_or_zero (some v) = v

  unfoldable pub alert_of : String → Row F → Alert F
  unfolding value_or_zero row_name
  alert_of kind r = record {
    identity = (
      some r.run_id
          ∷ some r.pipeline_name
          ∷ some r.source
          ∷ r.metric_name
          ∷ r.check_name
          ∷ r.kafka_topic
          ∷ [],
      r.kafka_partition,
    );
    pipeline_name = r.pipeline_name;
    source = r.source;
    alert_type = kind;
    severity = r.status;
    metric_name = row_name r;
    current_value = value_or_zero r.value;
    threshold = r.threshold;
    run_id = r.run_id;
  }

  -- The alerts that `emit_alerts` records, in the order of the rows.
  unfoldable pub emit_alerts : List (Row F) → String → List (Alert F)
  unfolding is_alarming alert_of
  emit_alerts [] kind = []
  emit_alerts (r ∷ rs) kind =
      if is_alarming r.status then alert_of kind r ∷ emit_alerts rs kind else emit_alerts rs kind

  -- The alert of a check's result, written out: the id is hashed from the run, the pipeline, the source
  -- and the check.
  abbrev pub quality_alert : String → String → String → String → F → Level → F → Alert F
  quality_alert run_id pipeline source check rate severity threshold = record {
    identity = (some run_id ∷ some pipeline ∷ some source ∷ none ∷ some check ∷ none ∷ [], none);
    pipeline_name = pipeline;
    source = source;
    alert_type = "DQ";
    severity = severity;
    metric_name = some check;
    current_value = rate;
    threshold = some threshold;
    run_id = run_id;
  }

  -- The result of a check gives one alert or none. The rate
  -- is the number of failed rows by the number of all, or 0 if there are none; the thresholds are those
  -- for duplicates if the check's name starts with `duplicate_`, and the general ones otherwise. The
  -- alert is red if the check is forced to be or the rate reaches the red threshold, and otherwise
  -- yellow if it reaches the yellow one. It names the run, the pipeline, the check and its
  -- source, or UNKNOWN, with the rate as its value and the threshold of its severity.
  pub emit_alerts-dq_result :
      (m : Monitoring F) (run_id pipeline : String) (source : Option String) (check : String)
      (total failed : ℕ) (force_red : Bool)
      → let r = dq_result m run_id pipeline source check total failed force_red in
        let rate : F = if total == 0 then fl.zero_float else fl.div failed total in
        let t =
          if str_eq (take_chars 10 check) "duplicate_"
          then m.duplicate_failed_rate
          else m.dq_failed_rate in
        emit_alerts (r ∷ []) "DQ" ≡ (
          if force_red || not (fl.lt rate t.red_at)
          then quality_alert run_id pipeline (known_source source) check rate red t.red_at ∷ []
          else if not (fl.lt rate t.yellow_at)
          then quality_alert run_id pipeline (known_source source) check rate yellow t.yellow_at
            ∷ []
          else [])
  unfolding emit_alerts dq_result is_alarming status alert_of value_or_zero row_name dq_thresholds
      failed_rate dq_threshold is_duplicate_check
  emit_alerts-dq_result m run_id pipeline none check total failed force_red = ground arith
  emit_alerts-dq_result m run_id pipeline (some s) check total failed force_red = ground arith
