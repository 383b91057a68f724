-- ===== src/Analytics/Streams.antt =====
-- analytics/jobs/streams.py: what a stream does with a micro-batch, and the metrics of its progress.
-- Spark's streaming engine, which calls them, and the Kafka client are parameters.
pub mod Stored
use Prim.Native.String.{◌++◌ as text_append}
use tikblog_unsubscribe_plat.Base.{
  ℕ, ◌-◌, String, Bool, true, false, not, ◌&&◌, Option, none, some, List, [], ◌∷◌, ◌++◌, map,
}
use tikblog_unsubscribe_plat.Base.Tests.{str_eq, ◌==◌, if◌then◌else◌}
use tikblog_unsubscribe_plat.Base.Texts.{decimal}
use tikblog_unsubscribe_plat.Base.Floats.{Floats}
use tikblog_unsubscribe_plat.Base.Errors.{Result, ok, raised}
use tikblog_unsubscribe_plat.Base.Lists.{length}
use tikblog_unsubscribe_plat.Analytics.Status.{Row, Monitoring, metric}
use tikblog_unsubscribe_plat.Analytics.Lake.{
  Event, Channel, priority, legal, Spark, Store, Step, ◌>>◌, append_bronze,
}
use tikblog_unsubscribe_plat.Analytics.Observed.{write_metrics}
use tikblog_unsubscribe_plat.Analytics.Decode.{Message, Decoder, decode}
use tikblog_unsubscribe_plat.Analytics.Quality.Checks.{Schema}
use tikblog_unsubscribe_plat.Analytics.Quality.{Batch, validate_and_merge}

abbrev pub channel_name : Channel → String
channel_name priority = "priority"
channel_name legal = "legal"

abbrev pub progress_source : Channel → String
progress_source priority = "PRIORITY_SHARED"
progress_source legal = "LEGAL"

-- The end offsets of a source: for each topic, the partitions with their next offsets.
abbrev pub Offsets : Type 0
Offsets = List (String × List (ℕ × ℕ))

-- `lastProgress`
pub record Progress : Type 0 where
  pub id : String
  pub batch_id : ℕ
  pub trigger_execution : Option ℕ
  pub sources : List (Option Offsets)

module _ {F W : Type 0} ⦃fl : Floats F⦄ (spark : Spark F W) (merge_attempts : ℕ)
    (monitoring : Monitoring F) where
  -- What follows the decoding of a micro-batch.
  abbrev pub append_decoded : Channel → String → ℕ → Result (Option (List Event)) → Step F W
  append_decoded channel identity batch_id (raised e) s = (raised e, s)
  append_decoded channel identity batch_id (ok none) s = (ok tt, s)
  append_decoded channel identity batch_id (ok (some rows)) s =
      append_bronze spark merge_attempts channel rows identity batch_id s

  -- `process` of kafka_to_bronze; `identity` is the checkpoint of the stream.
  unfoldable pub process_bronze : Decoder → Channel → String → List Message → ℕ → Step F W
  unfolding decode append_bronze
  process_bronze decoder channel identity [] batch_id s = (ok tt, s)
  process_bronze decoder channel identity (m ∷ ms) batch_id s =
      append_decoded channel identity batch_id (decode decoder (m ∷ ms)) s

  -- `process` of bronze_to_silver.
  unfoldable pub process_silver : Schema → Channel → String → Batch → ℕ → Step F W
  unfolding validate_and_merge decimal
  process_silver target channel identity batch batch_id =
      validate_and_merge spark merge_attempts monitoring target batch
        (text_append identity (text_append ":" (decimal batch_id)))
        (text_append (channel_name channel) "_bronze_to_silver")

  -- `float(value)` of a number.
  abbrev pub float_of : ℕ → F
  float_of n = fl.div n 1

  abbrev pub or_zero : Option ℕ → ℕ
  or_zero none = 0
  or_zero (some n) = n

  -- The lag of the partitions of a topic, by the latest offsets of the Kafka client, which may raise.
  unfoldable pub partition_lags :
      (String → ℕ → Result ℕ)
      → String
      → String
      → String
      → String
      → List (ℕ × ℕ)
      → Result (List (Row F))
  partition_lags latest run_id pipeline source topic [] = ok []
  partition_lags latest run_id pipeline source topic (p ∷ ps) =
      let rest = partition_lags latest run_id pipeline source topic ps in
      elim (latest topic p.0) [
        | raised e ↦ raised e
        | ok offset ↦ elim rest [
          | raised e ↦ raised e
          | ok rows ↦ ok (
              metric monitoring run_id pipeline source "kafka_lag" (some (float_of (offset - p.1)))
                (some topic) (some p.0)
              ∷ rows)
        ]
      ]

  unfoldable pub topic_lags :
      (String → ℕ → Result ℕ) → String → String → String → Offsets → Result (List (Row F))
  unfolding partition_lags
  topic_lags latest run_id pipeline source [] = ok []
  topic_lags latest run_id pipeline source (t ∷ ts) =
      let rest = topic_lags latest run_id pipeline source ts in
      elim (partition_lags latest run_id pipeline source t.0 t.1) [
        | raised e ↦ raised e
        | ok lags ↦ elim rest [
          | raised e ↦ raised e
          | ok rows ↦ ok (
              metric monitoring run_id pipeline source "kafka_partition_count"
                (some (float_of (length t.1))) (some t.0) none
              ∷ (lags ++ rows))
        ]
      ]

  abbrev pub offsets_or_none : Option Offsets → Offsets
  offsets_or_none none = []
  offsets_or_none (some offsets) = offsets

  unfoldable pub source_lags :
      (String → ℕ → Result ℕ)
      → String
      → String
      → String
      → List (Option Offsets)
      → Result (List (Row F))
  unfolding topic_lags
  source_lags latest run_id pipeline source [] = ok []
  source_lags latest run_id pipeline source (o ∷ os) =
      let rest = source_lags latest run_id pipeline source os in
      elim (topic_lags latest run_id pipeline source (offsets_or_none o)) [
        | raised e ↦ raised e
        | ok lags ↦ elim rest [ raised e ↦ raised e | ok rows ↦ ok (lags ++ rows) ]
      ]

  -- `report_progress`; `is_kafka` is `pipeline.endswith("kafka_to_bronze")`, `members` the size of the
  -- executor memory status.
  unfoldable pub report_progress :
      (String → ℕ → Result ℕ) → Channel → Bool → String → ℕ → ℕ → Progress → Step F W
  unfolding source_lags write_metrics decimal
  report_progress latest channel is_kafka pipeline executors members progress s =
      let run_id = text_append progress.id (text_append ":" (decimal progress.batch_id)) in
      let source = progress_source channel in
      let row = λ (name : String).
        λ (n : ℕ). metric monitoring run_id pipeline source name (some (float_of n)) none none in
      let rows =
        row "microbatch_duration_ms" (or_zero progress.trigger_execution)
        ∷ row "configured_executor_count" executors
        ∷ row "active_executor_count" (members - 1)
        ∷ [] in
      let lags =
        if is_kafka then source_lags latest run_id pipeline source progress.sources else ok [] in
      elim lags [
        | raised e ↦ (raised e, s)
        | ok more ↦ write_metrics spark merge_attempts (rows ++ more) s
      ]

  -- A poll of the query: `awaitTermination`, which raises if the query failed, and `lastProgress`.
  pub record Poll : Type 0 where
    pub terminated : Result Bool
    pub last_progress : Option Progress

  -- Whether a progress has been reported.
  abbrev pub is_reported : Option Progress → Option (String × ℕ) → Bool
  is_reported none last = true
  is_reported (some p) none = false
  is_reported (some p) (some (id, batch)) = str_eq p.id id && p.batch_id == batch

  abbrev pub reported_as : Option Progress → Option (String × ℕ) → Option (String × ℕ)
  reported_as none last = last
  reported_as (some p) last = some (p.id, p.batch_id)

  abbrev pub report_if_new :
      (Progress → Step F W) → Option Progress → Option (String × ℕ) → Step F W
  report_if_new report none last s = (ok tt, s)
  report_if_new report (some p) last s =
      if is_reported (some p) last then (ok tt, s) else report p s

  -- The loop of `run` over the polls; the report of a progress is a step.
  unfoldable pub watch : (Progress → Step F W) → List Poll → Option (String × ℕ) → Step F W
  watch report [] last s = (ok tt, s)
  watch report (poll ∷ polls) last s =
      let more = watch report polls (reported_as poll.last_progress last) in
      elim poll.terminated [
        | raised e ↦ (raised e, s)
        | ok terminated ↦
            (report_if_new report poll.last_progress last
                >> (λ s'. if terminated then (ok tt, s') else more s'))
              s
      ]
