-- ===== src/Analytics/Quality/Steps.antt =====
-- analytics/common/dq.py: a property of the tables that every write of `validate_and_merge` keeps is
-- kept by the whole, and what the writes that returned have left.
use tikblog_unsubscribe_plat.Base.{ℕ, ◌<◌, inl, inr, String, List, [], ◌∷◌, map}
use tikblog_unsubscribe_plat.Base.Errors.{Result-cases}
use tikblog_unsubscribe_plat.Base.Floats.{Floats}
use tikblog_unsubscribe_plat.Analytics.Status.{Monitoring}
use tikblog_unsubscribe_plat.Analytics.Lake
use tikblog_unsubscribe_plat.Analytics.Lake.{
  Event, SilverRow, Quarantined, Lake, Spark, Store, Step, ◌>>◌, merge, same_event,
  same_quarantined, same_check, same_metric,
}
use tikblog_unsubscribe_plat.Analytics.Lake.Retried.{
  Ends, Ends-imp, Ends-kept, retried-Ends, seq-Ends,
}
use tikblog_unsubscribe_plat.Analytics.Observed.{latency_metrics}
use tikblog_unsubscribe_plat.Analytics.Observed.Kept.{
  KeptByMonitoring, write_dq-Ends, write_metrics-Ends,
}
use tikblog_unsubscribe_plat.Analytics.Quality
use tikblog_unsubscribe_plat.Analytics.Quality.Checks.{Schema, Checked}

module _ {F W : Type 0} ⦃fl : Floats F⦄ (spark : Spark F W) (n : ℕ) where
  module _ (some_attempt : 0 < n) (I : Lake F → Type 0) (kept : KeptByMonitoring spark n I) where
    module _ (monitoring : Monitoring F) (target : Schema) where
      write_results-Ends :
          (rows : List Checked) (run_id pipeline : String) (s : Store F W)
          → I s.lake
          → Ends spark n I I
              (Quality.write_results spark n monitoring target rows run_id pipeline s)
      unfolding Quality.write_results
      write_results-Ends rows run_id pipeline s h = write_dq-Ends spark n some_attempt I kept _ s h

      measure-Ends :
          (prepared : List SilverRow) (run_id pipeline : String) (s : Store F W)
          → I s.lake
          → Ends spark n I I (Quality.measure spark n monitoring target prepared run_id pipeline s)
      unfolding Quality.measure
      measure-Ends prepared run_id pipeline s h =
          elim (Result-cases (
            latency_metrics spark monitoring
              (Quality.processing_times spark n monitoring target prepared) "processing" run_id
              pipeline (spark.distinct_texts (map (λ r. r.event.source) prepared)))) [
                | inl (rows, measured) ↦
                    rw (measured, Quality.measure)
                      (write_metrics-Ends spark n some_attempt I kept rows s h)
                | inr (e, fails) ↦ rw (fails, Quality.measure) h
              ]

  -- `process_rows` from `P0` over `P1`, which holds once the quarantine has been written, to `P2`,
  -- which holds once Silver has been.
  module _ (monitoring : Monitoring F) (target : Schema) (some_attempt : 0 < n)
      (P0 P1 P2 : Lake F → Type 0) (kept0 : KeptByMonitoring spark n P0)
      (kept1 : KeptByMonitoring spark n P1) (kept2 : KeptByMonitoring spark n P2)
      (weaken1 : (l : Lake F) → P1 l → P0 l) (weaken2 : (l : Lake F) → P2 l → P1 l)
      (rows : List Checked) (run_id pipeline : String)
      (quarantines : (now : ℕ) (l : Lake F)
        → P0 l
        → P1 (record l {
          dq_quarantine =
              merge same_quarantined l.dq_quarantine
                (Quality.quarantine_rows spark n monitoring target now run_id pipeline rows);
        }))
      (merges : (now : ℕ) (l : Lake F)
        → P1 l
        → P2 (record l {
          silver = merge same_event l.silver (
              Quality.prepared_rows spark n monitoring target now
                (spark.drop_duplicates (Quality.valid_events rows)));
        })) where
    quarantine-Ends :
        (s : Store F W)
        → P0 s.lake
        → Ends spark n P0 P1 (Quality.quarantine spark n monitoring target rows run_id pipeline s)
    unfolding Quality.quarantine Lake.insert_quarantine
    quarantine-Ends s h =
        let now = spark.now s.world in
        retried-Ends spark n P0 P1 kept0.others _
          (λ l i. let i' = quarantines now l i in (weaken1 _ i', i')) s some_attempt h

    merge_unique-Ends :
        (s : Store F W)
        → P1 s.lake
        → Ends spark n P1 P2 (
            Quality.merge_unique spark n monitoring target
              (spark.drop_duplicates (Quality.valid_events rows))
              run_id
              pipeline
              s)
    unfolding Quality.merge_unique Lake.silver_merge
    merge_unique-Ends s h =
        let now = spark.now s.world in
        let prepared =
          Quality.prepared_rows spark n monitoring target now
            (spark.drop_duplicates (Quality.valid_events rows)) in
        seq-Ends spark n P1 P2 P2 (Lake.silver_merge spark n prepared)
          (Quality.measure spark n monitoring target prepared run_id pipeline) s
          (retried-Ends spark n P1 P2 kept1.others _
            (λ l i. let i' = merges now l i in (weaken2 _ i', i')) s some_attempt h)
          (λ s' i j.
            Ends-imp spark n P2 P2 P1 P2
              (Quality.measure spark n monitoring target prepared run_id pipeline s') weaken2
              (λ l k. k)
              (measure-Ends some_attempt P2 kept2 monitoring target prepared run_id pipeline s' j))

    pub process_rows-Ends :
        (s : Store F W)
        → P0 s.lake
        → Ends spark n P0 P2 (Quality.process_rows spark n monitoring target rows run_id pipeline s)
    unfolding Quality.process_rows
    process_rows-Ends s h =
        let results = Quality.write_results spark n monitoring target rows run_id pipeline in
        let merging =
          Quality.merge_unique spark n monitoring target
            (spark.drop_duplicates (Quality.valid_events rows)) run_id pipeline in
        seq-Ends spark n P0 P1 P2
          (Quality.quarantine spark n monitoring target rows run_id pipeline) (results >> merging) s
          (quarantine-Ends s h)
          (λ s' i j.
            Ends-imp spark n P1 P2 P0 P2 ((results >> merging) s') weaken1 (λ l k. k)
              (seq-Ends spark n P1 P1 P2 results merging s'
                (write_results-Ends some_attempt P1 kept1 monitoring target rows run_id pipeline s'
                  j)
                (λ s'' i' j'. merge_unique-Ends s'' j')))

  unless_empty-kept :
      (P : Lake F → Type 0) (es : List Event) (m : Step F W) (s : Store F W)
      → P s.lake
      → P (m s).1.lake
      → P (Quality.unless_empty es m s).1.lake
  unless_empty-kept P [] m s before after = before
  unless_empty-kept P (e ∷ es) m s before after = after

  -- A property of the tables that the quarantine and the Silver rows of a batch keep.
  pub validate_and_merge-kept :
      (monitoring : Monitoring F) (target : Schema)
      → 0 < n
      → (P : Lake F → Type 0) → KeptByMonitoring spark n P
      → (batch : Quality.Batch) (run_id pipeline : String) (s : Store F W)
      → ((rows : List Quarantined) (l : Lake F) → P l → P (record l { dq_quarantine = rows }))
      → ((now : ℕ) (l : Lake F)
          → P l
          → P (record l {
            silver = merge same_event l.silver (
                Quality.prepared_rows spark n monitoring target now (
                  spark.drop_duplicates (
                    Quality.valid_events
                      (Quality.checked_rows spark n monitoring target (spark.now s.world) batch))));
          }))
      → P s.lake
      → P (Quality.validate_and_merge spark n monitoring target batch run_id pipeline s).1.lake
  unfolding Quality.validate_and_merge
  validate_and_merge-kept monitoring target some_attempt P kept batch run_id pipeline s quarantines
        merges h =
      let rows = Quality.checked_rows spark n monitoring target (spark.now s.world) batch in
      unless_empty-kept P batch.rows
        (Quality.process_rows spark n monitoring target rows run_id pipeline) s h
        (Ends-kept spark n P P
          (Quality.process_rows spark n monitoring target rows run_id pipeline s)
          (process_rows-Ends monitoring target some_attempt P P P kept kept kept (λ l k. k)
            (λ l k. k) rows run_id pipeline (λ now l k. quarantines _ l k) merges s h))
