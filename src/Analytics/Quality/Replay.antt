-- ===== src/Analytics/Quality/Replay.antt =====
-- analytics/common/dq.py: a batch that is processed again adds nothing to Silver.
use tikblog_unsubscribe_plat.Base.{ℕ, ◌<◌, ◌≡◌, refl, ap, ◌∙◌, subst, String, true, List}
use tikblog_unsubscribe_plat.Base.Lists.{any, All, Any}
use tikblog_unsubscribe_plat.Base.Members.{All-imp, All-at, All-map, Any-any, Any-imp}
use tikblog_unsubscribe_plat.Base.Floats.{Floats}
use tikblog_unsubscribe_plat.Analytics.Sql.{same_text, same_text_iff}
use tikblog_unsubscribe_plat.Analytics.Status.{Monitoring}
use tikblog_unsubscribe_plat.Analytics.Lake.{
  Event, SilverRow, Lake, Spark, Store, same_event, merge,
}
use tikblog_unsubscribe_plat.Analytics.Lake.Merged.{merge_same}
use tikblog_unsubscribe_plat.Analytics.Quality.Checks.{Schema}
use tikblog_unsubscribe_plat.Analytics.Quality
use tikblog_unsubscribe_plat.Analytics.Quality.Silver.{DropsDuplicates}
use tikblog_unsubscribe_plat.Analytics.Quality.Stored.{InSilver}
use tikblog_unsubscribe_plat.Analytics.Quality.Steps.{validate_and_merge-kept}
use tikblog_unsubscribe_plat.Analytics.Observed.Kept.{KeptByMonitoring}

module _ {F W : Type 0} ⦃fl : Floats F⦄ (spark : Spark F W) (n : ℕ) (monitoring : Monitoring F)
    (target : Schema) where
  -- Rows whose ids are all in Silver are all matched.
  merge_stored :
      (now : ℕ) (es : List Event) (silver : List SilverRow)
      → All (λ e. Any (λ r. r.event.event_id ≡ e.event_id) silver) es
      → merge same_event silver (Quality.prepared_rows spark n monitoring target now es) ≡ silver
  unfolding Quality.prepared_rows
  merge_stored now es silver stored = merge_same same_event silver _ (
      All-map (λ s. any (λ t. same_event t s) silver ≡ true) _ es
        (All-imp (λ e. Any (λ r. r.event.event_id ≡ e.event_id) silver)
          (λ e. any (λ t. same_text t.event.event_id e.event_id) silver ≡ true) es
          (λ e found.
            Any-any (λ t. same_text t.event.event_id e.event_id) silver
              (Any-imp (λ r. r.event.event_id ≡ e.event_id)
                (λ r. same_text r.event.event_id e.event_id ≡ true) silver
                (λ r same. (same_text_iff r.event.event_id e.event_id).1 same) found))
          stored))

  -- Suppose every row of the batch that passes the checks has its event id in Silver, as after a call
  -- that returned. Then calling `validate_and_merge` with it, for whatever run and pipeline, leaves the
  -- rows of Silver as they are, whether the call returns or raises. It is assumed that `dropDuplicates`
  -- does what Spark documents, that other writers leave Silver alone meanwhile, and that a write is
  -- attempted at least once.
  pub validate_and_merge-again :
      DropsDuplicates spark
      → ((w : W) (l : Lake F) → (spark.others w l).silver ≡ l.silver)
      → 0 < n
      → (batch : Quality.Batch) (run_id pipeline : String) (s : Store F W)
      → All (InSilver s.lake) (
          Quality.valid_events
            (Quality.checked_rows spark n monitoring target (spark.now s.world) batch))
      → (Quality.validate_and_merge spark n monitoring target batch run_id pipeline s).1.lake.silver
        ≡ s.lake.silver
  validate_and_merge-again drops alone some_attempt batch run_id pipeline s stored =
      let Same : Lake F → Type 0 = λ l. l.silver ≡ s.lake.silver in
      let valid =
        Quality.valid_events
          (Quality.checked_rows spark n monitoring target (spark.now s.world) batch) in
      let kept : KeptByMonitoring spark n Same = record {
        others = λ w l same. alone w l ∙ same;
        results = λ l rows same. same;
        metrics = λ l rows same. same;
        alerts = λ l rows same. same;
      } in
      let unique_stored : All (InSilver s.lake) (spark.drop_duplicates valid) =
        All-imp (λ e. Any (λ d. d ≡ e) valid) (InSilver s.lake) (spark.drop_duplicates valid)
          (λ e found.
            All-at (InSilver s.lake) (InSilver s.lake e) valid (λ d. d ≡ e)
              (λ d there same. subst (InSilver s.lake) same there) stored found)
          (drops.kept valid) in
      validate_and_merge-kept spark n monitoring target some_attempt Same kept batch run_id pipeline
        s (λ rows l same. same)
        (λ now l same.
          ap
            (λ t.
              merge same_event t
                (Quality.prepared_rows spark n monitoring target now (spark.drop_duplicates valid)))
            same
          ∙ merge_stored now (spark.drop_duplicates valid) s.lake.silver unique_stored)
        refl
