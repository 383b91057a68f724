-- ===== src/Analytics/Quality/Silver.antt =====
-- analytics/common/dq.py: no two Silver rows have the same event id.
use tikblog_unsubscribe_plat.Base.{ℕ, ◌<◌, ◌≡◌, refl, subst, String, true, List, [], ◌∷◌, map}
use tikblog_unsubscribe_plat.Base.Lists.{All, Any}
use tikblog_unsubscribe_plat.Base.Members.{NoRepeat}
use tikblog_unsubscribe_plat.Base.Floats.{Floats}
use tikblog_unsubscribe_plat.Analytics.Sql.{same_text, same_text_refl}
use tikblog_unsubscribe_plat.Analytics.Status.{Monitoring}
use tikblog_unsubscribe_plat.Analytics.Lake.{Event, SilverRow, Lake, Spark, Store, same_event}
use tikblog_unsubscribe_plat.Analytics.Lake.Retried.{OthersKeep}
use tikblog_unsubscribe_plat.Analytics.Lake.Merged.{merge-NoRepeat}
use tikblog_unsubscribe_plat.Analytics.Quality.Checks.{Schema}
use tikblog_unsubscribe_plat.Analytics.Quality
use tikblog_unsubscribe_plat.Analytics.Quality.Steps.{validate_and_merge-kept}
use tikblog_unsubscribe_plat.Analytics.Observed.Kept.{KeptByMonitoring}

-- What Spark documents of `dropDuplicates(["event_id"])`: it keeps rows, one for each id.
pub record DropsDuplicates {F W : Type 0} (spark : Spark F W) : Type 0 where
  pub kept : (es : List Event) → All (λ e. Any (λ d. d ≡ e) es) (spark.drop_duplicates es)
  pub unique : (es : List Event) → NoRepeat (map (λ e. e.event_id) (spark.drop_duplicates es))
  pub covered :
      (es : List Event)
      → All (λ e. Any (λ d. d.event_id ≡ e.event_id) (spark.drop_duplicates es)) es

abbrev pub UniqueIds : {F : Type 0} → Lake F → Type 0
UniqueIds l = NoRepeat (map (λ r. r.event.event_id) l.silver)

same_event-same : (t s : SilverRow) → t.event.event_id ≡ s.event.event_id → same_event t s ≡ true
same_event-same t s h =
    subst (λ k. same_text t.event.event_id k ≡ true) h (same_text_refl t.event.event_id)

prepared_rows-ids :
    {F W : Type 0} ⦃fl : Floats F⦄ (spark : Spark F W) (n : ℕ) (monitoring : Monitoring F)
    (target : Schema) (now : ℕ) (es : List Event)
    → map (λ r. r.event.event_id) (Quality.prepared_rows spark n monitoring target now es)
      ≡ map (λ e. e.event_id) es
unfolding Quality.prepared_rows
prepared_rows-ids spark n monitoring target now [] = refl
prepared_rows-ids spark n monitoring target now (e ∷ es) =
    rw (prepared_rows-ids spark n monitoring target now es) refl

-- Whatever a call of `validate_and_merge` does, whether it returns or raises after any of its writes,
-- no two Silver rows have the same event id afterwards, if none had before. The batch may repeat ids,
-- Silver may have them already, and writes may be retried after conflicts. It is assumed that
-- `dropDuplicates` does what Spark documents, that other writers keep the ids unique too, and that a
-- write is attempted at least once.
pub validate_and_merge-UniqueIds :
    {F W : Type 0} ⦃fl : Floats F⦄ (spark : Spark F W) (n : ℕ) (monitoring : Monitoring F)
    (target : Schema)
    → DropsDuplicates spark
    → OthersKeep spark n UniqueIds
    → 0 < n
    → (batch : Quality.Batch) (run_id pipeline : String) (s : Store F W) → UniqueIds s.lake
    → UniqueIds
        (Quality.validate_and_merge spark n monitoring target batch run_id pipeline s).1.lake
validate_and_merge-UniqueIds spark n monitoring target drops others some_attempt batch run_id
      pipeline s h =
    let kept : KeptByMonitoring spark n UniqueIds = record {
      others = others;
      results = λ l rows u. u;
      metrics = λ l rows u. u;
      alerts = λ l rows u. u;
    } in
    validate_and_merge-kept spark n monitoring target some_attempt UniqueIds kept batch run_id
      pipeline s (λ rows l u. u)
      (λ now l u.
        merge-NoRepeat same_event (λ r. r.event.event_id) same_event-same l.silver _ u
          (rw (prepared_rows-ids spark n monitoring target now _) (drops.unique _)))
      h
