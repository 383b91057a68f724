-- ===== src/Analytics/Quality/Accounted.antt =====
-- analytics/common/dq.py: no row of a batch is lost.
use tikblog_unsubscribe_plat.Base.{
  ℕ, ◌<◌, ◌≡◌, ◌≢◌, refl, sym, ap, ◌∙◌, subst, inl, inr, ◌⊎◌, String, true, false, List, [], ◌∷◌,
}
use tikblog_unsubscribe_plat.Base.Errors.{ok}
use tikblog_unsubscribe_plat.Base.Lists.{All, List-cases}
use tikblog_unsubscribe_plat.Base.Members.{select-split}
use tikblog_unsubscribe_plat.Base.Floats.{Floats}
use tikblog_unsubscribe_plat.Analytics.Status.{Monitoring}
use tikblog_unsubscribe_plat.Analytics.Lake.{Event, Lake, Spark, Store, Step}
use tikblog_unsubscribe_plat.Analytics.Quality.Checks.{Schema, Checked, is_valid}
use tikblog_unsubscribe_plat.Analytics.Quality
use tikblog_unsubscribe_plat.Analytics.Quality.Silver.{DropsDuplicates}
use tikblog_unsubscribe_plat.Analytics.Quality.Stored.{
  OthersAdd, InSilver, InQuarantine, process_rows-stored, stored-InSilver,
}

-- A valid row has a row in Silver with its event id; a row that is not valid has one in the quarantine
-- with the run and the row's Kafka coordinates.
abbrev pub Accounted : {F : Type 0} → Lake F → String → Checked → Type 0
Accounted l run_id c =
    (is_valid c ≡ true) × InSilver l c.event ⊎ (is_valid c ≡ false) × InQuarantine l run_id c.event

unless_empty-some :
    {F W : Type 0} (es : List Event) (d : Event) (ds : List Event) (m : Step F W) (s : Store F W)
    → es ≡ d ∷ ds
    → Quality.unless_empty es m s ≡ m s
unless_empty-some [] d ds m s h = absurd (cons-nil (sym h))
  where
    cons-nil : {A : Type 0} {x : A} {xs : List A} → x ∷ xs ≢ []
    cons-nil e = cc
unless_empty-some (e ∷ es) d ds m s h = refl

-- If a call of `validate_and_merge` returns without an exception, every row of the batch is accounted
-- for, however often its writes had to be retried: a row that passes the checks has a row in Silver
-- with its event id, and a row that does not has a row in the quarantine with the run's id and the
-- row's Kafka coordinates. It is assumed that `dropDuplicates` does what Spark documents, that other
-- writers only add rows to these two tables, and that a write is attempted at least once.
pub validate_and_merge-Accounted :
    {F W : Type 0} ⦃fl : Floats F⦄ (spark : Spark F W) (n : ℕ) (monitoring : Monitoring F)
    (target : Schema)
    → DropsDuplicates spark
    → OthersAdd spark
    → 0 < n
    → (batch : Quality.Batch) (run_id pipeline : String) (s : Store F W)
    → (Quality.validate_and_merge spark n monitoring target batch run_id pipeline s).0 ≡ ok tt
    → All
        (Accounted
          (Quality.validate_and_merge spark n monitoring target batch run_id pipeline s).1.lake
          run_id)
        (Quality.checked_rows spark n monitoring target (spark.now s.world) batch)
unfolding Quality.validate_and_merge Quality.checked_rows
validate_and_merge-Accounted spark n monitoring target drops adds some_attempt batch run_id pipeline
      s returns =
    elim (List-cases batch.rows) [
      | inl empty ↦ rw (empty) tt
      | inr (e, es, some_rows) ↦
          let rows = Quality.checked_rows spark n monitoring target (spark.now s.world) batch in
          let process = Quality.process_rows spark n monitoring target rows run_id pipeline in
          let run = process s in
          let same = unless_empty-some batch.rows e es process s some_rows in
          let stored =
            process_rows-stored spark n monitoring target adds rows run_id pipeline some_attempt s
              (ap (λ p. p.0) (sym same) ∙ returns) in
          subst (λ p. All (Accounted p.1.lake run_id) rows) (sym same)
            (select-split (λ c. InSilver run.1.lake c.event)
              (λ c. InQuarantine run.1.lake run_id c.event) is_valid rows
              (stored-InSilver spark n monitoring target adds rows run_id pipeline run.1.lake drops
                stored.1)
              stored.0)
    ]
