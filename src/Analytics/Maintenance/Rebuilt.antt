-- ===== src/Analytics/Maintenance/Rebuilt.antt =====
-- analytics/jobs/maintenance.py: what Gold holds after a backfill.
use Prim.Native.String.{◌++◌ as text_append}
use tikblog_unsubscribe_plat.Base.{ℕ, ◌<◌, ◌≡◌, refl, sym, ap, ◌∙◌, subst, inl, inr, String}
use tikblog_unsubscribe_plat.Base.Tests.{str_eq, ltb, Bool-cases}
use tikblog_unsubscribe_plat.Base.Errors.{Result, ok, raised, exn, value_error, Result-cases}
use tikblog_unsubscribe_plat.Base.Floats.{Floats}
use tikblog_unsubscribe_plat.Analytics.Status.{Monitoring}
use tikblog_unsubscribe_plat.Analytics.Lake.{Lake, Spark, Store, Step, ◌>>◌, priority, legal}
use tikblog_unsubscribe_plat.Analytics.Lake.Retried.{raised_ok}
use tikblog_unsubscribe_plat.Analytics.Quality.Checks.{Schema}
use tikblog_unsubscribe_plat.Analytics.Gold.Refreshed.{FindsDistinct}
use tikblog_unsubscribe_plat.Analytics.Maintenance
use tikblog_unsubscribe_plat.Analytics.Maintenance.{between, known_dates}
use tikblog_unsubscribe_plat.Analytics.Maintenance.Agreement.{Rebuilt, rebuild-Rebuilt}

-- A run of two steps that returns is a run of the second after the first.
then-ok :
    {F W : Type 0} (m k : Step F W) (s : Store F W)
    → ((m >> k) s).0 ≡ ok tt
    → (((k (m s).1).0 ≡ ok tt) × ((m >> k) s ≡ k (m s).1))
then-ok m k s returns = elim (Result-cases (m s).0) [
  | inl (u, fine) ↦
      let same : (m >> k) s ≡ k (m s).1 = rw (fine, ◌>>◌) refl in
      (ap (λ p. p.0) (sym same) ∙ returns, same)
  | inr (e, fails) ↦
      let same : ((m >> k) s).0 ≡ raised e = rw (fails, ◌>>◌) refl in
      absurd (raised_ok (sym same ∙ returns))
]

module _ {F W : Type 0} ⦃fl : Floats F⦄ (spark : Spark F W) (n : ℕ) (monitoring : Monitoring F)
    (distinct : FindsDistinct spark) (bronze_schema target : Schema) (start end : ℕ)
    (alone : (w : W) (l : Lake F)
      → ((spark.others w l).gold ≡ l.gold) × ((spark.others w l).silver ≡ l.silver))
    (some_attempt : 0 < n) where
  -- If a backfill returns, of either layer, Gold and Silver agree on the dates of the interval: every
  -- Gold row dated in it counts the Silver rows of its date and source, and every Silver row dated in it
  -- has a Gold row of its date and source. This holds whatever the two replays into Silver have done
  -- before. It is assumed that `distinct` and `groupBy` find what Spark documents, that no other writer
  -- touches Silver or Gold meanwhile (the lock), and that a write is attempted at least once.
  pub backfill-Rebuilt :
      (layer run_id : String) (s : Store F W)
      → (Maintenance.backfill spark n monitoring bronze_schema target start end layer run_id s).0
        ≡ ok tt
      → Rebuilt spark n monitoring distinct start end
          (Maintenance.backfill spark n monitoring bronze_schema target start end layer run_id
            s).1.lake
  unfolding Maintenance.backfill
  backfill-Rebuilt layer run_id s returns =
      let replays =
        Maintenance.replay spark n monitoring bronze_schema target start end priority
          (text_append run_id ":priority")
        >> Maintenance.replay spark n monitoring bronze_schema target start end legal
            (text_append run_id ":legal") in
      let rebuilding =
        Maintenance.rebuild spark n monitoring bronze_schema target start end run_id in
      let Good : Result {0} Unit × Store F W → Type 0 =
        λ p. Rebuilt spark n monitoring distinct start end p.1.lake in
      let backfilled =
        Maintenance.backfill spark n monitoring bronze_schema target start end layer run_id s in
      elim (Bool-cases (ltb end start)) [
        | inl reversed ↦
            let refused : backfilled.0
                ≡ raised (exn value_error "from_date must not exceed to_date") =
              rw (reversed, Maintenance.backfill) refl in
            absurd (raised_ok (sym refused ∙ returns))
        | inr ordered ↦ elim (Bool-cases (str_eq layer "silver")) [
          | inl is_silver ↦
              let same : backfilled ≡ (replays >> rebuilding) s =
                rw (ordered, is_silver, Maintenance.backfill) refl in
              let after = then-ok replays rebuilding s (ap (λ p. p.0) (sym same) ∙ returns) in
              subst Good (sym (same ∙ after.1)) (
                rebuild-Rebuilt spark n monitoring distinct bronze_schema target start end alone
                  some_attempt run_id (replays s).1 after.0)
          | inr is_gold ↦
              let same : backfilled ≡ rebuilding s =
                rw (ordered, is_gold, Maintenance.backfill) refl in
              subst Good (sym same) (
                rebuild-Rebuilt spark n monitoring distinct bronze_schema target start end alone
                  some_attempt run_id s (ap (λ p. p.0) (sym same) ∙ returns))
        ]
      ]
