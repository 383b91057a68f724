-- ===== src/Analytics/Maintenance/Agreement.antt =====
-- analytics/jobs/maintenance.py: a refresh of the dates of an interval makes Gold and Silver
-- agree in it.
use tikblog_unsubscribe_plat.Base.{
  ℕ, ◌<◌, ◌≡◌, ◌≢◌, refl, sym, ◌∙◌, subst, not, inl, inr, String, Bool, true, false, Option, none,
  some, List, [], ◌∷◌, ◌++◌, map, arith,
}
use tikblog_unsubscribe_plat.Base.Tests.{Bool-cases}
use tikblog_unsubscribe_plat.Base.Errors.{ok}
use tikblog_unsubscribe_plat.Base.Lists.{select, any, All, Any, Any-append_left, Any-append_right}
use tikblog_unsubscribe_plat.Base.Members.{select-none, select-passes}
use tikblog_unsubscribe_plat.Base.Found.{
  Found, Found-All, All-Found, Found-select, Found-map, select-Any,
}
use tikblog_unsubscribe_plat.Base.Floats.{Floats}
use tikblog_unsubscribe_plat.Analytics.Status.{Monitoring}
use tikblog_unsubscribe_plat.Analytics.Lake.{SilverRow, GoldRow, Lake, Spark, Store}
use tikblog_unsubscribe_plat.Analytics.Lake.Retried.{Ends-ok}
use tikblog_unsubscribe_plat.Analytics.Quality.Checks.{Schema}
use tikblog_unsubscribe_plat.Analytics.Gold
use tikblog_unsubscribe_plat.Analytics.Gold.Groups.{group_of, gold_group, date_in}
use tikblog_unsubscribe_plat.Analytics.Gold.Refreshed.{FindsDistinct, Kept}
use tikblog_unsubscribe_plat.Analytics.Gold.Counts.{CountsRight, Agrees, refresh-Agrees}
use tikblog_unsubscribe_plat.Analytics.Gold.Fresh.{date_in-none}
use tikblog_unsubscribe_plat.Analytics.Maintenance
use tikblog_unsubscribe_plat.Analytics.Maintenance.{between, known_dates}

false-true : false ≢ true
false-true e = cc

known_dates-date_in :
    (d : Option ℕ) (n : ℕ) (ds : List (Option ℕ))
    → d ≡ some n
    → Found d ds
    → date_in (known_dates ds) d ≡ true
unfolding any
known_dates-date_in d n [] is_date found = absurd found
known_dates-date_in none n (d' ∷ ds) is_date found = cc
known_dates-date_in (some m) n (none ∷ ds) is_date (inl same) = cc
known_dates-date_in (some m) n (none ∷ ds) is_date (inr found) =
    known_dates-date_in (some m) n ds is_date found
known_dates-date_in (some m) n (some x ∷ ds) is_date (inl same) = ground (arith, same)
known_dates-date_in (some m) n (some x ∷ ds) is_date (inr found) =
    ground (arith, known_dates-date_in (some m) n ds is_date found)

between-date : (start end : ℕ) (d : Option ℕ) → between start end d ≡ true → (n : ℕ) × (d ≡ some n)
between-date start end none h = cc
between-date start end (some n) h = (n, refl)

module _ {F W : Type 0} ⦃fl : Floats F⦄ (spark : Spark F W) (n : ℕ) (monitoring : Monitoring F)
    (distinct : FindsDistinct spark) (start end : ℕ) where
  -- Gold and Silver agree in the interval.
  pub record Rebuilt (l : Lake F) : Type 0 where
    pub counts :
        All
          (CountsRight spark n monitoring distinct l.silver)
          (select (λ g. between start end g.event_date) l.gold)
    pub covers :
        All
          (λ r. Any (λ g. gold_group g ≡ group_of r) l.gold)
          (select (λ r. between start end r.event.event_date) l.silver)

module _ {F W : Type 0} ⦃fl : Floats F⦄ (spark : Spark F W) (n : ℕ) (monitoring : Monitoring F)
    (distinct : FindsDistinct spark) (bronze_schema target : Schema) (start end : ℕ)
    (alone : (w : W) (l : Lake F)
      → ((spark.others w l).gold ≡ l.gold) × ((spark.others w l).silver ≡ l.silver))
    (some_attempt : 0 < n) where
  abbrev KeptAndAgrees : List ℕ → Lake F → Lake F → Type 0
  KeptAndAgrees dates before l =
      Kept spark n monitoring distinct dates before l
      × Agrees spark n monitoring distinct dates before l

  no_dates-Agrees : (l : Lake F) → KeptAndAgrees [] l l
  unfolding Gold.gold_on Gold.events_on
  no_dates-Agrees l =
      let no_gold : Gold.gold_on spark n monitoring [] l ≡ [] =
        select-none (λ g. date_in [] g.event_date) l.gold
          (Found-All (λ g. date_in [] g.event_date ≡ false) l.gold
            (λ g found. date_in-none g.event_date)) in
      let no_events : Gold.events_on spark n monitoring [] l ≡ [] =
        select-none (λ r. date_in [] r.event.event_date) l.silver
          (Found-All (λ r. date_in [] r.event.event_date ≡ false) l.silver
            (λ r found. date_in-none r.event.event_date)) in
      (
        (refl, refl),
        record {
          counts = subst (All (CountsRight spark n monitoring distinct l.silver)) (sym no_gold) tt;
          covers =
              subst
                (All (λ r.
                  Any (λ g. gold_group g ≡ group_of r) (Gold.gold_on spark n monitoring [] l)))
                (sym no_events) tt;
        },
      )

  refresh-KeptAndAgrees :
      (dates : List ℕ) (run_id : String) (s : Store F W)
      → (Gold.refresh spark n monitoring dates run_id s).0 ≡ ok tt
      → KeptAndAgrees dates s.lake (Gold.refresh spark n monitoring dates run_id s).1.lake
  unfolding Gold.refresh
  refresh-KeptAndAgrees [] run_id s returns = no_dates-Agrees s.lake
  refresh-KeptAndAgrees (d ∷ ds) run_id s returns =
      Ends-ok spark n (Kept spark n monitoring distinct (d ∷ ds) s.lake)
        (Agrees spark n monitoring distinct (d ∷ ds) s.lake)
        (Gold.refresh spark n monitoring (d ∷ ds) run_id s)
        (refresh-Agrees spark n monitoring distinct alone some_attempt d ds run_id s) returns

  -- Dates of rows in the interval are refreshed.
  backfill_dates-date_in :
      (d : Option ℕ) (l : Lake F)
      → between start end d ≡ true
      → Found d (
          map
            (λ r. r.event.event_date)
            (select (λ r. between start end r.event.event_date) l.silver)
          ++ map (λ g. g.event_date) (select (λ g. between start end g.event_date) l.gold))
      → date_in (Maintenance.backfill_dates spark n monitoring bronze_schema target start end l) d
        ≡ true
  unfolding Maintenance.backfill_dates
  backfill_dates-date_in d l inside found =
      let (day, is_date) = between-date start end d inside in
      let dates =
        map (λ r. r.event.event_date) (select (λ r. between start end r.event.event_date) l.silver)
        ++ map (λ g. g.event_date) (select (λ g. between start end g.event_date) l.gold) in
      known_dates-date_in d day (spark.distinct_dates dates) is_date (
        All-Found (λ e. Found e (spark.distinct_dates dates)) d dates (distinct.dates_covered dates)
          found)

  KeptAndAgrees-Rebuilt :
      (before l : Lake F)
      → KeptAndAgrees
          (Maintenance.backfill_dates spark n monitoring bronze_schema target start end before)
          before
          l
      → Rebuilt spark n monitoring distinct start end l
  unfolding Gold.gold_on Gold.events_on
  KeptAndAgrees-Rebuilt before l both =
      let dates =
        Maintenance.backfill_dates spark n monitoring bronze_schema target start end before in
      let inside : GoldRow → Bool = λ g. between start end g.event_date in
      let here : SilverRow → Bool = λ r. between start end r.event.event_date in
      let on : GoldRow → Bool = λ g. date_in dates g.event_date in
      record {
        counts =
            Found-All (CountsRight spark n monitoring distinct l.silver) (select inside l.gold)
              (λ g found.
                let in_gold = select-Any (λ x. x ≡ g) inside l.gold found in
                let is_inside =
                  All-Found (λ x. inside x ≡ true) g (select inside l.gold)
                    (select-passes inside l.gold) found in
                elim (Bool-cases (on g)) [
                  | inl refreshed ↦
                      subst (λ silver. CountsRight spark n monitoring distinct silver g)
                        (sym both.0.1)
                        (All-Found (CountsRight spark n monitoring distinct before.silver) g
                          (select on l.gold) both.1.counts
                          (Found-select on g l.gold refreshed in_gold))
                  | inr missed ↦
                      let left =
                        Found-select (λ x. not (on x)) g l.gold (rw (missed) refl) in_gold in
                      let earlier : Found g before.gold =
                        select-Any (λ x. x ≡ g) (λ x. not (on x)) before.gold
                          (subst (Found g) both.0.0 left) in
                      absurd (
                        false-true (
                          sym missed
                          ∙ backfill_dates-date_in g.event_date before is_inside (
                              Any-append_right (λ d. d ≡ g.event_date)
                                (map (λ r. r.event.event_date) (select here before.silver))
                                (map (λ x. x.event_date) (select inside before.gold))
                                (Found-map (λ x. x.event_date) g (select inside before.gold)
                                  (Found-select inside g before.gold is_inside earlier)))))
                ]);
        covers =
            subst
              (λ silver.
                All (λ r. Any (λ g. gold_group g ≡ group_of r) l.gold) (select here silver))
              (sym both.0.1)
              (Found-All (λ r. Any (λ g. gold_group g ≡ group_of r) l.gold)
                (select here before.silver)
                (λ r found.
                  let is_here =
                    All-Found (λ x. here x ≡ true) r (select here before.silver)
                      (select-passes here before.silver) found in
                  let refreshed = backfill_dates-date_in r.event.event_date before is_here (
                    Any-append_left (λ d. d ≡ r.event.event_date)
                      (map (λ x. x.event.event_date) (select here before.silver))
                      (map (λ x. x.event_date) (select inside before.gold))
                      (Found-map (λ x. x.event.event_date) r (select here before.silver) found)) in
                  select-Any (λ g. gold_group g ≡ group_of r) on l.gold
                    (All-Found (λ x. Any (λ g. gold_group g ≡ group_of x) (select on l.gold)) r
                      (select (λ x. date_in dates x.event.event_date) before.silver) both.1.covers
                      (Found-select (λ x. date_in dates x.event.event_date) r before.silver
                        refreshed (select-Any (λ x. x ≡ r) here before.silver found)))));
      }

  pub rebuild-Rebuilt :
      (run_id : String) (s : Store F W)
      → (Maintenance.rebuild spark n monitoring bronze_schema target start end run_id s).0 ≡ ok tt
      → Rebuilt spark n monitoring distinct start end
          (Maintenance.rebuild spark n monitoring bronze_schema target start end run_id s).1.lake
  unfolding Maintenance.rebuild
  rebuild-Rebuilt run_id s returns =
      let dates =
        Maintenance.backfill_dates spark n monitoring bronze_schema target start end s.lake in
      KeptAndAgrees-Rebuilt s.lake (Gold.refresh spark n monitoring dates run_id s).1.lake
        (refresh-KeptAndAgrees dates run_id s returns)
