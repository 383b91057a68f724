-- ===== src/Analytics/Gold/Counts.antt =====
-- analytics/jobs/gold.py: after a refresh, Gold agrees with Silver on its dates.
use tikblog_unsubscribe_plat.Base.{
  ℕ, ◌<◌, ◌≡◌, ◌≢◌, refl, sym, ap, ◌∙◌, subst, inl, inr, String, true, false, List, [], ◌∷◌, map,
  arith,
}
use tikblog_unsubscribe_plat.Base.Tests.{Bool-cases}
use tikblog_unsubscribe_plat.Base.Lists.{length, select, count, All, Any}
use tikblog_unsubscribe_plat.Base.Members.{
  All-imp, Any-imp, All-map, Any-map, All-unmap, select-passes,
}
use tikblog_unsubscribe_plat.Base.Found.{Found, All-Found}
use tikblog_unsubscribe_plat.Base.Floats.{Floats}
use tikblog_unsubscribe_plat.Analytics.Sql.{same_number, same_number_iff}
use tikblog_unsubscribe_plat.Analytics.Status.{Monitoring}
use tikblog_unsubscribe_plat.Analytics.Lake.{SilverRow, GoldRow, Lake, Spark, Store}
use tikblog_unsubscribe_plat.Analytics.Lake.Retried.{Ends, Ends-imp}
use tikblog_unsubscribe_plat.Analytics.Gold
use tikblog_unsubscribe_plat.Analytics.Gold.Groups.{
  Group, group_of, gold_group, same_group, date_in,
}
use tikblog_unsubscribe_plat.Analytics.Gold.Refreshed.{
  FindsDistinct, Kept, Counted, refresh-Counted,
}

-- Rows of a date's group are rows of that date.
counted_once :
    (dates : List ℕ) (k : Group) (rs : List SilverRow)
    → date_in dates k.0 ≡ true
    → length (
        select (λ r. same_group k (group_of r)) (select (λ r. date_in dates r.event.event_date) rs))
      ≡ count (λ r. same_group k (group_of r)) rs
unfolding select count
counted_once dates k [] on = refl
counted_once dates k (r ∷ rs) on = elim (Bool-cases (date_in dates r.event.event_date)) [
  | inl on_r ↦ rw (on_r) (ground (arith, counted_once dates k rs on))
  | inr off_r ↦ elim (Bool-cases (same_number k.0 r.event.event_date)) [
    | inl same ↦ absurd (
        off_on (
          sym off_r
          ∙ (ap (date_in dates) (sym ((same_number_iff k.0 r.event.event_date).0 same)) ∙ on)))
    | inr other ↦ rw (off_r, other) (ground (arith, counted_once dates k rs on))
  ]
]
  where
    off_on : false ≢ true
    off_on e = cc

module _ {F W : Type 0} ⦃fl : Floats F⦄ (spark : Spark F W) (n : ℕ) (monitoring : Monitoring F)
    (distinct : FindsDistinct spark) where
  abbrev pub CountsRight : List SilverRow → GoldRow → Type 0
  CountsRight silver g =
      g.unsubscribe_count ≡ count (λ r. same_group (gold_group g) (group_of r)) silver

  -- The Gold rows of the dates count the Silver rows of their date and source, and every Silver row of
  -- the dates is counted by one.
  pub record Agrees (dates : List ℕ) (before l : Lake F) : Type 0 where
    pub counts : All (CountsRight before.silver) (Gold.gold_on spark n monitoring dates l)
    pub covers :
        All
          (λ r. Any (λ g. gold_group g ≡ group_of r) (Gold.gold_on spark n monitoring dates l))
          (Gold.events_on spark n monitoring dates before)

  fresh_rows-counts :
      (dates : List ℕ) (s : Store F W)
      → All (CountsRight s.lake.silver) (Gold.fresh_rows spark n monitoring dates s)
  unfolding Gold.fresh_rows Gold.daily_rows Gold.daily_row Gold.events_on
  fresh_rows-counts dates s =
      let events = Gold.events_on spark n monitoring dates s.lake in
      let groups = map group_of events in
      All-map (CountsRight s.lake.silver)
        (Gold.daily_row spark n monitoring (spark.now s.world) events)
        (spark.distinct_groups groups)
        (All-imp (λ k. Found k groups)
          (λ k.
            CountsRight s.lake.silver
              (Gold.daily_row spark n monitoring (spark.now s.world) events k))
          (spark.distinct_groups groups)
          (λ k found. counted_once dates k s.lake.silver (
            All-Found (λ j. date_in dates j.0 ≡ true) k groups
              (All-map (λ j. date_in dates j.0 ≡ true) group_of events
                (select-passes (λ r. date_in dates r.event.event_date) s.lake.silver))
              found))
          (distinct.groups_kept groups))

  pub fresh_rows-covers :
      (dates : List ℕ) (s : Store F W)
      → All
          (λ r.
            Any
              (λ g. (gold_group g ≡ group_of r) × (g.gold_updated_at ≡ spark.now s.world))
              (Gold.fresh_rows spark n monitoring dates s))
          (Gold.events_on spark n monitoring dates s.lake)
  unfolding Gold.fresh_rows Gold.daily_rows Gold.daily_row
  fresh_rows-covers dates s =
      let events = Gold.events_on spark n monitoring dates s.lake in
      let groups = map group_of events in
      All-unmap
        (λ k.
          Any (λ g. (gold_group g ≡ k) × (g.gold_updated_at ≡ spark.now s.world))
            (Gold.fresh_rows spark n monitoring dates s))
        group_of events
        (All-imp (λ k. Found k (spark.distinct_groups groups))
          (λ k.
            Any (λ g. (gold_group g ≡ k) × (g.gold_updated_at ≡ spark.now s.world))
              (Gold.fresh_rows spark n monitoring dates s))
          groups
          (λ k found.
            Any-map (λ g. (gold_group g ≡ k) × (g.gold_updated_at ≡ spark.now s.world))
              (Gold.daily_row spark n monitoring (spark.now s.world) events)
              (spark.distinct_groups groups)
              (Any-imp (λ j. j ≡ k) (λ j. (j ≡ k) × (spark.now s.world ≡ spark.now s.world)) _
                (λ j same. (same, refl)) found))
          (distinct.groups_covered groups))

  Counted-Agrees :
      (dates : List ℕ) (s : Store F W) (l : Lake F)
      → Counted spark n monitoring distinct dates s l
      → Agrees dates s.lake l
  Counted-Agrees dates s l counted = record {
    counts =
        subst (λ gs. All (CountsRight s.lake.silver) gs) (sym counted) (fresh_rows-counts dates s);
    covers =
        subst
          (λ gs.
            All (λ r. Any (λ g. gold_group g ≡ group_of r) gs)
              (Gold.events_on spark n monitoring dates s.lake))
          (sym counted)
          (All-imp _ _ (Gold.events_on spark n monitoring dates s.lake)
            (λ r.
              Any-imp (λ g. (gold_group g ≡ group_of r) × (g.gold_updated_at ≡ spark.now s.world))
                (λ g. gold_group g ≡ group_of r) (Gold.fresh_rows spark n monitoring dates s)
                (λ g both. both.0))
            (fresh_rows-covers dates s));
  }

  -- A refresh of one or more dates leaves Silver and the Gold rows of all other dates as they are,
  -- whether it returns or raises. If it returns, every Gold row of its dates counts the Silver rows of
  -- its date and source, and every Silver row of these dates has a Gold row of its date and source. It
  -- is assumed that `distinct` and `groupBy` find what Spark documents, that no other writer touches
  -- Silver or Gold meanwhile (the lock), and that a write is attempted at least once.
  pub refresh-Agrees :
      ((w : W) (l : Lake F)
        → ((spark.others w l).gold ≡ l.gold) × ((spark.others w l).silver ≡ l.silver))
      → 0 < n
      → (d : ℕ) (ds : List ℕ) (run_id : String) (s : Store F W)
      → Ends spark n
          (Kept spark n monitoring distinct (d ∷ ds) s.lake)
          (Agrees (d ∷ ds) s.lake)
          (Gold.refresh spark n monitoring (d ∷ ds) run_id s)
  refresh-Agrees alone some_attempt d ds run_id s =
      let kept = Kept spark n monitoring distinct (d ∷ ds) s.lake in
      Ends-imp spark n kept (λ l. kept l × Counted spark n monitoring distinct (d ∷ ds) s l) kept
        (Agrees (d ∷ ds) s.lake) (Gold.refresh spark n monitoring (d ∷ ds) run_id s)
        (λ l same. same) (λ l both. Counted-Agrees (d ∷ ds) s l both.1)
        (refresh-Counted spark n monitoring distinct alone some_attempt d ds run_id s)
