-- ===== src/Analytics/Gold/Fresh.antt =====
-- analytics/jobs/gold.py: a refresh of the dates that `touched` finds leaves nothing pending.
use tikblog_unsubscribe_plat.Base.{
  ℕ, ◌-◌, ◌*◌, ◌<◌, ◌≤◌, ◌≡◌, ◌≢◌, refl, sym, ap, ◌∙◌, subst, not, ◌&&◌, inl, inr, String, Bool,
  true, false, Option, none, some, List, [], ◌∷◌, ◌++◌, map, arith,
}
use tikblog_unsubscribe_plat.Base.Tests.{ltb, Bool-cases}
use tikblog_unsubscribe_plat.Base.Errors.{ok}
use tikblog_unsubscribe_plat.Base.Lists.{select, any, All, Any, Any-append_right}
use tikblog_unsubscribe_plat.Base.Members.{Any-imp, any-Any, any-none, All-Any}
use tikblog_unsubscribe_plat.Base.Found.{
  Found, Found-All, All-Found, Found-select, Found-map, select-Any, Any-select,
}
use tikblog_unsubscribe_plat.Base.Floats.{Floats}
use tikblog_unsubscribe_plat.Analytics.Sql.{same_text_refl, same_number_refl}
use tikblog_unsubscribe_plat.Analytics.Status.{Monitoring}
use tikblog_unsubscribe_plat.Analytics.Lake.{SilverRow, GoldRow, Lake, Spark, Store}
use tikblog_unsubscribe_plat.Analytics.Lake.Retried.{Ends-ok}
use tikblog_unsubscribe_plat.Analytics.Gold
use tikblog_unsubscribe_plat.Analytics.Gold.Groups.{
  Group, group_of, gold_group, same_group, joins, joins-same, date_in, silver_latest, is_pending,
}
use tikblog_unsubscribe_plat.Analytics.Gold.Refreshed.{
  FindsDistinct, Kept, Counted, refresh-Counted,
}
use tikblog_unsubscribe_plat.Analytics.Gold.Counts.{fresh_rows-covers}

-- A Silver row shows in Gold: its date and source have a row that is not older.
abbrev pub Shows : List GoldRow → SilverRow → Type 0
Shows gold r =
    Any (λ g. (gold_group g ≡ group_of r) × (r.silver_processed_at ≤ g.gold_updated_at)) gold

same_group_refl : (k : Group) → same_group k k ≡ true
same_group_refl k = rw (same_number_refl k.0, same_text_refl k.1) refl

-- The latest row of a group is not older than any.
silver_latest-le :
    (r : SilverRow) (rs : List SilverRow)
    → Found r rs
    → r.silver_processed_at ≤ silver_latest (group_of r) rs
unfolding silver_latest
silver_latest-le r [] found = absurd found
silver_latest-le r (x ∷ xs) (inl same) =
    subst (λ y. r.silver_processed_at ≤ silver_latest (group_of r) (y ∷ xs)) (sym same)
      (rw (same_group_refl (group_of r)) (ground arith))
silver_latest-le r (x ∷ xs) (inr found) = ground (arith, silver_latest-le r xs found)

-- What is not pending shows.
settled-Shows :
    (gold : List GoldRow) (r : SilverRow) (time : ℕ)
    → is_pending gold (group_of r) time ≡ false
    → r.silver_processed_at ≤ time
    → Shows gold r
unfolding is_pending
settled-Shows gold r time settled older =
    let matches : GoldRow → Bool = λ g. joins (group_of r) (gold_group g) in
    let some_match : any matches gold ≡ true = ground arith in
    let none_older : any (λ g. matches g && ltb g.gold_updated_at time) gold ≡ false =
      ground arith in
    All-Any (λ g. (matches g && ltb g.gold_updated_at time) ≡ false) (λ g. matches g ≡ true)
      (λ g. (gold_group g ≡ group_of r) × (r.silver_processed_at ≤ g.gold_updated_at)) gold
      (λ g fresh match.
        (sym (joins-same (group_of r) (gold_group g) match), ground (arith, fresh, match, older)))
      (any-none (λ g. matches g && ltb g.gold_updated_at time) gold none_older)
      (any-Any matches gold some_match)

Found-date_in : (d : Option ℕ) (dates : List ℕ) → Found d (map some dates) → date_in dates d ≡ true
unfolding any
Found-date_in d [] found = absurd found
Found-date_in d (x ∷ xs) (inl same) = subst (λ e. date_in (x ∷ xs) e ≡ true) same (ground arith)
Found-date_in none (x ∷ xs) (inr found) = absurd (none_later xs found)
  where
    none_later : (ys : List ℕ) → Found none (map some ys) → ⊥
    none_later [] found = found
    none_later (y ∷ ys) (inl same) = cc
    none_later (y ∷ ys) (inr found) = none_later ys found
Found-date_in (some d) (x ∷ xs) (inr found) = ground (arith, Found-date_in (some d) xs found)

pub date_in-none : (d : Option ℕ) → date_in [] d ≡ false
unfolding any
date_in-none none = refl
date_in-none (some d) = refl

false-true : false ≢ true
false-true e = cc

module _ {F W : Type 0} ⦃fl : Floats F⦄ (spark : Spark F W) (n : ℕ) (monitoring : Monitoring F)
    (distinct : FindsDistinct spark) (lookback start end : ℕ) where
  -- The date of a pending group is touched.
  touched-pending :
      (l : Lake F) (r : SilverRow)
      → Found r l.silver
      → is_pending l.gold (group_of r) (silver_latest (group_of r) l.silver) ≡ true
      → Found r.event.event_date (Gold.touched spark n monitoring lookback start end l)
  unfolding Gold.touched Gold.pending_dates
  touched-pending l r found pending =
      let groups = spark.distinct_groups (map group_of l.silver) in
      let stale : Group → Bool = λ k. is_pending l.gold k (silver_latest k l.silver) in
      let known : Found (group_of r) groups =
        All-Found (λ k. Found k groups) (group_of r) (map group_of l.silver)
          (distinct.groups_covered (map group_of l.silver)) (Found-map group_of r l.silver found) in
      let dates =
        Gold.interval_dates spark n monitoring (start - lookback * 60000000) end l
        ++ Gold.pending_dates spark n monitoring l in
      All-Found (λ d. Found d (spark.distinct_dates dates)) r.event.event_date dates
        (distinct.dates_covered dates)
        (Any-append_right (λ d. d ≡ r.event.event_date)
          (Gold.interval_dates spark n monitoring (start - lookback * 60000000) end l)
          (Gold.pending_dates spark n monitoring l)
          (Found-map (λ k. k.0) (group_of r) (select stale groups)
            (Found-select stale (group_of r) groups pending known)))

  -- A row whose date is not refreshed shows already.
  untouched-Shows :
      (dates : List ℕ) (l : Lake F) (r : SilverRow)
      → Gold.touched spark n monitoring lookback start end l ≡ map some dates
      → Found r l.silver
      → date_in dates r.event.event_date ≡ false
      → Shows l.gold r
  untouched-Shows dates l r touches found off =
      let time = silver_latest (group_of r) l.silver in
      elim (Bool-cases (is_pending l.gold (group_of r) time)) [
        | inl pending ↦ absurd (
            false-true (
              sym off
              ∙ Found-date_in r.event.event_date dates (
                  subst (λ ds. Found r.event.event_date ds) touches
                    (touched-pending l r found pending))))
        | inr settled ↦ settled-Shows l.gold r time settled (silver_latest-le r l.silver found)
      ]

  -- Rows of other dates are not touched by the overwrite.
  Shows-off :
      (dates : List ℕ) (before l : Lake F) (r : SilverRow)
      → Kept spark n monitoring distinct dates before l
      → date_in dates r.event.event_date ≡ false
      → Shows before.gold r
      → Shows l.gold r
  Shows-off dates before l r kept off shows =
      let On : GoldRow → Bool = λ g. date_in dates g.event_date in
      let Shown : GoldRow → Type 0 =
        λ g. (gold_group g ≡ group_of r) × (r.silver_processed_at ≤ g.gold_updated_at) in
      let off_shown : Any Shown (select (λ g. not (On g)) before.gold) =
        Any-select Shown (λ g. not (On g)) before.gold
          (λ g shown. rw (ap (λ k. date_in dates k.0) shown.0, off) refl) shows in
      select-Any Shown (λ g. not (On g)) l.gold (subst (Any Shown) (sym kept.0) off_shown)

  -- A row of a refreshed date is counted by a new row.
  Shows-on :
      (dates : List ℕ) (s : Store F W) (l : Lake F) (r : SilverRow)
      → Counted spark n monitoring distinct dates s l
      → r.silver_processed_at ≤ spark.now s.world
      → Found r s.lake.silver
      → date_in dates r.event.event_date ≡ true
      → Shows l.gold r
  unfolding Gold.gold_on Gold.events_on
  Shows-on dates s l r counted older found on =
      let New : GoldRow → Type 0 =
        λ g. (gold_group g ≡ group_of r) × (g.gold_updated_at ≡ spark.now s.world) in
      let rows : Any New (Gold.fresh_rows spark n monitoring dates s) =
        All-Found
          (λ x.
            Any (λ g. (gold_group g ≡ group_of x) × (g.gold_updated_at ≡ spark.now s.world))
              (Gold.fresh_rows spark n monitoring dates s))
          r (Gold.events_on spark n monitoring dates s.lake)
          (fresh_rows-covers spark n monitoring distinct dates s)
          (Found-select (λ x. date_in dates x.event.event_date) r s.lake.silver on found) in
      select-Any (λ g. (gold_group g ≡ group_of r) × (r.silver_processed_at ≤ g.gold_updated_at))
        (λ g. date_in dates g.event_date) l.gold
        (Any-imp New
          (λ g. (gold_group g ≡ group_of r) × (r.silver_processed_at ≤ g.gold_updated_at))
          (Gold.gold_on spark n monitoring dates l) (λ g new. (new.0, ground (arith, new.1, older)))
          (subst (Any New) (sym counted) rows))

  -- `touched` and `refresh` together leave nothing pending: when a refresh of the dates that `touched`
  -- finds, for whatever interval and lookback, returns, every Silver row has a Gold row of its date and
  -- source that is not older than it. It is assumed that none of the dates is NULL, that no Silver row
  -- is later than the time of the refresh, that `distinct` and `groupBy` find what Spark documents, that
  -- no other writer touches Silver or Gold meanwhile (the lock), and that a write is attempted at least
  -- once.
  pub refresh-Shows :
      ((w : W) (l : Lake F)
        → ((spark.others w l).gold ≡ l.gold) × ((spark.others w l).silver ≡ l.silver))
      → 0 < n
      → (dates : List ℕ) (run_id : String) (s : Store F W)
      → Gold.touched spark n monitoring lookback start end s.lake ≡ map some dates
      → All (λ r. r.silver_processed_at ≤ spark.now s.world) s.lake.silver
      → (Gold.refresh spark n monitoring dates run_id s).0 ≡ ok tt
      → All
          (Shows (Gold.refresh spark n monitoring dates run_id s).1.lake.gold)
          (Gold.refresh spark n monitoring dates run_id s).1.lake.silver
  unfolding Gold.refresh
  refresh-Shows alone some_attempt [] run_id s touches older returns =
      Found-All (Shows s.lake.gold) s.lake.silver
        (λ r found. untouched-Shows [] s.lake r touches found (date_in-none r.event.event_date))
  refresh-Shows alone some_attempt (d ∷ ds) run_id s touches older returns =
      let dates = d ∷ ds in
      let kept = Kept spark n monitoring distinct dates s.lake in
      let run = Gold.refresh spark n monitoring dates run_id s in
      let end =
        Ends-ok spark n kept (λ l. kept l × Counted spark n monitoring distinct dates s l) run
          (refresh-Counted spark n monitoring distinct alone some_attempt d ds run_id s) returns in
      subst (All (Shows run.1.lake.gold)) (sym end.0.1) (
        Found-All (Shows run.1.lake.gold) s.lake.silver (λ r found.
          elim (Bool-cases (date_in dates r.event.event_date)) [
            | inl on ↦
                Shows-on dates s run.1.lake r end.1.1
                  (All-Found (λ x. x.silver_processed_at ≤ spark.now s.world) r s.lake.silver older
                    found)
                  found on
            | inr off ↦
                Shows-off dates s.lake run.1.lake r end.0 off
                  (untouched-Shows dates s.lake r touches found off)
          ]))
