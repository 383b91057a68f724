-- ===== src/Analytics/Gold/Refreshed.antt =====
-- analytics/jobs/gold.py: what Gold holds after a refresh.
use mathlib.Core.List.{append-nil}
use tikblog_unsubscribe_plat.Base.{
  ℕ, ◌<◌, ◌≤◌, ◌≡◌, refl, ap, ◌∙◌, subst, not, inl, inr, String, Bool, true, false, Option, List,
  ◌∷◌, ◌++◌, map,
}
use tikblog_unsubscribe_plat.Base.Errors.{Result-cases}
use tikblog_unsubscribe_plat.Base.Lists.{length, select, All, Any, select-append}
use tikblog_unsubscribe_plat.Base.Members.{
  All-imp, All-at, All-map, select-none, select-whole, select-drops, select-passes,
}
use tikblog_unsubscribe_plat.Base.Floats.{Floats}
use tikblog_unsubscribe_plat.Analytics.Status.{Monitoring}
use tikblog_unsubscribe_plat.Analytics.Lake.{SilverRow, GoldRow, Lake, Spark, Store}
use tikblog_unsubscribe_plat.Analytics.Lake.Retried.{Ends, Ends-imp, retried-Ends, seq-Ends}
use tikblog_unsubscribe_plat.Analytics.Observed
use tikblog_unsubscribe_plat.Analytics.Observed.Kept.{
  KeptByMonitoring, write_dq-Ends, write_metrics-Ends,
}
use tikblog_unsubscribe_plat.Analytics.Gold
use tikblog_unsubscribe_plat.Analytics.Gold.Groups.{Group, group_of, date_in, full_join}

-- What Spark documents of `distinct` and `groupBy`: every value once, and no other. The first two
-- follow for groups, the third for the number of distinct texts.
pub record FindsDistinct {F W : Type 0} (spark : Spark F W) : Type 0 where
  pub groups_kept : (ks : List Group) → All (λ k. Any (λ j. j ≡ k) ks) (spark.distinct_groups ks)
  pub groups_covered : (ks : List Group) → All (λ k. Any (λ j. j ≡ k) (spark.distinct_groups ks)) ks
  pub dates_covered :
      (ds : List (Option ℕ)) → All (λ d. Any (λ e. e ≡ d) (spark.distinct_dates ds)) ds
  pub texts_fewer : (ts : List (Option String)) → length (spark.distinct_texts ts) ≤ length ts

module _ {F W : Type 0} ⦃fl : Floats F⦄ (spark : Spark F W) (n : ℕ) (monitoring : Monitoring F)
    (distinct : FindsDistinct spark) where
  abbrev on_dates : List ℕ → GoldRow → Bool
  on_dates dates g = date_in dates g.event_date

  -- The rows of the counts are on the dates.
  daily_rows-on :
      (dates : List ℕ) (now : ℕ) (events : List SilverRow)
      → All (λ r. date_in dates r.event.event_date ≡ true) events
      → All (λ g. on_dates dates g ≡ true) (Gold.daily_rows spark n monitoring now events)
  unfolding Gold.daily_rows Gold.daily_row
  daily_rows-on dates now events h =
      All-map (λ g. on_dates dates g ≡ true) _ (spark.distinct_groups (map group_of events))
        (All-imp (λ k. Any (λ j. j ≡ k) (map group_of events)) (λ k. date_in dates k.0 ≡ true)
          (spark.distinct_groups (map group_of events))
          (λ k.
            All-at (λ j. date_in dates j.0 ≡ true) (date_in dates k.0 ≡ true) (map group_of events)
              (λ j. j ≡ k) (λ j on same. subst (λ i. date_in dates i.0 ≡ true) same on)
              (All-map (λ j. date_in dates j.0 ≡ true) group_of events h))
          (distinct.groups_kept (map group_of events)))

  abbrev off_dates : List ℕ → Lake F → List GoldRow
  off_dates dates l = select (λ g. not (on_dates dates g)) l.gold

  replace_dates-silver :
      (dates : List ℕ) (rows : List GoldRow) (l : Lake F)
      → (Gold.replace_dates spark n monitoring dates rows l).silver ≡ l.silver
  unfolding Gold.replace_dates
  replace_dates-silver dates rows l = refl

  module _ (dates : List ℕ) (rows : List GoldRow)
      (on : All (λ g. on_dates dates g ≡ true) rows) where
    -- The overwrite replaces the rows of the dates and keeps the others.
    replace_dates-on :
        (l : Lake F)
        → Gold.gold_on spark n monitoring dates (Gold.replace_dates spark n monitoring dates rows l)
          ≡ rows
    unfolding Gold.gold_on Gold.replace_dates
    replace_dates-on l =
        let off = select (λ g. not (on_dates dates g)) l.gold in
        select-append (on_dates dates) off rows
        ∙ (ap (λ xs. xs ++ select (on_dates dates) rows)
              (select-none (on_dates dates) off (select-drops (on_dates dates) l.gold))
            ∙ select-whole (on_dates dates) rows on)

    replace_dates-off :
        (l : Lake F)
        → off_dates dates (Gold.replace_dates spark n monitoring dates rows l) ≡ off_dates dates l
    unfolding Gold.replace_dates
    replace_dates-off l =
        select-append (λ g. not (on_dates dates g)) (off_dates dates l) rows
        ∙ (ap (λ xs. select (λ g. not (on_dates dates g)) (off_dates dates l) ++ xs)
              (select-none (λ g. not (on_dates dates g)) rows
                (All-imp (λ g. on_dates dates g ≡ true) (λ g. not (on_dates dates g) ≡ false) rows
                  (λ g h. rw (h) refl) on))
            ∙ (append-nil _
                ∙ select-whole (λ g. not (on_dates dates g)) (off_dates dates l)
                    (select-passes (λ g. not (on_dates dates g)) l.gold)))

  -- What follows the overwrite touches the monitoring tables only.
  report-Ends :
      0 < n
      → (P : Lake F → Type 0) → KeptByMonitoring spark n P
      → (dates : List ℕ) (run_id : String) (events : List SilverRow) (counts : List GoldRow)
        (s : Store F W)
      → P s.lake
      → Ends spark n P P (Gold.report spark n monitoring dates run_id events counts s)
  unfolding Gold.report
  report-Ends some_attempt P kept dates run_id events counts s h =
      let actual = Gold.gold_on spark n monitoring dates s.lake in
      elim (Result-cases (
        Observed.latency_metrics spark monitoring (Gold.gold_times spark n monitoring actual events)
          "e2e" run_id "gold_refresh" (Gold.gold_sources spark n monitoring actual events))) [
            | inl (metrics, measured) ↦
                let results =
                  Gold.reconciliation spark n monitoring run_id (full_join actual counts) in
                rw (measured, Gold.report)
                  (seq-Ends spark n P P P (Observed.write_dq spark n results)
                    (Observed.write_metrics spark n metrics) s
                    (write_dq-Ends spark n some_attempt P kept results s h)
                    (λ s' i j. write_metrics-Ends spark n some_attempt P kept metrics s' i))
            | inr (e, fails) ↦ rw (fails, Gold.report) h
          ]

  -- The rows of the other dates are as before, and so is Silver.
  abbrev pub Kept : List ℕ → Lake F → Lake F → Type 0
  Kept dates before l = (off_dates dates l ≡ off_dates dates before) × (l.silver ≡ before.silver)

  -- The rows of the dates are the counts of the Silver rows on them.
  abbrev pub Counted : List ℕ → Store F W → Lake F → Type 0
  Counted dates s l =
      Gold.gold_on spark n monitoring dates l ≡ Gold.fresh_rows spark n monitoring dates s

  gold_on-same :
      (dates : List ℕ) (l l' : Lake F)
      → l.gold ≡ l'.gold
      → Gold.gold_on spark n monitoring dates l ≡ Gold.gold_on spark n monitoring dates l'
  unfolding Gold.gold_on
  gold_on-same dates l l' same = ap (λ g. select (on_dates dates) g) same

  module _
      (alone : (w : W) (l : Lake F)
        → ((spark.others w l).gold ≡ l.gold) × ((spark.others w l).silver ≡ l.silver))
      (some_attempt : 0 < n) where
    pub overwrite-Ends :
        (dates : List ℕ) (s : Store F W)
        → Ends spark n
            (Kept dates s.lake)
            (λ l. Kept dates s.lake l × Counted dates s l)
            (Gold.overwrite spark n monitoring dates s)
    unfolding Gold.events_on Gold.overwrite Gold.fresh_rows
    overwrite-Ends dates s =
        let events = Gold.events_on spark n monitoring dates s.lake in
        let rows = Gold.daily_rows spark n monitoring (spark.now s.world) events in
        let on =
          daily_rows-on dates (spark.now s.world) events
            (select-passes (λ r. date_in dates r.event.event_date) s.lake.silver) in
        retried-Ends spark n (Kept dates s.lake) (λ l. Kept dates s.lake l × Counted dates s l)
          (λ w l kept. (
            ap (λ g. select (λ r. not (on_dates dates r)) g) (alone w l).0 ∙ kept.0,
            (alone w l).1 ∙ kept.1,
          ))
          (Gold.replace_dates spark n monitoring dates rows)
          (λ l kept.
            let off = replace_dates-off dates rows on l ∙ kept.0 in
            let same = replace_dates-silver dates rows l ∙ kept.1 in
            ((off, same), ((off, same), replace_dates-on dates rows on l)))
          s some_attempt (refl, refl)

    -- `refresh` keeps Silver and the Gold rows of the other dates, and if it returns, the Gold rows of
    -- its dates are the counts.
    pub refresh-Counted :
        (d : ℕ) (ds : List ℕ) (run_id : String) (s : Store F W)
        → Ends spark n
            (Kept (d ∷ ds) s.lake)
            (λ l. Kept (d ∷ ds) s.lake l × Counted (d ∷ ds) s l)
            (Gold.refresh spark n monitoring (d ∷ ds) run_id s)
    unfolding Gold.refresh
    refresh-Counted d ds run_id s =
        let dates = d ∷ ds in
        let events = Gold.events_on spark n monitoring dates s.lake in
        let rows = Gold.fresh_rows spark n monitoring dates s in
        let I = Kept dates s.lake in
        let J : Lake F → Type 0 = λ l. Kept dates s.lake l × Counted dates s l in
        let kept : KeptByMonitoring spark n J = record {
          others = λ w l both. (
            (
              ap (λ g. select (λ r. not (on_dates dates r)) g) (alone w l).0 ∙ both.0.0,
              (alone w l).1 ∙ both.0.1,
            ),
            gold_on-same dates (spark.others w l) l (alone w l).0 ∙ both.1,
          );
          results = λ l rs both.
              (both.0, gold_on-same dates (record l { dq_results = rs }) l refl ∙ both.1);
          metrics = λ l rs both.
              (both.0, gold_on-same dates (record l { pipeline_metrics = rs }) l refl ∙ both.1);
          alerts = λ l rs both.
              (both.0, gold_on-same dates (record l { alert_events = rs }) l refl ∙ both.1);
        } in
        seq-Ends spark n I J J (Gold.overwrite spark n monitoring dates)
          (Gold.report spark n monitoring dates run_id events rows) s (overwrite-Ends dates s)
          (λ s' i j.
            Ends-imp spark n J J I J (Gold.report spark n monitoring dates run_id events rows s')
              (λ l both. both.0) (λ l both. both)
              (report-Ends some_attempt J kept dates run_id events rows s' j))
