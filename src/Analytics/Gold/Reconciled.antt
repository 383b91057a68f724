-- ===== src/Analytics/Gold/Reconciled.antt =====
-- analytics/jobs/gold.py: the self-checks of a refresh.
use mathlib.Core.List.{append-nil}
use tikblog_unsubscribe_plat.Base.{
  ℕ, ◌<◌, ◌≤◌, ◌≡◌, refl, sym, ap, ◌∙◌, subst, not, ◌&&◌, String, Bool, true, false, inl, inr,
  Option, none, some, List, [], ◌∷◌, map, arith,
}
use tikblog_unsubscribe_plat.Base.Tests.{str_eq_refl}
use tikblog_unsubscribe_plat.Base.Errors.{ok}
use tikblog_unsubscribe_plat.Base.Lists.{
  length, length-select, select, count, any, flat_map, All, Any,
}
use tikblog_unsubscribe_plat.Base.Members.{
  All-imp, All-map, All-select, All-both, Any-any, select-none, select-passes,
}
use tikblog_unsubscribe_plat.Base.Found.{
  Found, Found-All, All-Found, Found-Any, Found-select, All-flat_map, count-none,
}
use tikblog_unsubscribe_plat.Base.Floats.{Floats}
use tikblog_unsubscribe_plat.Analytics.Sql.{Truth, is_true, is_not_null, same_text}
use tikblog_unsubscribe_plat.Analytics.Status.{Monitoring, dq_result}
use tikblog_unsubscribe_plat.Analytics.Lake.{SilverRow, GoldRow, Lake, Spark, Store}
use tikblog_unsubscribe_plat.Analytics.Lake.Retried.{Ends-ok}
use tikblog_unsubscribe_plat.Analytics.Gold
use tikblog_unsubscribe_plat.Analytics.Gold.Groups.{
  Group, group_of, gold_group, same_group, joins, joins-same, Joined, join_rows, full_join,
  gold_checks,
}
use tikblog_unsubscribe_plat.Analytics.Gold.Results.{Clean, reconciliation-Clean, full_join-Found}
use tikblog_unsubscribe_plat.Analytics.Gold.Refreshed.{FindsDistinct, Kept, Counted, overwrite-Ends}

length-map : {A B : Type 0} (f : A → B) (xs : List A) → length (map f xs) ≡ length xs
length-map f [] = refl
length-map f (x ∷ xs) = rw (length-map f xs) refl

-- A joined row passes all checks.
abbrev Passes : Joined → Type 0
Passes j = All (λ check. is_true (check.1 j) ≡ true) gold_checks

-- The two bounds on a Gold row.
abbrev Bounded : GoldRow → Type 0
Bounded g = (g.unique_readers ≤ g.unsubscribe_count) × (g.unique_writers ≤ g.unsubscribe_count)

-- A joined row has a Gold row and a count; the numbers of events are equal, and no number of readers or
-- writers is larger.
abbrev pub Matched : Joined → Type 0
Matched j =
    (g : GoldRow) × (c : GoldRow) × (j.gold ≡ some g)
    × (j.counted ≡ some c)
    × (g.unsubscribe_count ≡ c.unsubscribe_count)
    × (g.unique_readers ≤ g.unsubscribe_count)
    × (g.unique_writers ≤ g.unsubscribe_count)

Matched-Passes : (j : Joined) → Matched j → Passes j
unfolding gold_checks
Matched-Passes j (g, c, gold, counted, same, readers, writers) =
    rw (gold, counted)
      (
        ground arith,
        (ground (arith, readers), (ground (arith, writers), (ground (arith, same), tt))),
      )

joined-Matched :
    (g c : GoldRow)
    → Bounded g
    → g.unsubscribe_count ≡ c.unsubscribe_count
    → Matched (record { group = gold_group g; gold = some g; counted = some c })
joined-Matched g c bounds same = (g, c, refl, refl, same, bounds.0, bounds.1)

join_rows-Matched :
    (g : GoldRow) (cs : List GoldRow)
    → Bounded g
    → Any (λ c. c ≡ g) cs
    → All (λ c. g.unsubscribe_count ≡ c.unsubscribe_count) cs
    → All Matched (join_rows g cs)
join_rows-Matched g [] bounds found same = absurd found
join_rows-Matched g (c ∷ cs) bounds found same = All-map Matched _ (c ∷ cs) (
    All-imp (λ c. g.unsubscribe_count ≡ c.unsubscribe_count)
      (λ c. Matched (record { group = gold_group g; gold = some g; counted = some c })) (c ∷ cs)
      (λ c. joined-Matched g c bounds) same)

joins-named : (k : Group) → joins k k ≡ true → same_text k.1 k.1 ≡ true
joins-named (d, none) h = refl
joins-named (d, some s) h = str_eq_refl s

module _ {F W : Type 0} ⦃fl : Floats F⦄ (spark : Spark F W) (n : ℕ) (monitoring : Monitoring F)
    (distinct : FindsDistinct spark) where
  count_distinct-le :
      (f : SilverRow → Option String) (rows : List SilverRow)
      → Gold.count_distinct spark n monitoring (map f rows) ≤ length rows
  unfolding Gold.count_distinct
  count_distinct-le f rows = omega (
    arith,
    distinct.texts_fewer (select is_not_null (map f rows)),
    length-select is_not_null (map f rows),
    length-map f rows,
  )

  -- What the checks rest on: a row is in its own group, its numbers are bounded, and the count is
  -- determined by the group.
  record RowFits (count_of : Group → ℕ) (g : GoldRow) : Type 0 where
    named : joins (gold_group g) (gold_group g) ≡ true
    bounded : Bounded g
    counted : g.unsubscribe_count ≡ count_of (gold_group g)

  full_join-Matched :
      (count_of : Group → ℕ) (rows : List GoldRow)
      → All (RowFits count_of) rows
      → All Matched (full_join rows rows)
  unfolding full_join
  full_join-Matched count_of rows fits =
      let joined : All Matched (
          flat_map (λ g. join_rows g (select (λ c. joins (gold_group g) (gold_group c)) rows))
            rows) =
        All-flat_map Matched _ rows (
          Found-All
            (λ g.
              All Matched (join_rows g (select (λ c. joins (gold_group g) (gold_group c)) rows)))
            rows
            (λ g found.
              let fit = All-Found (RowFits count_of) g rows fits found in
              let matches : GoldRow → Bool = λ c. joins (gold_group g) (gold_group c) in
              join_rows-Matched g (select matches rows) fit.bounded
                (Found-select matches g rows fit.named found)
                (All-imp (λ c. (matches c ≡ true) × RowFits count_of c)
                  (λ c. g.unsubscribe_count ≡ c.unsubscribe_count) (select matches rows)
                  (λ c both.
                    fit.counted
                    ∙ (ap count_of (joins-same (gold_group g) (gold_group c) both.0)
                        ∙ sym both.1.counted))
                  (All-both (λ c. matches c ≡ true) (RowFits count_of) (select matches rows)
                    (select-passes matches rows)
                    (All-select (RowFits count_of) matches rows fits))))) in
      let no_others : select (λ c. not (any (λ g. joins (gold_group g) (gold_group c)) rows)) rows
          ≡ [] =
        select-none (λ c. not (any (λ g. joins (gold_group g) (gold_group c)) rows)) rows
          (Found-All (λ c. not (any (λ g. joins (gold_group g) (gold_group c)) rows) ≡ false) rows
            (λ c found.
              let fit = All-Found (RowFits count_of) c rows fits found in
              rw
                (Any-any (λ g. joins (gold_group g) (gold_group c)) rows
                  (Found-Any (λ g. joins (gold_group g) (gold_group c) ≡ true) c rows fit.named
                    found))
                refl)) in
      rw (no_others) (subst (All Matched) (sym (append-nil _)) joined)

  fresh_rows-fit :
      (dates : List ℕ) (s : Store F W)
      → All
          (λ r. joins (group_of r) (group_of r) ≡ true)
          (Gold.events_on spark n monitoring dates s.lake)
      → All
          (RowFits (λ k. length (
            select
              (λ r. same_group k (group_of r))
              (Gold.events_on spark n monitoring dates s.lake))))
          (Gold.fresh_rows spark n monitoring dates s)
  unfolding Gold.fresh_rows Gold.daily_rows Gold.daily_row
  fresh_rows-fit dates s named =
      let events = Gold.events_on spark n monitoring dates s.lake in
      let groups = map group_of events in
      let rows_of : Group → List SilverRow = λ k. select (λ r. same_group k (group_of r)) events in
      All-map (RowFits (λ k. length (rows_of k)))
        (Gold.daily_row spark n monitoring (spark.now s.world) events)
        (spark.distinct_groups groups)
        (All-imp (λ k. Found k groups)
          (λ k.
            RowFits (λ k. length (rows_of k))
              (Gold.daily_row spark n monitoring (spark.now s.world) events k))
          (spark.distinct_groups groups)
          (λ k found. record {
            named =
                All-Found (λ j. joins j j ≡ true) k groups
                  (All-map (λ j. joins j j ≡ true) group_of events named) found;
            bounded = (
              count_distinct-le (λ r. r.event.user_id) (rows_of k),
              count_distinct-le (λ r. r.event.writer_id) (rows_of k),
            );
            counted = refl;
          })
          (distinct.groups_kept groups))

  none_fail :
      (k : Option String) (rows : List Joined) (checks : List (String × (Joined → Truth)))
      → All (λ j. All (λ check. is_true (check.1 j) ≡ true) checks) rows
      → All
          (λ check. count (λ j. same_text k j.group.1 && not (is_true (check.1 j))) rows ≡ 0)
          checks
  none_fail k rows [] pass = tt
  none_fail k rows (check ∷ checks) pass = (
    count-none (λ j. same_text k j.group.1 && not (is_true (check.1 j))) rows
        (All-imp (λ j. All (λ c. is_true (c.1 j) ≡ true) (check ∷ checks))
          (λ j. (same_text k j.group.1 && not (is_true (check.1 j))) ≡ false) rows
          (λ j h. ground (arith, h.0)) pass),
    none_fail k rows checks (
        All-imp (λ j. All (λ c. is_true (c.1 j) ≡ true) (check ∷ checks))
          (λ j. All (λ c. is_true (c.1 j) ≡ true) checks) rows (λ j h. h.1) pass),
  )

  -- No joined row fails a check, so no result has a failed row.
  reconciliation-zero :
      (run_id : String) (rows : List Joined)
      → All Passes rows
      → All (λ r. r.failed_rows ≡ 0) (Gold.reconciliation spark n monitoring run_id rows)
  unfolding Gold.reconciliation Gold.reconciled dq_result
  reconciliation-zero run_id rows pass =
      All-flat_map (λ r. r.failed_rows ≡ 0) _ (spark.distinct_texts (map (λ j. j.group.1) rows))
        (Found-All _ (spark.distinct_texts (map (λ j. j.group.1) rows)) (λ k found.
          All-map (λ r. r.failed_rows ≡ 0) (Gold.reconciled spark n monitoring run_id rows k)
            gold_checks (none_fail k rows gold_checks pass)))

  -- What the self-checks say: each joined row has both sides, with numbers that agree; no result has a
  -- failed row; and for every Gold row, each of the four checks has a result for its source.
  abbrev pub Reconciled : String → List GoldRow → List GoldRow → Type 0
  Reconciled run_id actual counts =
      let rows = full_join actual counts in
      let results = Gold.reconciliation spark n monitoring run_id rows in
      All Matched rows
      × All (λ r. r.failed_rows ≡ 0) results
      × All
          (λ g.
            All (λ name. Any (Clean g.source name) results)
              ("nonnegative_count" ∷ "reader_bound" ∷ "writer_bound" ∷ "silver_reconciliation"
                ∷ []))
          actual

  module _
      (covered : (ts : List (Option String))
        → All (λ t. Found t (spark.distinct_texts ts)) ts) where
    full_join-Reconciled :
        (count_of : Group → ℕ) (run_id : String) (rows : List GoldRow)
        → All (RowFits count_of) rows
        → Reconciled run_id rows rows
    unfolding gold_checks
    full_join-Reconciled count_of run_id rows fits =
        let joined = full_join rows rows in
        let matched = full_join-Matched count_of rows fits in
        let zero =
          reconciliation-zero run_id joined
            (All-imp Matched Passes joined Matched-Passes matched) in
        (
          matched,
          zero,
          Found-All _ rows (λ g found.
              let fit = All-Found (RowFits count_of) g rows fits found in
              let j : Joined = record { group = gold_group g; gold = some g; counted = some g } in
              let there =
                full_join-Found spark n monitoring covered g rows rows found (
                  Found-select (λ c. joins (gold_group g) (gold_group c)) g rows fit.named found) in
              let clean : (check : String × (Joined → Truth))
                  → Found check gold_checks
                  → Any (Clean g.source check.0)
                      (Gold.reconciliation spark n monitoring run_id joined) =
                λ check checked.
                  reconciliation-Clean spark n monitoring covered run_id joined j check there
                    checked (joins-named (gold_group g) fit.named) zero in
              (
                clean _ (inl refl),
                (
                  clean _ (inr (inl refl)),
                  (clean _ (inr (inr (inl refl))), (clean _ (inr (inr (inr (inl refl)))), tt)),
                ),
              )),
        )

    -- The self-checks of a refresh find nothing: if the overwrite of the Gold rows of some dates returns,
    -- the Gold rows read back on these dates are the counts from Silver that were written. In their join
    -- each row has a Gold row and a count with the same number of events, which no number of readers or
    -- writers exceeds. For the source of every Gold row, each of the four checks then gives a result,
    -- which has looked at some row, and no result counts a failed row. It is assumed that the Silver
    -- rows of these dates have a date and a source, that `distinct` and `groupBy` find what Spark
    -- documents, that no other writer touches Silver or Gold meanwhile (the lock), and that a write is
    -- attempted at least once.
    pub overwrite-reconciliation :
        ((w : W) (l : Lake F)
          → ((spark.others w l).gold ≡ l.gold) × ((spark.others w l).silver ≡ l.silver))
        → 0 < n
        → (dates : List ℕ) (run_id : String) (s : Store F W)
        → All
            (λ r. joins (group_of r) (group_of r) ≡ true)
            (Gold.events_on spark n monitoring dates s.lake)
        → (Gold.overwrite spark n monitoring dates s).0 ≡ ok tt
        → let actual =
            Gold.gold_on spark n monitoring dates
              (Gold.overwrite spark n monitoring dates s).1.lake in
          let counts = Gold.fresh_rows spark n monitoring dates s in
          (actual ≡ counts) × Reconciled run_id actual counts
    overwrite-reconciliation alone some_attempt dates run_id s named returns =
        let rows = Gold.fresh_rows spark n monitoring dates s in
        let kept = Kept spark n monitoring distinct dates s.lake in
        let end =
          Ends-ok spark n kept (λ l. kept l × Counted spark n monitoring distinct dates s l)
            (Gold.overwrite spark n monitoring dates s)
            (overwrite-Ends spark n monitoring distinct alone some_attempt dates s) returns in
        (
          end.1.1,
          subst (λ actual. Reconciled run_id actual rows) (sym end.1.1)
              (full_join-Reconciled _ run_id rows (fresh_rows-fit dates s named)),
        )
