-- ===== src/Analytics/Gold/Results.antt =====
-- analytics/jobs/gold.py: which results the self-checks of a refresh give.
use tikblog_unsubscribe_plat.Base.{
  ℕ, ◌≤◌, ◌≡◌, refl, inl, inr, String, Bool, true, false, Option, none, some, List, [], ◌∷◌, map,
  arith,
}
use tikblog_unsubscribe_plat.Base.Tests.{str_eq, if◌then◌else◌}
use tikblog_unsubscribe_plat.Base.Lists.{
  select, count, flat_map, All, Any, Any-append_left, Any-append_right,
}
use tikblog_unsubscribe_plat.Base.Found.{Found, All-Found, Found-Any, Found-map}
use tikblog_unsubscribe_plat.Base.Floats.{Floats}
use tikblog_unsubscribe_plat.Analytics.Sql.{Truth, same_text}
use tikblog_unsubscribe_plat.Analytics.Status.{Row, Monitoring, dq_result}
use tikblog_unsubscribe_plat.Analytics.Lake.{GoldRow, Spark}
use tikblog_unsubscribe_plat.Analytics.Gold
use tikblog_unsubscribe_plat.Analytics.Gold.Groups.{
  gold_group, joins, Joined, join_rows, full_join, gold_checks,
}

Found-flat_map :
    {A B : Type 0} (f : A → List B) (y : B) (x : A) (xs : List A)
    → Found y (f x)
    → Found x xs
    → Found y (flat_map f xs)
unfolding flat_map
Found-flat_map f y x [] there found = absurd found
Found-flat_map f y x (z ∷ zs) there (inl same) =
    Any-append_left (λ b. b ≡ y) (f z) (flat_map f zs) (rw same there)
Found-flat_map f y x (z ∷ zs) there (inr found) =
    Any-append_right (λ b. b ≡ y) (f z) (flat_map f zs) (Found-flat_map f y x zs there found)

count-Found :
    {A : Type 0} (p : A → Bool) (x : A) (xs : List A) → p x ≡ true → Found x xs → 1 ≤ count p xs
unfolding count
count-Found p x [] h found = absurd found
count-Found p x (y ∷ ys) h (inl same) = rw (same, h) (omega arith)
count-Found p x (y ∷ ys) h (inr found) = omega (arith, count-Found p x ys h found)

join_rows-Found :
    (g : GoldRow) (cs : List GoldRow)
    → Found g cs
    → Found (record { group = gold_group g; gold = some g; counted = some g }) (join_rows g cs)
join_rows-Found g [] found = absurd found
join_rows-Found g (c ∷ cs) found =
    Found-map (λ d. record { group = gold_group g; gold = some g; counted = some d }) g (c ∷ cs)
      found

-- The source that a result names.
abbrev pub shown_source : Option String → String
shown_source none = "UNKNOWN"
shown_source (some s) = if str_eq s "" then "UNKNOWN" else s

-- A result of a check for a source: it has looked at some row, and no row has failed.
abbrev pub Clean : {F : Type 0} → Option String → String → Row F → Type 0
Clean k name r =
    (r.source ≡ shown_source k)
    × (r.check_name ≡ some name)
    × (1 ≤ r.total_rows)
    × (r.failed_rows ≡ 0)

dq_result-source :
    {F : Type 0} ⦃fl : Floats F⦄ (m : Monitoring F) (run_id pipeline : String) (k : Option String)
    (check : String) (total failed : ℕ) (force : Bool)
    → (dq_result m run_id pipeline k check total failed force).source ≡ shown_source k
unfolding dq_result
dq_result-source m run_id pipeline none check total failed force = refl
dq_result-source m run_id pipeline (some s) check total failed force = refl

module _ {F W : Type 0} ⦃fl : Floats F⦄ (spark : Spark F W) (n : ℕ) (monitoring : Monitoring F)
    (covered : (ts : List (Option String)) → All (λ t. Found t (spark.distinct_texts ts)) ts) where
  pub reconciliation-Clean :
      (run_id : String) (rows : List Joined) (j : Joined) (check : String × (Joined → Truth))
      → Found j rows
      → Found check gold_checks
      → same_text j.group.1 j.group.1 ≡ true
      → All (λ r. r.failed_rows ≡ 0) (Gold.reconciliation spark n monitoring run_id rows)
      → Any (Clean j.group.1 check.0) (Gold.reconciliation spark n monitoring run_id rows)
  unfolding Gold.reconciliation Gold.reconciled dq_result
  reconciliation-Clean run_id rows j check found checked named zero =
      let k : Option String = j.group.1 in
      let ks = map (λ (i : Joined). i.group.1) rows in
      let r = Gold.reconciled spark n monitoring run_id rows k check in
      let results : List (Row F) = Gold.reconciliation spark n monitoring run_id rows in
      let here : Found r results =
        Found-flat_map (λ k. map (Gold.reconciled spark n monitoring run_id rows k) gold_checks) r k
          (spark.distinct_texts ks)
          (Found-map (Gold.reconciled spark n monitoring run_id rows k) check gold_checks checked)
          (All-Found (λ t. Found t (spark.distinct_texts ks)) k ks (covered ks)
            (Found-map (λ (i : Joined). i.group.1) j rows found)) in
      Found-Any (Clean k check.0) r results
        (
          dq_result-source monitoring run_id "gold_refresh" k check.0 r.total_rows r.failed_rows
              false,
          refl,
          count-Found (λ (i : Joined). same_text k i.group.1) j rows named found,
          All-Found (λ r. r.failed_rows ≡ 0) r results zero here,
        )
        here

  -- A Gold row that is counted, too, is joined with its count.
  pub full_join-Found :
      (g : GoldRow) (actual counts : List GoldRow)
      → Found g actual
      → Found g (select (λ c. joins (gold_group g) (gold_group c)) counts)
      → Found
          (record { group = gold_group g; gold = some g; counted = some g })
          (full_join actual counts)
  unfolding full_join
  full_join-Found g actual counts found counted =
      let j : Joined = record { group = gold_group g; gold = some g; counted = some g } in
      Any-append_left (λ i. i ≡ j)
        (flat_map (λ g. join_rows g (select (λ c. joins (gold_group g) (gold_group c)) counts))
          actual)
        _
        (Found-flat_map
          (λ g. join_rows g (select (λ c. joins (gold_group g) (gold_group c)) counts)) j g actual
          (join_rows-Found g (select (λ c. joins (gold_group g) (gold_group c)) counts) counted)
          found)
