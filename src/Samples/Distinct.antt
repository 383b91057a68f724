-- ===== src/Samples/Distinct.antt =====
-- The first row of each key, as Spark's `dropDuplicates`, `distinct` and `groupBy` find it.
use tikblog_unsubscribe_plat.Base.{
  ◌≤◌, ◌≡◌, ◌≢◌, ◌↔◌, refl, sym, not, inl, inr, Bool, true, List, [], ◌∷◌, map, arith,
}
use tikblog_unsubscribe_plat.Base.Tests.{Bool-cases}
use tikblog_unsubscribe_plat.Base.Lists.{length, length-select, select, All, Any}
use tikblog_unsubscribe_plat.Base.Members.{
  NoRepeat, NoRepeat-select, All-imp, All-map, All-select, select-passes,
}
use tikblog_unsubscribe_plat.Base.Found.{Found, Any-select}

module _ {A K : Type 0} (key : A → K) (same : K → K → Bool) where
  unfoldable pub first_of_each : List A → List A
  first_of_each [] = []
  first_of_each (x ∷ xs) = x ∷ select (λ y. not (same (key x) (key y))) (first_of_each xs)

  pub first_of_each-kept : (xs : List A) → All (λ x. Found x xs) (first_of_each xs)
  unfolding first_of_each
  first_of_each-kept [] = tt
  first_of_each-kept (x ∷ xs) = (
    inl refl,
    All-select (λ y. Found y (x ∷ xs)) (λ y. not (same (key x) (key y))) (first_of_each xs)
        (All-imp (λ y. Found y xs) (λ y. Found y (x ∷ xs)) (first_of_each xs) (λ y found. inr found)
          (first_of_each-kept xs)),
  )

  pub first_of_each-fewer : (xs : List A) → length (first_of_each xs) ≤ length xs
  unfolding first_of_each
  first_of_each-fewer [] = omega arith
  first_of_each-fewer (x ∷ xs) = omega (
    arith,
    first_of_each-fewer xs,
    length-select (λ y. not (same (key x) (key y))) (first_of_each xs),
  )

  module _ (decides : (a b : K) → (same a b ≡ true) ↔ (a ≡ b)) where
    pub first_of_each-NoRepeat : (xs : List A) → NoRepeat (map key (first_of_each xs))
    unfolding first_of_each
    first_of_each-NoRepeat [] = tt
    first_of_each-NoRepeat (x ∷ xs) =
        let other : A → Bool = λ y. not (same (key x) (key y)) in
        (
          All-map (λ k. k ≢ key x) key (select other (first_of_each xs))
              (All-imp (λ y. other y ≡ true) (λ y. key y ≢ key x) (select other (first_of_each xs))
                (λ y apart e. ground (arith, apart, (decides (key x) (key y)).1 (sym e)))
                (select-passes other (first_of_each xs))),
          NoRepeat-select key other (first_of_each xs) (first_of_each-NoRepeat xs),
        )

    pub first_of_each-covered :
        (xs : List A) → All (λ x. Any (λ y. key y ≡ key x) (first_of_each xs)) xs
    unfolding first_of_each
    first_of_each-covered [] = tt
    first_of_each-covered (x ∷ xs) = (
      inl refl,
      All-imp (λ z. Any (λ y. key y ≡ key z) (first_of_each xs))
          (λ z. Any (λ y. key y ≡ key z) (first_of_each (x ∷ xs))) xs
          (λ z found. covered_by z found) (first_of_each-covered xs),
    )
      where
        covered_by :
            (z : A)
            → Any (λ y. key y ≡ key z) (first_of_each xs)
            → Any (λ y. key y ≡ key z) (first_of_each (x ∷ xs))
        covered_by z found = elim (Bool-cases (same (key x) (key z))) [
          | inl equal ↦ inl ((decides (key x) (key z)).0 equal)
          | inr apart ↦ inr (
              Any-select (λ y. key y ≡ key z) (λ y. not (same (key x) (key y))) (first_of_each xs)
                (λ y e. rw (e, apart) refl) found)
        ]
