-- ===== src/Analytics/Decode/Parts.antt =====
-- analytics/common/avro.py: the groups of a batch by schema id part it.
use tikblog_unsubscribe_plat.Base.{
  ℕ, ◌+◌, ◌≡◌, ◌≢◌, refl, sym, subst, inl, inr, Option, List, [], ◌∷◌, arith,
}
use tikblog_unsubscribe_plat.Base.Tests.{Bool-cases}
use tikblog_unsubscribe_plat.Base.Lists.{length, select, All}
use tikblog_unsubscribe_plat.Base.Members.{NoRepeat}
use tikblog_unsubscribe_plat.Base.Found.{Found, All-Found}
use tikblog_unsubscribe_plat.Analytics.Sql.{same_number, same_number_iff}

module _ {A : Type 0} (key : A → Option ℕ) where
  -- The elements of all groups.
  abbrev pub parts : List A → List (Option ℕ) → ℕ
  parts xs [] = 0
  parts xs (i ∷ is) = length (select (λ x. same_number (key x) i) xs) + parts xs is

  parts-nil : (is : List (Option ℕ)) → parts [] is ≡ 0
  unfolding select
  parts-nil [] = refl
  parts-nil (i ∷ is) = omega (arith, parts-nil is)

  parts-cons :
      (x : A) (xs : List A) (is : List (Option ℕ))
      → parts (x ∷ xs) is ≡ parts (x ∷ []) is + parts xs is
  unfolding select
  parts-cons x xs [] = refl
  parts-cons x xs (i ∷ is) = ground (arith, parts-cons x xs is)

  parts-other : (x : A) (is : List (Option ℕ)) → All (λ i. i ≢ key x) is → parts (x ∷ []) is ≡ 0
  unfolding select
  parts-other x [] apart = refl
  parts-other x (i ∷ is) apart = elim (Bool-cases (same_number (key x) i)) [
    | inl same ↦ absurd (apart.0 (sym ((same_number_iff (key x) i).0 same)))
    | inr other ↦ rw (other) (omega (arith, parts-other x is apart.1))
  ]

  parts-one :
      (x : A) (is : List (Option ℕ)) → NoRepeat is → Found (key x) is → parts (x ∷ []) is ≡ 1
  unfolding select
  parts-one x [] unique found = absurd found
  parts-one x (i ∷ is) unique (inl same) =
      let others : All (λ j. j ≢ key x) is = subst (λ k. All (λ j. j ≢ k) is) same unique.0 in
      rw ((same_number_iff (key x) i).1 (sym same)) (omega (arith, parts-other x is others))
  parts-one x (i ∷ is) unique (inr found) =
      let apart : key x ≢ i = All-Found (λ j. j ≢ i) (key x) is unique.0 found in
      elim (Bool-cases (same_number (key x) i)) [
        | inl same ↦ absurd (apart ((same_number_iff (key x) i).0 same))
        | inr other ↦ rw (other) (omega (arith, parts-one x is unique.1 found))
      ]

  -- The groups of distinct keys that cover a list part it.
  pub parts-length :
      (is : List (Option ℕ)) (xs : List A)
      → NoRepeat is
      → All (λ x. Found (key x) is) xs
      → parts xs is ≡ length xs
  parts-length is [] unique covered = parts-nil is
  parts-length is (x ∷ xs) unique covered = omega (
    arith,
    parts-cons x xs is,
    parts-one x is unique covered.0,
    parts-length is xs unique covered.1,
  )
