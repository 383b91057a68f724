-- ===== src/Analytics/Lake/Merged.antt =====
-- analytics/common/delta.py: what a table holds after a MERGE that inserts the rows not matched.
use mathlib.Core.List.{append-nil}
use tikblog_unsubscribe_plat.Base.{
  ◌≡◌, ◌≢◌, refl, sym, subst, ◌⊎◌, inl, inr, Bool, true, false, not, List, [], ◌∷◌, ◌++◌, map,
  arith,
}
use tikblog_unsubscribe_plat.Base.Lists.{
  select, any, All, Any, All-append, Any-append_left, Any-append_right,
}
use tikblog_unsubscribe_plat.Base.Members.{
  any-Any, NoRepeat, All-imp, Any-imp, All-select, select-covers, select-none, select-passes,
  All-map, map-append, NoRepeat-append, NoRepeat-select,
}
use tikblog_unsubscribe_plat.Analytics.Lake.{merge}

module _ {A : Type 0} (matches : A → A → Bool) where
  -- Rows of the target stay.
  pub merge-kept :
      (P : A → Type 0) (target source : List A) → Any P target → Any P (merge matches target source)
  unfolding merge
  merge-kept P target source h = Any-append_left P target _ h

  -- Every row of the source is matched by a row of the merged table.
  pub merge-covers :
      (target source : List A)
      → ((a : A) → matches a a ≡ true)
      → All (λ s. Any (λ t. matches t s ≡ true) (merge matches target source)) source
  unfolding merge
  merge-covers target source reflexive =
      let new : A → Bool = λ s. not (any (λ t. matches t s) target) in
      All-imp (λ s. Any (λ t. t ≡ s) (select new source) ⊎ (new s ≡ false))
        (λ s. Any (λ t. matches t s ≡ true) (target ++ select new source)) source
        (λ s. elim [
          | inl here ↦
              Any-append_right (λ t. matches t s ≡ true) target (select new source)
                (Any-imp (λ t. t ≡ s) (λ t. matches t s ≡ true) (select new source)
                  (λ t e. subst (λ u. matches u s ≡ true) (sym e) (reflexive s)) here)
          | inr old ↦
              Any-append_left (λ t. matches t s ≡ true) target (select new source)
                (any-Any (λ t. matches t s) target (ground arith))
        ])
        (select-covers new source)

  -- All rows have a property if those of both tables have.
  pub merge-All :
      (P : A → Type 0) (target source : List A)
      → All P target
      → All P source
      → All P (merge matches target source)
  unfolding merge
  merge-All P target source ht hs =
      All-append P target _ ht (All-select P (λ s. not (any (λ t. matches t s) target)) source hs)

  -- Nothing is inserted when every row of the source is matched.
  pub merge_same :
      (target source : List A)
      → All (λ s. any (λ t. matches t s) target ≡ true) source
      → merge matches target source ≡ target
  unfolding merge
  merge_same target source h =
      rw
        (select-none (λ s. not (any (λ t. matches t s) target)) source
          (All-imp (λ s. any (λ t. matches t s) target ≡ true)
            (λ s. not (any (λ t. matches t s) target) ≡ false) source (λ s e. rw (e) refl) h))
        (append-nil target)

  module _ {K : Type 0} (key : A → K) (agree : (t s : A) → key t ≡ key s → matches t s ≡ true) where
    keys_apart :
        (target ys : List A)
        → All (λ s. any (λ t. matches t s) target ≡ false) ys
        → All (λ k. All (λ j. j ≢ k) (map key ys)) (map key target)
    unfolding any
    keys_apart [] ys h = tt
    keys_apart (t ∷ ts) ys h = (
      All-map (λ j. j ≢ key t) key ys
          (All-imp (λ s. any (λ u. matches u s) (t ∷ ts) ≡ false) (λ s. key s ≢ key t) ys
            (λ s none_match e. ground (arith, agree t s (sym e))) h),
      keys_apart ts ys (
          All-imp (λ s. any (λ u. matches u s) (t ∷ ts) ≡ false)
            (λ s. any (λ u. matches u s) ts ≡ false) ys (λ s none_match. ground arith) h),
    )

    -- No key occurs twice if none does in either table.
    pub merge-NoRepeat :
        (target source : List A)
        → NoRepeat (map key target)
        → NoRepeat (map key source)
        → NoRepeat (map key (merge matches target source))
    unfolding merge
    merge-NoRepeat target source ht hs =
        let new : A → Bool = λ s. not (any (λ t. matches t s) target) in
        let apart = keys_apart target (select new source) (
          All-imp (λ s. new s ≡ true) (λ s. any (λ t. matches t s) target ≡ false)
            (select new source) (λ s e. ground arith) (select-passes new source)) in
        rw (map-append key target (select new source)) (
          NoRepeat-append (map key target) (map key (select new source)) ht
            (NoRepeat-select key new source hs) apart)
