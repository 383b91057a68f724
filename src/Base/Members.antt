-- ===== src/Base/Members.antt =====
-- Lemmas on what all elements of a list have, on finding some element, and on keys without repetition.
use mathlib.Core.Path.{◌≡◌, refl, ap, sym, subst}
use mathlib.Core.Logic.{◌⊎◌, ◌≢◌, inl, inr}
use mathlib.Core.Bool.{Bool, true, false, not}
use mathlib.Core.List.{List, [], ◌∷◌, ◌++◌, map}
use native.Mathlib.Omega.{arith}
use tikblog_unsubscribe_plat.Base.Tests.{Bool-cases}
use tikblog_unsubscribe_plat.Base.Lists.{select, any, All, Any, All-append}

-- No element occurs twice.
abbrev pub NoRepeat : {A : Type 0} → List A → Type 0
NoRepeat [] = Unit
NoRepeat (x ∷ xs) = All (λ y. y ≢ x) xs × NoRepeat xs

-- An element of a list has what all of them have.
pub All-Any {ℓ} :
    {A : Type ℓ} (P Q R : A → Type 0) (xs : List A)
    → ((x : A) → P x → Q x → R x)
    → All P xs
    → Any Q xs
    → Any R xs
All-Any P Q R [] both all some = absurd some
All-Any P Q R (x ∷ xs) both all (inl h) = inl (both x all.0 h)
All-Any P Q R (x ∷ xs) both all (inr h) = inr (All-Any P Q R xs both all.1 h)

pub Any-imp {ℓ} :
    {A : Type ℓ} (P Q : A → Type 0) (xs : List A) → ((x : A) → P x → Q x) → Any P xs → Any Q xs
Any-imp P Q [] imp h = absurd h
Any-imp P Q (x ∷ xs) imp (inl h) = inl (imp x h)
Any-imp P Q (x ∷ xs) imp (inr h) = inr (Any-imp P Q xs imp h)

pub All-imp {ℓ} :
    {A : Type ℓ} (P Q : A → Type 0) (xs : List A) → ((x : A) → P x → Q x) → All P xs → All Q xs
All-imp P Q [] imp h = tt
All-imp P Q (x ∷ xs) imp h = (imp x h.0, All-imp P Q xs imp h.1)

pub All-both {ℓ} :
    {A : Type ℓ} (P Q : A → Type 0) (xs : List A) → All P xs → All Q xs → All (λ x. P x × Q x) xs
All-both P Q [] hp hq = tt
All-both P Q (x ∷ xs) hp hq = ((hp.0, hq.0), All-both P Q xs hp.1 hq.1)

-- A property of all elements holds of one that is found among them.
pub All-at {ℓ} :
    {A : Type ℓ} (P : A → Type 0) (Q : Type 0) (xs : List A) (R : A → Type 0)
    → ((x : A) → P x → R x → Q)
    → All P xs
    → Any R xs
    → Q
All-at P Q [] R both all some = absurd some
All-at P Q (x ∷ xs) R both all (inl h) = both x all.0 h
All-at P Q (x ∷ xs) R both all (inr h) = All-at P Q xs R both all.1 h

pub All-map {ℓ κ} :
    {A : Type ℓ} {B : Type κ} (P : B → Type 0) (f : A → B) (xs : List A)
    → All (λ x. P (f x)) xs
    → All P (map f xs)
All-map P f [] h = tt
All-map P f (x ∷ xs) h = (h.0, All-map P f xs h.1)

pub Any-map {ℓ κ} :
    {A : Type ℓ} {B : Type κ} (P : B → Type 0) (f : A → B) (xs : List A)
    → Any (λ x. P (f x)) xs
    → Any P (map f xs)
Any-map P f [] h = absurd h
Any-map P f (x ∷ xs) (inl h) = inl h
Any-map P f (x ∷ xs) (inr h) = inr (Any-map P f xs h)

pub All-unmap {ℓ κ} :
    {A : Type ℓ} {B : Type κ} (P : B → Type 0) (f : A → B) (xs : List A)
    → All P (map f xs)
    → All (λ x. P (f x)) xs
All-unmap P f [] h = tt
All-unmap P f (x ∷ xs) h = (h.0, All-unmap P f xs h.1)

pub map-append {ℓ κ} :
    {A : Type ℓ} {B : Type κ} (f : A → B) (xs ys : List A) → map f (xs ++ ys) ≡ map f xs ++ map f ys
map-append f [] ys = refl
map-append f (x ∷ xs) ys = ap (λ t. f x ∷ t) (map-append f xs ys)

pub any-Any {ℓ} :
    {A : Type ℓ} (p : A → Bool) (xs : List A) → any p xs ≡ true → Any (λ x. p x ≡ true) xs
unfolding any
any-Any p [] h = absurd (false_true h)
  where
    false_true : false ≢ true
    false_true e = cc
any-Any p (x ∷ xs) h = elim (Bool-cases (p x)) [
  | inl yes_x ↦ inl yes_x
  | inr no_x ↦ inr (any-Any p xs (rw (no_x) at h))
]

pub Any-any {ℓ} :
    {A : Type ℓ} (p : A → Bool) (xs : List A) → Any (λ x. p x ≡ true) xs → any p xs ≡ true
unfolding any
Any-any p [] h = absurd h
Any-any p (x ∷ xs) (inl h) = rw (h) refl
Any-any p (x ∷ xs) (inr h) = ground (arith, Any-any p xs h)

pub any-none {ℓ} :
    {A : Type ℓ} (p : A → Bool) (xs : List A) → any p xs ≡ false → All (λ x. p x ≡ false) xs
unfolding any
any-none p [] h = tt
any-none p (x ∷ xs) h = ground (arith, any-none p xs)

pub All-select {ℓ} :
    {A : Type ℓ} (P : A → Type 0) (p : A → Bool) (xs : List A) → All P xs → All P (select p xs)
unfolding select
All-select P p [] h = tt
All-select P p (x ∷ xs) h = elim (Bool-cases (p x)) [
  | inl keeps ↦ rw (keeps) (h.0, All-select P p xs h.1)
  | inr drops ↦ rw (drops) (All-select P p xs h.1)
]

-- What is selected passes the test.
pub select-passes {ℓ} :
    {A : Type ℓ} (p : A → Bool) (xs : List A) → All (λ x. p x ≡ true) (select p xs)
unfolding select
select-passes p [] = tt
select-passes p (x ∷ xs) = elim (Bool-cases (p x)) [
  | inl keeps ↦ rw (keeps) (keeps, select-passes p xs)
  | inr drops ↦ rw (drops) (select-passes p xs)
]

covered_later : (B : Type 0) {C D : Type 0} → B ⊎ D → (C ⊎ B) ⊎ D
covered_later B (inl h) = inl (inr h)
covered_later B (inr h) = inr h

-- Every element is selected or fails the test.
pub select-covers :
    {A : Type 0} (p : A → Bool) (xs : List A)
    → All (λ x. Any (λ y. y ≡ x) (select p xs) ⊎ (p x ≡ false)) xs
unfolding select
select-covers p [] = tt
select-covers {A = A} p (x ∷ xs) =
    let Here : A → Type 0 = λ z. Any (λ y. y ≡ z) (select p xs) in
    let rest : All (λ z. ((x ≡ z) ⊎ Here z) ⊎ (p z ≡ false)) xs =
      All-imp (λ z. Here z ⊎ (p z ≡ false)) (λ z. ((x ≡ z) ⊎ Here z) ⊎ (p z ≡ false)) xs
        (λ z. covered_later (Here z)) (select-covers p xs) in
    let Covers : List A → Type 0 = λ ys. All (λ z. Any (λ y. y ≡ z) ys ⊎ (p z ≡ false)) (x ∷ xs) in
    elim (Bool-cases (p x)) [
      | inl keeps ↦
          let same : select p (x ∷ xs) ≡ x ∷ select p xs = rw (keeps) refl in
          subst Covers (sym same) (inl (inl refl), rest)
      | inr drops ↦
          let same : select p (x ∷ xs) ≡ select p xs = rw (drops) refl in
          subst Covers (sym same) (inr drops, select-covers p xs)
    ]

pub select-none {ℓ} :
    {A : Type ℓ} (p : A → Bool) (xs : List A) → All (λ x. p x ≡ false) xs → select p xs ≡ []
unfolding select
select-none p [] h = refl
select-none p (x ∷ xs) h = rw (h.0) (select-none p xs h.1)

pub select-whole {ℓ} :
    {A : Type ℓ} (p : A → Bool) (xs : List A) → All (λ x. p x ≡ true) xs → select p xs ≡ xs
unfolding select
select-whole p [] h = refl
select-whole p (x ∷ xs) h = rw (h.0) (ap (λ t. x ∷ t) (select-whole p xs h.1))

-- What has not been selected.
pub select-drops {ℓ} :
    {A : Type ℓ} (p : A → Bool) (xs : List A) → All (λ x. p x ≡ false) (select (λ x. not (p x)) xs)
unfolding select
select-drops p [] = tt
select-drops p (x ∷ xs) = elim (Bool-cases (p x)) [
  | inl drops ↦ rw (drops) (select-drops p xs)
  | inr keeps ↦ rw (keeps) (keeps, select-drops p xs)
]

pub NoRepeat-append :
    {A : Type 0} (xs ys : List A)
    → NoRepeat xs
    → NoRepeat ys
    → All (λ x. All (λ y. y ≢ x) ys) xs
    → NoRepeat (xs ++ ys)
NoRepeat-append [] ys hx hy apart = hy
NoRepeat-append (x ∷ xs) ys hx hy apart =
    (All-append (λ y. y ≢ x) xs ys hx.0 apart.0, NoRepeat-append xs ys hx.1 hy apart.1)

-- A selection of rows repeats no key if the rows do not.
pub NoRepeat-select {ℓ} :
    {A : Type ℓ} {K : Type 0} (key : A → K) (p : A → Bool) (xs : List A)
    → NoRepeat (map key xs)
    → NoRepeat (map key (select p xs))
unfolding select
NoRepeat-select key p [] h = tt
NoRepeat-select {A} {K} key p (x ∷ xs) h = elim (Bool-cases (p x)) [
  | inl keeps ↦ rw (keeps) (
    All-map (λ k. k ≢ key x) key (select p xs)
        (All-select (λ y. key y ≢ key x) p xs (All-unmap (λ k. k ≢ key x) key xs h.0)),
    NoRepeat-select key p xs h.1,
  )
  | inr drops ↦ rw (drops) (NoRepeat-select key p xs h.1)
]

-- What holds of the elements that pass a test, and what holds of those that do not.
pub select-split {ℓ} :
    {A : Type ℓ} (P Q : A → Type 0) (p : A → Bool) (xs : List A)
    → All P (select p xs)
    → All Q (select (λ x. not (p x)) xs)
    → All (λ x. (p x ≡ true) × P x ⊎ (p x ≡ false) × Q x) xs
unfolding select
select-split P Q p [] hp hq = tt
select-split P Q p (x ∷ xs) hp hq = elim (Bool-cases (p x)) [
  | inl keeps ↦
      let hp' : All P (x ∷ select p xs) = rw (keeps) at hp in
      let hq' : All Q (select (λ x. not (p x)) xs) = rw (keeps) at hq in
      (inl (keeps, hp'.0), select-split P Q p xs hp'.1 hq')
  | inr drops ↦
      let hp' : All P (select p xs) = rw (drops) at hp in
      let hq' : All Q (x ∷ select (λ x. not (p x)) xs) = rw (drops) at hq in
      (inr (drops, hq'.0), select-split P Q p xs hp' hq'.1)
]

pub All-found : {A : Type 0} (xs : List A) → All (λ x. Any (λ y. y ≡ x) xs) xs
All-found [] = tt
All-found {A} (x ∷ xs) = (
  inl refl,
  All-imp (λ z. Any (λ y. y ≡ z) xs) (λ z. (x ≡ z) ⊎ Any (λ y. y ≡ z) xs) xs (λ z found. inr found)
      (All-found xs),
)
