-- ===== src/Base/Found.antt =====
-- Lemmas on an element that is found in a list.
use mathlib.Core.Path.{◌≡◌, refl, ap, sym, subst}
use mathlib.Core.Logic.{◌⊎◌, inl, inr}
use mathlib.Core.Bool.{Bool, true, false}
use mathlib.Core.List.{List, [], ◌∷◌, map}
use tikblog_unsubscribe_plat.Base.Tests.{Bool-cases}
use tikblog_unsubscribe_plat.Base.Lists.{select, count, flat_map, All, Any, All-append}
use tikblog_unsubscribe_plat.Base.Members.{Any-imp, All-imp, All-found}

abbrev pub Found : {A : Type 0} → A → List A → Type 0
Found x xs = Any (λ y. y ≡ x) xs

-- A property of all elements that are found holds of all elements.
pub Found-All :
    {A : Type 0} (P : A → Type 0) (xs : List A) → ((x : A) → Found x xs → P x) → All P xs
Found-All P xs h = All-imp (λ x. Found x xs) P xs h (All-found xs)

pub All-Found : {A : Type 0} (P : A → Type 0) (x : A) (xs : List A) → All P xs → Found x xs → P x
All-Found P x [] h found = absurd found
All-Found P x (y ∷ ys) h (inl same) = subst P same h.0
All-Found P x (y ∷ ys) h (inr found) = All-Found P x ys h.1 found

pub Found-Any : {A : Type 0} (P : A → Type 0) (x : A) (xs : List A) → P x → Found x xs → Any P xs
Found-Any P x xs h found = Any-imp (λ y. y ≡ x) P xs (λ y same. subst P (sym same) h) found

pub Found-select :
    {A : Type 0} (p : A → Bool) (x : A) (xs : List A)
    → p x ≡ true
    → Found x xs
    → Found x (select p xs)
unfolding select
Found-select p x [] h found = absurd found
Found-select p x (y ∷ ys) h (inl same) = rw (same, h) (inl refl)
Found-select p x (y ∷ ys) h (inr found) = elim (Bool-cases (p y)) [
  | inl keeps ↦ rw (keeps) (inr (Found-select p x ys h found))
  | inr drops ↦ rw (drops) (Found-select p x ys h found)
]

rest_wider : {H X Y : Type 0} → (X → Y) → H ⊎ X → H ⊎ Y
rest_wider widen (inl h) = inl h
rest_wider widen (inr x) = inr (widen x)

pub select-Any :
    {A : Type 0} (P : A → Type 0) (p : A → Bool) (xs : List A) → Any P (select p xs) → Any P xs
unfolding select
select-Any P p [] found = absurd found
select-Any P p (y ∷ ys) found = elim (Bool-cases (p y)) [
  | inl keeps ↦ rest_wider (select-Any P p ys) (rw (keeps) at found)
  | inr drops ↦ inr (select-Any P p ys (rw (drops) at found))
]

pub Any-select :
    {A : Type 0} (P : A → Type 0) (p : A → Bool) (xs : List A)
    → ((x : A) → P x → p x ≡ true)
    → Any P xs
    → Any P (select p xs)
unfolding select
Any-select P p [] passes found = absurd found
Any-select P p (y ∷ ys) passes (inl h) = rw (passes y h) (inl h)
Any-select P p (y ∷ ys) passes (inr found) = elim (Bool-cases (p y)) [
  | inl keeps ↦ rw (keeps) (inr (Any-select P p ys passes found))
  | inr drops ↦ rw (drops) (Any-select P p ys passes found)
]

pub Found-map :
    {A : Type 0} {B : Type 0} (f : A → B) (x : A) (xs : List A)
    → Found x xs
    → Found (f x) (map f xs)
Found-map f x [] found = absurd found
Found-map f x (y ∷ ys) (inl same) = inl (ap f same)
Found-map f x (y ∷ ys) (inr found) = inr (Found-map f x ys found)

pub All-flat_map :
    {A : Type 0} {B : Type 0} (P : B → Type 0) (f : A → List B) (xs : List A)
    → All (λ x. All P (f x)) xs
    → All P (flat_map f xs)
unfolding flat_map
All-flat_map P f [] h = tt
All-flat_map P f (x ∷ xs) h = All-append P (f x) (flat_map f xs) h.0 (All-flat_map P f xs h.1)

pub count-none :
    {A : Type 0} (p : A → Bool) (xs : List A) → All (λ x. p x ≡ false) xs → count p xs ≡ 0
unfolding count
count-none p [] h = refl
count-none p (x ∷ xs) h = rw (h.0, count-none p xs h.1) refl
