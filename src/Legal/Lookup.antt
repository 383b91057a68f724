-- ===== src/Legal/Lookup.antt =====
-- `already_processed` lists keys by prefix, and finds exactly the objects with the key itself.
use Prim.Native.String as Str
use Prim.Native.String.{String}
use tikblog_unsubscribe_plat.Base.{
  ◌≡◌, refl, sym, ◌∙◌, ap, inl, inr, Bool, true, false, ◌||◌, Option, none, some, List, [], ◌∷◌,
  map, arith,
}
use tikblog_unsubscribe_plat.Base.Tests.{str_eq, str_eq_iff, Bool-cases, if◌then◌else◌}
use tikblog_unsubscribe_plat.Base.Lists.{select, elem}
use tikblog_unsubscribe_plat.Legal.Storage.{
  Bucket, get_object, put_object, delete_object, has_prefix, insert_sorted, sorted, list_keys,
  LandingZone, processed_key, already_processed,
}

has_prefix_refl : (s : String) → has_prefix s s ≡ true
unfolding has_prefix
has_prefix_refl Str.[] = refl
has_prefix_refl (Str.◌∷◌ c s) = ground (arith, has_prefix_refl s)

pub elem-insert_sorted :
    (k s : String) (ss : List String) → elem k (insert_sorted s ss) ≡ (str_eq k s || elem k ss)
unfolding elem insert_sorted
elem-insert_sorted k s [] = refl
elem-insert_sorted k s (t ∷ ts) = ground (arith, elem-insert_sorted k s ts)

pub elem-sorted : (k : String) (ss : List String) → elem k (sorted ss) ≡ elem k ss
unfolding elem sorted
elem-sorted k [] = refl
elem-sorted k (s ∷ ss) =
    elem-insert_sorted k s (sorted ss) ∙ ap (λ b. str_eq k s || b) (elem-sorted k ss)

elem-select :
    (p : String → Bool) (k : String) (ss : List String)
    → p k ≡ true
    → elem k (select p ss) ≡ elem k ss
unfolding elem select
elem-select p k [] h = refl
elem-select p k (s ∷ ss) h = elim (Bool-cases (str_eq k s)) [
  | inl same ↦
      let passes : p s ≡ true = ap p (sym ((str_eq_iff k s).0 same)) ∙ h in
      ground (arith, same, passes, elem-select p k ss h)
  | inr other ↦ ground (arith, other, elem-select p k ss h)
]

abbrev pub exists_at : Option String → Bool
exists_at none = false
exists_at (some _) = true

elem-keys : (k : String) (b : Bucket) → elem k (map (λ e. e.0) b) ≡ exists_at (get_object k b)
unfolding elem get_object
elem-keys k [] = refl
elem-keys k ((j, v) ∷ b) = ground (arith, elem-keys k b, str_eq_iff k j, str_eq_iff j k)

-- A batch counts as processed exactly when an object stands at its processed key; other objects with
-- that key as a prefix do not matter.
pub already_processed-exists :
    (z : LandingZone) (name : String) (b : Bucket)
    → already_processed z name b ≡ exists_at (get_object (processed_key z name) b)
unfolding already_processed list_keys
already_processed-exists z name b =
    let k = processed_key z name in
    elem-sorted k (select (has_prefix k) (map (λ e. e.0) b))
    ∙ elem-select (has_prefix k) k (map (λ e. e.0) b) (has_prefix_refl k)
    ∙ elem-keys k b

-- Lookups after a deletion, a write and a copy.
pub get_object-delete_object :
    (k j : String) (b : Bucket)
    → get_object j (delete_object k b) ≡ (if str_eq k j then none else get_object j b)
unfolding get_object delete_object
get_object-delete_object k j [] = ground arith
get_object-delete_object k j ((i, v) ∷ b) =
    ground (arith, get_object-delete_object k j b, str_eq_iff i k, str_eq_iff i j, str_eq_iff k j)

pub get_object-put_object :
    (k j : String) (v : String) (b : Bucket)
    → get_object j (put_object k v b) ≡ (if str_eq k j then some v else get_object j b)
unfolding get_object put_object
get_object-put_object k j v b = ground (arith, get_object-delete_object k j b)
