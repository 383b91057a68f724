-- ===== src/Legal/Storage.antt =====
-- libs/tikblog_storage/storage.py and services/legal-ingestion/legal_ingestion/landing_zone.py over a
-- bucket as an association list. Which S3 calls raise, and whether their effect has then taken place,
-- is chosen by the environment (Platform).
use Prim.Native.Char.{Char, code}
use Prim.Native.String.{String, ◌++◌}
use Prim.Native.String as Str
use text.Mathlib.Text.{is_le}
use tikblog_unsubscribe_plat.Base.{
  Bool, true, false, not, ◌&&◌, ◌||◌, Option, none, some, List, [], ◌∷◌, map,
}
use tikblog_unsubscribe_plat.Base.Tests.{◌==◌, str_eq, if◌then◌else◌}
use tikblog_unsubscribe_plat.Base.Lists.{select, elem}
use tikblog_unsubscribe_plat.Base.Texts.{strip_chars}

-- The objects of a bucket by key; the content of an object is a text.
abbrev pub Bucket : Type 0
Bucket = List (String × String)

-- `get_object`
unfoldable pub get_object : String → Bucket → Option String
get_object k [] = none
get_object k ((j, v) ∷ b) = if str_eq j k then some v else get_object k b

-- `delete_object`
unfoldable pub delete_object : String → Bucket → Bucket
delete_object k [] = []
delete_object k ((j, v) ∷ b) = if str_eq j k then delete_object k b else (j, v) ∷ delete_object k b

-- `put_object`
unfoldable pub put_object : String → String → Bucket → Bucket
unfolding delete_object
put_object k v b = (k, v) ∷ delete_object k b

-- `'/'`
is_slash : Char → Bool
is_slash c = code c == 47

-- `as_prefix`: `f"{value.strip('/')}/" if value.strip("/") else ""`
unfoldable pub as_prefix : String → String
unfolding is_slash
as_prefix value =
    let stripped = strip_chars is_slash value in if str_eq stripped "" then "" else stripped ++ "/"

-- `s.startswith(p)`
unfoldable pub has_prefix : String → String → Bool
has_prefix Str.[] s = true
has_prefix (Str.◌∷◌ c p) Str.[] = false
has_prefix (Str.◌∷◌ c p) (Str.◌∷◌ d s) = code c == code d && has_prefix p s

-- `s[len(p):]`
unfoldable pub drop_like : String → String → String
drop_like Str.[] s = s
drop_like (Str.◌∷◌ c p) Str.[] = ""
drop_like (Str.◌∷◌ c p) (Str.◌∷◌ d s) = drop_like p s

-- `"/" in s`
unfoldable pub has_slash : String → Bool
unfolding is_slash
has_slash Str.[] = false
has_slash (Str.◌∷◌ c s) = is_slash c || has_slash s

-- `name.lower().endswith(".csv")`
abbrev is_csv_end : String → Bool
is_csv_end (Str.◌∷◌ a (Str.◌∷◌ b (Str.◌∷◌ c (Str.◌∷◌ d Str.[])))) =
    code a == 46
    && (code b == 67 || code b == 99)
    && (code c == 83 || code c == 115)
    && (code d == 86 || code d == 118)
is_csv_end _ = false

unfoldable pub ends_with_csv : String → Bool
ends_with_csv Str.[] = false
ends_with_csv (Str.◌∷◌ c s) = is_csv_end (Str.◌∷◌ c s) || ends_with_csv s

-- `sorted(…)` of texts
abbrev before : String → String → Bool
before s t = is_le (Str.compare s t)

unfoldable pub insert_sorted : String → List String → List String
insert_sorted s [] = s ∷ []
insert_sorted s (t ∷ ts) = if before s t then s ∷ t ∷ ts else t ∷ insert_sorted s ts

unfoldable pub sorted : List String → List String
unfolding insert_sorted
sorted [] = []
sorted (s ∷ ss) = insert_sorted s (sorted ss)

-- `list_keys(prefix)`
unfoldable pub list_keys : String → Bucket → List String
list_keys prefix b = sorted (select (has_prefix prefix) (map (λ e. e.0) b))

-- `move`: copy, then delete the old object. The copy of a missing object is not made.
unfoldable pub copy_object : String → String → Bucket → Bucket
copy_object source target b = elim (get_object source b) [
  | none ↦ b
  | some v ↦ put_object target v b
]

-- `LandingZone`: its three prefixes, after `as_prefix`.
pub record LandingZone : Type 0 where
  pub inbox : String
  pub processed : String
  pub rejects : String

unfoldable pub landing_zone : String → String → String → LandingZone
landing_zone inbox processed rejects = record {
  inbox = as_prefix inbox;
  processed = as_prefix processed;
  rejects = as_prefix rejects;
}

-- Whether `list_batches` skips a name.
unfoldable pub is_batch_name : String → Bool
is_batch_name name = not (has_slash name || not (ends_with_csv name))

unfoldable pub list_batches : LandingZone → Bucket → List String
list_batches z b = sorted (select is_batch_name (map (drop_like z.inbox) (list_keys z.inbox b)))

abbrev pub inbox_key : LandingZone → String → String
inbox_key z name = z.inbox ++ name

abbrev pub processed_key : LandingZone → String → String
processed_key z name = z.processed ++ name

abbrev pub rejects_key : LandingZone → String → String
rejects_key z name = (z.rejects ++ name) ++ ".rejects.csv"

-- `already_processed`, by `_exists`: the exact key is among those with it as a prefix.
unfoldable pub already_processed : LandingZone → String → Bucket → Bool
already_processed z name b = elem (processed_key z name) (list_keys (processed_key z name) b)
