-- ===== src/Legal/Prefixes.antt =====
-- services/legal-ingestion/legal_ingestion/config.py: the validator of the three prefixes.
use tikblog_unsubscribe_plat.Base.{String, ◌≡◌, ◌≢◌, not, List, [], ◌∷◌, arith}
use tikblog_unsubscribe_plat.Base.Tests.{◌==◌, str_eq_iff, if◌then◌else◌}
use tikblog_unsubscribe_plat.Base.Lists.{length, elem}
use tikblog_unsubscribe_plat.Base.Errors.{Result, ok, raised, exn, value_error}
use tikblog_unsubscribe_plat.Legal.Storage.{LandingZone, as_prefix, landing_zone}

-- `set(xs)`, as the elements that do not occur again later
unfoldable pub distinct : List String → List String
distinct [] = []
distinct (x ∷ xs) = if elem x xs then distinct xs else x ∷ distinct xs

-- `prefixes_must_be_three_different_places`, with the landing zone that `main` builds of prefixes
-- that are accepted. The error texts are given without the lists in them.
unfoldable pub accepted_zone : String → String → String → Result LandingZone
unfolding distinct
accepted_zone inbox processed rejects =
    let roles = as_prefix inbox ∷ as_prefix processed ∷ as_prefix rejects ∷ [] in
    if elem "" roles
    then raised (exn value_error "landing zone prefixes must not be empty")
    else if not (length (distinct roles) == length roles)
    then raised (exn value_error "landing zone prefixes must differ from each other")
    else ok (landing_zone inbox processed rejects)

-- The three places are not empty, and no two are the same.
pub record ThreePlaces (z : LandingZone) : Type 0 where
  pub has_inbox : z.inbox ≢ ""
  pub has_processed : z.processed ≢ ""
  pub has_rejects : z.rejects ≢ ""
  pub inbox_apart : z.inbox ≢ z.processed
  pub rejects_apart : z.inbox ≢ z.rejects
  pub processed_apart : z.processed ≢ z.rejects

-- A landing zone is built only of prefixes that are, with their outer slashes normalised, three
-- different places, none of them empty.
pub accepted_zone-ThreePlaces :
    (inbox processed rejects : String) (z : LandingZone)
    → accepted_zone inbox processed rejects ≡ ok z
    → ThreePlaces z
unfolding accepted_zone distinct elem landing_zone
accepted_zone-ThreePlaces inbox processed rejects z h = ground (
  arith,
  str_eq_iff "" (as_prefix inbox),
  str_eq_iff "" (as_prefix processed),
  str_eq_iff "" (as_prefix rejects),
  str_eq_iff (as_prefix inbox) (as_prefix processed),
  str_eq_iff (as_prefix inbox) (as_prefix rejects),
  str_eq_iff (as_prefix processed) (as_prefix rejects),
)
