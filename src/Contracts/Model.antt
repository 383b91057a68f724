-- ===== src/Contracts/Model.antt =====
-- libs/contracts/model.py, with the part of `datetime` that the code uses.
use tikblog_unsubscribe_plat.Base.{ℕ, String, ◌≡◌, refl, Bool, true, false, Option, arith}
use tikblog_unsubscribe_plat.Base.Tests.{str_eq, if◌then◌else◌}
use tikblog_unsubscribe_plat.Base.Errors.{Result, ok, raised, exn, value_error}

-- `tzinfo` of a datetime: absent, present with no `utcoffset()`, or a fixed offset.
pub data Zone : Type 0 where
  no_tzinfo : Zone
  no_utcoffset : Zone
  offset_by : ℕ → Zone

-- `instant` is the reading on the UTC time line in microseconds; aware datetimes compare by it.
pub record Datetime : Type 0 where
  pub instant : ℕ
  pub zone : Zone

-- `not (t.tzinfo is None or t.utcoffset() is None)`
abbrev pub zone_is_aware : Zone → Bool
zone_is_aware no_tzinfo = false
zone_is_aware no_utcoffset = false
zone_is_aware (offset_by _) = true

abbrev pub is_aware : Datetime → Bool
is_aware t = zone_is_aware t.zone

pub data UnsubscribeSource : Type 0 where
  ui : UnsubscribeSource
  customer_success : UnsubscribeSource
  legal : UnsubscribeSource

-- The `value` of a member of the `StrEnum`.
unfoldable pub source_value : UnsubscribeSource → String
source_value ui = "UI"
source_value customer_success = "CUSTOMER_SUCCESS"
source_value legal = "LEGAL"

-- `UnsubscribeSource(value)`: the member with that value, or `ValueError`.
unfoldable pub source_of_value : String → Result UnsubscribeSource
source_of_value s =
    if str_eq s "UI"
    then ok ui
    else if str_eq s "CUSTOMER_SUCCESS"
    then ok customer_success
    else if str_eq s "LEGAL"
    then ok legal
    else raised (exn value_error s)

pub record UnsubscribeEvent : Type 0 where
  pub event_id : String
  pub user_id : String
  pub writer_id : String
  pub source : UnsubscribeSource
  pub requested_at : Datetime
  pub request_id : String
  pub cs_agent_id : Option String
  pub legal_batch_id : Option String

-- The constructor, which ends in `__post_init__`.
unfoldable pub make_event : UnsubscribeEvent → Result UnsubscribeEvent
make_event e =
    if is_aware e.requested_at
    then ok e
    else raised (exn value_error "requested_at must include timezone")

-- An event that exists has passed `__post_init__`.
abbrev pub IsEvent : UnsubscribeEvent → Type 0
IsEvent e = is_aware e.requested_at ≡ true

pub make_event-IsEvent :
    (e : UnsubscribeEvent) {r : UnsubscribeEvent} → make_event e ≡ ok r → IsEvent r
unfolding make_event
make_event-IsEvent e h = ground arith

pub make_event-ok : (e : UnsubscribeEvent) → IsEvent e → make_event e ≡ ok e
unfolding make_event
make_event-ok e h = ground arith

pub source_of_value-source_value : (s : UnsubscribeSource) → source_of_value (source_value s) ≡ ok s
unfolding source_of_value source_value str_eq
source_of_value-source_value ui = refl
source_of_value-source_value customer_success = refl
source_of_value-source_value legal = refl
