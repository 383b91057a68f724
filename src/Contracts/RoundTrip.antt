-- ===== src/Contracts/RoundTrip.antt =====
-- What `event_from_dict` makes of the dict that `event_to_dict` writes, and of any other.
use tikblog_unsubscribe_plat.Base.{String, ◌≡◌, refl, Option, none, some, arith}
use tikblog_unsubscribe_plat.Base.Tests.{str_eq}
use tikblog_unsubscribe_plat.Base.Errors.{ok}
use tikblog_unsubscribe_plat.Contracts.Model.{
  UnsubscribeEvent, IsEvent, make_event-ok, make_event, source_of_value-source_value,
}
use tikblog_unsubscribe_plat.Contracts.Avro.{
  Values, optional_text, as_optional_text, event_to_dict, event_from_dict,
}

as_optional_text-optional_text : (o : Option String) → as_optional_text (optional_text o) ≡ ok o
as_optional_text-optional_text none = refl
as_optional_text-optional_text (some s) = refl

-- Reading back the dict written for an event whose time has a timezone gives the same event.
pub event_from_dict-event_to_dict :
    (e : UnsubscribeEvent) → IsEvent e → event_from_dict (event_to_dict e) ≡ ok e
unfolding event_from_dict event_to_dict str_eq
event_from_dict-event_to_dict e h =
    simp (source_of_value-source_value, as_optional_text-optional_text) (make_event-ok e h)

-- No dict is read as an event with a time that has no timezone.
pub event_from_dict-IsEvent :
    (d : Values) (e : UnsubscribeEvent) → event_from_dict d ≡ ok e → IsEvent e
unfolding event_from_dict make_event
event_from_dict-IsEvent d e h = ground arith
