-- ===== src/Contracts/Avro.antt =====
-- libs/contracts/avro.py: the two conversion functions handed to the Avro serializer, and the key.
use Prim.Native.String.{◌++◌}
use tikblog_unsubscribe_plat.Base.{String, Option, none, some, List, [], ◌∷◌}
use tikblog_unsubscribe_plat.Base.Tests.{str_eq, if◌then◌else◌}
use tikblog_unsubscribe_plat.Base.Errors.{Result, ok, raised, exn, key_error, type_error, ◌>>=◌}
use tikblog_unsubscribe_plat.Contracts.Model.{
  Datetime, UnsubscribeEvent, source_value, source_of_value, make_event,
}

-- A value of the dict, of one of the types of the Avro schema.
pub data Value : Type 0 where
  null : Value
  text : String → Value
  time : Datetime → Value

-- `dict[str, Any]`, in the order of its entries.
abbrev pub Values : Type 0
Values = List (String × Value)

-- `values[key]`
unfoldable pub get : Values → String → Result Value
get [] k = raised (exn key_error k)
get ((j, v) ∷ d) k = if str_eq j k then ok v else get d k

abbrev pub optional_text : Option String → Value
optional_text none = null
optional_text (some s) = text s

unfoldable pub event_to_dict : UnsubscribeEvent → Values
event_to_dict e =
    ("event_id", text e.event_id)
    ∷ ("user_id", text e.user_id)
    ∷ ("writer_id", text e.writer_id)
    ∷ ("source", text (source_value e.source))
    ∷ ("requested_at", time e.requested_at)
    ∷ ("request_id", text e.request_id)
    ∷ ("cs_agent_id", optional_text e.cs_agent_id)
    ∷ ("legal_batch_id", optional_text e.legal_batch_id)
    ∷ []

-- `isinstance(v, datetime)`, or the `TypeError` of `event_from_dict`
abbrev pub as_datetime : Value → Result Datetime
as_datetime (time t) = ok t
as_datetime _ = raised (exn type_error "requested_at must be datetime")

-- The schema has `string` at this place: the deserializer gives nothing else. The source does not look
-- at other values, which stop here with a `TypeError`; so in the next function.
abbrev pub as_text : Value → Result String
as_text (text s) = ok s
as_text _ = raised (exn type_error "string expected")

-- The schema has `["null", "string"]` at this place.
abbrev pub as_optional_text : Value → Result (Option String)
as_optional_text null = ok none
as_optional_text (text s) = ok (some s)
as_optional_text (time _) = raised (exn type_error "string or null expected")

unfoldable pub event_from_dict : Values → Result UnsubscribeEvent
unfolding get
event_from_dict d = do
  requested_at ← as_datetime (← get d "requested_at")
  event_id ← as_text (← get d "event_id")
  user_id ← as_text (← get d "user_id")
  writer_id ← as_text (← get d "writer_id")
  source ← source_of_value (← as_text (← get d "source"))
  request_id ← as_text (← get d "request_id")
  cs_agent_id ← as_optional_text (← get d "cs_agent_id")
  legal_batch_id ← as_optional_text (← get d "legal_batch_id")
  make_event (record {
    event_id = event_id;
    user_id = user_id;
    writer_id = writer_id;
    source = source;
    requested_at = requested_at;
    request_id = request_id;
    cs_agent_id = cs_agent_id;
    legal_batch_id = legal_batch_id;
  })

-- `f"{event.user_id}:{event.writer_id}".encode()`; a key is written as the text it encodes
unfoldable pub message_key : UnsubscribeEvent → String
message_key e = (e.user_id ++ ":") ++ e.writer_id
