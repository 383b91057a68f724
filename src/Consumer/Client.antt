-- ===== src/Consumer/Client.antt =====
-- services/unsubscribe-consumer/unsubscribe_consumer/client.py: `UnsubscribeMeClient`.
use Prim.Native.String.{◌++◌}
use tikblog_unsubscribe_plat.Base.{ℕ, String, Bool, ◌&&◌, ◌||◌, Option, none, some, [], ◌∷◌}
use tikblog_unsubscribe_plat.Base.Tests.{leb, ltb, ◌==◌, if◌then◌else◌}
use tikblog_unsubscribe_plat.Base.Errors.{
  Result, ok, raised, exn, value_error, type_error, permanent_rejection, transient_error, ◌>>=◌,
}
use tikblog_unsubscribe_plat.Base.Texts.{decimal}
use tikblog_unsubscribe_plat.Contracts.Model.{Datetime, UnsubscribeEvent, source_value}
use tikblog_unsubscribe_plat.Contracts.Avro.{Value, null, text, time, Values, get, optional_text}

-- `_event_to_json`; the text of `requested_at.isoformat()` is the value `time`.
unfoldable pub event_to_json : UnsubscribeEvent → Values
event_to_json e =
    ("event_id", text e.event_id)
    ∷ ("user_id", text e.user_id)
    ∷ ("writer_id", text e.writer_id)
    ∷ ("source", text (source_value e.source))
    ∷ ("requested_at", time e.requested_at)
    ∷ ("request_id", text e.request_id)
    ∷ ("cs_agent_id", optional_text e.cs_agent_id)
    ∷ ("legal_batch_id", optional_text e.legal_batch_id)
    ∷ []

-- An HTTP response; `json` is the object in its body, if the body is one. A JSON string that is an
-- ISO-8601 time is the value `time`.
pub record HttpResponse : Type 0 where
  pub status_code : ℕ
  pub json : Option Values
  pub content : String

-- How a request ends: `httpx.HTTPError`, or a response.
pub data HttpResult : Type 0 where
  http_error : String → HttpResult
  responded : HttpResponse → HttpResult

-- The fields that the code does not check hold whatever the body has.
pub record UnsubscribeOutcome : Type 0 where
  pub user_id : Value
  pub writer_id : Value
  pub status : Value
  pub unsubscribed_at : Datetime
  pub unsubscribe_source : Value
  pub outcome : Value

-- `datetime.fromisoformat(v)`
abbrev from_iso : Value → Result Datetime
from_iso (time t) = ok t
from_iso (text s) = raised (exn value_error s)
from_iso null = raised (exn type_error "fromisoformat: argument must be str")

-- `response.json()`
abbrev parse_json : Option Values → Result Values
parse_json none = raised (exn value_error "invalid JSON")
parse_json (some d) = ok d

unfoldable pub parse_outcome : HttpResponse → Result UnsubscribeOutcome
unfolding get
parse_outcome r = do
  body ← parse_json r.json
  user_id ← get body "user_id"
  writer_id ← get body "writer_id"
  status ← get body "status"
  unsubscribed_at ← from_iso (← get body "unsubscribed_at")
  unsubscribe_source ← get body "unsubscribe_source"
  outcome ← get body "outcome"
  ok (record {
    user_id = user_id;
    writer_id = writer_id;
    status = status;
    unsubscribed_at = unsubscribed_at;
    unsubscribe_source = unsubscribe_source;
    outcome = outcome;
  })

unfoldable pub is_success : ℕ → Bool
is_success code = leb 200 code && ltb code 300

unfoldable pub is_transient : ℕ → Bool
is_transient code = (code == 408 || code == 429) || leb 500 code

-- `UnsubscribeMeClient.unsubscribe`, from what the request ended with
unfoldable pub interpret : HttpResult → Result UnsubscribeOutcome
unfolding is_success is_transient
interpret (http_error e) = raised (exn transient_error ("request to UnsubscribeMe failed: " ++ e))
interpret (responded r) =
    if is_success r.status_code
    then parse_outcome r
    else if is_transient r.status_code
    then raised (
        exn transient_error
          ("UnsubscribeMe returned " ++ (decimal r.status_code ++ (": " ++ r.content))))
    else raised (
        exn permanent_rejection (
          "UnsubscribeMe rejected the request with "
          ++ (decimal r.status_code ++ (": " ++ r.content))))
