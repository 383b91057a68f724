-- ===== src/Analytics/Decode.antt =====
-- analytics/common/avro.py: `decode`, from Kafka messages to Bronze rows. The schema registry, Spark's
-- Avro reader and its functions are parameters.
pub mod Parts
pub mod Complete
use Prim.Native.String.{◌++◌ as text_append}
use tikblog_unsubscribe_plat.Base.{
  ℕ, zero, suc, ◌+◌, ◌*◌, String, Bool, true, false, not, Option, none, some, List, [], ◌∷◌, ◌++◌,
  map,
}
use tikblog_unsubscribe_plat.Base.Tests.{if◌then◌else◌}
use tikblog_unsubscribe_plat.Base.Errors.{Result, ok, raised}
use tikblog_unsubscribe_plat.Base.Lists.{select}
use tikblog_unsubscribe_plat.Analytics.Sql.{same_number, is_not_null}
use tikblog_unsubscribe_plat.Analytics.Lake.{Event}
use tikblog_unsubscribe_plat.Analytics.Quality.Checks.{Schema, type_of, has_type, is_empty, joined}

abbrev pub Bytes : Type 0
Bytes = List ℕ

-- A row of the Kafka source.
pub record Message : Type 0 where
  pub value : Option Bytes
  pub topic : String
  pub partition : ℕ
  pub offset : ℕ
  pub timestamp : ℕ

-- The columns of `_event.*` that EVENT has; others, which the Bronze tables do not have, are left out.
pub record Payload : Type 0 where
  pub event_id : Option String
  pub user_id : Option String
  pub writer_id : Option String
  pub source : Option String
  pub requested_at : Option ℕ
  pub request_id : Option String
  pub cs_agent_id : Option String
  pub legal_batch_id : Option String

-- A writer schema: the columns with their types, and how Spark reads a payload; all columns are NULL
-- where it cannot.
pub record Writer : Type 0 where
  pub columns : Schema
  pub from_avro : Bytes → Payload

pub record Decoder : Type 0 where
  -- The writer schema of an id, or the exception of the registry, or the one that a schema raises
  -- which is not a record and so has no columns.
  pub registry_schema : ℕ → Result Writer
  -- `cast("int")` of a number's digits.
  pub cast_int : ℕ → Option ℕ
  pub distinct_ids : List (Option ℕ) → List (Option ℕ)
  pub base64 : Bytes → String
  pub to_date : ℕ → ℕ
  pub now : ℕ

-- EVENT
abbrev pub event_schema : Schema
event_schema =
    ("event_id", "STRING")
    ∷ ("user_id", "STRING")
    ∷ ("writer_id", "STRING")
    ∷ ("source", "STRING")
    ∷ ("requested_at", "TIMESTAMP")
    ∷ ("request_id", "STRING")
    ∷ ("cs_agent_id", "STRING")
    ∷ ("legal_batch_id", "STRING")
    ∷ []

-- The number in bytes 2 to 5 of a Confluent frame, which starts with a zero byte.
unfoldable pub frame_id : Bytes → Option ℕ
frame_id (zero ∷ a ∷ b ∷ c ∷ d ∷ rest) = some (((a * 256 + b) * 256 + c) * 256 + d)
frame_id bytes = none

-- `substring(value, 6, length(value)-5)`
unfoldable pub payload_of : Bytes → Bytes
payload_of (a ∷ b ∷ c ∷ d ∷ e ∷ rest) = rest
payload_of bytes = []

abbrev pub no_payload : Payload
no_payload = record {
  event_id = none;
  user_id = none;
  writer_id = none;
  source = none;
  requested_at = none;
  request_id = none;
  cs_agent_id = none;
  legal_batch_id = none;
}

module _ (decoder : Decoder) where
  abbrev pub cast_id : Option ℕ → Option ℕ
  cast_id none = none
  cast_id (some n) = decoder.cast_int n

  abbrev pub frame_schema : Option Bytes → Option ℕ
  frame_schema none = none
  frame_schema (some bytes) = cast_id (frame_id bytes)

  -- The column `schema_id`.
  unfoldable pub schema_id : Message → Option ℕ
  unfolding frame_id
  schema_id m = frame_schema m.value

  abbrev pub raw_text : Option Bytes → Option String
  raw_text none = none
  raw_text (some bytes) = some (decoder.base64 bytes)

  abbrev pub date_of : Option ℕ → Option ℕ
  date_of none = none
  date_of (some t) = some (decoder.to_date t)

  -- A row with its metadata and `event_date`.
  unfoldable pub bronze_row : Option String → Payload → Message → Event
  bronze_row problem p m = record {
    event_id = p.event_id;
    user_id = p.user_id;
    writer_id = p.writer_id;
    source = p.source;
    requested_at = p.requested_at;
    request_id = p.request_id;
    cs_agent_id = p.cs_agent_id;
    legal_batch_id = p.legal_batch_id;
    schema_id = schema_id m;
    kafka_topic = some m.topic;
    kafka_partition = some m.partition;
    kafka_offset = some m.offset;
    kafka_timestamp = some m.timestamp;
    bronze_ingested_at = some decoder.now;
    event_date = date_of p.requested_at;
    decode_error = problem;
    raw_value = raw_text m.value;
  }

  -- The columns of EVENT that the writer schema lacks or has with another type.
  unfoldable pub mismatched : Schema → List String
  unfolding type_of
  mismatched actual =
      map (λ f. f.0) (select (λ f. not (has_type (type_of f.0 actual) f.1)) event_schema)

  abbrev pub value_payload : Writer → Option Bytes → Payload
  value_payload writer none = no_payload
  value_payload writer (some bytes) = writer.from_avro (payload_of bytes)

  unfoldable pub read_row : Writer → Message → Event
  unfolding bronze_row payload_of
  read_row writer m =
      let p = value_payload writer m.value in
      bronze_row (if is_not_null p.event_id then none else some "invalid_avro_payload") p m

  -- How the rows of a schema id are decoded.
  unfoldable pub rows_with : Writer → Message → Event
  unfolding mismatched read_row
  rows_with writer m =
      let columns = mismatched writer.columns in
      if is_empty columns
      then read_row writer m
      else bronze_row (some (text_append "schema_type_mismatch:" (joined columns))) no_payload m

  abbrev pub with_writer : Result Writer → Result (Message → Event)
  with_writer (ok writer) = ok (rows_with writer)
  with_writer (raised e) = raised e

  unfoldable pub converter : Option ℕ → Result (Message → Event)
  unfolding rows_with bronze_row
  converter none = ok (bronze_row (some "invalid_confluent_frame") no_payload)
  converter (some id) = with_writer (decoder.registry_schema id)

  -- The loop over the ids, with the union of its frames.
  unfoldable pub decode_ids : List Message → List (Option ℕ) → Result (List Event)
  unfolding schema_id converter
  decode_ids batch [] = ok []
  decode_ids batch (id ∷ ids) =
      let rest = decode_ids batch ids in
      elim (converter id) [
        | raised e ↦ raised e
        | ok convert ↦ elim rest [
          | raised e ↦ raised e
          | ok rows ↦ ok (map convert (select (λ m. same_number (schema_id m) id) batch) ++ rows)
        ]
      ]

  -- The union of the frames, None where there are no ids.
  abbrev pub united : List (Option ℕ) → Result (List Event) → Result (Option (List Event))
  united [] r = ok none
  united (id ∷ ids) (ok rows) = ok (some rows)
  united (id ∷ ids) (raised e) = raised e

  unfoldable pub decode : List Message → Result (Option (List Event))
  unfolding schema_id decode_ids
  decode batch =
      let ids = decoder.distinct_ids (map schema_id batch) in united ids (decode_ids batch ids)
