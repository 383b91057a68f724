-- ===== src/Analytics/Quality/Checks.antt =====
-- analytics/common/dq.py: the checks of one row, and rows of a batch whose columns have other types
-- than the Silver table.
use Prim.Native.String.{◌++◌ as text_append}
use tikblog_unsubscribe_plat.Base.{
  ℕ, String, Bool, true, false, not, ◌&&◌, ◌||◌, Option, none, some, List, [], ◌∷◌, map,
}
use tikblog_unsubscribe_plat.Base.Tests.{str_eq, if◌then◌else◌}
use tikblog_unsubscribe_plat.Base.Lists.{select, elem}
use tikblog_unsubscribe_plat.Analytics.Sql.{
  Truth, sql_and, is_true, is_not_null, not_blank, is_in, at_most,
}
use tikblog_unsubscribe_plat.Analytics.Lake.{Event}

abbrev pub known_sources : List String
known_sources = "UI" ∷ "CUSTOMER_SUCCESS" ∷ "LEGAL" ∷ []

-- `checks`, at the time `now` of `current_timestamp()`.
unfoldable pub checks : ℕ → Event → List (String × Truth)
checks now e =
    ("event_id_required", sql_and (some (is_not_null e.event_id)) (not_blank e.event_id))
    ∷ ("user_id_required", sql_and (some (is_not_null e.user_id)) (not_blank e.user_id))
    ∷ ("writer_id_required", sql_and (some (is_not_null e.writer_id)) (not_blank e.writer_id))
    ∷ ("source_valid", is_in known_sources e.source)
    ∷ ("requested_at_required", some (is_not_null e.requested_at))
    ∷ ("requested_at_not_future", at_most e.requested_at now)
    ∷ ("schema_and_decode", some (not (is_not_null e.decode_error)))
    ∷ []

-- The names of the checks, in their order.
abbrev pub check_names : List String
check_names =
    "event_id_required" ∷ "user_id_required" ∷ "writer_id_required" ∷ "source_valid"
    ∷ "requested_at_required" ∷ "requested_at_not_future" ∷ "schema_and_decode" ∷ []

-- `failed_checks`: the names of the rules that are not true.
unfoldable pub failing : List (String × Truth) → List String
failing [] = []
failing (c ∷ cs) = if is_true c.1 then failing cs else c.0 ∷ failing cs

-- A row with its failed checks.
pub record Checked : Type 0 where
  pub event : Event
  pub failed_checks : List String

-- `coalesce(source, 'UNKNOWN')`
unfoldable pub source_or_unknown : Option String → String
source_or_unknown none = "UNKNOWN"
source_or_unknown (some s) = s

unfoldable pub check_row : ℕ → Event → Checked
unfolding checks failing source_or_unknown
check_row now e = record {
  event = record e { source = some (source_or_unknown e.source) };
  failed_checks = failing (checks now e);
}

abbrev pub is_empty : List String → Bool
is_empty [] = true
is_empty (x ∷ xs) = false

-- `size(failed_checks) == 0`
unfoldable pub is_valid : Checked → Bool
is_valid c = is_empty c.failed_checks

-- The columns of a frame with their types.
abbrev pub Schema : Type 0
Schema = List (String × String)

unfoldable pub type_of : String → Schema → Option String
type_of name [] = none
type_of name (f ∷ fs) = if str_eq name f.0 then some f.1 else type_of name fs

-- The columns of EVENT.
abbrev pub event_columns : List String
event_columns =
    "event_id" ∷ "user_id" ∷ "writer_id" ∷ "source" ∷ "requested_at" ∷ "request_id" ∷ "cs_agent_id"
    ∷ "legal_batch_id" ∷ []

abbrev pub has_type : Option String → String → Bool
has_type none t = false
has_type (some u) t = str_eq u t

-- Whether a field of the target is incompatible: it has another type in the batch, or the batch lacks
-- a column of EVENT.
unfoldable pub is_incompatible : Schema → String × String → Bool
unfolding type_of
is_incompatible actual f =
    let found = type_of f.0 actual in
    is_not_null found && not (has_type found f.1)
    || elem f.0 event_columns && not (is_not_null found)

unfoldable pub incompatible : Schema → Schema → List String
unfolding is_incompatible
incompatible actual target = map (λ f. f.0) (select (is_incompatible actual) target)

-- `withColumn(name, lit(None))`; columns that `Event` does not have are set later or not at all.
unfoldable pub set_null : String → Event → Event
set_null name e =
    if str_eq name "event_id"
    then record e { event_id = none }
    else if str_eq name "user_id"
    then record e { user_id = none }
    else if str_eq name "writer_id"
    then record e { writer_id = none }
    else if str_eq name "source"
    then record e { source = none }
    else if str_eq name "requested_at"
    then record e { requested_at = none }
    else if str_eq name "request_id"
    then record e { request_id = none }
    else if str_eq name "cs_agent_id"
    then record e { cs_agent_id = none }
    else if str_eq name "legal_batch_id"
    then record e { legal_batch_id = none }
    else if str_eq name "schema_id"
    then record e { schema_id = none }
    else if str_eq name "kafka_topic"
    then record e { kafka_topic = none }
    else if str_eq name "kafka_partition"
    then record e { kafka_partition = none }
    else if str_eq name "kafka_offset"
    then record e { kafka_offset = none }
    else if str_eq name "kafka_timestamp"
    then record e { kafka_timestamp = none }
    else if str_eq name "bronze_ingested_at"
    then record e { bronze_ingested_at = none }
    else if str_eq name "event_date"
    then record e { event_date = none }
    else if str_eq name "decode_error"
    then record e { decode_error = none }
    else if str_eq name "raw_value"
    then record e { raw_value = none }
    else e

-- The loop over the fields of the target.
unfoldable pub null_columns : Schema → Schema → Event → Event
unfolding type_of set_null
null_columns actual [] e = e
null_columns actual (f ∷ fs) e =
    null_columns actual fs (if has_type (type_of f.0 actual) f.1 then e else set_null f.0 e)

-- `",".join(…)`
unfoldable pub joined : List String → String
joined [] = ""
joined (s ∷ []) = s
joined (s ∷ t ∷ ts) = text_append s (text_append "," (joined (t ∷ ts)))

-- What becomes of a row of a batch with incompatible columns: the raw row is kept as JSON, and the
-- row gets a decode error.
unfoldable pub isolate : (Event → String) → Schema → Schema → Event → Event
unfolding null_columns joined incompatible
isolate to_json actual target e =
    record (null_columns actual target (record e { raw_value = some (to_json e) })) {
      decode_error =
          some (text_append "schema_type_mismatch:" (joined (incompatible actual target)));
    }

unfoldable pub align : (Event → String) → Schema → Schema → Event → Event
unfolding isolate incompatible
align to_json actual target e =
    if is_empty (incompatible actual target) then e else isolate to_json actual target e
