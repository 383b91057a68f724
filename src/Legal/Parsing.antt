-- ===== src/Legal/Parsing.antt =====
-- services/legal-ingestion/legal_ingestion/parsing.py. `datetime.fromisoformat` and `repr` of a text
-- are parameters; so are the two fresh UUIDs of an event.
use Prim.Native.String.{◌++◌}
use tikblog_unsubscribe_plat.Base.{String, Option, none, some, List, [], ◌∷◌}
use tikblog_unsubscribe_plat.Base.Tests.{str_eq, if◌then◌else◌}
use tikblog_unsubscribe_plat.Base.Lists.{length}
use tikblog_unsubscribe_plat.Base.Errors.{Result, ok, raised, exn, row_error, ◌>>=◌}
use tikblog_unsubscribe_plat.Base.Texts.{decimal, is_space, strip_chars}
use tikblog_unsubscribe_plat.Contracts.Model.{
  Datetime, Zone, no_tzinfo, no_utcoffset, offset_by, UnsubscribeEvent, legal, make_event,
}

-- What is used of Python's text and time functions.
pub record Formats : Type 0 where
  pub from_iso : String → Option Datetime
  pub repr : String → String

-- The three cells of a row of the right length.
abbrev pub Cells : Type 0
Cells = String × String × String

-- `len(row) != len(EXPECTED_HEADER)`
abbrev three_cells : List String → Result Cells
three_cells (a ∷ b ∷ c ∷ []) = ok (a, b, c)
three_cells row = raised (exn row_error ("expected 3 columns, got " ++ decimal (length row)))

-- `value.strip()`
unfoldable pub strip : String → String
strip s = strip_chars is_space s

-- `if not value: raise RowError(…)`
abbrev required : String → String → Result (Unit {0})
required value message = if str_eq value "" then raised (exn row_error message) else ok tt

module _ (fm : Formats) where
  -- `datetime.fromisoformat(requested_at)`, with its `ValueError` made a `RowError`
  abbrev parse_time : String → Result Datetime
  parse_time s = elim (fm.from_iso s) [
    | none ↦ raised (exn row_error ("requested_at is not ISO-8601: " ++ fm.repr s))
    | some t ↦ ok t
  ]

  -- `parsed_at.tzinfo is None`
  abbrev require_tzinfo : Zone → String → Result (Unit {0})
  require_tzinfo no_tzinfo s =
      raised (exn row_error ("requested_at has no timezone: " ++ fm.repr s))
  require_tzinfo no_utcoffset s = ok tt
  require_tzinfo (offset_by _) s = ok tt

  unfoldable pub build_event : String → String → List String → String → Result UnsubscribeEvent
  build_event event_id request_id row legal_batch_id = do
    (a, b, c) ← three_cells row
    let user_id = strip a
    let writer_id = strip b
    let requested_at = strip c
    _ ← required user_id "user_id is empty"
    _ ← required writer_id "writer_id is empty"
    parsed_at ← parse_time requested_at
    _ ← require_tzinfo parsed_at.zone requested_at
    make_event (record {
      event_id = event_id;
      user_id = user_id;
      writer_id = writer_id;
      source = legal;
      requested_at = parsed_at;
      request_id = request_id;
      cs_agent_id = none;
      legal_batch_id = some legal_batch_id;
    })
