-- ===== src/Legal/Rejected.antt =====
-- Which rows become events, and which are rejected for what reason.
use Prim.Native.String.{◌++◌}
use tikblog_unsubscribe_plat.Base.{
  String, ◌≡◌, ◌≢◌, inl, inr, Option, none, some, List, [], ◌∷◌, arith,
}
use tikblog_unsubscribe_plat.Base.Tests.{str_eq, str_eq_iff, Option-cases, if◌then◌else◌}
use tikblog_unsubscribe_plat.Base.Lists.{length}
use tikblog_unsubscribe_plat.Base.Errors.{ok, raised, Exn, exn, row_error}
use tikblog_unsubscribe_plat.Base.Texts.{decimal}
use tikblog_unsubscribe_plat.Contracts.Model.{
  Datetime, Zone, no_tzinfo, no_utcoffset, offset_by, UnsubscribeEvent, IsEvent, legal, make_event,
}
use tikblog_unsubscribe_plat.Legal.Parsing.{Formats, strip, build_event}

-- An event of a batch: its ids are those given, its user and writer are not empty, its source is
-- LEGAL, it names its batch and its time has a timezone.
pub record IsLegalEvent (event_id request_id batch : String) (e : UnsubscribeEvent) : Type 0 where
  pub named : e.event_id ≡ event_id
  pub requested : e.request_id ≡ request_id
  pub has_user : e.user_id ≢ ""
  pub has_writer : e.writer_id ≢ ""
  pub from_legal : e.source ≡ legal
  pub of_batch : e.legal_batch_id ≡ some batch
  pub aware : IsEvent e

module _ (fm : Formats) where
  -- Every event that is built from a row is a proper event of its batch.
  pub build_event-IsLegalEvent :
      (event_id request_id : String) (row : List String) (batch : String) (e : UnsubscribeEvent)
      → build_event fm event_id request_id row batch ≡ ok e
      → IsLegalEvent event_id request_id batch e
  unfolding build_event make_event
  build_event-IsLegalEvent event_id request_id (a ∷ b ∷ c ∷ []) batch e h =
      ground (arith, str_eq_iff (strip a) "", str_eq_iff (strip b) "")
  build_event-IsLegalEvent event_id request_id _ batch e h = cc

  -- The first reason to reject the cells of a row, in the order of the checks.
  abbrev pub zone_problem : String → Zone → Option String
  zone_problem s no_tzinfo = some ("requested_at has no timezone: " ++ fm.repr s)
  zone_problem s no_utcoffset = none
  zone_problem s (offset_by _) = none

  abbrev pub time_problem : String → Option Datetime → Option String
  time_problem s none = some ("requested_at is not ISO-8601: " ++ fm.repr s)
  time_problem s (some t) = zone_problem s t.zone

  unfoldable pub row_problem : List String → Option String
  row_problem (a ∷ b ∷ c ∷ []) =
      if str_eq (strip a) ""
      then some "user_id is empty"
      else if str_eq (strip b) ""
      then some "writer_id is empty"
      else time_problem (strip c) (fm.from_iso (strip c))
  row_problem row = some ("expected 3 columns, got " ++ decimal (length row))

  -- `fromisoformat` gives a time without a timezone, or with a fixed offset.
  abbrev pub OffsetsKnown : Type 0
  OffsetsKnown = (s : String) (t : Datetime) → fm.from_iso s ≡ some t → t.zone ≢ no_utcoffset

  module _ (known : OffsetsKnown) where
    -- A row with a problem is rejected for its first problem, whatever the ids.
    pub build_event-problem :
        (event_id request_id : String) (row : List String) (batch : String) (reason : String)
        → row_problem row ≡ some reason
        → build_event fm event_id request_id row batch ≡ raised (exn row_error reason)
    unfolding build_event row_problem make_event
    build_event-problem event_id request_id (a ∷ b ∷ c ∷ []) batch reason h = ground arith
    build_event-problem event_id request_id _ batch reason h = ground arith

    -- A row without a problem is not rejected.
    pub build_event-no_problem :
        (event_id request_id : String) (row : List String) (batch : String) (x : Exn)
        → row_problem row ≡ none
        → build_event fm event_id request_id row batch ≢ raised x
    unfolding build_event row_problem make_event
    build_event-no_problem event_id request_id (a ∷ b ∷ c ∷ []) batch x h e =
        elim (Option-cases (fm.from_iso (strip c))) [
          | inl invalid ↦ ground arith
          | inr (t, parsed) ↦ ground (arith, known (strip c) t parsed)
        ]
    build_event-no_problem event_id request_id _ batch x h e = cc
