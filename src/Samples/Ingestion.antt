-- ===== src/Samples/Ingestion.antt =====
-- Runs of the ingestion on one small batch, with S3 and Kafka working.
use tikblog_unsubscribe_plat.Base.{ℕ, ◌+◌, ◌≡◌, refl, String, none, some, List, [], ◌∷◌, arith}
use tikblog_unsubscribe_plat.Base.Tests.{str_eq, str_eq_iff}
use tikblog_unsubscribe_plat.Base.Lists.{length, elem}
use tikblog_unsubscribe_plat.Base.Errors.{ok, raised, exn, row_error}
use tikblog_unsubscribe_plat.Base.Texts.{decimal, strip_chars, is_space}
use tikblog_unsubscribe_plat.Contracts.Model.{offset_by, UnsubscribeEvent, legal, make_event}
use tikblog_unsubscribe_plat.Legal.Parsing.{Formats, strip, build_event}
use tikblog_unsubscribe_plat.Legal.Rejected.{
  IsLegalEvent, row_problem, build_event-IsLegalEvent, build_event-problem,
}
use tikblog_unsubscribe_plat.Legal.Storage.{
  Bucket, LandingZone, get_object, processed_key, already_processed,
}
use tikblog_unsubscribe_plat.Legal.Storage.{as_prefix, landing_zone}
use tikblog_unsubscribe_plat.Legal.Prefixes.{
  accepted_zone, distinct, ThreePlaces, accepted_zone-ThreePlaces,
}
use tikblog_unsubscribe_plat.Legal.Lookup.{exists_at, already_processed-exists}
use tikblog_unsubscribe_plat.Legal.Batch.{
  answered, Line, row, Platform, Ingestion, process_batch, send_row, process_rows,
}
use tikblog_unsubscribe_plat.Legal.Accounting.{
  expected_rejects, expected_events, legal_event, given, process_batch-accounts,
}
use tikblog_unsubscribe_plat.Legal.Main.{process_one, s3}
use tikblog_unsubscribe_plat.Legal.Moved.{KeysDiffer, Rounded, process_one-Rounded}

-- Every time is read as the same instant in UTC.
abbrev formats : Formats
formats = record {
  from_iso = λ s. some (record { instant = 20; zone = offset_by 0 });
  repr = λ s. s;
}

abbrev good_row : List String
good_row = "user-1" ∷ " writer-1" ∷ "2026-01-01T00:00:00Z" ∷ []

abbrev built : UnsubscribeEvent
built = record {
  event_id = "id";
  user_id = "user-1";
  writer_id = "writer-1";
  source = legal;
  requested_at = record { instant = 20; zone = offset_by 0 };
  request_id = "id";
  cs_agent_id = none;
  legal_batch_id = some "b.csv";
}

build_event-IsLegalEvent_example : IsLegalEvent "id" "id" "b.csv" built
unfolding build_event strip strip_chars is_space str_eq make_event
build_event-IsLegalEvent_example =
    build_event-IsLegalEvent formats "id" "id" good_row "b.csv" built refl

build_event-problem_example :
    build_event formats "id" "id" ("user-1" ∷ []) "b.csv"
    ≡ raised (exn row_error "expected 3 columns, got 1")
unfolding row_problem decimal
build_event-problem_example =
    build_event-problem formats (λ s t e. ground arith) "id" "id" ("user-1" ∷ []) "b.csv"
      "expected 3 columns, got 1" refl

abbrev zone : LandingZone
zone = record { inbox = "inbox/"; processed = "processed/"; rejects = "rejects/" }

abbrev stored : Bucket
stored = ("inbox/b.csv", "content") ∷ []

already_processed-exists_example :
    already_processed zone "b.csv" stored
    ≡ exists_at (get_object (processed_key zone "b.csv") stored)
already_processed-exists_example = already_processed-exists zone "b.csv" stored

-- The file has a header, a good row and a short one.
abbrev lines : List Line
lines = row good_row ∷ row ("user-1" ∷ []) ∷ []

-- The producer counts what it is given, and confirms it at once.
abbrev platform : Platform ℕ ℕ
platform = record {
  formats = formats;
  uuid = λ n. "id";
  send = λ e p. (ok tt, p + 1);
  flush = λ p. (0, p);
  delivered_count = λ p. p;
  s3_outcome = λ w. (answered, w + 1);
  read_csv = λ content. row ("user_id" ∷ "writer_id" ∷ "requested_at" ∷ []) ∷ lines;
  rejects_csv = λ name rs. "";
}

abbrev waiting : Ingestion ℕ ℕ
waiting = record { producer = 0; world = 0; bucket = stored; next_id = 0; handed = [] }

process_batch-accounts_example :
    let out = process_batch platform "b.csv" "content" waiting in
    let rs = expected_rejects formats 2 lines in
    let events = expected_events formats platform.uuid "b.csv" 0 lines in
    (2 ≡ length lines)
    × (rs ≡ rs)
    × (out.1.producer ≡ given platform events 0)
    × (length events + length rs ≡ 2)
unfolding process_batch process_rows send_row build_event row_problem strip strip_chars is_space
    str_eq make_event decimal expected_rejects expected_events legal_event given
process_batch-accounts_example =
    process_batch-accounts platform "b.csv" "content" lines waiting
      (process_batch platform "b.csv" "content" waiting).1 2 (expected_rejects formats 2 lines)
      (record { offsets = λ s t e. ground arith; send_errors = λ e p x h. ground arith }) refl refl

differ : KeysDiffer platform zone "b.csv"
unfolding str_eq
differ = record {
  not_processed = λ e. cc ((str_eq_iff "inbox/b.csv" "processed/b.csv").1 e);
  not_rejects = λ e. cc ((str_eq_iff "inbox/b.csv" "rejects/b.csv.rejects.csv").1 e);
}

process_one-Rounded_example :
    let out = process_one platform zone "b.csv" waiting in
    let listed = (s3 platform zone (λ b. b) waiting).1 in
    Rounded platform zone "b.csv" differ out.0 listed out.1
    × (get_object "inbox/b.csv" listed.bucket ≡ some "content")
    × (listed.producer ≡ 0)
unfolding get_object str_eq
process_one-Rounded_example = process_one-Rounded platform zone "b.csv" differ waiting

abbrev done_before : Ingestion ℕ ℕ
done_before = record waiting { bucket = ("processed/b.csv", "content") ∷ [] }

accepted_zone-ThreePlaces_example : ThreePlaces zone
unfolding accepted_zone distinct elem landing_zone as_prefix strip_chars str_eq
accepted_zone-ThreePlaces_example =
    accepted_zone-ThreePlaces "inbox/" "/processed" "rejects" zone refl
