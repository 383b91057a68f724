-- ===== src/Legal/Batch.antt =====
-- services/legal-ingestion/legal_ingestion/main.py: `process_batch`, over the producer and the store
-- of a platform that the environment provides.
use tikblog_unsubscribe_plat.Base.{ℕ, ◌+◌, String, Bool, true, false, List, [], ◌∷◌, ◌++◌}
use tikblog_unsubscribe_plat.Base.Errors.{Result, ok, raised, Exn, ExnKind, row_error}
use tikblog_unsubscribe_plat.Contracts.Model.{UnsubscribeEvent}
use tikblog_unsubscribe_plat.Legal.Parsing.{Formats, build_event}
use tikblog_unsubscribe_plat.Legal.Storage.{Bucket}

-- `Reject`
pub record Reject : Type 0 where
  pub line_number : ℕ
  pub raw_row : List String
  pub reason : String

-- What the CSV reader gives next: a row, or an exception while reading.
pub data Line : Type 0 where
  row : List String → Line
  unreadable : Exn → Line

-- How an S3 call ends: it answers, or it raises before or after its effect has taken place.
pub data S3Outcome : Type 0 where
  answered : S3Outcome
  refused : Exn → S3Outcome
  answer_lost : Exn → S3Outcome

-- What the ingestion works with: Kafka's producer with its state `P`, S3 with the outside world `W`,
-- Python's CSV module and its UUIDs.
pub record Platform (P W : Type 0) : Type 0 where
  pub formats : Formats
  pub uuid : ℕ → String
  pub send : UnsubscribeEvent → P → Result (Unit {0}) × P
  -- `flush()`: the number of messages that are still queued
  pub flush : P → ℕ × P
  pub delivered_count : P → ℕ
  pub s3_outcome : W → S3Outcome × W
  -- `csv.reader` over the decoded content, the header included
  pub read_csv : String → List Line
  -- The content of the reject file of a batch
  pub rejects_csv : String → List Reject → String

-- The state of one run; `handed` are the events that `send` took, the newest first.
pub record Ingestion (P W : Type 0) : Type 0 where
  pub producer : P
  pub world : W
  pub bucket : Bucket
  pub next_id : ℕ
  pub handed : List UnsubscribeEvent

-- `except RowError`
abbrev pub is_row_error : ExnKind → Bool
is_row_error row_error = true
is_row_error _ = false

-- `next(rows, None)`: the header, or the exception of reading it.
abbrev pub skip_header : List Line → Result (List Line)
skip_header [] = ok []
skip_header (row _ ∷ lines) = ok lines
skip_header (unreadable e ∷ lines) = raised e

module _ {P W : Type 0} (pf : Platform P W) where
  -- `producer.send(build_event(row, legal_batch_id=name))`
  unfoldable pub send_row : String → List String → Ingestion P W → Result (Unit {0}) × Ingestion P W
  send_row name cells s =
      let s' = record s { next_id = s.next_id + 2 } in
      elim (build_event pf.formats (pf.uuid s.next_id) (pf.uuid (s.next_id + 1)) cells name) [
        | raised x ↦ (raised x, s')
        | ok e ↦
            let (r, p) = pf.send e s.producer in
            elim r [
              | raised x ↦ (raised x, record s' { producer = p })
              | ok _ ↦ (ok tt, record s' { producer = p; handed = e ∷ s.handed })
            ]
      ]

  -- The `for` loop, from a line number, the rows read and the rejects so far.
  unfoldable pub process_rows :
      String
      → List Line
      → ℕ
      → ℕ
      → List Reject
      → Ingestion P W
      → Result (ℕ × List Reject) × Ingestion P W
  process_rows name [] line rows_read rejects s = (ok (rows_read, rejects), s)
  process_rows name (unreadable e ∷ lines) line rows_read rejects s = (raised e, s)
  process_rows name (row cells ∷ lines) line rows_read rejects s =
      let (r, s') = send_row name cells s in
      elim r [
        | ok _ ↦ process_rows name lines (line + 1) (rows_read + 1) rejects s'
        | raised x ↦ elim (is_row_error x.kind) [
          | true ↦
              process_rows name lines (line + 1) (rows_read + 1)
                (rejects ++ record { line_number = line; raw_row = cells; reason = x.message } ∷ [])
                s'
          | false ↦ (raised x, s')
        ]
      ]

  -- `process_batch`, from the content of the file
  unfoldable pub process_batch :
      String → String → Ingestion P W → Result (ℕ × List Reject) × Ingestion P W
  unfolding process_rows
  process_batch name content s = elim (skip_header (pf.read_csv content)) [
    | raised e ↦ (raised e, s)
    | ok lines ↦ process_rows name lines 2 0 [] s
  ]
