-- ===== src/Legal/Accounting.antt =====
-- `process_batch` accounts for every row: it is its event, given to the producer, or a reject with its
-- line, its cells and the first problem of the row.
use tikblog_unsubscribe_plat.Base.{
  ℕ, ◌+◌, ◌≡◌, refl, sym, ◌∙◌, ap, ◌⊎◌, inl, inr, String, false, Option, none, some, List, [], ◌∷◌,
  ◌++◌, arith,
}
use mathlib.Core.List.{append-nil, append_assoc}
use tikblog_unsubscribe_plat.Base.Tests.{Option-cases}
use tikblog_unsubscribe_plat.Base.Lists.{length, length-append}
use tikblog_unsubscribe_plat.Base.Errors.{Result, ok, raised, Exn, exn, row_error, Result-cases}
use tikblog_unsubscribe_plat.Contracts.Model.{UnsubscribeEvent, legal, make_event}
use tikblog_unsubscribe_plat.Legal.Parsing.{Formats, strip, build_event}
use tikblog_unsubscribe_plat.Legal.Rejected.{
  OffsetsKnown, row_problem, build_event-problem, build_event-no_problem,
}
use tikblog_unsubscribe_plat.Legal.Batch.{
  Reject, Line, row, unreadable, Platform, Ingestion, is_row_error, skip_header, send_row,
  process_rows, process_batch,
}

-- The rejects of the lines from a line number on, by the rows' problems alone.
unfoldable pub expected_rejects : Formats → ℕ → List Line → List Reject
expected_rejects fm line [] = []
expected_rejects fm line (unreadable e ∷ lines) = []
expected_rejects fm line (row cells ∷ lines) = elim (row_problem fm cells) [
  | none ↦ expected_rejects fm (line + 1) lines
  | some reason ↦
      record { line_number = line; raw_row = cells; reason = reason }
      ∷ expected_rejects fm (line + 1) lines
]

-- The event of a row without a problem, written out from its cells, its batch and two fresh ids.
unfoldable pub legal_event :
    Formats → (ℕ → String) → String → ℕ → List String → Option UnsubscribeEvent
legal_event fm uuid name id (a ∷ b ∷ c ∷ []) = elim (fm.from_iso (strip c)) [
  | none ↦ none
  | some t ↦ some (record {
    event_id = uuid id;
    user_id = strip a;
    writer_id = strip b;
    source = legal;
    requested_at = t;
    request_id = uuid (id + 1);
    cs_agent_id = none;
    legal_batch_id = some name;
  })
]
legal_event fm uuid name id _ = none

-- The events of the rows without a problem, in the order of the file.
unfoldable pub expected_events :
    Formats → (ℕ → String) → String → ℕ → List Line → List UnsubscribeEvent
expected_events fm uuid name id [] = []
expected_events fm uuid name id (unreadable e ∷ lines) = []
expected_events fm uuid name id (row cells ∷ lines) =
    let rest = expected_events fm uuid name (id + 2) lines in
    elim (row_problem fm cells) [
      | some reason ↦ rest
      | none ↦ elim (legal_event fm uuid name id cells) [ none ↦ rest | some e ↦ e ∷ rest ]
    ]

-- A row without a problem is built into the event that is written out above.
build_event-legal_event :
    (fm : Formats) (uuid : ℕ → String) (name : String) (id : ℕ) (cells : List String)
    (e : UnsubscribeEvent)
    → build_event fm (uuid id) (uuid (id + 1)) cells name ≡ ok e
    → legal_event fm uuid name id cells ≡ some e
unfolding build_event legal_event make_event
build_event-legal_event fm uuid name id (a ∷ b ∷ c ∷ []) e h = ground arith
build_event-legal_event fm uuid name id _ e h = cc

module _ {P W : Type 0} (pf : Platform P W) where
  -- The producer after it was given some events, the first one first.
  unfoldable pub given : List UnsubscribeEvent → P → P
  given [] p = p
  given (e ∷ es) p = given es (pf.send e p).1

  -- The producer raises no `RowError`, and parsed times are as `fromisoformat` gives them.
  pub record Regular : Type 0 where
    pub offsets : OffsetsKnown pf.formats
    pub send_errors :
        (e : UnsubscribeEvent) (p : P) (x : Exn)
        → (pf.send e p).0 ≡ raised x
        → is_row_error x.kind ≡ false

  -- What one row does, by its problem.
  send_row-problem :
      (name : String) (cells : List String) (s : Ingestion P W) (reason : String)
      → Regular
      → row_problem pf.formats cells ≡ some reason
      → ((send_row pf name cells s).0 ≡ raised (exn row_error reason))
        × ((send_row pf name cells s).1.producer ≡ s.producer)
  unfolding send_row
  send_row-problem name cells s reason reg h = ground (
    arith,
    build_event-problem pf.formats reg.offsets (pf.uuid s.next_id) (pf.uuid (s.next_id + 1)) cells
        name reason h,
  )

  send_row-next_id :
      (name : String) (cells : List String) (s : Ingestion P W)
      → (send_row pf name cells s).1.next_id ≡ s.next_id + 2
  unfolding send_row
  send_row-next_id name cells s = ground arith

  send_row-no_problem :
      (name : String) (cells : List String) (s : Ingestion P W)
      → Regular
      → row_problem pf.formats cells ≡ none
      → ((e : UnsubscribeEvent) × ((send_row pf name cells s).0 ≡ ok tt)
          × (legal_event pf.formats pf.uuid name s.next_id cells ≡ some e)
          × ((send_row pf name cells s).1.producer ≡ (pf.send e s.producer).1))
        ⊎ ((x : Exn) × ((send_row pf name cells s).0 ≡ raised x) × (is_row_error x.kind ≡ false))
  unfolding send_row
  send_row-no_problem name cells s reg h =
      elim (Result-cases
        (build_event pf.formats (pf.uuid s.next_id) (pf.uuid (s.next_id + 1)) cells name)) [
          | inr (x, bad) ↦
              absurd (build_event-no_problem pf.formats reg.offsets _ _ cells name x h bad)
          | inl (e, built) ↦ elim (Result-cases (pf.send e s.producer).0) [
            | inl (_, sent) ↦ inl (
              e,
              rw (built, sent, send_row) refl,
              build_event-legal_event pf.formats pf.uuid name s.next_id cells e built,
              rw (built, sent, send_row) refl,
            )
            | inr (x, bad) ↦ inr (x, rw (built, bad, send_row), reg.send_errors e s.producer x bad)
          ]
        ]

  -- What a run over the rows returns, if it does, from what it had before.
  abbrev Accounted :
      String
      → ℕ
      → ℕ
      → List Reject
      → List Line
      → Ingestion P W
      → Result (ℕ × List Reject)
      → Ingestion P W
      → Type 0
  Accounted name line rows_read rejects lines s (raised _) t = Unit
  Accounted name line rows_read rejects lines s (ok (n, rs)) t =
      let events = expected_events pf.formats pf.uuid name s.next_id lines in
      (n ≡ rows_read + length lines)
      × (rs ≡ rejects ++ expected_rejects pf.formats line lines)
      × (t.producer ≡ given events s.producer)
      × (length events + length rs ≡ length rejects + length lines)

  Accounted-reject :
      (name : String) (line rows_read : ℕ) (rejects : List Reject) (lines : List Line)
      (cells : List String) (reason : String) (s s' : Ingestion P W) (r : Result (ℕ × List Reject))
      (t : Ingestion P W)
      → s'.producer ≡ s.producer
      → s'.next_id ≡ s.next_id + 2
      → Accounted name
          (line + 1)
          (rows_read + 1)
          (rejects ++ record { line_number = line; raw_row = cells; reason = reason } ∷ [])
          lines
          s'
          r
          t
      → row_problem pf.formats cells ≡ some reason
      → Accounted name line rows_read rejects (row cells ∷ lines) s r t
  unfolding expected_rejects expected_events
  Accounted-reject name line rows_read rejects lines cells reason s s' (raised x) t same next h
        problem =
      tt
  Accounted-reject name line rows_read rejects lines cells reason s s' (ok (n, rs)) t same next h
        problem =
      (
        omega arith,
        h.1
            ∙ append_assoc rejects _ (expected_rejects pf.formats (line + 1) lines)
            ∙ rw (problem, expected_rejects),
        rw (problem, sym next, sym same, expected_events) h.2,
        rw (problem, sym next, expected_events)
            (omega (
              arith,
              length-append rejects
                  (record { line_number = line; raw_row = cells; reason = reason } ∷ []),
              h.3,
            )),
      )

  Accounted-sent :
      (name : String) (line rows_read : ℕ) (rejects : List Reject) (lines : List Line)
      (cells : List String) (e : UnsubscribeEvent) (s s' : Ingestion P W)
      (r : Result (ℕ × List Reject)) (t : Ingestion P W)
      → legal_event pf.formats pf.uuid name s.next_id cells ≡ some e
      → s'.producer ≡ (pf.send e s.producer).1
      → s'.next_id ≡ s.next_id + 2
      → Accounted name (line + 1) (rows_read + 1) rejects lines s' r t
      → row_problem pf.formats cells ≡ none
      → Accounted name line rows_read rejects (row cells ∷ lines) s r t
  unfolding expected_rejects expected_events given
  Accounted-sent name line rows_read rejects lines cells e s s' (raised x) t built more next h
        fine =
      tt
  Accounted-sent name line rows_read rejects lines cells e s s' (ok (n, rs)) t built more next h
        fine =
      (
        omega arith,
        h.1 ∙ rw (fine, expected_rejects),
        rw (fine, built, sym next, expected_events)
            (h.2
              ∙ ap (λ p. given (expected_events pf.formats pf.uuid name s'.next_id lines) p) more),
        rw (fine, built, sym next, expected_events) (omega (arith, h.3)),
      )

  process_rows-Accounted :
      (name : String) (lines : List Line) (line rows_read : ℕ) (rejects : List Reject)
      (s : Ingestion P W)
      → Regular
      → let (r, t) = process_rows pf name lines line rows_read rejects s in
        Accounted name line rows_read rejects lines s r t
  unfolding process_rows expected_rejects expected_events given
  process_rows-Accounted name [] line rows_read rejects s reg =
      (omega arith, sym (append-nil rejects), refl, omega arith)
  process_rows-Accounted name (unreadable e ∷ lines) line rows_read rejects s reg = tt
  process_rows-Accounted name (row cells ∷ lines) line rows_read rejects s reg =
      let s' = (send_row pf name cells s).1 in
      let next = send_row-next_id name cells s in
      elim (Option-cases (row_problem pf.formats cells)) [
        | inr (reason, problem) ↦
            let (refused, same) = send_row-problem name cells s reason reg problem in
            rw (refused, process_rows)
              (Accounted-reject name line rows_read rejects lines cells reason s s' _ _ same next
                (process_rows-Accounted name lines (line + 1) (rows_read + 1) _ s' reg) problem)
        | inl fine ↦ elim (send_row-no_problem name cells s reg fine) [
          | inl (e, sent, built, more) ↦
              rw (sent, process_rows)
                (Accounted-sent name line rows_read rejects lines cells e s s' _ _ built more next
                  (process_rows-Accounted name lines (line + 1) (rows_read + 1) rejects s' reg)
                  fine)
          | inr (x, bad, other) ↦ rw (bad, other, process_rows) tt
        ]
      ]

  -- A batch that is read to its end gives the number of its rows after the header, and as rejects
  -- exactly those rows that have a problem, with their line numbers. The producer was given, in the
  -- order of the file and nothing else, one event for every other row: with the row's trimmed user
  -- and writer, its time, LEGAL, the name of the batch and fresh ids. The producer raises no
  -- `RowError`, and times are parsed as `fromisoformat` does.
  pub process_batch-accounts :
      (name content : String) (lines : List Line) (s t : Ingestion P W) (n : ℕ) (rs : List Reject)
      → Regular
      → skip_header (pf.read_csv content) ≡ ok lines
      → process_batch pf name content s ≡ (ok (n, rs), t)
      → let events = expected_events pf.formats pf.uuid name s.next_id lines in
        (n ≡ length lines)
        × (rs ≡ expected_rejects pf.formats 2 lines)
        × (t.producer ≡ given events s.producer)
        × (length events + length rs ≡ n)
  unfolding process_batch
  process_batch-accounts name content lines s t n rs reg header done =
      let all : let (r, u) = process_rows pf name lines 2 0 [] s in
          Accounted name 2 0 [] lines s r u =
        process_rows-Accounted name lines 2 0 [] s reg in
      let run : process_rows pf name lines 2 0 [] s ≡ (ok (n, rs), t) =
        ground (arith, header, done) in
      let (counted, rejected, producer, sum) = rw run at all in
      (omega arith, rejected, producer, omega arith)
