-- ===== src/Legal/Moved.antt =====
-- When a batch leaves the inbox, and what an exception leaves behind.
use tikblog_unsubscribe_plat.Base.{
  ℕ, ◌+◌, ◌-◌, ◌≤◌, ◌≡◌, ◌≢◌, refl, sym, subst, ◌∙◌, String, true, ◌⊎◌, inl, inr, Option, none,
  some, List, [], ◌∷◌, arith,
}
use tikblog_unsubscribe_plat.Base.Tests.{str_eq_iff, str_eq_refl, Bool-cases, Option-cases}
use tikblog_unsubscribe_plat.Base.Lists.{length, length-append}
use tikblog_unsubscribe_plat.Base.Errors.{Result, ok, raised, Result-cases}
use tikblog_unsubscribe_plat.Legal.Storage.{
  Bucket, get_object, copy_object, LandingZone, inbox_key, processed_key, rejects_key,
  already_processed,
}
use tikblog_unsubscribe_plat.Legal.Lookup.{
  already_processed-exists, get_object-put_object, get_object-delete_object,
}
use tikblog_unsubscribe_plat.Legal.Batch.{
  Reject, Line, row, unreadable, Platform, Ingestion, is_row_error, skip_header, send_row,
  process_rows, process_batch,
}
use tikblog_unsubscribe_plat.Legal.Main.{
  Report, s3, read_batch, flush, write_rejects, mark_processed, is_confirmed, publish, process_one,
}

module _ {P W : Type 0} (pf : Platform P W) where
  -- Reading rows and sending events leaves the bucket alone.
  send_row-bucket :
      (name : String) (cells : List String) (s : Ingestion P W)
      → (send_row pf name cells s).1.bucket ≡ s.bucket
  unfolding send_row
  send_row-bucket name cells s = ground arith

  process_rows-bucket :
      (name : String) (lines : List Line) (line rows_read : ℕ) (rejects : List Reject)
      (s : Ingestion P W)
      → (process_rows pf name lines line rows_read rejects s).1.bucket ≡ s.bucket
  unfolding process_rows
  process_rows-bucket name [] line rows_read rejects s = refl
  process_rows-bucket name (unreadable e ∷ lines) line rows_read rejects s = refl
  process_rows-bucket name (row cells ∷ lines) line rows_read rejects s =
      elim (Result-cases (send_row pf name cells s).0) [
        | inl (_, sent) ↦
            rw (sent, process_rows)
              (process_rows-bucket name lines (line + 1) (rows_read + 1) rejects
                  (send_row pf name cells s).1
                ∙ send_row-bucket name cells s)
        | inr (x, bad) ↦ elim (Bool-cases (is_row_error x.kind)) [
          | inl rejected ↦
              rw (bad, rejected, process_rows)
                (process_rows-bucket name lines (line + 1) (rows_read + 1) _
                    (send_row pf name cells s).1
                  ∙ send_row-bucket name cells s)
          | inr other ↦ rw (bad, other, process_rows) (send_row-bucket name cells s)
        ]
      ]

  process_batch-bucket :
      (name content : String) (s : Ingestion P W)
      → (process_batch pf name content s).1.bucket ≡ s.bucket
  unfolding process_batch
  process_batch-bucket name content s = elim (Result-cases (skip_header (pf.read_csv content))) [
    | inl (lines, header) ↦ rw (header, process_batch) (process_rows-bucket name lines 2 0 [] s)
    | inr (x, bad) ↦ rw (bad, process_batch)
  ]

  -- There are no more rejects than rows.
  abbrev Fewer : Result (ℕ × List Reject) → Type 0
  Fewer (raised x) = Unit
  Fewer (ok (n, rs)) = length rs ≤ n

  process_rows-Fewer :
      (name : String) (lines : List Line) (line rows_read : ℕ) (rejects : List Reject)
      (s : Ingestion P W)
      → length rejects ≤ rows_read
      → Fewer (process_rows pf name lines line rows_read rejects s).0
  unfolding process_rows
  process_rows-Fewer name [] line rows_read rejects s h = h
  process_rows-Fewer name (unreadable e ∷ lines) line rows_read rejects s h = tt
  process_rows-Fewer name (row cells ∷ lines) line rows_read rejects s h =
      elim (Result-cases (send_row pf name cells s).0) [
        | inl (_, sent) ↦
            rw (sent, process_rows)
              (process_rows-Fewer name lines (line + 1) (rows_read + 1) rejects
                (send_row pf name cells s).1 (omega arith))
        | inr (x, bad) ↦ elim (Bool-cases (is_row_error x.kind)) [
          | inl rejected ↦
              rw (bad, rejected, process_rows)
                (process_rows-Fewer name lines (line + 1) (rows_read + 1) _
                  (send_row pf name cells s).1
                  (omega (
                    arith,
                    length-append rejects
                        (record { line_number = line; raw_row = cells; reason = x.message } ∷ []),
                  )))
          | inr other ↦ rw (bad, other, process_rows) tt
        ]
      ]

  process_batch-Fewer :
      (name content : String) (s : Ingestion P W) → Fewer (process_batch pf name content s).0
  unfolding process_batch
  process_batch-Fewer name content s = elim (Result-cases (skip_header (pf.read_csv content))) [
    | inl (lines, header) ↦
        rw (header, process_batch) (process_rows-Fewer name lines 2 0 [] s (omega arith))
    | inr (x, bad) ↦ rw (bad, process_batch) tt
  ]

module _ {P W : Type 0} (pf : Platform P W) (z : LandingZone) (name : String) where
  -- The content of the batch in the inbox.
  abbrev content_of : Ingestion P W → Option String
  content_of s = get_object (inbox_key z name) s.bucket

  read_batch-bucket : (s : Ingestion P W) → (read_batch pf z name s).1.bucket ≡ s.bucket
  unfolding read_batch
  read_batch-bucket s = elim (Option-cases (content_of s)) [
    | inl missing ↦ ground (arith, missing)
    | inr (content, found) ↦ ground (
      arith,
      found,
      process_batch-bucket pf name content (record s { world = (pf.s3_outcome s.world).1 }),
    )
  ]

  read_batch-found :
      (s : Ingestion P W) (n : ℕ × List Reject)
      → (read_batch pf z name s).0 ≡ ok n
      → content_of s ≢ none
  unfolding read_batch
  read_batch-found s n returned missing = ground arith

  read_batch-fewer :
      (s : Ingestion P W) (rows : ℕ) (rejects : List Reject)
      → (read_batch pf z name s).0 ≡ ok (rows, rejects)
      → length rejects ≤ rows
  unfolding read_batch
  read_batch-fewer s rows rejects returned = elim (Option-cases (content_of s)) [
    | inl missing ↦ ground (arith, missing)
    | inr (content, found) ↦ ground (
      arith,
      found,
      process_batch-Fewer pf name content (record s { world = (pf.s3_outcome s.world).1 }),
    )
  ]

  -- The three keys of the batch are different.
  pub record KeysDiffer : Type 0 where
    pub not_processed : inbox_key z name ≢ processed_key z name
    pub not_rejects : inbox_key z name ≢ rejects_key z name

  module _ (differ : KeysDiffer) where
    write_rejects-content :
        (rejects : List Reject) (s : Ingestion P W)
        → (content_of (write_rejects pf z name rejects s).1 ≡ content_of s)
          × ((write_rejects pf z name rejects s).1.producer ≡ s.producer)
    unfolding write_rejects
    write_rejects-content [] s = (refl, refl)
    write_rejects-content (r ∷ rs) s = ground (
      arith,
      get_object-put_object (rejects_key z name) (inbox_key z name) (pf.rejects_csv name (r ∷ rs))
          s.bucket,
      str_eq_iff (rejects_key z name) (inbox_key z name),
      differ.not_rejects,
    )

    copy-content :
        (b : Bucket)
        → (get_object (inbox_key z name) (copy_object (inbox_key z name) (processed_key z name) b)
            ≡ get_object (inbox_key z name) b)
          × (get_object (inbox_key z name) b ≢ none
              → get_object
                  (processed_key z name)
                  (copy_object (inbox_key z name) (processed_key z name) b)
                ≡ get_object (inbox_key z name) b)
    unfolding copy_object
    copy-content b = elim (Option-cases (get_object (inbox_key z name) b)) [
      | inl missing ↦ ground (arith, missing)
      | inr (v, found) ↦ ground (
        arith,
        found,
        get_object-put_object (processed_key z name) (inbox_key z name) v b,
        get_object-put_object (processed_key z name) (processed_key z name) v b,
        str_eq_iff (processed_key z name) (inbox_key z name),
        str_eq_refl (processed_key z name),
        differ.not_processed,
      )
    ]

    -- What moving the file does, by how it ends: an exception may come after the whole move.
    abbrev HasMoved : Ingestion P W → Ingestion P W → Type 0
    HasMoved s t =
        (content_of t ≡ none) × (get_object (processed_key z name) t.bucket ≡ content_of s)

    abbrev Moved : Result (Unit {0}) → Ingestion P W → Ingestion P W → Type 0
    Moved (raised x) s t = (content_of t ≡ content_of s) ⊎ HasMoved s t
    Moved (ok _) s t = HasMoved s t × (t.producer ≡ s.producer)

    mark_processed-Moved :
        (s : Ingestion P W)
        → content_of s ≢ none
        → let (r, t) = mark_processed pf z name s in Moved r s t
    unfolding mark_processed
    mark_processed-Moved s found =
        let copied = copy_object (inbox_key z name) (processed_key z name) s.bucket in
        ground (
          arith,
          (copy-content s.bucket).0,
          (copy-content s.bucket).1 found,
          get_object-delete_object (inbox_key z name) (inbox_key z name) copied,
          get_object-delete_object (inbox_key z name) (processed_key z name) copied,
          str_eq_iff (inbox_key z name) (processed_key z name),
          str_eq_refl (inbox_key z name),
          differ.not_processed,
        )

    -- Kafka has confirmed the events of the batch that is read from a state: reading it gave `rows`
    -- rows and `rejected` rejects, a flush left nothing in the queue of the producer, and the confirmed
    -- messages have grown by `sent`, which is the number of all rows that are not rejects.
    abbrev pub Confirmed : Ingestion P W → ℕ → ℕ → ℕ → P → Type 0
    Confirmed s rows sent rejected p =
        (rejects : List Reject) × ((read_batch pf z name s).0 ≡ ok (rows, rejects))
        × (length rejects ≡ rejected)
        × (pf.flush (read_batch pf z name s).1.producer ≡ (0, p))
        × (pf.delivered_count p ≡ pf.delivered_count s.producer + sent)
        × (sent + rejected ≡ rows)

    -- The file has moved, with every event confirmed.
    abbrev MovedConfirmed : Ingestion P W → Ingestion P W → Type 0
    MovedConfirmed s t =
        HasMoved s t
        × ((rows : ℕ) × (sent : ℕ) × (rejected : ℕ) × (p : P) × Confirmed s rows sent rejected p)

    -- What a round does to the batch, by how it ends, from the state in which the batch is read.
    abbrev pub Rounded : Result Report → Ingestion P W → Ingestion P W → Type 0
    Rounded (raised x) s t = (content_of t ≡ content_of s) ⊎ MovedConfirmed s t
    Rounded (ok none) s t = content_of t ≡ content_of s
    Rounded (ok (some (rows, sent, rejected))) s t =
        HasMoved s t × Confirmed s rows sent rejected t.producer

    module _ (s : Ingestion P W) (rows : ℕ) (rejects : List Reject)
        (good : (read_batch pf z name s).0 ≡ ok (rows, rejects)) where
      abbrev before : ℕ
      before = pf.delivered_count s.producer

      abbrev flushed : Ingestion P W
      flushed = (flush pf z (read_batch pf z name s).1).1

      abbrev after : ℕ
      after = pf.delivered_count flushed.producer

      confirmed :
          is_confirmed pf z
              (flush pf z (read_batch pf z name s).1).0
              before
              after
              (rows - length rejects)
            ≡ true
          → Confirmed s rows (after - before) (length rejects) flushed.producer
      unfolding flush
      confirmed h = (
        rejects,
        good,
        refl,
        ground arith,
        ground arith,
        ground (arith, read_batch-fewer s rows rejects good),
      )

      flushed-content : content_of flushed ≡ content_of s
      unfolding flush
      flushed-content = ground (arith, read_batch-bucket s)

      kept_or_moved :
          (t : Ingestion P W)
          → is_confirmed pf z
              (flush pf z (read_batch pf z name s).1).0
              before
              after
              (rows - length rejects)
            ≡ true
          → (content_of t ≡ content_of (write_rejects pf z name rejects flushed).1)
            ⊎ HasMoved (write_rejects pf z name rejects flushed).1 t
          → (content_of t ≡ content_of s) ⊎ MovedConfirmed s t
      kept_or_moved t h (inl stays) =
          inl (stays ∙ (write_rejects-content rejects flushed).0 ∙ flushed-content)
      kept_or_moved t h (inr (gone, there)) = inr (
        (gone, there ∙ (write_rejects-content rejects flushed).0 ∙ flushed-content),
        (rows, after - before, length rejects, flushed.producer, confirmed h),
      )

      publish-confirmed :
          is_confirmed pf z
              (flush pf z (read_batch pf z name s).1).0
              before
              after
              (rows - length rejects)
            ≡ true
          → let (r, t) = publish pf z name before s in Rounded r s t
      unfolding publish
      publish-confirmed h =
          let c = confirmed h in
          let written = (write_rejects pf z name rejects flushed).1 in
          let same = flushed-content in
          let kept = write_rejects-content rejects flushed in
          elim (Result-cases (write_rejects pf z name rejects flushed).0) [
            | inr (x, bad) ↦ rw (good, h, bad, publish) (inl (kept.0 ∙ same))
            | inl (_, wrote) ↦
                let moved =
                  mark_processed-Moved written
                    (λ e. read_batch-found s (rows, rejects) good (sym same ∙ sym kept.0 ∙ e)) in
                elim (Result-cases (mark_processed pf z name written).0) [
                  | inr (x, bad) ↦
                      rw (good, h, wrote, bad, publish)
                        (kept_or_moved (mark_processed pf z name written).1 h (rw bad at moved))
                  | inl (_, done) ↦
                      let to_end = rw done at moved in
                      rw (good, h, wrote, done, publish)
                        (
                          (to_end.0.0, to_end.0.1 ∙ kept.0 ∙ same),
                          subst (λ p. Confirmed s rows (after - before) (length rejects) p)
                              (sym (to_end.1 ∙ kept.1)) c,
                        )
                ]
          ]

    publish-Rounded :
        (s : Ingestion P W)
        → let (r, t) = publish pf z name (pf.delivered_count s.producer) s in Rounded r s t
    unfolding publish
    publish-Rounded s = elim (Result-cases (read_batch pf z name s).0) [
      | inr (x, bad) ↦ rw (bad, publish) (inl (ground (arith, read_batch-bucket s)))
      | inl ((rows, rejects), good) ↦
          elim (Bool-cases (
            is_confirmed pf z (flush pf z (read_batch pf z name s).1).0
              (pf.delivered_count s.producer)
              (pf.delivered_count (flush pf z (read_batch pf z name s).1).1.producer)
              (rows - length rejects))) [
                | inl sure ↦ publish-confirmed s rows rejects good sure
                | inr unsure ↦
                    rw (good, unsure, publish) (inl (ground (arith, read_batch-bucket s)))
              ]
    ]

    -- One round of `main`, whatever Kafka and S3 do, a call whose answer is lost included: a skip leaves
    -- the file in the inbox as it was. Otherwise either the call has raised with the file in the inbox
    -- as it was, or the file has moved to the processed prefix with its content; then, after the batch
    -- was read with some rows and rejects, a flush has left nothing queued, and the messages that Kafka
    -- has confirmed have grown by the number of all rows that are not rejects, which is the number a
    -- report gives as sent. The three keys of the batch must be different.
    pub process_one-Rounded :
        (s : Ingestion P W)
        → let u = (s3 pf z (λ b. b) s).1 in
          let (r, t) = process_one pf z name s in
          Rounded r u t × (content_of u ≡ content_of s) × (u.producer ≡ s.producer)
    unfolding process_one s3
    process_one-Rounded s = (
      elim (Result-cases (s3 pf z (λ b. b) s).0) [
        | inr (x, bad) ↦ rw (bad, process_one) (inl refl)
        | inl (_, good) ↦
            let u = (s3 pf z (λ b. b) s).1 in
            let whole = publish-Rounded u in
            elim (Bool-cases (already_processed z name u.bucket)) [
              | inl skipped ↦ rw (good, skipped, process_one) refl
              | inr fresh ↦
                  rw (good, fresh, process_one)
                    (elim (Result-cases (publish pf z name (pf.delivered_count u.producer) u).0) [
                      | inl (r, done) ↦ rw done (rw done at whole)
                      | inr (x, bad) ↦ rw bad (ground (arith, rw bad at whole))
                    ])
            ]
      ],
      ground arith,
      ground arith,
    )

  -- A batch with an object at its processed key is skipped: the bucket stays as it is and nothing is
  -- handed to the producer.
  pub process_one-skips :
      (s : Ingestion P W) (content : String) (r : Report)
      → get_object (processed_key z name) s.bucket ≡ some content
      → (process_one pf z name s).0 ≡ ok r
      → (r ≡ none)
        × ((process_one pf z name s).1.bucket ≡ s.bucket)
        × ((process_one pf z name s).1.handed ≡ s.handed)
  unfolding process_one
  process_one-skips s content r there returned =
      ground (arith, already_processed-exists z name s.bucket)
