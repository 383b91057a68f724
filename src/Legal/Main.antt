-- ===== src/Legal/Main.antt =====
-- services/legal-ingestion/legal_ingestion/main.py: `main`, batch by batch.
use tikblog_unsubscribe_plat.Base.{
  ℕ, ◌+◌, ◌-◌, String, Bool, true, false, ◌&&◌, not, Option, none, some, List, [], ◌∷◌,
}
use tikblog_unsubscribe_plat.Base.Tests.{ltb, leb, ◌==◌}
use tikblog_unsubscribe_plat.Base.Lists.{length}
use tikblog_unsubscribe_plat.Base.Errors.{Result, ok, raised, exn, other_error, runtime_error}
use tikblog_unsubscribe_plat.Legal.Storage.{
  Bucket, get_object, put_object, delete_object, copy_object, LandingZone, inbox_key, processed_key,
  rejects_key, already_processed, list_batches,
}
use tikblog_unsubscribe_plat.Legal.Batch.{
  answered, refused, answer_lost, Reject, Platform, Ingestion, process_batch,
}

-- The totals that `main` logs.
pub record Totals : Type 0 where
  pub files_done : ℕ
  pub rows_read : ℕ
  pub events_sent : ℕ
  pub rows_rejected : ℕ

-- What one batch adds to them: rows read, events sent, rows rejected; `none` for a skipped batch.
abbrev pub Report : Type 0
Report = Option (ℕ × ℕ × ℕ)

abbrev pub add_report : Report → Totals → Totals
add_report none t = t
add_report (some (rows, sent, rejected)) t = record {
  files_done = t.files_done + 1;
  rows_read = t.rows_read + rows;
  events_sent = t.events_sent + sent;
  rows_rejected = t.rows_rejected + rejected;
}

module _ {P W : Type 0} (pf : Platform P W) (z : LandingZone) where
  -- One S3 call: it has its effect on the bucket, unless it is refused; it may raise after it.
  unfoldable pub s3 : (Bucket → Bucket) → Ingestion P W → Result (Unit {0}) × Ingestion P W
  s3 change s =
      let (outcome, w) = pf.s3_outcome s.world in
      elim outcome [
        | answered ↦ (ok tt, record s { world = w; bucket = change s.bucket })
        | refused e ↦ (raised e, record s { world = w })
        | answer_lost e ↦ (raised e, record s { world = w; bucket = change s.bucket })
      ]

  -- `read_rows` and `process_batch`: opening the file is an S3 call, which raises if it is missing.
  unfoldable pub read_batch : String → Ingestion P W → Result (ℕ × List Reject) × Ingestion P W
  unfolding s3
  read_batch name s =
      let (r, s') = s3 (λ b. b) s in
      elim r [
        | raised e ↦ (raised e, s')
        | ok _ ↦ elim (get_object (inbox_key z name) s'.bucket) [
          | none ↦ (raised (exn other_error "NoSuchKey"), s')
          | some content ↦ process_batch pf name content s'
        ]
      ]

  -- `producer.flush()`
  unfoldable pub flush : Ingestion P W → ℕ × Ingestion P W
  flush s = let (left, p) = pf.flush s.producer in (left, record s { producer = p })

  -- `if rejects: zone.write_rejects(name, rejects)`
  unfoldable pub write_rejects :
      String → List Reject → Ingestion P W → Result (Unit {0}) × Ingestion P W
  unfolding s3
  write_rejects name [] s = (ok tt, s)
  write_rejects name (r ∷ rs) s =
      s3 (put_object (rejects_key z name) (pf.rejects_csv name (r ∷ rs))) s

  -- `mark_processed`: copy, then delete.
  unfoldable pub mark_processed : String → Ingestion P W → Result (Unit {0}) × Ingestion P W
  unfolding s3
  mark_processed name s =
      let (r, s') = s3 (copy_object (inbox_key z name) (processed_key z name)) s in
      elim r [ raised e ↦ (raised e, s') | ok _ ↦ s3 (delete_object (inbox_key z name)) s' ]

  -- `still_queued > 0 or delivered != expected`, on Python's integers
  abbrev pub is_confirmed : ℕ → ℕ → ℕ → ℕ → Bool
  is_confirmed still_queued before after expected =
      not (ltb 0 still_queued) && leb before after && after - before == expected

  -- The `try` block, from the number of messages delivered before.
  unfoldable pub publish : String → ℕ → Ingestion P W → Result Report × Ingestion P W
  unfolding read_batch flush
  publish name before s =
      let (r, s1) = read_batch name s in
      elim r [
        | raised e ↦ (raised e, s1)
        | ok (rows, rejects) ↦
            let (still_queued, s2) = flush s1 in
            let delivered = pf.delivered_count s2.producer - before in
            elim (is_confirmed still_queued before (pf.delivered_count s2.producer)
              (rows - length rejects)) [
                | false ↦ (raised (exn runtime_error "Kafka did not confirm every event"), s2)
                | true ↦
                    let (wrote, s3) = write_rejects name rejects s2 in
                    elim wrote [
                      | raised e ↦ (raised e, s3)
                      | ok _ ↦
                          let (moved, s4) = mark_processed name s3 in
                          elim moved [
                            | raised e ↦ (raised e, s4)
                            | ok _ ↦ (ok (some (rows, delivered, length rejects)), s4)
                          ]
                    ]
              ]
      ]

  -- The body of the loop: skip, or publish; after an exception flush and raise it again.
  unfoldable pub process_one : String → Ingestion P W → Result Report × Ingestion P W
  unfolding s3 publish
  process_one name s =
      let (listed, s') = s3 (λ b. b) s in
      elim listed [
        | raised e ↦ (raised e, s')
        | ok _ ↦ elim (already_processed z name s'.bucket) [
          | true ↦ (ok none, s')
          | false ↦
              let (r, s'') = publish name (pf.delivered_count s'.producer) s' in
              elim r [ ok report ↦ (ok report, s'') | raised e ↦ (raised e, (flush s'').1) ]
        ]
      ]

  unfoldable pub process_all : List String → Totals → Ingestion P W → Result Totals × Ingestion P W
  unfolding process_one
  process_all [] totals s = (ok totals, s)
  process_all (name ∷ names) totals s =
      let (r, s') = process_one name s in
      elim r [
        | raised e ↦ (raised e, s')
        | ok report ↦ process_all names (add_report report totals) s'
      ]

  -- `main`, from the built store and producer
  unfoldable pub main : Ingestion P W → Result Totals × Ingestion P W
  unfolding s3 process_all
  main s =
      let (listed, s') = s3 (λ b. b) s in
      elim listed [
        | raised e ↦ (raised e, s')
        | ok _ ↦
            process_all (list_batches z s'.bucket)
              (record { files_done = 0; rows_read = 0; events_sent = 0; rows_rejected = 0 }) s'
      ]
