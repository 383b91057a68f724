-- ===== src/Analytics/Decode/Complete.antt =====
-- analytics/common/avro.py: `decode` loses no Kafka message and adds none.
use tikblog_unsubscribe_plat.Base.{
  ℕ, ◌≡◌, refl, sym, ◌∙◌, subst, inl, inr, String, Bool, Option, none, some, List, [], ◌∷◌, ◌++◌,
  map, arith,
}
use tikblog_unsubscribe_plat.Base.Tests.{Bool-cases}
use tikblog_unsubscribe_plat.Base.Errors.{Result, ok, raised, Result-cases}
use tikblog_unsubscribe_plat.Base.Lists.{
  length, length-append, select, All, Any, All-append, Any-append_left, Any-append_right,
}
use tikblog_unsubscribe_plat.Base.Members.{NoRepeat, All-map, Any-map}
use tikblog_unsubscribe_plat.Base.Found.{
  Found, Found-All, All-Found, Found-Any, Found-select, Found-map, select-Any,
}
use tikblog_unsubscribe_plat.Analytics.Sql.{same_number, same_number_iff}
use tikblog_unsubscribe_plat.Analytics.Lake.{Event}
use tikblog_unsubscribe_plat.Analytics.Quality.Checks.{is_empty}
use tikblog_unsubscribe_plat.Analytics.Decode
use tikblog_unsubscribe_plat.Analytics.Decode.{Message, Decoder, Payload, Writer}
use tikblog_unsubscribe_plat.Analytics.Decode.Parts.{parts, parts-length}

-- What Spark documents of `distinct`.
pub record FindsIds (decoder : Decoder) : Type 0 where
  pub unique : (ids : List (Option ℕ)) → NoRepeat (decoder.distinct_ids ids)
  pub covered : (ids : List (Option ℕ)) → All (λ i. Found i (decoder.distinct_ids ids)) ids

length-map : {A B : Type 0} (f : A → B) (xs : List A) → length (map f xs) ≡ length xs
length-map f [] = refl
length-map f (x ∷ xs) = rw (length-map f xs) refl

module _ (decoder : Decoder) where
  -- A row has the coordinates and the raw value of a message.
  pub record IsRowOf (m : Message) (r : Event) : Type 0 where
    pub kafka_topic : r.kafka_topic ≡ some m.topic
    pub kafka_partition : r.kafka_partition ≡ some m.partition
    pub kafka_offset : r.kafka_offset ≡ some m.offset
    pub raw_value : r.raw_value ≡ Decode.raw_text decoder m.value

  abbrev Converts : Result (Message → Event) → Type 0
  Converts (ok convert) = (m : Message) → IsRowOf m (convert m)
  Converts (raised e) = (id : ℕ) × (decoder.registry_schema id ≡ raised e)

  bronze_row-IsRowOf :
      (problem : Option String) (p : Payload) (m : Message)
      → IsRowOf m (Decode.bronze_row decoder problem p m)
  unfolding Decode.bronze_row
  bronze_row-IsRowOf problem p m = record {
    kafka_topic = refl;
    kafka_partition = refl;
    kafka_offset = refl;
    raw_value = refl;
  }

  rows_with-IsRowOf :
      (writer : Writer) (m : Message) → IsRowOf m (Decode.rows_with decoder writer m)
  unfolding Decode.rows_with Decode.read_row
  rows_with-IsRowOf writer m =
      elim (Bool-cases (is_empty (Decode.mismatched decoder writer.columns))) [
        | inl fits ↦ rw (fits, Decode.rows_with) (bronze_row-IsRowOf _ _ m)
        | inr differs ↦ rw (differs, Decode.rows_with) (bronze_row-IsRowOf _ _ m)
      ]

  converter-Converts : (id : Option ℕ) → Converts (Decode.converter decoder id)
  unfolding Decode.converter
  converter-Converts none = bronze_row-IsRowOf (some "invalid_confluent_frame") Decode.no_payload
  converter-Converts (some id) = elim (Result-cases (decoder.registry_schema id)) [
    | inl (writer, fetched) ↦ rw (fetched) (rows_with-IsRowOf writer)
    | inr (e, fails) ↦ rw (fails) (id, fails)
  ]

  -- What the frames of some ids hold.
  record Frames (batch : List Message) (ids : List (Option ℕ)) (rows : List Event) : Type 0 where
    size : length rows ≡ parts (Decode.schema_id decoder) batch ids
    covers :
        (m : Message)
        → Found m batch
        → Found (Decode.schema_id decoder m) ids
        → Any (IsRowOf m) rows
    sound : All (λ r. Any (λ m. IsRowOf m r) batch) rows

  abbrev Decoded : List Message → List (Option ℕ) → Result (List Event) → Type 0
  Decoded batch ids (ok rows) = Frames batch ids rows
  Decoded batch ids (raised e) = (id : ℕ) × (decoder.registry_schema id ≡ raised e)

  -- One frame before the others.
  frame-first :
      (batch : List Message) (id : Option ℕ) (ids : List (Option ℕ)) (convert : Message → Event)
      (rows : List Event)
      → ((m : Message) → IsRowOf m (convert m))
      → Frames batch ids rows
      → Frames batch
          (id ∷ ids)
          (map convert (select (λ m. same_number (Decode.schema_id decoder m) id) batch) ++ rows)
  frame-first batch id ids convert rows keeps frames =
      let mine : Message → Bool = λ m. same_number (Decode.schema_id decoder m) id in
      let frame = map convert (select mine batch) in
      record {
        size =
            omega (
              arith,
              length-append frame rows,
              length-map convert (select mine batch),
              frames.size,
            );
        covers = λ m found. elim [
          | inl same ↦ Any-append_left (IsRowOf m) frame rows (
              Any-map (IsRowOf m) convert (select mine batch) (
                Found-Any (λ x. IsRowOf m (convert x)) m (select mine batch) (keeps m)
                  (Found-select mine m batch
                    ((same_number_iff (Decode.schema_id decoder m) id).1 (sym same)) found)))
          | inr later ↦ Any-append_right (IsRowOf m) frame rows (frames.covers m found later)
        ];
        sound =
            All-append (λ r. Any (λ m. IsRowOf m r) batch) frame rows
              (All-map (λ r. Any (λ m. IsRowOf m r) batch) convert (select mine batch)
                (Found-All (λ x. Any (λ m. IsRowOf m (convert x)) batch) (select mine batch)
                  (λ x found.
                    Found-Any (λ m. IsRowOf m (convert x)) x batch (keeps x)
                      (select-Any (λ y. y ≡ x) mine batch found))))
              frames.sound;
      }

  decode_ids-Decoded :
      (batch : List Message) (ids : List (Option ℕ))
      → Decoded batch ids (Decode.decode_ids decoder batch ids)
  unfolding Decode.decode_ids
  decode_ids-Decoded batch [] = record {
    size = refl;
    covers = λ m found none_left. absurd none_left;
    sound = tt;
  }
  decode_ids-Decoded batch (id ∷ ids) =
      let converts = converter-Converts id in
      let later = decode_ids-Decoded batch ids in
      elim (Result-cases (Decode.converter decoder id)) [
        | inr (e, fails) ↦
            let failed : Converts (raised e) = subst Converts fails converts in
            rw (fails, Decode.decode_ids) failed
        | inl (convert, made) ↦
            let keeps : Converts (ok convert) = subst Converts made converts in
            elim (Result-cases (Decode.decode_ids decoder batch ids)) [
              | inr (e, fails) ↦
                  let failed : Decoded batch ids (raised e) =
                    subst (Decoded batch ids) fails later in
                  rw (made, fails, Decode.decode_ids) failed
              | inl (rows, decoded) ↦
                  let frames : Decoded batch ids (ok rows) =
                    subst (Decoded batch ids) decoded later in
                  rw (made, decoded, Decode.decode_ids)
                    (frame-first batch id ids convert rows keeps frames)
            ]
      ]

  -- What `decode` may end with.
  abbrev pub Complete : List Message → Result (Option (List Event)) → Type 0
  Complete batch (ok none) = batch ≡ []
  Complete batch (ok (some rows)) =
      (length rows ≡ length batch)
      × (All (λ m. Any (IsRowOf m) rows) batch × All (λ r. Any (λ m. IsRowOf m r) batch) rows)
  Complete batch (raised e) = (id : ℕ) × (decoder.registry_schema id ≡ raised e)

  united-Complete :
      (batch : List Message) (ids : List (Option ℕ)) (r : Result (List Event))
      → NoRepeat ids
      → All (λ m. Found (Decode.schema_id decoder m) ids) batch
      → Decoded batch ids r
      → Complete batch (Decode.united decoder ids r)
  united-Complete [] [] r unique known decoded = refl
  united-Complete (m ∷ ms) [] r unique known decoded = absurd known.0
  united-Complete batch (i ∷ is) (raised e) unique known decoded = decoded
  united-Complete batch (i ∷ is) (ok rows) unique known frames = (
    frames.size ∙ parts-length (Decode.schema_id decoder) (i ∷ is) batch unique known,
    (
      Found-All (λ m. Any (IsRowOf m) rows) batch
          (λ m found.
            frames.covers m found
              (All-Found (λ x. Found (Decode.schema_id decoder x) (i ∷ is)) m batch known found)),
      frames.sound,
    ),
  )

  -- `decode` gives exactly as many rows as there are messages; every message has a row with its topic,
  -- partition, offset and raw value, whether it can be decoded or not, and every row is that of a
  -- message. It gives None for an empty batch only, and raises only what the schema registry raises. It
  -- is assumed that `distinct` finds every schema id once.
  pub decode-Complete :
      FindsIds decoder → (batch : List Message) → Complete batch (Decode.decode decoder batch)
  unfolding Decode.decode
  decode-Complete finds batch =
      let keys = map (Decode.schema_id decoder) batch in
      let ids = decoder.distinct_ids keys in
      united-Complete batch ids (Decode.decode_ids decoder batch ids) (finds.unique keys)
        (Found-All (λ m. Found (Decode.schema_id decoder m) ids) batch
          (λ m found.
            All-Found (λ i. Found i ids) (Decode.schema_id decoder m) keys (finds.covered keys)
              (Found-map (Decode.schema_id decoder) m batch found)))
        (decode_ids-Decoded batch ids)
