-- ===== src/Analytics/Sensor.antt =====
-- airflow/dags/legal_sensor.py: `pending_offsets` and `acknowledge_sensor`, over the Kafka consumer of
-- the sensor's group. `str` and `int` of a partition's number, which take it through JSON, are left
-- out.
use tikblog_unsubscribe_plat.Base.{
  ℕ, String, Bool, false, ◌||◌, ◌≡◌, refl, sym, ap, ◌∙◌, Option, none, some, List, [], ◌∷◌, map,
  arith,
}
use tikblog_unsubscribe_plat.Base.Tests.{ltb, if◌then◌else◌}
use tikblog_unsubscribe_plat.Base.Lists.{All, any}
use tikblog_unsubscribe_plat.Base.Errors.{Result, ok, raised, exn, runtime_error}

-- What the consumer says of a topic, and what it does.
pub record SensorConsumer (W : Type 0) : Type 0 where
  -- The metadata of the topic: an error, or none and the partitions.
  pub error : String → W → Option String
  pub partitions : String → W → List ℕ
  -- `committed`; none stands for a negative offset.
  pub committed : String → W → ℕ → Option ℕ
  pub low : String → W → ℕ → ℕ
  pub high : String → W → ℕ → ℕ
  pub commit : String → List (ℕ × ℕ) → W → Result {0} Unit × W

-- What the trigger hands on: the end offset of every partition.
pub record SensorEvent : Type 0 where
  pub topic : String
  pub offsets : List (ℕ × ℕ)

module _ {W : Type 0} (consumer : SensorConsumer W) where
  -- `p.offset if p.offset >= 0 else low`
  unfoldable pub start : String → W → ℕ → ℕ
  start topic w p = elim (consumer.committed topic w p) [
    | some o ↦ o
    | none ↦ consumer.low topic w p
  ]

  -- The loop over the partitions, with `pending` so far.
  unfoldable pub is_pending : String → W → List ℕ → Bool → Bool
  unfolding start
  is_pending topic w [] pending = pending
  is_pending topic w (p ∷ ps) pending =
      is_pending topic w ps (pending || ltb (start topic w p) (consumer.high topic w p))

  unfoldable pub pending_offsets : String → W → Result (Option SensorEvent)
  unfolding is_pending
  pending_offsets topic w = elim (consumer.error topic w) [
    | some e ↦ raised (exn runtime_error e)
    | none ↦ ok (
        if is_pending topic w (consumer.partitions topic w) false
        then some (record {
          topic = topic;
          offsets = map (λ p. (p, consumer.high topic w p)) (consumer.partitions topic w);
        })
        else none)
  ]

  unfoldable pub acknowledge_sensor : SensorEvent → W → Result {0} Unit × W
  acknowledge_sensor e w = consumer.commit e.topic e.offsets w

  -- What the sensor relies on: a commit that succeeds is what `committed` reports afterwards, and it
  -- leaves the topic as it is.
  pub record CommitLaws : Type 0 where
    pub commit_law :
        (topic : String) (f : ℕ → ℕ) (ps : List ℕ) (w : W)
        → (consumer.commit topic (map (λ p. (p, f p)) ps) w).0 ≡ ok tt
        → All
            (λ p.
              consumer.committed topic (consumer.commit topic (map (λ p. (p, f p)) ps) w).1 p
              ≡ some (f p))
            ps
    pub topic_law :
        (topic : String) (os : List (ℕ × ℕ)) (w : W)
        → let w' = (consumer.commit topic os w).1 in
          (consumer.error topic w' ≡ consumer.error topic w)
          × (consumer.partitions topic w' ≡ consumer.partitions topic w)
          × ((p : ℕ) → consumer.high topic w' p ≡ consumer.high topic w p)

  start-committed :
      (topic : String) (w : W) (p o : ℕ)
      → consumer.committed topic w p ≡ some o
      → start topic w p ≡ o
  unfolding start
  start-committed topic w p o h = rw (h, start) refl

  -- With these offsets committed, a partition is pending if its end is past its offset.
  is_pending-committed :
      (topic : String) (u : W) (f g : ℕ → ℕ) (ps : List ℕ) (pending : Bool)
      → All (λ p. consumer.committed topic u p ≡ some (f p)) ps
      → ((p : ℕ) → consumer.high topic u p ≡ g p)
      → is_pending topic u ps pending ≡ pending || any (λ p. ltb (f p) (g p)) ps
  unfolding is_pending any
  is_pending-committed topic u f g [] pending h ends = ground arith
  is_pending-committed topic u f g (p ∷ ps) pending h ends =
      rw (start-committed topic u p (f p) h.0, ends p)
        (is_pending-committed topic u f g ps (pending || ltb (f p) (g p)) h.1 ends ∙ ground arith)

  pending_offsets-event :
      (topic : String) (w : W) (e : SensorEvent)
      → pending_offsets topic w ≡ ok (some e)
      → (e.topic ≡ topic)
        × (e.offsets ≡ map (λ p. (p, consumer.high topic w p)) (consumer.partitions topic w))
  unfolding pending_offsets
  pending_offsets-event topic w e h = ground arith

  map-ends :
      (f g : ℕ → ℕ) (ps : List ℕ)
      → ((p : ℕ) → f p ≡ g p)
      → map {B = ℕ × ℕ} (λ p. (p, f p)) ps ≡ map (λ p. (p, g p)) ps
  map-ends f g [] same = refl
  map-ends f g (p ∷ ps) same = rw (same p, map-ends f g ps same) refl

  pending_offsets-known :
      (topic : String) (u : W) (ps : List ℕ) (g : ℕ → ℕ) (arrived : Bool)
      → consumer.error topic u ≡ none
      → consumer.partitions topic u ≡ ps
      → ((p : ℕ) → consumer.high topic u p ≡ g p)
      → is_pending topic u ps false ≡ arrived
      → pending_offsets topic u
        ≡ ok (
            if arrived
            then some (record { topic = topic; offsets = map (λ p. (p, g p)) ps })
            else none)
  unfolding pending_offsets
  pending_offsets-known topic u ps g arrived fine same ends pending =
      rw (fine, same, pending, map-ends (consumer.high topic u) g ps ends, pending_offsets) refl

  -- An event of `pending_offsets` in a world `w` is acknowledged in a later one, `w'`, with the
  -- ingestion in between, whose topic has the same partitions and whatever ends. If the commit
  -- succeeds, then the offsets committed for the event's topic are the ends at `w`, and the next
  -- `pending_offsets` gives an event, with the ends at `w'`, exactly if some partition has grown since
  -- `w`: messages that arrived in between stay pending, and nothing else does. The commits of the
  -- consumer must take effect and leave the topic as it is (`CommitLaws`).
  pub acknowledge_sensor-pending_offsets :
      (laws : CommitLaws) (topic : String) (w w' : W) (e : SensorEvent)
      → pending_offsets topic w ≡ ok (some e)
      → consumer.error topic w' ≡ none
      → consumer.partitions topic w' ≡ consumer.partitions topic w
      → (acknowledge_sensor e w').0 ≡ ok tt
      → let u = (acknowledge_sensor e w').1 in
        let ps = consumer.partitions topic w in
        All (λ p. consumer.committed topic u p ≡ some (consumer.high topic w p)) ps
        × (pending_offsets topic u
            ≡ ok (
                if any (λ p. ltb (consumer.high topic w p) (consumer.high topic w' p)) ps
                then some (record {
                  topic = topic;
                  offsets = map (λ p. (p, consumer.high topic w' p)) ps;
                })
                else none))
  unfolding acknowledge_sensor
  acknowledge_sensor-pending_offsets laws topic w w' e fired fine same done =
      let ps = consumer.partitions topic w in
      let os : List (ℕ × ℕ) = map (λ p. (p, consumer.high topic w p)) ps in
      let (of_topic, offsets) = pending_offsets-event topic w e fired in
      let call : consumer.commit e.topic e.offsets w' ≡ consumer.commit topic os w' =
        rw (of_topic, offsets) refl in
      let u : W = (consumer.commit topic os w').1 in
      let kept = laws.topic_law topic os w' in
      let committed : All (λ p. consumer.committed topic u p ≡ some (consumer.high topic w p)) ps =
        laws.commit_law topic (consumer.high topic w) ps w' (ap (λ r. r.0) (sym call) ∙ done) in
      rw (call) (
        committed,
        pending_offsets-known topic u ps (consumer.high topic w') _ (kept.0 ∙ fine) (kept.1 ∙ same)
            kept.2
            (is_pending-committed topic u (consumer.high topic w) (consumer.high topic w') ps false
              committed kept.2),
      )
