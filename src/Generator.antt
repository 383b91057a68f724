-- ===== src/Generator.antt =====
-- services/event-producers/event_producers/generator.py: `EventGenerator`. The seeded generator, the
-- UUIDs and the clock are parameters, and the state counts the calls of each of them.
pub mod Draws
use Prim.Native.String as Str
use tikblog_unsubscribe_plat.Base.{
  ℕ, ◌+◌, String, Bool, true, false, Option, none, some, List, [], ◌∷◌, ◌++◌,
}
use tikblog_unsubscribe_plat.Base.Tests.{str_eq, if◌then◌else◌}
use tikblog_unsubscribe_plat.Base.Texts.{decimal}
use tikblog_unsubscribe_plat.Base.Errors.{Result, ok, raised, exn, value_error, ◌>>=◌}
use tikblog_unsubscribe_plat.Base.Floats.{Floats}
use tikblog_unsubscribe_plat.Contracts.Model.{
  Datetime, offset_by, UnsubscribeSource, ui, customer_success, legal, UnsubscribeEvent, make_event,
}
use tikblog_unsubscribe_plat.Kafka.Message.{Bytes}

-- `random.Random`, `uuid4` and `datetime.now(UTC)`, each by the number of its calls so far; `choice`
-- is taken on the list's index and a list that is not empty.
pub record Sources (F : Type 0) : Type 0 where
  pub choice : List String → ℕ → String
  pub random : ℕ → F
  pub randrange : ℕ → ℕ → ℕ
  pub randbytes : ℕ → ℕ → Bytes
  pub uuid : ℕ → String
  pub now_instant : ℕ → ℕ

pub record Settings (F : Type 0) : Type 0 where
  pub source : UnsubscribeSource
  pub users : List String
  pub writers : List String
  pub cs_agents : List String
  pub technical_duplicate_probability : F
  pub meaningless_event_probability : F
  pub garbage_bytes_probability : F

-- The calls made so far.
pub record EventGenerator : Type 0 where
  pub draws : ℕ
  pub ids : ℕ
  pub times : ℕ

pub record GeneratedBatch : Type 0 where
  pub events : List UnsubscribeEvent
  pub garbage : List Bytes

-- `FUTURE_SHIFT`, in microseconds.
abbrev pub future_shift : ℕ
future_shift = 31536000000000

abbrev pub meaningless_flavours : List String
meaningless_flavours = "empty_user_id" ∷ "requested_at_in_future" ∷ "unknown_writer_id" ∷ []

module _ {F : Type 0} ⦃fl : Floats F⦄ (src : Sources F) (st : Settings F) where
  -- `self._random.choice(xs)`
  unfoldable pub choose : List String → EventGenerator → String × EventGenerator
  choose xs g = (src.choice xs g.draws, record g { draws = g.draws + 1 })

  -- `probability > 0 and self._random.random() < probability`
  unfoldable pub happens : F → EventGenerator → Bool × EventGenerator
  happens p g =
      if fl.lt fl.zero_float p
      then (fl.lt (src.random g.draws) p, record g { draws = g.draws + 1 })
      else (false, g)

  -- The agent of an event: drawn for Customer Success, else None.
  unfoldable pub draw_agent : UnsubscribeSource → EventGenerator → Option String × EventGenerator
  unfolding choose
  draw_agent customer_success g = let (a, g') = choose st.cs_agents g in (some a, g')
  draw_agent ui g = (none, g)
  draw_agent legal g = (none, g)

  -- `_make_event`: the event id, the time and the request id come first.
  unfoldable pub make_random_event :
      String
      → String
      → UnsubscribeSource
      → EventGenerator
      → Result UnsubscribeEvent × EventGenerator
  unfolding draw_agent
  make_random_event user_id writer_id source g =
      let (agent, g') = draw_agent source g in
      (
        make_event (record {
          event_id = src.uuid g.ids;
          user_id = user_id;
          writer_id = writer_id;
          source = source;
          requested_at = record { instant = src.now_instant g.times; zone = offset_by 0 };
          request_id = src.uuid (g.ids + 1);
          cs_agent_id = agent;
          legal_batch_id = none;
        }),
        record g' { ids = g.ids + 2; times = g.times + 1 },
      )

  -- The `match` on the flavour; `replace` builds a new event.
  unfoldable pub apply_flavour :
      String → UnsubscribeEvent → EventGenerator → Result UnsubscribeEvent × EventGenerator
  apply_flavour flavour e g =
      if str_eq flavour "empty_user_id"
      then (make_event (record e { user_id = "" }), g)
      else if str_eq flavour "requested_at_in_future"
      then (
        make_event (record e {
          requested_at = record {
            instant = e.requested_at.instant + future_shift;
            zone = e.requested_at.zone;
          };
        }),
        g,
      )
      else if str_eq flavour "unknown_writer_id"
      then (
        make_event (record e {
          writer_id = Str.◌++◌ "writer-outside-pool-" (decimal (src.randrange 1000 g.draws));
        }),
        record g { draws = g.draws + 1 },
      )
      else (raised (exn value_error (Str.◌++◌ "Unknown meaningless flavour: " flavour)), g)

  unfoldable pub make_meaningless_event :
      String → String → EventGenerator → Result UnsubscribeEvent × EventGenerator
  unfolding make_random_event choose apply_flavour
  make_meaningless_event user_id writer_id g =
      let (made, g1) = make_random_event user_id writer_id st.source g in
      let (flavour, g2) = choose meaningless_flavours g1 in
      elim made [ raised x ↦ (raised x, g1) | ok e ↦ apply_flavour flavour e g2 ]

  -- `b"not-avro:" + self._random.randbytes(16)`, the prefix as its bytes.
  unfoldable pub make_garbage : EventGenerator → Bytes × EventGenerator
  make_garbage g = (
    110 ∷ 111 ∷ 116 ∷ 45 ∷ 97 ∷ 118 ∷ 114 ∷ 111 ∷ 58 ∷ src.randbytes 16 g.draws,
    record g { draws = g.draws + 1 },
  )

  -- The events after the normal one: a duplicate of it, and a meaningless one.
  unfoldable pub add_duplicate :
      UnsubscribeEvent → EventGenerator → List UnsubscribeEvent × EventGenerator
  unfolding happens
  add_duplicate e g =
      let (twice, g') = happens st.technical_duplicate_probability g in
      (if twice then e ∷ e ∷ [] else e ∷ [], g')

  unfoldable pub add_meaningless :
      String
      → String
      → List UnsubscribeEvent
      → EventGenerator
      → Result (List UnsubscribeEvent) × EventGenerator
  unfolding happens make_meaningless_event
  add_meaningless user_id writer_id events g =
      let (wanted, g1) = happens st.meaningless_event_probability g in
      let (made, g2) = make_meaningless_event user_id writer_id g1 in
      if wanted
      then elim made [ raised x ↦ (raised x, g2) | ok e ↦ (ok (events ++ e ∷ []), g2) ]
      else (ok events, g1)

  unfoldable pub add_garbage : EventGenerator → List Bytes × EventGenerator
  unfolding happens make_garbage
  add_garbage g =
      let (wanted, g1) = happens st.garbage_bytes_probability g in
      let (payload, g2) = make_garbage g1 in if wanted then (payload ∷ [], g2) else ([], g1)

  -- The rest of `next_batch` once the normal event is made.
  unfoldable pub complete_batch :
      String
      → String
      → Result UnsubscribeEvent × EventGenerator
      → Result GeneratedBatch × EventGenerator
  unfolding add_duplicate add_meaningless add_garbage
  complete_batch user_id writer_id (raised x, g) = (raised x, g)
  complete_batch user_id writer_id (ok e, g) =
      let (events, g4) = add_duplicate e g in
      let (all_events, g5) = add_meaningless user_id writer_id events g4 in
      let (garbage, g6) = add_garbage g5 in
      elim all_events [
        | raised x ↦ (raised x, g5)
        | ok es ↦ (ok (record { events = es; garbage = garbage }), g6)
      ]

  unfoldable pub next_batch : EventGenerator → Result GeneratedBatch × EventGenerator
  unfolding choose make_random_event complete_batch
  next_batch g =
      let (user_id, g1) = choose st.users g in
      let (writer_id, g2) = choose st.writers g1 in
      complete_batch user_id writer_id (make_random_event user_id writer_id st.source g2)
