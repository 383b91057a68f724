-- ===== src/Generator/Draws.antt =====
-- services/event-producers/event_producers/generator.py: disabled options, and the size of a batch.
use tikblog_unsubscribe_plat.Base.{
  ℕ, ◌+◌, ◌≡◌, refl, ◌∙◌, ap, String, false, none, List, [], ◌∷◌, arith,
}
use tikblog_unsubscribe_plat.Base.Errors.{ok}
use tikblog_unsubscribe_plat.Base.Floats.{Floats}
use tikblog_unsubscribe_plat.Contracts.Model.{
  offset_by, UnsubscribeSource, ui, customer_success, legal, UnsubscribeEvent, make_event,
}
use tikblog_unsubscribe_plat.Generator
use tikblog_unsubscribe_plat.Generator.{
  Sources, Settings, EventGenerator, GeneratedBatch, meaningless_flavours,
}

-- The draws that the agent of an event takes.
unfoldable pub agent_draws : UnsubscribeSource → ℕ
agent_draws customer_success = 1
agent_draws ui = 0
agent_draws legal = 0

module _ {F : Type 0} ⦃fl : Floats F⦄ (src : Sources F) (st : Settings F) where
  -- An option is disabled if its probability is not greater than zero.
  abbrev pub Disabled : F → Type 0
  Disabled p = fl.lt fl.zero_float p ≡ false

  add_duplicate-Disabled :
      (e : UnsubscribeEvent) (g : EventGenerator)
      → Disabled st.technical_duplicate_probability
      → Generator.add_duplicate src st e g ≡ (e ∷ [], g)
  unfolding Generator.add_duplicate Generator.happens
  add_duplicate-Disabled e g off = rw (off) refl

  add_meaningless-Disabled :
      (u w : String) (es : List UnsubscribeEvent) (g : EventGenerator)
      → Disabled st.meaningless_event_probability
      → Generator.add_meaningless src st u w es g ≡ (ok es, g)
  unfolding Generator.add_meaningless Generator.happens
  add_meaningless-Disabled u w es g off = rw (off) refl

  add_garbage-Disabled :
      (g : EventGenerator)
      → Disabled st.garbage_bytes_probability
      → Generator.add_garbage src st g ≡ ([], g)
  unfolding Generator.add_garbage Generator.happens
  add_garbage-Disabled g off = rw (off) refl

  draw_agent_lem :
      (s : UnsubscribeSource) (g : EventGenerator)
      → (Generator.draw_agent src st s g).1.draws ≡ g.draws + agent_draws s
  unfolding Generator.draw_agent Generator.choose agent_draws
  draw_agent_lem customer_success g = refl
  draw_agent_lem ui g = omega arith
  draw_agent_lem legal g = omega arith

  -- The normal event, which is never refused.
  abbrev pub normal_event : EventGenerator → UnsubscribeEvent
  normal_event g =
      let g2 : EventGenerator = record g { draws = g.draws + 1 + 1 } in
      record {
        event_id = src.uuid g.ids;
        user_id = src.choice st.users g.draws;
        writer_id = src.choice st.writers (g.draws + 1);
        source = st.source;
        requested_at = record { instant = src.now_instant g.times; zone = offset_by 0 };
        request_id = src.uuid (g.ids + 1);
        cs_agent_id = (Generator.draw_agent src st st.source g2).0;
        legal_batch_id = none;
      }

  -- The state after the normal event of a batch.
  abbrev after_normal : EventGenerator → EventGenerator
  after_normal g =
      let g2 : EventGenerator = record g { draws = g.draws + 1 + 1 } in
      record (Generator.draw_agent src st st.source g2).1 { ids = g.ids + 2; times = g.times + 1 }

  complete_batch-Disabled :
      (u w : String) (e : UnsubscribeEvent) (g : EventGenerator)
      → Disabled st.technical_duplicate_probability
      → Disabled st.meaningless_event_probability
      → Disabled st.garbage_bytes_probability
      → Generator.complete_batch src st u w (ok e, g)
        ≡ (ok (record { events = e ∷ []; garbage = [] }), g)
  unfolding Generator.complete_batch Generator.add_duplicate Generator.add_meaningless
      Generator.add_garbage Generator.happens
  complete_batch-Disabled u w e g off1 off2 off3 = simp (
    off1, off2, off3, Generator.complete_batch, Generator.add_duplicate, Generator.add_meaningless,
    Generator.add_garbage, Generator.happens,
  )

  next_batch_lem :
      (g : EventGenerator)
      → Disabled st.technical_duplicate_probability
      → Disabled st.meaningless_event_probability
      → Disabled st.garbage_bytes_probability
      → Generator.next_batch src st g
        ≡ (ok (record { events = normal_event g ∷ []; garbage = [] }), after_normal g)
  unfolding Generator.next_batch Generator.choose Generator.make_random_event make_event
  next_batch_lem g off1 off2 off3 =
      complete_batch-Disabled (normal_event g).user_id (normal_event g).writer_id (normal_event g)
        (after_normal g) off1 off2 off3

  -- With every option disabled a batch is the one normal event, and the only random draws are those
  -- for its reader, its writer and, for Customer Success, its agent.
  pub next_batch-Disabled :
      (g : EventGenerator)
      → Disabled st.technical_duplicate_probability
      → Disabled st.meaningless_event_probability
      → Disabled st.garbage_bytes_probability
      → ((Generator.next_batch src st g).0
          ≡ ok (record { events = normal_event g ∷ []; garbage = [] }))
        × ((Generator.next_batch src st g).1.draws ≡ g.draws + 2 + agent_draws st.source)
  next_batch-Disabled g off1 off2 off3 =
      let e = normal_event g in
      let g3 : EventGenerator = after_normal g in
      let same = next_batch_lem g off1 off2 off3 in
      let agent = draw_agent_lem st.source (record g { draws = g.draws + 1 + 1 }) in
      (ap (λ x. x.0) same, ap (λ x. x.1.draws) same ∙ (agent ∙ omega arith))
