-- ===== src/Kafka/Producer/Sends.antt =====
-- libs/tikblog_kafka/producer.py: the three counters, and what exit code 0 of the event producer
-- means.
use tikblog_unsubscribe_plat.Base.{
  ℕ, zero, suc, ◌+◌, ◌-◌, min, ◌≡◌, refl, sym, ap, ◌∙◌, subst, ◌≤◌, ◌≢◌, ◌||◌, ◌⊎◌, inl, inr,
  String, Option, none, some, List, [], ◌∷◌, arith,
}
use tikblog_unsubscribe_plat.Base.Tests.{leb, ltb, if◌then◌else◌, Bool-cases}
use tikblog_unsubscribe_plat.Base.Lists.{length}
use tikblog_unsubscribe_plat.Base.Errors.{Result, ok, raised, Exn, Result-cases}
use tikblog_unsubscribe_plat.Contracts.Model.{UnsubscribeEvent}
use tikblog_unsubscribe_plat.Contracts.Avro.{message_key}
use tikblog_unsubscribe_plat.Kafka.Message.{Bytes}
use tikblog_unsubscribe_plat.Kafka.Producer
use tikblog_unsubscribe_plat.Kafka.Producer.{
  Client, ProducerConfig, UnsubscribeProducer, Report, Produced, queued, queue_full, failed,
  report_all,
}
use tikblog_unsubscribe_plat.Kafka.Producer.Laws.{ClientLaws, accepted}

module _ {W : Type 0} where
  -- Replies are counted once each, and touch nothing else.
  pub report_all-counts :
      (rs : List Report) (p : UnsubscribeProducer W)
      → ((report_all rs p).world ≡ p.world)
        × ((report_all rs p).sent_count ≡ p.sent_count)
        × ((report_all rs p).delivered_count + (report_all rs p).failed_count
            ≡ p.delivered_count + p.failed_count + length rs)
        × (p.failed_count ≤ (report_all rs p).failed_count)
  unfolding report_all Producer.report_delivery
  report_all-counts [] p = (refl, refl, omega arith, omega arith)
  report_all-counts (none ∷ rs) p =
      let p' : UnsubscribeProducer W = record p { delivered_count = p.delivered_count + 1 } in
      let ih = report_all-counts rs p' in (ih.0, ih.1, omega (arith, ih), omega (arith, ih))
  report_all-counts (some e ∷ rs) p =
      let p' : UnsubscribeProducer W = record p { failed_count = p.failed_count + 1 } in
      let ih = report_all-counts rs p' in (ih.0, ih.1, omega (arith, ih), omega (arith, ih))

pub Produced-cases :
    (o : Produced)
    → (o ≡ queued) ⊎ (((e : Exn) × (o ≡ queue_full e)) ⊎ ((e : Exn) × (o ≡ failed e)))
Produced-cases queued = inl refl
Produced-cases (queue_full e) = inr (inl (e, refl))
Produced-cases (failed e) = inr (inr (e, refl))

none-some : {A : Type 0} (a : A) → none ≢ some a
none-some a h = ground arith

some_injective : {A : Type 0} {a b : A} → some a ≡ some b → a ≡ b
some_injective {A} {a} {b} h = cc

exit_ok : (e : Exn) (n : ℕ) → raised e ≢ ok n
exit_ok e n h = ground arith

exit_zero :
    (a b : ℕ)
    → ◌≡◌ {A = Result ℕ} (ok (if ltb 0 a || ltb 0 b then 1 else 0)) (ok 0)
    → (a ≡ 0) × (b ≡ 0)
exit_zero a b h = ground arith

module _ {W : Type 0} (client : Client W) (cfg : ProducerConfig) (laws : ClientLaws client) where
  -- Every message sent is delivered, failed or in the queue, and none counts twice as sent.
  abbrev Balanced : UnsubscribeProducer W → Type 0
  Balanced p =
      (p.delivered_count + laws.in_flight p.world ≤ p.sent_count)
      × (p.sent_count ≤ p.delivered_count + p.failed_count + laws.in_flight p.world)

  serve-Balanced :
      (t : ℕ) (p : UnsubscribeProducer W) → Balanced p → Balanced (Producer.serve client cfg t p)
  unfolding Producer.serve
  serve-Balanced t p h =
      let rs = (client.poll t p.world).0 in
      let w : W = (client.poll t p.world).1 in
      let c = report_all-counts rs (record p { world = w }) in
      let law = laws.poll_law t p.world in rw (c.0) (omega (arith, c.1, c.2, law, h))

  -- Where the calls end, the producer that they leave is balanced.
  abbrev Ends : Option (Result {0} Unit × UnsubscribeProducer W) → Type 0
  Ends none = Unit
  Ends (some (r, p)) = Balanced p

  enqueue_until-Ends :
      (fuel deadline : ℕ) (key : String) (b : Bytes) (p : UnsubscribeProducer W)
      → Balanced p
      → Ends (Producer.enqueue_until client cfg fuel deadline key b p)
  unfolding Producer.enqueue_until Producer.poll accepted
  enqueue_until-Ends zero deadline key b p h = tt
  enqueue_until-Ends (suc fuel) deadline key b p h =
      let law = laws.produce_law key b p.world in
      let w : W = (client.produce key b p.world).1 in
      let p1 : UnsubscribeProducer W = record p { world = w } in
      elim (Produced-cases (client.produce key b p.world).0) [
        | inl taken ↦
            let law1 =
              subst (λ o. laws.in_flight w ≡ laws.in_flight p.world + accepted o) taken law in
            rw (taken, Producer.enqueue_until)
              (serve-Balanced 0 (record p1 { sent_count = p1.sent_count + 1 })
                (omega (arith, law1, h)))
        | inr (inl (e, full)) ↦
            let law1 =
              subst (λ o. laws.in_flight w ≡ laws.in_flight p.world + accepted o) full law in
            let remaining = deadline - client.monotonic w in
            let waited : UnsubscribeProducer W =
              Producer.serve client cfg (min cfg.second remaining) p1 in
            let ih : Ends (Producer.enqueue_until client cfg fuel deadline key b waited) =
              enqueue_until-Ends fuel deadline key b waited
                (serve-Balanced (min cfg.second remaining) p1 (omega (arith, law1, h))) in
            elim (Bool-cases (leb remaining 0)) [
              | inl over ↦ rw (full, over, Producer.enqueue_until) (omega (arith, law1, h))
              | inr early ↦ rw (full, early, Producer.enqueue_until) ih
            ]
        | inr (inr (e, fails)) ↦
            let law1 =
              subst (λ o. laws.in_flight w ≡ laws.in_flight p.world + accepted o) fails law in
            rw (fails, Producer.enqueue_until) (omega (arith, law1, h))
      ]

  send-Ends :
      (fuel : ℕ) (e : UnsubscribeEvent) (p : UnsubscribeProducer W)
      → Balanced p
      → Ends (Producer.send client cfg fuel e p)
  unfolding Producer.send Producer.enqueue
  send-Ends fuel e p h = elim (Result-cases (client.to_bytes e)) [
    | inr (x, raises) ↦ rw (raises, Producer.send) h
    | inl (b, encoded) ↦
        rw (encoded, Producer.send) (enqueue_until-Ends fuel _ (message_key e) b p h)
  ]

  and_then-Ends :
      (m : Option (Result {0} Unit × UnsubscribeProducer W))
      (f : UnsubscribeProducer W → Option (Result {0} Unit × UnsubscribeProducer W))
      → Ends m
      → ((p : UnsubscribeProducer W) → Balanced p → Ends (f p))
      → Ends (Producer.and_then client cfg m f)
  and_then-Ends none f hm hf = tt
  and_then-Ends (some (ok u, p)) f hm hf = hf p hm
  and_then-Ends (some (raised e, p)) f hm hf = hm

  send_all-Ends :
      (fuel : ℕ) (es : List UnsubscribeEvent) (p : UnsubscribeProducer W)
      → Balanced p
      → Ends (Producer.send_all client cfg fuel es p)
  unfolding Producer.send_all
  send_all-Ends fuel [] p h = h
  send_all-Ends fuel (e ∷ es) p h =
      and_then-Ends _ _ (send-Ends fuel e p h) (λ p'. send_all-Ends fuel es p')

  send_garbage-Ends :
      (fuel : ℕ) (bs : List Bytes) (p : UnsubscribeProducer W)
      → Balanced p
      → Ends (Producer.send_garbage client cfg fuel bs p)
  unfolding Producer.send_garbage Producer.send_raw Producer.enqueue
  send_garbage-Ends fuel [] p h = h
  send_garbage-Ends fuel (b ∷ bs) p h =
      and_then-Ends _ _ (enqueue_until-Ends fuel _ "garbage" b p h)
        (λ p'. send_garbage-Ends fuel bs p')

  send_batches-Ends :
      (fuel : ℕ) (batches : List (List UnsubscribeEvent × List Bytes)) (p : UnsubscribeProducer W)
      → Balanced p
      → Ends (Producer.send_batches client cfg fuel batches p)
  unfolding Producer.send_batches
  send_batches-Ends fuel [] p h = h
  send_batches-Ends fuel (batch ∷ batches) p h =
      and_then-Ends _ _ (send_all-Ends fuel batch.0 p h) (λ p1 h1.
        and_then-Ends _ _ (send_garbage-Ends fuel batch.1 p1 h1)
          (λ p2. send_batches-Ends fuel batches p2))

  -- What `finish` leaves when it gives exit code 0.
  finish_lem :
      (r : Result {0} Unit) (p : UnsubscribeProducer W)
      → Balanced p
      → (Producer.finish client cfg (r, p)).0 ≡ ok 0
      → ((Producer.finish client cfg (r, p)).1.failed_count ≡ 0)
        × ((Producer.finish client cfg (r, p)).1.delivered_count
            ≡ (Producer.finish client cfg (r, p)).1.sent_count)
  unfolding Producer.finish Producer.flush
  finish_lem (raised e) p h zero_exit = absurd (exit_ok e 0 zero_exit)
  finish_lem (ok u) p h zero_exit =
      let rs = (client.flush cfg.flush_timeout p.world).0 in
      let still_queued : ℕ = (client.flush cfg.flush_timeout p.world).1 in
      let w : W = (client.flush cfg.flush_timeout p.world).2 in
      let c = report_all-counts rs (record p { world = w }) in
      let law = laws.flush_law cfg.flush_timeout p.world in
      let z =
        exit_zero (report_all rs (record p { world = w })).failed_count still_queued zero_exit in
      (z.0, omega (arith, c, law, z, h))

  finish_some_lem :
      (m : Option (Result {0} Unit × UnsubscribeProducer W)) (p : UnsubscribeProducer W)
      → Ends m
      → Producer.finish_some client cfg m ≡ some (ok 0, p)
      → (p.failed_count ≡ 0) × (p.delivered_count ≡ p.sent_count)
  finish_some_lem none p h ends = absurd (none-some _ ends)
  finish_some_lem (some (r, q)) p h ends =
      let same : Producer.finish client cfg (r, q) ≡ (ok 0, p) = some_injective ends in
      let facts = finish_lem r q h (ap (λ x. x.0) same) in
      (
        sym (ap (λ x. x.1.failed_count) same) ∙ facts.0,
        sym (ap (λ x. x.1.delivered_count) same) ∙ facts.1 ∙ ap (λ x. x.1.sent_count) same,
      )

  -- Over a client that gives one reply for each message that it takes (`ClientLaws`) and starts with
  -- an empty queue: if the event producer exits with code 0, then every message that it has queued was
  -- delivered, each counted once, and no message failed.
  pub main-exit_zero :
      (fuel : ℕ) (batches : List (List UnsubscribeEvent × List Bytes)) (w : W)
      (p : UnsubscribeProducer W)
      → laws.in_flight w ≡ 0
      → Producer.main client cfg fuel batches w ≡ some (ok 0, p)
      → (p.failed_count ≡ 0) × (p.delivered_count ≡ p.sent_count)
  unfolding Producer.main
  main-exit_zero fuel batches w p idle ends =
      finish_some_lem _ p (send_batches-Ends fuel batches _ (omega (arith, idle))) ends
