-- ===== src/Consumer/Lost.antt =====
-- What `deliver` and the commit after it do when the dead-letter topic refuses the message.
use tikblog_unsubscribe_plat.Base.{
  ℕ, suc, ◌≤◌, ◌≡◌, ◌≢◌, refl, ◌∙◌, String, ◌-◌, Option, none, some, List, [], ◌∷◌, ◌++◌, arith,
}
use tikblog_unsubscribe_plat.Base.Errors.{ok, raised, Exn, permanent_rejection}
use tikblog_unsubscribe_plat.Base.Floats.{Floats}
use tikblog_unsubscribe_plat.Contracts.Model.{UnsubscribeEvent}
use tikblog_unsubscribe_plat.Kafka.Message.{Bytes, Message}
use tikblog_unsubscribe_plat.Kafka.Dlq
use tikblog_unsubscribe_plat.Kafka.Dlq.{
  DlqRecord, Delivery, acknowledged, refused, unfinished, dlq_record, on_delivery, flush,
  flush_each,
}
use tikblog_unsubscribe_plat.Consumer.Client.{interpret}
use tikblog_unsubscribe_plat.Consumer.Process.{Effect, committed, Services, Settings, Process}
use tikblog_unsubscribe_plat.Consumer.Deliver.{call, park, attempts_from, deliver}
use tikblog_unsubscribe_plat.Consumer.Main.{received, commit, on_poll}
use tikblog_unsubscribe_plat.Consumer.Main.Rounds.{count_received, on_poll-decoded}

abbrev pub newest : {F : Type 0} → List (Effect F) → Option (Effect F)
newest [] = none
newest (x ∷ es) = some x

module _ {F W : Type 0} ⦃fl : Floats F⦄ (sv : Services W) (st : Settings F) where
  -- The brokers never acknowledge a parked message, whatever it is, but take it into the queue, and
  -- commits succeed.
  pub record DlqDown : Type 0 where
    pub queued : (x : DlqRecord) (w : W) → (sv.broker.produce x w).0 ≡ none
    pub not_acknowledged : (x : DlqRecord) (w : W) → (sv.broker.deliver x w).0 ≢ acknowledged
    pub commit_works : (m : Message) (w : W) → (sv.commit m w).0 ≡ none

  -- A flush then confirms nothing more.
  on_delivery-confirmed :
      (r : DlqRecord) (fate : Delivery) (d : Dlq.Dlq)
      → fate ≢ acknowledged
      → (on_delivery r fate d).confirmed ≡ d.confirmed
  unfolding on_delivery
  on_delivery-confirmed r acknowledged d h = absurd (h refl)
  on_delivery-confirmed r (refused e) d h = refl
  on_delivery-confirmed r unfinished d h = refl

  flush_each-confirmed :
      (down : DlqDown) (rs : List DlqRecord) (d : Dlq.Dlq) (w : W)
      → (flush_each sv.broker rs d w).0.confirmed ≡ d.confirmed
  unfolding flush_each
  flush_each-confirmed down [] d w = refl
  flush_each-confirmed down (r ∷ rs) d w =
      let (fate, w') = sv.broker.deliver r w in
      flush_each-confirmed down rs (on_delivery r fate d) w'
      ∙ on_delivery-confirmed r fate d (down.not_acknowledged r w)

  dlq_park-down :
      (down : DlqDown) (m : Message) (reason error : String) (attempts : ℕ) (d : Dlq.Dlq) (w : W)
      → let (r, d', w') = Dlq.park sv.broker m reason error attempts d w in
        (r ≡ ok (dlq_record m reason error attempts (sv.broker.now w)))
        × (d'.confirmed ≡ d.confirmed)
  unfolding Dlq.park flush
  dlq_park-down down m reason error attempts d w =
      let x = dlq_record m reason error attempts (sv.broker.now w) in
      ground (
        arith,
        down.queued x w,
        flush_each-confirmed down (d.queue ++ x ∷ []) (record d { queue = [] })
            (sv.broker.produce x w).1,
      )

  park-down :
      (down : DlqDown) (m : Message) (reason error : String) (attempts : ℕ) (s : Process F W)
      → let (r, t) = park sv st m reason error attempts s in
        (r ≡ ok tt) × (t.dlq.confirmed ≡ s.dlq.confirmed)
  unfolding park
  park-down down m reason error attempts s =
      ground (arith, dlq_park-down down m reason error attempts s.dlq s.world)

  deliver_rejected :
      (e : UnsubscribeEvent) (m : Message) (s : Process F W) (x : Exn)
      → 1 ≤ st.max_attempts
      → interpret (sv.post e s.world).0 ≡ raised x
      → x.kind ≡ permanent_rejection
      → deliver sv st e m s ≡ park sv st m "permanent_rejection" x.message 1 (call sv st e s).1
  unfolding deliver call
  deliver_rejected e m s x some_attempt bad kind =
      let rounds : st.max_attempts ≡ suc (st.max_attempts - 1) = omega arith in
      rw rounds (rw (bad, kind, attempts_from))

  -- A message whose request is rejected for good is committed although no dead-letter record is
  -- confirmed: with the dead-letter topic down, the round returns, the newest effect is the commit,
  -- and the confirmed records are those from before.
  pub commits_unconfirmed :
      (m : Message) (v : Bytes) (e : UnsubscribeEvent) (s : Process F W) (x : Exn)
      → DlqDown
      → 1 ≤ st.max_attempts
      → m.value ≡ some v
      → sv.from_bytes v s.world ≡ ok e
      → interpret (sv.post e s.world).0 ≡ raised x
      → x.kind ≡ permanent_rejection
      → let (r, t) = on_poll sv st (received m) s in
        (r ≡ ok tt) × (newest t.effects ≡ some (committed m)) × (t.dlq.confirmed ≡ s.dlq.confirmed)
  unfolding commit call
  commits_unconfirmed m v e s x down some_attempt present decoded bad kind =
      let s' = (call sv st e (count_received s)).1 in
      let (r, t) = park sv st m "permanent_rejection" x.message 1 s' in
      ground (
        arith,
        on_poll-decoded sv st m v e s present decoded,
        deliver_rejected e m (count_received s) x some_attempt bad kind,
        park-down down m "permanent_rejection" x.message 1 s',
        down.commit_works m t.world,
      )
