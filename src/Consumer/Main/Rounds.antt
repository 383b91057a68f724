-- ===== src/Consumer/Main/Rounds.antt =====
-- One round of the loop of `main`, for each way in which a message can be read.
use tikblog_unsubscribe_plat.Base.{◌+◌, ◌≡◌, none, some, arith}
use tikblog_unsubscribe_plat.Base.Errors.{ok, raised, Exn, exn, other_error}
use tikblog_unsubscribe_plat.Base.Floats.{Floats}
use tikblog_unsubscribe_plat.Contracts.Model.{UnsubscribeEvent}
use tikblog_unsubscribe_plat.Kafka.Message.{Bytes, Message}
use tikblog_unsubscribe_plat.Consumer.Process.{Services, Settings, Process, ◌>>◌}
use tikblog_unsubscribe_plat.Consumer.Deliver.{park, deliver}
use tikblog_unsubscribe_plat.Consumer.Main.{
  received, consume, commit, handle, on_poll, error_or_unknown,
}

-- The process after a message has been counted as received, and as one that failed to decode.
abbrev pub count_received : {F W : Type 0} → Process F W → Process F W
count_received s = record s { received_count = s.received_count + 1 }

abbrev pub count_undecodable : {F W : Type 0} → Process F W → Process F W
count_undecodable s = record s {
  received_count = s.received_count + 1;
  failed_count = s.failed_count + 1;
}

module _ {F W : Type 0} ⦃fl : Floats F⦄ (sv : Services W) (st : Settings F) where
  pub on_poll-absent :
      (m : Message) (s : Process F W)
      → m.value ≡ none
      → on_poll sv st (received m) s
        ≡ (raised (exn other_error "message without error() must have a value"), count_received s)
  unfolding on_poll consume handle
  on_poll-absent m s absent = ground arith

  pub on_poll-decoded :
      (m : Message) (v : Bytes) (e : UnsubscribeEvent) (s : Process F W)
      → m.value ≡ some v
      → sv.from_bytes v s.world ≡ ok e
      → on_poll sv st (received m) s ≡ (deliver sv st e m >> commit sv st m) (count_received s)
  unfolding on_poll consume handle
  on_poll-decoded m v e s present decoded = ground arith

  pub on_poll-undecodable :
      (m : Message) (v : Bytes) (x : Exn) (s : Process F W)
      → m.value ≡ some v
      → sv.from_bytes v s.world ≡ raised x
      → on_poll sv st (received m) s
        ≡ (park sv st m "deserialization_failed" (error_or_unknown (some x.message)) 0
              >> commit sv st m)
            (count_undecodable s)
  unfolding on_poll consume handle
  on_poll-undecodable m v x s present failure = ground arith
