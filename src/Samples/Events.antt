-- ===== src/Samples/Events.antt =====
-- Runs on one event and its dict.
use Prim.Native.Char.{code}
use tikblog_unsubscribe_plat.Base.{◌≡◌, refl, ap, none, some, arith}
use tikblog_unsubscribe_plat.Base.Errors.{ok}
use tikblog_unsubscribe_plat.Contracts.Model.{
  ui, customer_success, offset_by, UnsubscribeEvent, IsEvent,
}
use tikblog_unsubscribe_plat.Contracts.Avro.{event_to_dict, event_from_dict, message_key}
use tikblog_unsubscribe_plat.Contracts.RoundTrip.{
  event_from_dict-event_to_dict, event_from_dict-IsEvent,
}
use tikblog_unsubscribe_plat.Contracts.Keys.{message_key_injective}

abbrev pub event : UnsubscribeEvent
event = record {
  event_id = "e1";
  user_id = "u1";
  writer_id = "w1";
  source = customer_success;
  requested_at = record { instant = 20; zone = offset_by 0 };
  request_id = "r1";
  cs_agent_id = some "agent-01";
  legal_batch_id = none;
}

event_from_dict-event_to_dict_example : event_from_dict (event_to_dict event) ≡ ok event
event_from_dict-event_to_dict_example = event_from_dict-event_to_dict event refl

event_from_dict-IsEvent_example : IsEvent event
event_from_dict-IsEvent_example =
    event_from_dict-IsEvent (event_to_dict event) event (event_from_dict-event_to_dict event refl)

abbrev same_pair : UnsubscribeEvent
same_pair = record event { event_id = "e2"; source = ui }

message_key_injective_example :
    (event.user_id ≡ same_pair.user_id) × (event.writer_id ≡ same_pair.writer_id)
unfolding message_key
message_key_injective_example =
    message_key_injective event same_pair
      ((λ e. omega (arith, ap code e)), ((λ e. omega (arith, ap code e)), tt))
      ((λ e. omega (arith, ap code e)), ((λ e. omega (arith, ap code e)), tt)) refl
