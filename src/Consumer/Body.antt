-- ===== src/Consumer/Body.antt =====
-- services/unsubscribe-consumer/unsubscribe_consumer/client.py: what the body of a request holds.
use tikblog_unsubscribe_plat.Base.{◌≡◌}
use tikblog_unsubscribe_plat.Base.Errors.{ok}
use tikblog_unsubscribe_plat.Contracts.Model.{UnsubscribeEvent, IsEvent}
use tikblog_unsubscribe_plat.Contracts.Avro.{event_to_dict, event_from_dict}
use tikblog_unsubscribe_plat.Contracts.RoundTrip.{event_from_dict-event_to_dict}
use tikblog_unsubscribe_plat.Consumer.Client.{event_to_json}

-- The body of the request to UnsubscribeMe holds the whole event: its entries, read as the fields of
-- an event, give the event back if its time has a timezone.
pub event_from_dict-event_to_json :
    (e : UnsubscribeEvent) → IsEvent e → event_from_dict (event_to_json e) ≡ ok e
unfolding event_to_json event_to_dict
event_from_dict-event_to_json e h = event_from_dict-event_to_dict e h
