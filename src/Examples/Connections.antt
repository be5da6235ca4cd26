-- ===== src/Examples/Connections.antt =====
-- A connection, with another one of the same user and one of another user beside it.
use yukbor_backend.Common.{none, some, true, List, [], ◌∷◌, ◌≡◌, refl}
use yukbor_backend.Common.Exec.{ok}
use yukbor_backend.Models.Events.{EventName, Payload, Review}
use yukbor_backend.Notifications.Hub
use yukbor_backend.Notifications.Hub.{WsEvent, Event, Hub}
use yukbor_backend.Notifications.Connection.{Moment, websocket}
use yukbor_backend.Notifications.Connection.Later.{InOrder}
use yukbor_backend.Notifications.Connection.Streams.{told}
use yukbor_backend.Notifications.Connection.Opened.{websocket-InOrder}
use yukbor_backend.Examples.AuthData.{driver_claims}

abbrev two_connected : List Event
two_connected = Event.subscribed "u2" ∷ Event.subscribed "u1" ∷ []

abbrev connected_hub : Hub
connected_hub = (Hub.subscribe "u1" (Hub.subscribe "u2" Hub.new_hub).1).1

abbrev stars : Review
stars = record {
  id = "r1";
  order_id = "o0";
  reviewer_id = "client";
  reviewee_id = "u2";
  rating = 5;
  comment = none;
  created_at = 1;
}

abbrev rated_event : WsEvent
rated_event = record { event = EventName.notification_created; payload = Payload.review stars }

abbrev for_both : Event
for_both = Event.published ("u1" ∷ "u2" ∷ []) rated_event

-- An event for both users, a ping, one send to this connection, a read by the other one, an event
-- for the other user.
abbrev moments : List Moment
moments =
    Moment.elsewhere for_both
    ∷ Moment.ticked true
    ∷ Moment.elsewhere (Event.offered "u2" 2 rated_event)
    ∷ Moment.elsewhere (Event.received 0)
    ∷ Moment.ready true
    ∷ Moment.elsewhere (Event.published ("u1" ∷ []) rated_event)
    ∷ Moment.disconnected
    ∷ []

websocket-InOrder_example :
    (evs : List WsEvent) × (h' : Hub) × (websocket (ok driver_claims) true moments connected_hub
      ≡ some (ok evs, h'))
    × InOrder evs (told "u2" 2 moments)
unfolding Hub.run Hub.step
websocket-InOrder_example =
    websocket-InOrder driver_claims two_connected moments connected_hub refl
      (tt, (tt, (tt, (refl, (tt, (tt, (tt, tt)))))))
