-- ===== src/Examples/Reviews.antt =====
-- A review of a finished order, its rating in auth, and a notification.
use mathlib.Core.Option
use yukbor_backend.Common.{
  String, none, some, false, List, [], ◌∷◌, ◌==◌, string_Eq, String-discrete, all, ◌≡◌, refl, arith,
  All,
}
use yukbor_backend.Common.Int.{pos}
use yukbor_backend.Common.Exec.{Result, ok, ◌>>=◌}
use yukbor_backend.Models.Enums.{OrderStatus, OrderStatus-discrete, Leg-discrete, NotificationType}
use yukbor_backend.Models.Order.{Order}
use yukbor_backend.Models.Events.{Review, NotifySpec, EmitEventRequest, EventName, Payload}
use yukbor_backend.Svc.{CallError}
use yukbor_backend.Orders.Record.{leg_of, OrderRecord, flatten}
use yukbor_backend.Auth.Core.{AuthDb}
use yukbor_backend.Auth.Users.{user_by_id, with_rating}
use yukbor_backend.Reviews
use yukbor_backend.Reviews.{State, CreateRequest, RatingUpdate, completed, aggregate}
use yukbor_backend.Reviews.Finished.{is_done, completed-flatten}
use yukbor_backend.Reviews.Ratings.{Written, create-Written}
use yukbor_backend.System.Rated.{auth_client, rating_reaches_auth}
use yukbor_backend.Notifications.Hub
use yukbor_backend.Notifications.Hub.{WsEvent, Event}
use yukbor_backend.Notifications.Hub.Safe.{Fits, Ends}
use yukbor_backend.Notifications.Hub.Runs.{run-Fits, new_hub-Inv}
use yukbor_backend.Notifications.Feed
use yukbor_backend.Notifications.Feed.Stored.{Gained, Answers, notes_of, emit-Gained}
use yukbor_backend.Examples.Data.{order, transport_leg, crane_leg, claims_of}
use yukbor_backend.Examples.AuthData.{full_db}
use yukbor_backend.Examples.AuthData as AuthData

-- The transport is delivered and confirmed, and the crane is still at work.
abbrev half_done : OrderRecord
half_done = record {
  row = order;
  legs = record transport_leg { status = OrderStatus.completed } ∷ crane_leg ∷ [];
}

abbrev done : OrderRecord
done = record {
  row = order;
  legs =
      record transport_leg { status = OrderStatus.completed }
      ∷ record crane_leg { status = OrderStatus.completed }
      ∷ [];
}

completed-flatten_example : completed (flatten half_done) ≡ all is_done half_done.legs
unfolding Leg-discrete leg_of
completed-flatten_example = completed-flatten half_done (λ e. cc) (refl, refl, (refl, refl, tt))

abbrev old_review : Review
old_review = record {
  id = "r1";
  order_id = "o0";
  reviewer_id = "client";
  reviewee_id = "u2";
  rating = 5;
  comment = none;
  created_at = 1;
}

abbrev five_stars : RatingUpdate
five_stars = aggregate "u2" (old_review ∷ [])

abbrev reviews_env : Reviews.Env
reviews_env = record { now = 9; fresh_id = "r2"; fails = λ _. false }

abbrev review_body : CreateRequest
review_body = record {
  order_id = "o1";
  reviewer_id = "";
  reviewee_id = "u2";
  rating = pos 4;
  comment = none;
}

abbrev orders_reply : String → Result CallError Order
orders_reply _ = ok (flatten done)

abbrev before : State AuthDb
before = record { reviews = old_review ∷ []; auth = full_db; sent = [] }

abbrev new_review : Review
new_review = record old_review { id = "r2"; order_id = "o1"; rating = 4; created_at = 9 }

abbrev after : State AuthDb
after =
    (Reviews.create (auth_client AuthData.env) orders_reply reviews_env (claims_of "client")
      (some review_body) before).1

creates :
    (Reviews.create
      (auth_client AuthData.env)
      orders_reply
      reviews_env
      (claims_of "client")
      (some review_body)
      before).0
    ≡ ok new_review
unfolding Reviews.create ◌>>=◌ String-discrete Leg-discrete OrderStatus-discrete flatten
creates = refl

create-Written_example :
    Written (auth_client AuthData.env) orders_reply reviews_env before new_review after
create-Written_example =
    create-Written (auth_client AuthData.env) orders_reply reviews_env (claims_of "client")
      (some review_body) before new_review creates

rating_reaches_auth_example :
    user_by_id "u2" after.auth.users
    ≡ Option.map
        (with_rating AuthData.env.now
          (aggregate "u2" after.reviews).rating
          (aggregate "u2" after.reviews).count)
        (user_by_id "u2" full_db.users)
rating_reaches_auth_example =
    rating_reaches_auth AuthData.env orders_reply reviews_env (claims_of "client")
      (some review_body) before new_review ((omega arith, omega arith), tt) refl refl creates

abbrev ws_event : WsEvent
ws_event = record { event = EventName.order_updated; payload = Payload.review new_review }

-- One connection of two leaves, twice, and an event comes in between.
abbrev events : List Event
events =
    Event.subscribed "u2"
    ∷ Event.subscribed "u2"
    ∷ Event.unsubscribed "u2" 0
    ∷ Event.published ("u2" ∷ []) ws_event
    ∷ Event.offered "u2" 1 ws_event
    ∷ Event.unsubscribed "u2" 0
    ∷ Event.received 1
    ∷ []

run-Fits_example : Ends (λ (h : Hub.Hub). All Fits h.chans) (Hub.run events Hub.new_hub)
run-Fits_example = run-Fits events

abbrev feed_env : Feed.Env
feed_env = record {
  now = 5;
  fresh_id = λ user. user;
  lost = λ user. user == "u3";
  fails = λ _. false;
}

abbrev spec : NotifySpec
spec = record {
  notification_type = NotificationType.order_status_changed;
  title = "title";
  body = "body";
  related_order_id = none;
}

abbrev emit_body : EmitEventRequest
emit_body = record {
  user_ids = "u2" ∷ "u3" ∷ [];
  event = some EventName.order_updated;
  payload = some (Payload.review new_review);
  notify = some spec;
  notify_user_ids = [];
}

abbrev feed : Feed.State
feed = record { rows = []; hub = Hub.new_hub }

emit-Gained_example :
    Ends
      (Answers 204 (Gained [] (notes_of feed_env emit_body (some spec))))
      (Feed.emit feed_env (some emit_body) feed)
emit-Gained_example = emit-Gained feed_env emit_body feed new_hub-Inv
