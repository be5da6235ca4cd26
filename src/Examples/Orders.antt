-- ===== src/Examples/Orders.antt =====
-- The theorems on the orders service, and on both services, at a concrete order.
use yukbor_backend.Common.{
  arith, none, ◌≤◌, String, some, true, false, List, [], ◌∷◌, ◌≡◌, ◌≢◌, ◌⊎◌, inl, refl,
  String-discrete,
}
use yukbor_backend.Common.Exec.{err}
use yukbor_backend.Httpx.{failure, Code}
use yukbor_backend.Models.Enums.{
  Leg, OrderStatus, OrderType, PaymentMethod, Leg-discrete, OrderStatus-discrete,
}
use yukbor_backend.Orders.Legs.{can_transition}
use yukbor_backend.Orders.Legs.Progress
use yukbor_backend.Orders.Legs.Progress.{Moves, Moves-no_return}
use yukbor_backend.Orders.Record.{OrderRecord}
use yukbor_backend.Orders.Store.{by_id}
use yukbor_backend.Orders.Store.Claims.{winners, winners-le-one}
use yukbor_backend.Orders.Escrow.{AllBacked}
use yukbor_backend.Orders.Escrow.Requests
use yukbor_backend.Orders.Escrow.Requests.{Request, serve_all-IsSound}
use yukbor_backend.Orders.Handler
use yukbor_backend.Orders.Handler.{State, AcceptRequest, StatusRequest, may_drive, licence_gate}
use yukbor_backend.Common.Int.{pos}
use yukbor_backend.Orders.Pricing.{split_total}
use yukbor_backend.Orders.Pricing.Split.{AddUp}
use yukbor_backend.Orders.Pricing.Exact.{prices, split_total-AddUp}
use yukbor_backend.Orders.Placing
use yukbor_backend.Orders.Placing.{OrderInput, IsPlaced, place, place-IsPlaced}
use yukbor_backend.Orders.Replies.{paid_or_refunded}
use yukbor_backend.System.{Remote, wallet_client}
use yukbor_backend.System.Laws.{HasEscrow, legs_are_funded}
use yukbor_backend.Examples.Data.{
  crane_tx, orders_env, orders_db, order, transport_leg, crane_leg, start, conditions, claims_of,
}

abbrev accept_by : String → AcceptRequest
accept_by who = record { leg = Leg.transport; executor_id = who; executor_name = who }

-- Two drivers race for the transport leg, the crane is delivered, and the client cancels.
abbrev requests : List Request
requests =
    Request.accept orders_env (claims_of "driver") "o1" (some (accept_by "driver"))
    ∷ Request.accept orders_env (claims_of "late") "o1" (some (accept_by "late"))
    ∷ Request.update_status orders_env (claims_of "crane") "o1"
        (some (record { leg = Leg.equipment; status = OrderStatus.delivered }))
    ∷ Request.cancel orders_env (claims_of "client") "o1"
    ∷ []

legs_are_funded_example :
    let s' = Requests.serve_all (wallet_client conditions) requests start in
    AllBacked (λ o p. HasEscrow o p s'.wallet.db) s'.db.legs
unfolding String-discrete Leg-discrete
legs_are_funded_example =
    legs_are_funded conditions requests start (refl, (refl, (tt, (tt, tt)))) (refl, (refl, tt))
      (tt, ((crane_tx, refl), tt))

winners-le-one_example :
    winners "o1" Leg.transport
      (record { now = 7; lost = false; executor = "driver"; name = "Driver" }
        ∷ record { now = 8; lost = true; executor = "late"; name = "Late" }
        ∷ [])
      orders_db
    ≤ 1
winners-le-one_example =
    winners-le-one "o1" Leg.transport
      (record { now = 7; lost = false; executor = "driver"; name = "Driver" }
        ∷ record { now = 8; lost = true; executor = "late"; name = "Late" }
        ∷ [])
      orders_db

abbrev record_of_order : OrderRecord
record_of_order = record { row = order; legs = transport_leg ∷ crane_leg ∷ [] }

paid_or_refunded_example :
    (Handler.confirm (wallet_client conditions) orders_env (claims_of "client") "o1" start
      ≡ (err (failure 409 Code.order_not_ready), start))
    ⊎ (Handler.cancel (wallet_client conditions) orders_env (claims_of "client") "o1" start
        ≡ (err (failure 409 Code.order_not_cancellable), start))
unfolding String-discrete Leg-discrete by_id
paid_or_refunded_example =
    paid_or_refunded (wallet_client conditions) orders_env (claims_of "client") "o1" start
      record_of_order (refl, refl) (inl refl)

Moves-no_return_example : OrderStatus.delivered ≢ OrderStatus.accepted
unfolding can_transition OrderStatus-discrete String-discrete
Moves-no_return_example =
    Moves-no_return OrderStatus.accepted OrderStatus.in_transit OrderStatus.delivered refl
      (Progress.then Progress.here refl)

abbrev input : OrderInput
input = record {
  client_name = "Client";
  order_type = OrderType.transport_only;
  cargo = none;
  equipment_request = none;
  labor_request = none;
  pickup_address = "A";
  pickup_location = order.pickup;
  dropoff_address = "B";
  dropoff_location = order.dropoff;
  scheduled_date = 0;
  price_estimate = "700";
  currency = "";
  payment_method = PaymentMethod.other "";
}

abbrev place_env : Placing.Env
place_env = record {
  now = 7;
  fresh_id = "o2";
  tariffs_fail = false;
  insert_fails = false;
  reload_fails = false;
  round_product = λ _ n. n;
}

place-IsPlaced_example :
    IsPlaced "o2" start (place place_env (claims_of "client") (some input) start).1
place-IsPlaced_example = place-IsPlaced place_env (claims_of "client") (some input) start

split_total-AddUp_example :
    AddUp 1000 (split_total (prices 7 5 0) (pos 1000) (Leg.transport ∷ Leg.equipment ∷ []))
unfolding Leg-discrete String-discrete
split_total-AddUp_example =
    split_total-AddUp 7 5 0 1000 Leg.transport (Leg.equipment ∷ []) (refl, (refl, tt)) (omega arith)
      (omega arith) (omega arith)

-- Another client has an order too.
abbrev two_clients : State Remote
two_clients = record start {
  db = record orders_db { orders = order ∷ record order { id = "o2"; client_id = "other" } ∷ [] };
}
