-- ===== src/Orders/Placing.antt =====
-- internal/orders/handler.go: placing an order, and the estimate that comes before it.
use yukbor_backend.Common.{
  ℕ, ◌+◌, String, Option, none, some, Bool, true, false, ◌||◌, List, [], ◌∷◌, map, ◌==◌, string_Eq,
  if◌then◌else◌, natb, All, refl, ◌≡◌, ◌++◌, ap, sym,
}
use yukbor_backend.Common.Int.{ℤ, pos, ltb_ℤ}
use yukbor_backend.Common.Strconv.{format_int, parse_int}
use yukbor_backend.Common.GoMap.{GoMap}
use yukbor_backend.Common.Exec.{
  pure, gets, or_raise, raise_if, modify, ◌>>=◌, ◌>>◌, EndsIn, EndsIn-or_raise, EndsIn-raise_if,
  EndsIn-gets, EndsIn-bind, EndsIn-pure,
}
use yukbor_backend.Httpx.{Code, failure, Handler}
use yukbor_backend.Httpx.Guards.{Claims}
use yukbor_backend.Models.Enums.{Time, Float64, OrderType, OrderStatus, PaymentMethod, Leg}
use yukbor_backend.Models.Order.{Location, CargoDetails, EquipmentRequest, LaborRequest, Order}
use yukbor_backend.Models.Events.{EventName, Payload, EmitEventRequest}
use yukbor_backend.Orders.Legs.{legs_for}
use yukbor_backend.Orders.Pricing.{Tariffs, Breakdown, estimate, total_price, split_total}
use yukbor_backend.Orders.Record.{flatten}
use yukbor_backend.Orders.Store
use yukbor_backend.Orders.Store.{NewOrder, OrdersDb, LegRow, by_id}
use yukbor_backend.Orders.Handler.{State, emit_to}

-- The body of POST /orders.
pub record OrderInput : Type 0 where
  pub client_name : String
  pub order_type : OrderType
  pub cargo : Option CargoDetails
  pub equipment_request : Option EquipmentRequest
  pub labor_request : Option LaborRequest
  pub pickup_address : String
  pub pickup_location : Location
  pub dropoff_address : String
  pub dropoff_location : Location
  pub scheduled_date : Time
  pub price_estimate : String
  pub currency : String
  pub payment_method : PaymentMethod

-- What a request meets: the clock, the id that the database draws, what fails, and the product
-- that the floating point unit rounds.
pub record Env : Type 0 where
  pub now : Time
  pub fresh_id : String
  pub tariffs_fail : Bool
  pub insert_fails : Bool
  pub reload_fails : Bool
  pub round_product : Float64 → ℤ → ℤ

abbrev is_given : {A : Type 0} → Option A → Bool
is_given none = false
is_given (some _) = true

-- The legs that the order gets.
unfoldable pub legs_of_input : OrderInput → List Leg
legs_of_input input =
    legs_for input.order_type (is_given input.equipment_request) (is_given input.labor_request)

unfoldable pub breakdown_of : Env → Tariffs → OrderInput → Breakdown
breakdown_of env tariffs input = estimate env.round_product tariffs (record {
  cargo = input.cargo;
  equipment = input.equipment_request;
  labor = input.labor_request;
})

-- The price that the client displayed, if it is one, or else the server's.
unfoldable pub agreed_total : ℤ → Option ℤ → ℤ
agreed_total server none = server
agreed_total server (some client) = if ltb_ℤ (pos 0) client then client else server

method_or_payme : PaymentMethod → PaymentMethod
method_or_payme (PaymentMethod.other s) =
    if s == "" then PaymentMethod.payme else PaymentMethod.other s
method_or_payme m = m

-- The instant 24 hours from now stands for a date that was not sent.
scheduled_or_tomorrow : Time → Time → Time
scheduled_or_tomorrow now date = if natb date 0 then now + 86400000000000 else date

unfoldable pub new_order : Env → Claims → Tariffs → OrderInput → NewOrder
unfolding legs_of_input breakdown_of agreed_total method_or_payme scheduled_or_tomorrow
new_order env claims tariffs input =
    let breakdown = breakdown_of env tariffs input in
    let total = agreed_total (total_price tariffs breakdown) (parse_int input.price_estimate) in
    record {
      client_id = claims.sub;
      client_name = input.client_name;
      order_type = input.order_type;
      cargo = input.cargo;
      equipment = input.equipment_request;
      labor = input.labor_request;
      pickup_addr = input.pickup_address;
      pickup = input.pickup_location;
      dropoff_addr = input.dropoff_address;
      dropoff = input.dropoff_location;
      scheduled_date = scheduled_or_tomorrow env.now input.scheduled_date;
      price_estimate = total;
      currency = if input.currency == "" then "UZS" else input.currency;
      payment_method = method_or_payme input.payment_method;
      leg_prices = split_total breakdown total (legs_of_input input);
    }

abbrev is_empty : {A : Type 0} → List A → Bool
is_empty [] = true
is_empty (_ ∷ _) = false

module _ {W : Type 0} where
  -- POST /orders
  unfoldable pub place : Env → Claims → Option OrderInput → Handler (State W) (ℕ × Order)
  unfolding new_order
  place env claims body = do
    input ← or_raise body (failure 400 Code.bad_request)
    raise_if (is_empty (legs_of_input input)) (failure 400 Code.validation)
    raise_if (input.pickup_address == "" || input.dropoff_address == "")
        (failure 400 Code.validation)
    raise_if env.tariffs_fail (failure 500 Code.internal)
    tariffs ← gets (λ s. s.db.tariffs)
    raise_if env.insert_fails (failure 500 Code.internal)
    modify (λ s. record s {
      db = Store.create env.now env.fresh_id (new_order env claims tariffs input) s.db;
    })
    raise_if env.reload_fails (failure 500 Code.internal)
    found ← gets (λ s. by_id env.fresh_id s.db)
    rec ← or_raise found (failure 500 Code.internal)
    emit_to (rec.client_id ∷ []) [] EventName.order_created (Payload.order (flatten rec)) none
    pure (201, flatten rec)

  -- POST /orders/estimate: the total, and what each executor is paid.
  unfoldable pub estimate_order :
      Env → Option OrderInput → Handler (State W) (String × GoMap Leg String)
  unfolding legs_of_input breakdown_of
  estimate_order env body = do
    input ← or_raise body (failure 400 Code.bad_request)
    raise_if env.tariffs_fail (failure 500 Code.internal)
    tariffs ← gets (λ s. s.db.tariffs)
    let breakdown = breakdown_of env tariffs input
    let total = total_price tariffs breakdown
    let parts = split_total breakdown total (legs_of_input input)
    pure (format_int total, map (λ (leg, amount). (leg, format_int amount)) parts)

-- A leg that waits for an executor, of an order.
abbrev pub IsWaiting : String → LegRow → Type 0
IsWaiting id r = (r.order_id ≡ id) × (r.status ≡ OrderStatus.published) × (r.executor_id ≡ none)

new_legs-IsWaiting :
    (now : Time) (id : String) (prices : GoMap Leg ℤ)
    → All (IsWaiting id) (Store.new_legs now id prices)
unfolding Store.new_legs
new_legs-IsWaiting now id [] = tt
new_legs-IsWaiting now id ((leg, price) ∷ prices) =
    ((refl, refl, refl), new_legs-IsWaiting now id prices)

-- What a request to place an order did to the legs: it added waiting legs of the order `id`, or
-- none at all, and did not touch the wallet.
pub record IsPlaced {W : Type 0} (id : String) (s s' : State W) : Type 0 where
  pub added : List LegRow
  pub rows : s'.db.legs ≡ s.db.legs ++ added
  pub waiting : All (IsWaiting id) added
  pub same_wallet : s'.wallet ≡ s.wallet

module _ {W : Type 0} (env : Env) (s : State W) where
  unplaced : IsPlaced env.fresh_id s s
  unplaced = record {
    added = [];
    rows = sym (append_nil s.db.legs);
    waiting = tt;
    same_wallet = refl;
  }
    where
      append_nil : (rows : List LegRow) → rows ++ [] ≡ rows
      append_nil [] = refl
      append_nil (r ∷ rows) = ap (λ q. r ∷ q) (append_nil rows)

  placed :
      (n : NewOrder)
      → IsPlaced env.fresh_id s (record s { db = Store.create env.now env.fresh_id n s.db })
  unfolding Store.create
  placed n = record {
    added = Store.new_legs env.now env.fresh_id n.leg_prices;
    rows = refl;
    waiting = new_legs-IsWaiting env.now env.fresh_id n.leg_prices;
    same_wallet = refl;
  }

  emitted :
      (t : State W) (sent : List EmitEventRequest)
      → IsPlaced env.fresh_id s t
      → IsPlaced env.fresh_id s (record t { sent = sent })
  emitted t sent p = record {
    added = p.added;
    rows = p.rows;
    waiting = p.waiting;
    same_wallet = p.same_wallet;
  }

  place-EndsIn :
      (claims : Claims) (body : Option OrderInput)
      → EndsIn (IsPlaced env.fresh_id s) (place env claims body) s
  unfolding place emit_to
  place-EndsIn claims body = EndsIn-or_raise _ _ _ s unplaced λ input _.
      EndsIn-raise_if _ _ _ s unplaced λ _. EndsIn-raise_if _ _ _ s unplaced λ _.
        EndsIn-raise_if _ _ _ s unplaced λ _. EndsIn-gets _ _ s (
          EndsIn-raise_if _ _ _ s unplaced λ _.
            EndsIn-bind _ _ s (λ _ _. placed _)
              λ _ _. EndsIn-raise_if _ _ _ _ (placed _) λ _. EndsIn-gets _ _ _ (
                EndsIn-or_raise _ _ _ _ (placed _) λ rec _.
                  EndsIn-bind _ _ _ (λ _ _. emitted _ _ (placed _))
                    λ _ _. EndsIn-pure _ _ (emitted _ _ (placed _))))

-- Placing an order, whatever it answers, leaves every leg that there was as it was, adds only legs
-- of the new order that are published and have no executor, and moves no money.
pub place-IsPlaced :
    {W : Type 0} (env : Env) (claims : Claims) (body : Option OrderInput) (s : State W)
    → IsPlaced env.fresh_id s (place env claims body s).1
place-IsPlaced env claims body s = (place-EndsIn env s claims body).at
