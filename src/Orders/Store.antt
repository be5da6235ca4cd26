-- ===== src/Orders/Store.antt =====
-- internal/orders/store.go over the tables orders.orders and orders.order_legs.
pub mod Claims
use mathlib.Core.Option
use yukbor_backend.Common.{
  ℕ, String, Option, none, some, Bool, true, false, ◌&&◌, ◌||◌, not, List, [], ◌∷◌, ◌++◌, map, ◌==◌,
  string_Eq, if◌then◌else◌, ltb, leb, natb,
}
use yukbor_backend.Common.Int.{ℤ}
use yukbor_backend.Common.GoMap.{GoMap}
use yukbor_backend.Common.Table.{select, query_row, update_where, count_where, order_by}
use yukbor_backend.Common.Exec.{Result, ok, err}
use yukbor_backend.Models.Enums.{
  Time, OrderType, OrderStatus, order_status_Eq, Leg, leg_Eq, PaymentMethod,
}
use yukbor_backend.Models.Order.{Location, CargoDetails, EquipmentRequest, LaborRequest}
use yukbor_backend.Orders.Pricing.{Tariffs}
use yukbor_backend.Orders.Record.{OrderRow, LegRecord, OrderRecord}

-- A row of orders.order_legs.
pub record LegRow : Type 0 where
  pub order_id : String
  pub entry : LegRecord
  pub open entry use *

pub record OrdersDb : Type 0 where
  pub tariffs : Tariffs
  pub orders : List OrderRow
  pub legs : List LegRow

-- The store's errors; `database` is any other, where a statement failed.
pub data StoreError : Type 0 where
  leg_already_taken not_published leg_not_found database : StoreError

-- `WHERE order_id = $1 AND leg = $2`
abbrev pub is_leg : String → Leg → LegRow → Bool
is_leg order leg r = r.order_id == order && r.leg == leg

abbrev pub is_null : Option String → Bool
is_null none = true
is_null (some _) = false

-- The other leg names come last in `ORDER BY CASE leg …`.
abbrev is_main : LegRow → Bool
is_main r = r.leg == Leg.transport || r.leg == Leg.equipment

abbrev entries : List LegRow → List LegRecord
entries rows = map (λ r. r.entry) rows

-- `attachLegs` for one order: its legs in the canonical order.
unfoldable pub legs_of : String → List LegRow → List LegRecord
legs_of order rows =
    entries (select (is_leg order Leg.transport) rows)
    ++ (entries (select (is_leg order Leg.equipment) rows)
        ++ entries (select (λ r. r.order_id == order && not (is_main r)) rows))

unfoldable pub by_id : String → OrdersDb → Option OrderRecord
unfolding legs_of
by_id id db =
    Option.map (λ o. record { row = o; legs = legs_of id db.legs })
      (query_row (λ (o : OrderRow). o.id == id) db.orders)

-- `UPDATE orders.orders SET updated_at = now() WHERE id = $1`
unfoldable pub touch : Time → String → OrdersDb → OrdersDb
touch now order db = record db {
  orders =
      update_where (λ (o : OrderRow). o.id == order) (λ o. record o { updated_at = now }) db.orders;
}

-- `UPDATE orders.order_legs SET … WHERE p`
abbrev pub update_legs : (LegRow → Bool) → (LegRecord → LegRecord) → OrdersDb → OrdersDb
update_legs p f db = record db {
  legs = update_where p (λ r. record r { entry = f r.entry }) db.legs;
}

abbrev pub is_open : String → Leg → LegRow → Bool
is_open order leg r =
    is_leg order leg r && (is_null r.executor_id && r.status == OrderStatus.published)

abbrev pub claimed : Time → String → String → LegRecord → LegRecord
claimed now executor name l = record l {
  executor_id = some executor;
  executor_name = some name;
  status = OrderStatus.accepted;
  updated_at = now;
}

-- Why the UPDATE fitted no row.
unfoldable pub explain_claim : Option LegRow → StoreError
explain_claim none = StoreError.leg_not_found
explain_claim (some r) =
    if is_null r.executor_id then StoreError.not_published else StoreError.leg_already_taken

-- `ClaimLeg`: one conditional UPDATE. The flag says that the SELECT which explains a miss fails.
unfoldable pub claim_leg :
    Time
    → Bool
    → String
    → Leg
    → String
    → String
    → OrdersDb
    → Result StoreError (Unit {0}) × OrdersDb
unfolding touch explain_claim
claim_leg now lost order leg executor name db =
    let db' = update_legs (is_open order leg) (claimed now executor name) db in
    let reason = explain_claim (query_row (is_leg order leg) db'.legs) in
    elim (natb (count_where (is_open order leg) db.legs) 1) [
      | true ↦ (ok tt, touch now order db')
      | false ↦ (err (if lost then StoreError.database else reason), db')
    ]

abbrev pub unclaimed : Time → LegRecord → LegRecord
unclaimed now l = record l {
  executor_id = none;
  executor_name = none;
  status = OrderStatus.published;
  updated_at = now;
}

-- `ReleaseLegClaim`
unfoldable pub release_leg_claim : Time → String → Leg → OrdersDb → OrdersDb
release_leg_claim now order leg db = update_legs (is_leg order leg) (unclaimed now) db

abbrev pub moved : Time → OrderStatus → LegRecord → LegRecord
moved now status l = record l { status = status; updated_at = now }

-- The second statement of a write: where it fails, the first stays written.
abbrev second : Bool → OrdersDb → OrdersDb → Result StoreError (Unit {0}) × OrdersDb
second true db db' = (err StoreError.database, db)
second false db db' = (ok tt, db')

-- `UpdateLegStatus`; the flag says that its second statement fails.
unfoldable pub update_leg_status :
    Time → Bool → String → Leg → OrderStatus → OrdersDb → Result StoreError (Unit {0}) × OrdersDb
unfolding touch
update_leg_status now lost order leg status db =
    let db' = update_legs (is_leg order leg) (moved now status) db in
    if natb (count_where (is_leg order leg) db.legs) 0
    then (err StoreError.leg_not_found, db')
    else second lost db' (touch now order db')

abbrev pub is_of : String → LegRow → Bool
is_of order r = r.order_id == order

-- `CompleteAllLegs`
unfoldable pub complete_all_legs :
    Time → Bool → String → OrdersDb → Result StoreError (Unit {0}) × OrdersDb
unfolding touch
complete_all_legs now lost order db =
    let db' = update_legs (is_of order) (moved now OrderStatus.completed) db in
    second lost db' (touch now order db')

-- `UPDATE orders.orders SET cancelled_at = now(), updated_at = now() WHERE id = $1`
unfoldable pub mark_cancelled : Time → String → OrdersDb → OrdersDb
mark_cancelled now order db = record db {
  orders =
      update_where (λ (o : OrderRow). o.id == order)
        (λ o. record o { cancelled_at = some now; updated_at = now }) db.orders;
}

-- `Cancel`
unfoldable pub cancel : Time → Bool → String → OrdersDb → Result StoreError (Unit {0}) × OrdersDb
unfolding mark_cancelled
cancel now lost order db =
    let db' = update_legs (is_of order) (moved now OrderStatus.cancelled) db in
    second lost db' (mark_cancelled now order db')

pub record NewOrder : Type 0 where
  pub client_id : String
  pub client_name : String
  pub order_type : OrderType
  pub cargo : Option CargoDetails
  pub equipment : Option EquipmentRequest
  pub labor : Option LaborRequest
  pub pickup_addr : String
  pub pickup : Location
  pub dropoff_addr : String
  pub dropoff : Location
  pub scheduled_date : Time
  pub price_estimate : ℤ
  pub currency : String
  pub payment_method : PaymentMethod
  pub leg_prices : GoMap Leg ℤ

-- `INSERT INTO orders.order_legs … 'published'` for each entry of the map.
unfoldable pub new_legs : Time → String → GoMap Leg ℤ → List LegRow
new_legs now id [] = []
new_legs now id ((leg, price) ∷ prices) =
    record {
      order_id = id;
      entry = record {
        leg = leg;
        status = OrderStatus.published;
        executor_id = none;
        executor_name = none;
        price = price;
        updated_at = now;
      };
    }
    ∷ new_legs now id prices

unfoldable pub new_order_row : Time → String → NewOrder → OrderRow
new_order_row now id n = record {
  id = id;
  client_id = n.client_id;
  client_name = n.client_name;
  order_type = n.order_type;
  cargo = n.cargo;
  equipment = n.equipment;
  labor = n.labor;
  pickup = n.pickup;
  pickup_addr = n.pickup_addr;
  dropoff = n.dropoff;
  dropoff_addr = n.dropoff_addr;
  scheduled_date = n.scheduled_date;
  price_estimate = n.price_estimate;
  currency = n.currency;
  payment_method = n.payment_method;
  cancelled_at = none;
  created_at = now;
  updated_at = now;
}

-- `Create`: the order and its legs, in one transaction.
unfoldable pub create : Time → String → NewOrder → OrdersDb → OrdersDb
unfolding new_legs new_order_row
create now id n db = record db {
  orders = db.orders ++ new_order_row now id n ∷ [];
  legs = db.legs ++ new_legs now id n.leg_prices;
}

-- `scheduled_date ASC`
abbrev sooner : OrderRow → OrderRow → Bool
sooner o p = leb o.scheduled_date p.scheduled_date

unfoldable pub available : Leg → OrdersDb → List OrderRow
available leg db =
    order_by sooner
      (select (λ (o : OrderRow). ltb 0 (count_where (is_open o.id leg) db.legs)) db.orders)
