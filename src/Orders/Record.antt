-- ===== src/Orders/Record.antt =====
-- internal/orders/store.go: an order with its legs, and the flat order that the clients read.
use mathlib.Core.Option
use yukbor_backend.Common.{String, Option, none, some, List, [], ◌∷◌, map, ◌==◌}
use yukbor_backend.Common.Int.{ℤ}
use yukbor_backend.Common.Strconv.{format_int}
use yukbor_backend.Common.Table.{query_row}
use yukbor_backend.Models.Enums.{Time, OrderType, OrderStatus, Leg, leg_Eq, PaymentMethod}
use yukbor_backend.Models.Order.{Location, CargoDetails, EquipmentRequest, LaborRequest, Order}

pub record LegRecord : Type 0 where
  pub leg : Leg
  pub status : OrderStatus
  pub executor_id : Option String
  pub executor_name : Option String
  pub price : ℤ
  pub updated_at : Time

-- The columns of orders.orders, as `scanOrder` reads them.
pub record OrderRow : Type 0 where
  pub id : String
  pub client_id : String
  pub client_name : String
  pub order_type : OrderType
  pub cargo : Option CargoDetails
  pub equipment : Option EquipmentRequest
  pub labor : Option LaborRequest
  pub pickup : Location
  pub pickup_addr : String
  pub dropoff : Location
  pub dropoff_addr : String
  pub scheduled_date : Time
  pub price_estimate : ℤ
  pub currency : String
  pub payment_method : PaymentMethod
  pub cancelled_at : Option Time
  pub created_at : Time
  pub updated_at : Time

pub record OrderRecord : Type 0 where
  pub row : OrderRow
  pub open row use *
  pub legs : List LegRecord

-- `OrderRecord.Leg`
unfoldable pub leg_of : Leg → List LegRecord → Option LegRecord
leg_of leg legs = query_row (λ (l : LegRecord). l.leg == leg) legs

unfoldable pub leg_names : List LegRecord → List Leg
leg_names legs = map (λ (l : LegRecord). l.leg) legs

unfoldable pub first_leg : List LegRecord → Option LegRecord
first_leg [] = none
first_leg (l ∷ legs) = some l

unfoldable pub or_first : Option LegRecord → List LegRecord → Option LegRecord
unfolding first_leg
or_first (some l) legs = some l
or_first none legs = first_leg legs

-- The leg whose status the flat order shows: transport, or else the first.
unfoldable pub primary_leg : List LegRecord → Option LegRecord
unfolding leg_of or_first
primary_leg legs = or_first (leg_of Leg.transport legs) legs

-- The status of an order with no leg is Go's zero string.
unfoldable pub status_of : Option LegRecord → OrderStatus
status_of none = OrderStatus.other ""
status_of (some l) = l.status

executor_of : Option LegRecord → Option String
executor_of none = none
executor_of (some l) = l.executor_id

executor_name_of : Option LegRecord → Option String
executor_name_of none = none
executor_name_of (some l) = l.executor_name

-- `Flatten`: a leg that the order does not have stays null.
unfoldable pub flatten : OrderRecord → Order
unfolding leg_of primary_leg status_of executor_of executor_name_of
flatten o = record {
  id = o.id;
  client_id = o.client_id;
  client_name = o.client_name;
  order_type = o.order_type;
  status = status_of (primary_leg o.legs);
  cargo = o.cargo;
  equipment_request = o.equipment;
  labor_request = o.labor;
  pickup_address = o.pickup_addr;
  pickup_location = o.pickup;
  dropoff_address = o.dropoff_addr;
  dropoff_location = o.dropoff;
  scheduled_date = o.scheduled_date;
  price_estimate = format_int o.price_estimate;
  currency = o.currency;
  assigned_driver_id = executor_of (leg_of Leg.transport o.legs);
  assigned_driver_name = executor_name_of (leg_of Leg.transport o.legs);
  assigned_equipment_provider_id = executor_of (leg_of Leg.equipment o.legs);
  assigned_equipment_provider_name = executor_name_of (leg_of Leg.equipment o.legs);
  equipment_status = Option.map (λ l. l.status) (leg_of Leg.equipment o.legs);
  assigned_labor_provider_id = executor_of (leg_of Leg.labor o.legs);
  assigned_labor_provider_name = executor_name_of (leg_of Leg.labor o.legs);
  labor_status = Option.map (λ l. l.status) (leg_of Leg.labor o.legs);
  created_at = o.created_at;
  updated_at = o.updated_at;
}
