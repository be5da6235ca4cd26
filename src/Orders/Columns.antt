-- ===== src/Orders/Columns.antt =====
-- internal/orders/store.go: an order as a row of columns, which may be NULL: what `Create` writes, and
-- what `scanOrder` reads.
use mathlib.Core.Option
use yukbor_backend.Common.{String, Option, none, some, Bool, false, ◌≡◌, refl}
use yukbor_backend.Common.Int.{ℤ, pos}
use yukbor_backend.Models.Enums.{
  Time, Float64, OrderType, EquipmentType, VehicleType, PaymentMethod,
}
use yukbor_backend.Models.Order.{CargoDetails, EquipmentRequest, LaborRequest}
use yukbor_backend.Orders.Record.{OrderRow}
use yukbor_backend.Orders.Store.{NewOrder, new_order_row}

-- `orderColumns`
pub record Columns : Type 0 where
  pub id : String
  pub client_id : String
  pub client_name : String
  pub order_type : OrderType
  pub cargo_type : Option String
  pub weight_tons : Option Float64
  pub requires_refrigeration : Option Bool
  pub required_vehicle_type : Option VehicleType
  pub special_instructions : Option String
  pub equipment_type : Option EquipmentType
  pub equipment_duration_hours : Option ℤ
  pub equipment_notes : Option String
  pub labor_workers_count : Option ℤ
  pub labor_duration_hours : Option ℤ
  pub labor_task_description : Option String
  pub pickup_address : String
  pub pickup_lat : Float64
  pub pickup_lng : Float64
  pub dropoff_address : String
  pub dropoff_lat : Float64
  pub dropoff_lng : Float64
  pub scheduled_date : Time
  pub price_estimate : ℤ
  pub currency : String
  pub payment_method : PaymentMethod
  pub cancelled_at : Option Time
  pub created_at : Time
  pub updated_at : Time

-- Where a pointer is nil, the zero value stays.
abbrev or_zero : {A : Type 0} → A → Option A → A
or_zero zero_ none = zero_
or_zero zero_ (some a) = a

-- `zero_float` is 0, and `no_vehicle` is the empty text.
module _ (zero_float : Float64) (no_vehicle : VehicleType) where
  unfoldable pub cargo_of : Option String → Columns → Option CargoDetails
  cargo_of none c = none
  cargo_of (some cargo_type) c = some (record {
    cargo_type = cargo_type;
    weight_tons = or_zero zero_float c.weight_tons;
    requires_refrigeration = or_zero false c.requires_refrigeration;
    required_vehicle_type = or_zero no_vehicle c.required_vehicle_type;
    special_instructions = c.special_instructions;
  })

  unfoldable pub equipment_of : Option EquipmentType → Columns → Option EquipmentRequest
  equipment_of none c = none
  equipment_of (some equipment_type) c = some (record {
    equipment_type = equipment_type;
    duration_hours = or_zero (pos 0) c.equipment_duration_hours;
    notes = c.equipment_notes;
  })

  unfoldable pub labor_of : Option ℤ → Columns → Option LaborRequest
  labor_of none c = none
  labor_of (some workers) c = some (record {
    workers_count = workers;
    duration_hours = or_zero (pos 0) c.labor_duration_hours;
    task_description = c.labor_task_description;
  })

  -- `scanOrder`
  unfoldable pub scan_order : Columns → OrderRow
  unfolding cargo_of equipment_of labor_of
  scan_order c = record {
    id = c.id;
    client_id = c.client_id;
    client_name = c.client_name;
    order_type = c.order_type;
    cargo = cargo_of c.cargo_type c;
    equipment = equipment_of c.equipment_type c;
    labor = labor_of c.labor_workers_count c;
    pickup = record { latitude = c.pickup_lat; longitude = c.pickup_lng };
    pickup_addr = c.pickup_address;
    dropoff = record { latitude = c.dropoff_lat; longitude = c.dropoff_lng };
    dropoff_addr = c.dropoff_address;
    scheduled_date = c.scheduled_date;
    price_estimate = c.price_estimate;
    currency = c.currency;
    payment_method = c.payment_method;
    cancelled_at = c.cancelled_at;
    created_at = c.created_at;
    updated_at = c.updated_at;
  }

abbrev notes_of : {A : Type 0} → (A → Option String) → Option A → Option String
notes_of f none = none
notes_of f (some a) = f a

-- The INSERT of `Create`. `numeric` is what the column NUMERIC(8,2) keeps of a weight, and `stamp` is
-- what a TIMESTAMPTZ, which counts microseconds, keeps of a time; `now` is the database's own.
unfoldable pub insert_columns :
    (Float64 → Float64) → (Time → Time) → Time → String → NewOrder → Columns
insert_columns numeric stamp now id n = record {
  id = id;
  client_id = n.client_id;
  client_name = n.client_name;
  order_type = n.order_type;
  cargo_type = Option.map (λ (c : CargoDetails). c.cargo_type) n.cargo;
  weight_tons = Option.map (λ (c : CargoDetails). numeric c.weight_tons) n.cargo;
  requires_refrigeration = Option.map (λ (c : CargoDetails). c.requires_refrigeration) n.cargo;
  required_vehicle_type = Option.map (λ (c : CargoDetails). c.required_vehicle_type) n.cargo;
  special_instructions = notes_of (λ (c : CargoDetails). c.special_instructions) n.cargo;
  equipment_type = Option.map (λ (e : EquipmentRequest). e.equipment_type) n.equipment;
  equipment_duration_hours = Option.map (λ (e : EquipmentRequest). e.duration_hours) n.equipment;
  equipment_notes = notes_of (λ (e : EquipmentRequest). e.notes) n.equipment;
  labor_workers_count = Option.map (λ (l : LaborRequest). l.workers_count) n.labor;
  labor_duration_hours = Option.map (λ (l : LaborRequest). l.duration_hours) n.labor;
  labor_task_description = notes_of (λ (l : LaborRequest). l.task_description) n.labor;
  pickup_address = n.pickup_addr;
  pickup_lat = n.pickup.latitude;
  pickup_lng = n.pickup.longitude;
  dropoff_address = n.dropoff_addr;
  dropoff_lat = n.dropoff.latitude;
  dropoff_lng = n.dropoff.longitude;
  scheduled_date = stamp n.scheduled_date;
  price_estimate = n.price_estimate;
  currency = n.currency;
  payment_method = n.payment_method;
  cancelled_at = none;
  created_at = now;
  updated_at = now;
}

-- The order as it was sent, but for the weight and the date.
abbrev pub as_kept : (Float64 → Float64) → (Time → Time) → NewOrder → NewOrder
as_kept numeric stamp n = record n {
  scheduled_date = stamp n.scheduled_date;
  cargo =
      Option.map (λ (c : CargoDetails). record c { weight_tons = numeric c.weight_tons }) n.cargo;
}

module _ (zero_float : Float64) (no_vehicle : VehicleType) (numeric : Float64 → Float64)
    (stamp : Time → Time) (now : Time) (id : String) where
  -- An order is read back from its columns as it was written: of the cargo, the equipment and the
  -- workers nothing is lost, mixed up or made up, whichever of them the order has and whichever of
  -- their optional texts; the weight and the date are what their columns keep of them.
  pub scan_order-insert_columns :
      (n : NewOrder)
      → scan_order zero_float no_vehicle (insert_columns numeric stamp now id n)
        ≡ new_order_row now id (as_kept numeric stamp n)
  unfolding scan_order insert_columns new_order_row
  scan_order-insert_columns n = go n.cargo n.equipment n.labor
    where
      go :
          (cargo : Option CargoDetails) (equipment : Option EquipmentRequest)
          (labor : Option LaborRequest)
          → let m = record n { cargo = cargo; equipment = equipment; labor = labor } in
            scan_order zero_float no_vehicle (insert_columns numeric stamp now id m)
            ≡ new_order_row now id (as_kept numeric stamp m)
      go none none none = refl
      go none none (some l) = refl
      go none (some e) none = refl
      go none (some e) (some l) = refl
      go (some c) none none = refl
      go (some c) none (some l) = refl
      go (some c) (some e) none = refl
      go (some c) (some e) (some l) = refl
