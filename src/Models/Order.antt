-- ===== src/Models/Order.antt =====
-- The order DTOs of pkg/models/models.go.
use yukbor_backend.Common.{String, Option, Bool}
use yukbor_backend.Common.Int.{ℤ}
use yukbor_backend.Models.Enums.{Time, Float64, OrderType, OrderStatus, EquipmentType, VehicleType}

pub record Location : Type 0 where
  pub latitude : Float64
  pub longitude : Float64

pub record CargoDetails : Type 0 where
  pub cargo_type : String
  pub weight_tons : Float64
  pub requires_refrigeration : Bool
  pub required_vehicle_type : VehicleType
  pub special_instructions : Option String

pub record EquipmentRequest : Type 0 where
  pub equipment_type : EquipmentType
  pub duration_hours : ℤ
  pub notes : Option String

pub record LaborRequest : Type 0 where
  pub workers_count : ℤ
  pub duration_hours : ℤ
  pub task_description : Option String

-- The flattened order that the clients read.
pub record Order : Type 0 where
  pub id : String
  pub client_id : String
  pub client_name : String
  pub order_type : OrderType
  pub status : OrderStatus
  pub cargo : Option CargoDetails
  pub equipment_request : Option EquipmentRequest
  pub labor_request : Option LaborRequest
  pub pickup_address : String
  pub pickup_location : Location
  pub dropoff_address : String
  pub dropoff_location : Location
  pub scheduled_date : Time
  pub price_estimate : String
  pub currency : String
  pub assigned_driver_id : Option String
  pub assigned_driver_name : Option String
  pub assigned_equipment_provider_id : Option String
  pub assigned_equipment_provider_name : Option String
  pub equipment_status : Option OrderStatus
  pub assigned_labor_provider_id : Option String
  pub assigned_labor_provider_name : Option String
  pub labor_status : Option OrderStatus
  pub created_at : Time
  pub updated_at : Time
