-- ===== src/Models/Enums.antt =====
-- The string enumerations of pkg/models/models.go. A request may carry any string where such a
-- type stands: `other` is a string that is none of the constants.
use yukbor_backend.Common.{ℕ, String, Eq, String-discrete}

-- An instant, in nanoseconds; 0 is Go's zero time.
abbrev pub Time : Type 0
Time = ℕ

-- The bits of a `float64`. What is computed with them is a parameter of the functions that do.
abbrev pub Float64 : Type 0
Float64 = ℕ

pub data UserRole : Type 0 where
  client driver equipment_provider labor_provider fleet_admin admin : UserRole
  other : String → UserRole

pub data VerificationStatus : Type 0 where
  pending approved rejected : VerificationStatus

pub data OrderType : Type 0 where
  transport_only transport_with_options equipment_only labor_only : OrderType
  other : String → OrderType

pub data OrderStatus : Type 0 where
  draft published matched accepted in_progress loading_in_progress : OrderStatus
  in_transit delivered completed cancelled disputed : OrderStatus
  other : String → OrderStatus

pub data Leg : Type 0 where
  transport equipment labor : Leg
  other : String → Leg

pub data EquipmentType : Type 0 where
  excavator crane forklift loader : EquipmentType
  other : String → EquipmentType

pub data VehicleType : Type 0 where
  tractor_trailer flatbed refrigerated tanker dump_truck box_truck : VehicleType
  other : String → VehicleType

pub data PaymentMethod : Type 0 where
  payme click uzcard : PaymentMethod
  other : String → PaymentMethod

pub data TransactionStatus : Type 0 where
  held released refunded : TransactionStatus

pub data NotificationType : Type 0 where
  new_order_match order_status_changed payment_released : NotificationType
  backhaul_suggestion review_received : NotificationType

unfoldable pub UserRole-discrete : Discrete UserRole
unfolding String-discrete
UserRole-discrete = hlevel String-discrete

unfoldable pub VerificationStatus-discrete : Discrete VerificationStatus
VerificationStatus-discrete = hlevel

unfoldable pub OrderStatus-discrete : Discrete OrderStatus
unfolding String-discrete
OrderStatus-discrete = hlevel String-discrete

unfoldable pub Leg-discrete : Discrete Leg
unfolding String-discrete
Leg-discrete = hlevel String-discrete

unfoldable pub TransactionStatus-discrete : Discrete TransactionStatus
TransactionStatus-discrete = hlevel

instance abbrev pub user_role_Eq : Eq UserRole
user_role_Eq = record { dec = UserRole-discrete }

instance abbrev pub verification_status_Eq : Eq VerificationStatus
verification_status_Eq = record { dec = VerificationStatus-discrete }

instance abbrev pub order_status_Eq : Eq OrderStatus
order_status_Eq = record { dec = OrderStatus-discrete }

instance abbrev pub leg_Eq : Eq Leg
leg_Eq = record { dec = Leg-discrete }

instance abbrev pub transaction_status_Eq : Eq TransactionStatus
transaction_status_Eq = record { dec = TransactionStatus-discrete }

-- `string(x)` of the types that the program prints
pub equipment_type_text : EquipmentType → String
equipment_type_text EquipmentType.excavator = "excavator"
equipment_type_text EquipmentType.crane = "crane"
equipment_type_text EquipmentType.forklift = "forklift"
equipment_type_text EquipmentType.loader = "loader"
equipment_type_text (EquipmentType.other s) = s

pub order_status_text : OrderStatus → String
order_status_text OrderStatus.draft = "draft"
order_status_text OrderStatus.published = "published"
order_status_text OrderStatus.matched = "matched"
order_status_text OrderStatus.accepted = "accepted"
order_status_text OrderStatus.in_progress = "inProgress"
order_status_text OrderStatus.loading_in_progress = "loadingInProgress"
order_status_text OrderStatus.in_transit = "inTransit"
order_status_text OrderStatus.delivered = "delivered"
order_status_text OrderStatus.completed = "completed"
order_status_text OrderStatus.cancelled = "cancelled"
order_status_text OrderStatus.disputed = "disputed"
order_status_text (OrderStatus.other s) = s

unfoldable pub user_role_text : UserRole → String
user_role_text UserRole.client = "client"
user_role_text UserRole.driver = "driver"
user_role_text UserRole.equipment_provider = "equipmentProvider"
user_role_text UserRole.labor_provider = "laborProvider"
user_role_text UserRole.fleet_admin = "fleetAdmin"
user_role_text UserRole.admin = "admin"
user_role_text (UserRole.other s) = s
