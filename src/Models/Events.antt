-- ===== src/Models/Events.antt =====
-- pkg/models/events.go: realtime events, and who is told of them.
use yukbor_backend.Common.{ℕ, String, Option, Bool, List, ltb, length, if◌then◌else◌}
use yukbor_backend.Models.Enums.{NotificationType, Time}
use yukbor_backend.Models.Order.{Order}
use yukbor_backend.Models.Money.{Transaction}

pub record NotifySpec : Type 0 where
  pub notification_type : NotificationType
  pub title : String
  pub body : String
  pub related_order_id : Option String

pub record AppNotification : Type 0 where
  pub id : String
  pub user_id : String
  pub notification_type : NotificationType
  pub title : String
  pub body : String
  pub related_order_id : Option String
  pub is_read : Bool
  pub created_at : Time

pub record Review : Type 0 where
  pub id : String
  pub order_id : String
  pub reviewer_id : String
  pub reviewee_id : String
  pub rating : ℕ
  pub comment : Option String
  pub created_at : Time

-- The objects that an event carries.
pub data Payload : Type 0 where
  order : Order → Payload
  transaction : Transaction → Payload
  notification : AppNotification → Payload
  review : Review → Payload

pub data EventName : Type 0 where
  order_created order_updated transaction_updated notification_created : EventName

-- `none` is the empty name of an event, and the missing data.
pub record EmitEventRequest : Type 0 where
  pub user_ids : List String
  pub event : Option EventName
  pub payload : Option Payload
  pub notify : Option NotifySpec
  pub notify_user_ids : List String

-- Who gets the stored notification.
unfoldable pub notify_recipients : EmitEventRequest → List String
notify_recipients r = if ltb 0 (length r.notify_user_ids) then r.notify_user_ids else r.user_ids
