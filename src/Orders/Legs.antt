-- ===== src/Orders/Legs.antt =====
-- internal/orders/legs.go: which legs an order has, and how a leg's status may move.
pub mod Progress
use yukbor_backend.Common.{
  List, [], ◌∷◌, ◌++◌, Bool, true, false, ◌&&◌, ◌||◌, not, ◌==◌, if◌then◌else◌, contains, all,
  length, ltb,
}
use yukbor_backend.Models.Enums.{OrderType, OrderStatus, Leg, order_status_Eq}

unfoldable pub legs_for : OrderType → Bool → Bool → List Leg
legs_for OrderType.transport_only has_equipment has_labor = Leg.transport ∷ []
legs_for OrderType.equipment_only has_equipment has_labor = Leg.equipment ∷ []
legs_for OrderType.labor_only has_equipment has_labor = Leg.labor ∷ []
legs_for OrderType.transport_with_options has_equipment has_labor =
    (Leg.transport ∷ (if has_equipment then Leg.equipment ∷ [] else []))
    ++ (if has_labor then Leg.labor ∷ [] else [])
legs_for (OrderType.other _) has_equipment has_labor = []

-- A status that is no key of the map has no entry.
unfoldable pub next_allowed : OrderStatus → List OrderStatus
next_allowed OrderStatus.published = OrderStatus.matched ∷ OrderStatus.accepted ∷ []
next_allowed OrderStatus.matched = OrderStatus.accepted ∷ []
next_allowed OrderStatus.accepted =
    OrderStatus.in_progress ∷ OrderStatus.loading_in_progress ∷ OrderStatus.in_transit
    ∷ OrderStatus.delivered ∷ []
next_allowed OrderStatus.in_progress =
    OrderStatus.loading_in_progress ∷ OrderStatus.in_transit ∷ OrderStatus.delivered ∷ []
next_allowed OrderStatus.loading_in_progress = OrderStatus.in_transit ∷ OrderStatus.delivered ∷ []
next_allowed OrderStatus.in_transit = OrderStatus.delivered ∷ []
next_allowed OrderStatus.delivered = OrderStatus.completed ∷ []
next_allowed _ = []

unfoldable pub can_transition : OrderStatus → OrderStatus → Bool
unfolding next_allowed
can_transition from to = contains to (next_allowed from)

-- `s == StatusDelivered || s == StatusCompleted`
abbrev pub is_done : OrderStatus → Bool
is_done s = s == OrderStatus.delivered || s == OrderStatus.completed

unfoldable pub is_ready_for_client_confirmation : List OrderStatus → Bool
is_ready_for_client_confirmation [] = false
is_ready_for_client_confirmation (s ∷ statuses) = all is_done (s ∷ statuses)
