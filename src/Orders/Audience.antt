-- ===== src/Orders/Audience.antt =====
-- internal/orders/handler.go: who is told of a change, and in which words.
use Prim.Native.String
use yukbor_backend.Common.{
  String, Option, none, some, ◌||◌, not, List, [], ◌∷◌, ◌==◌, string_Eq, if◌then◌else◌, contains,
}
use yukbor_backend.Common.Table.{select}
use yukbor_backend.Models.Enums.{OrderStatus, order_status_text, Leg, leg_Eq, equipment_type_text}
use yukbor_backend.Models.Order.{CargoDetails, EquipmentRequest, LaborRequest}
use yukbor_backend.Orders.Record.{LegRecord, OrderRecord}

-- The executors of the legs that have one.
abbrev pub executors : List LegRecord → List String
executors [] = []
executors (l ∷ legs) =
    let rest = executors legs in elim l.executor_id [ none ↦ rest | some id ↦ id ∷ rest ]

-- The loop of `payees` and of `dedupe`: an id that is in the set `seen` is passed over.
unfoldable pub first_of_each : List String → List String → List String
first_of_each seen [] = []
first_of_each seen (id ∷ ids) =
    let again = first_of_each seen ids in
    let new = id ∷ first_of_each (id ∷ seen) ids in if contains id seen then again else new

-- The distinct executors who are owed money on an order.
unfoldable pub payees : OrderRecord → List String
unfolding first_of_each
payees rec = first_of_each [] (executors rec.legs)

unfoldable pub participants : OrderRecord → List String
unfolding payees
participants rec = rec.client_id ∷ payees rec

unfoldable pub counterparties : OrderRecord → String → List String
unfolding participants
counterparties rec actor = select (λ id. not (id == actor)) (participants rec)

unfoldable pub dedupe : List String → List String
unfolding first_of_each
dedupe ids = first_of_each [] (select (λ id. not (id == "")) ids)

cargo_title : Option CargoDetails → String → String
cargo_title none other = other
cargo_title (some c) other = if c.cargo_type == "" then other else c.cargo_type

equipment_title : Option EquipmentRequest → String → String
equipment_title none other = other
equipment_title (some e) other = String.◌++◌ "Спецтехника: " (equipment_type_text e.equipment_type)

labor_title : Option LaborRequest → String
labor_title none = "Заказ"
labor_title (some l) = "Рабочая сила"

unfoldable pub title : OrderRecord → String
unfolding cargo_title equipment_title labor_title
title rec = cargo_title rec.cargo (equipment_title rec.equipment (labor_title rec.labor))

-- The wording that every leg has.
plain_status_text : OrderStatus → String
plain_status_text OrderStatus.loading_in_progress = "Погрузка началась"
plain_status_text OrderStatus.in_transit = "Груз в пути"
plain_status_text OrderStatus.delivered = "Груз доставлен"
plain_status_text OrderStatus.completed = "Заказ завершён"
plain_status_text s = String.◌++◌ "Новый статус: " (order_status_text s)

-- The wording for equipment and labor.
work_status_text : OrderStatus → String
unfolding plain_status_text
work_status_text OrderStatus.loading_in_progress = "Исполнитель на месте, работы начаты"
work_status_text OrderStatus.in_transit = "Работы выполняются"
work_status_text OrderStatus.delivered = "Работы завершены"
work_status_text s = plain_status_text s

unfoldable pub status_text : Leg → OrderStatus → String
unfolding work_status_text plain_status_text
status_text leg s =
    if leg == Leg.equipment || leg == Leg.labor then work_status_text s else plain_status_text s
