-- ===== src/Orders/Dashboard.antt =====
-- internal/orders/store.go and handler.go: the search for return loads, and what the back office and
-- the wallet read of the orders.
use yukbor_backend.Common.{
  ℕ, ◌+◌, ◌≤◌, String, Option, none, some, Bool, true, false, ◌&&◌, ◌||◌, not, List, [], ◌∷◌, any,
  length, ◌==◌, string_Eq, ◌≡◌, arith,
}
use yukbor_backend.Common.Table.{select, count_where, order_by}
use yukbor_backend.Common.Exec.{pure, gets, raise_if, or_raise, ◌>>=◌, ◌>>◌}
use yukbor_backend.Httpx.{Code, failure, Handler}
use yukbor_backend.Models.Enums.{Float64, OrderStatus, order_status_Eq, Leg, leg_Eq}
use yukbor_backend.Models.Order.{Order, Location}
use yukbor_backend.Orders.Record.{OrderRow, OrderRecord, flatten}
use yukbor_backend.Orders.Store.{OrdersDb, LegRow}
use yukbor_backend.Orders.Handler
use yukbor_backend.Orders.Handler.{State}
use yukbor_backend.Orders.Feed.{later, attach_legs, flatten_all}

-- models, `OrderStats`
pub record OrderStats : Type 0 where
  pub total : ℕ
  pub active : ℕ
  pub completed : ℕ

-- `l.status NOT IN ('completed','cancelled')`
abbrev pub is_unfinished : String → LegRow → Bool
is_unfinished order r =
    r.order_id == order
    && not (r.entry.status == OrderStatus.completed || r.entry.status == OrderStatus.cancelled)

-- `l.status <> 'completed'`
abbrev pub is_incomplete : String → LegRow → Bool
is_incomplete order r = r.order_id == order && not (r.entry.status == OrderStatus.completed)

-- `Stats`
unfoldable pub stats : OrdersDb → OrderStats
stats db = record {
  total = length db.orders;
  active = count_where (λ (o : OrderRow). any (is_unfinished o.id) db.legs) db.orders;
  completed = count_where (λ (o : OrderRow). not (any (is_incomplete o.id) db.legs)) db.orders;
}

-- `ListAll`
unfoldable pub list_all : OrdersDb → List OrderRecord
unfolding attach_legs
list_all db = attach_legs db (order_by later db.orders)

-- An open transport leg.
abbrev open_transport : String → LegRow → Bool
open_transport order r =
    r.order_id == order
    && (r.entry.leg == Leg.transport
        && (r.entry.status == OrderStatus.published
            && (elim r.entry.executor_id [ none ↦ true | some _ ↦ false ])))

-- What the database computes of a place: whether a pickup lies in the box and in the radius around
-- it, and which of two lies nearer.
pub record Geography : Type 0 where
  pub is_near : Float64 → Float64 → Float64 → Location → Bool
  pub is_nearer : Float64 → Float64 → Location → Location → Bool

-- `Backhaul`
unfoldable pub backhaul :
    Geography → Float64 → Float64 → String → Float64 → OrdersDb → List OrderRecord
unfolding attach_legs
backhaul geo lat lng excluded radius db = attach_legs db (
    order_by (λ (o : OrderRow) (p : OrderRow). geo.is_nearer lat lng o.pickup p.pickup)
      (select
        (λ (o : OrderRow).
          any (open_transport o.id) db.legs
          && ((excluded == "" || not (o.id == excluded)) && geo.is_near lat lng radius o.pickup))
        db.orders))

abbrev radius_or : Float64 → Option Float64 → Float64
radius_or standard none = standard
radius_or standard (some r) = r

module _ {W : Type 0} where
  -- GET /orders/backhaul: the coordinates are `none` where they do not parse, and the radius where
  -- it does not parse or is not positive. `standard` is `BackhaulRadiusKM`.
  unfoldable pub search_backhaul :
      Bool
      → Geography
      → Float64
      → Option (Float64 × Float64)
      → Option Float64
      → String
      → Handler (State W) (List Order)
  unfolding backhaul flatten_all
  search_backhaul lost geo standard place radius excluded = do
    at ← or_raise place (failure 400 Code.validation)
    let km = radius_or standard radius
    raise_if lost (failure 500 Code.internal)
    gets (λ s. flatten_all (backhaul geo at.0 at.1 excluded km s.db))

  -- GET /admin/orders
  unfoldable pub admin_orders : Bool → Handler (State W) (List Order)
  unfolding list_all flatten_all
  admin_orders lost = do
    raise_if lost (failure 500 Code.internal)
    gets (λ s. flatten_all (list_all s.db))

  -- GET /internal/orders/{id}
  unfoldable pub internal_order : Handler.Env → String → Handler (State W) Order
  internal_order env id = do rec ← Handler.load env id; pure (flatten rec)

  -- GET /internal/orders/stats
  unfoldable pub internal_stats : Bool → Handler (State W) OrderStats
  unfolding stats
  internal_stats lost = do raise_if lost (failure 500 Code.internal); gets (λ s. stats s.db)

-- An unfinished leg is an incomplete one.
unfinished_counts :
    (order : String) (legs : List LegRow)
    → any (is_unfinished order) legs ≡ true
    → any (is_incomplete order) legs ≡ true
unfinished_counts order [] h = h
unfinished_counts order (l ∷ legs) h = ground (arith, unfinished_counts order legs)

counted_apart :
    (legs : List LegRow) (orders : List OrderRow)
    → count_where (λ (o : OrderRow). any (is_unfinished o.id) legs) orders
        + count_where (λ (o : OrderRow). not (any (is_incomplete o.id) legs)) orders
      ≤ length orders
counted_apart legs [] = omega arith
counted_apart legs (o ∷ orders) =
    ground (arith, unfinished_counts o.id legs, counted_apart legs orders)

-- The dashboard counts no order twice: none is both active and completed, so the two counts add up
-- to the total at most, and what is missing has a cancelled leg and no open one.
pub stats-bounds : (db : OrdersDb) → (stats db).active + (stats db).completed ≤ (stats db).total
unfolding stats
stats-bounds db = counted_apart db.legs db.orders
