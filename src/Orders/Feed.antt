-- ===== src/Orders/Feed.antt =====
-- internal/orders/handler.go: the requests of clients and executors that only read.
use yukbor_backend.Common.{
  String, Bool, true, false, ◌&&◌, not, List, map, ◌==◌, string_Eq, if◌then◌else◌, leb, All, [],
  ◌∷◌, ◌≡◌, arith,
}
use yukbor_backend.Common.Table.{select, order_by, order_by-All, select-All}
use yukbor_backend.Common.Exec.{
  pure, gets, raise_if, ok, Yields, Yields-raise_if, Yields-pure, ◌>>=◌, ◌>>◌,
}
use yukbor_backend.Httpx.{Code, failure, Handler}
use yukbor_backend.Httpx.Guards.{Claims}
use yukbor_backend.Models.Enums.{Leg}
use yukbor_backend.Models.Order.{Order}
use yukbor_backend.Orders.Record.{OrderRow, OrderRecord, flatten}
use yukbor_backend.Orders.Store
use yukbor_backend.Orders.Store.{OrdersDb, legs_of}
use yukbor_backend.Orders.Handler
use yukbor_backend.Orders.Handler.{State, is_admin}

-- `attachLegs`, for each order of a list.
unfoldable pub attach_legs : OrdersDb → List OrderRow → List OrderRecord
attach_legs db rows = map (λ (o : OrderRow). record { row = o; legs = legs_of o.id db.legs }) rows

-- `created_at DESC`
abbrev pub later : OrderRow → OrderRow → Bool
later o p = leb p.created_at o.created_at

unfoldable pub list_by_client : String → OrdersDb → List OrderRecord
unfolding attach_legs
list_by_client client db =
    attach_legs db (order_by later (select (λ (o : OrderRow). o.client_id == client) db.orders))

unfoldable pub flatten_all : List OrderRecord → List Order
flatten_all recs = map flatten recs

unfoldable pub valid_leg : Leg → Bool
valid_leg Leg.transport = true
valid_leg Leg.equipment = true
valid_leg Leg.labor = true
valid_leg (Leg.other _) = false

module _ {W : Type 0} where
  -- GET /orders; the flag says that the query fails.
  unfoldable pub list_orders : Bool → Claims → String → Handler (State W) (List Order)
  unfolding list_by_client flatten_all
  list_orders lost claims client_id = do
    let client = if client_id == "" then claims.sub else client_id
    raise_if (not (client == claims.sub) && not (is_admin claims)) (failure 403 Code.forbidden)
    raise_if lost (failure 500 Code.internal)
    gets (λ s. flatten_all (list_by_client client s.db))

  -- GET /orders/available
  unfoldable pub list_available : Bool → Leg → Handler (State W) (List Order)
  unfolding attach_legs flatten_all valid_leg
  list_available lost leg = do
    raise_if (not (valid_leg leg)) (failure 400 Code.validation)
    raise_if lost (failure 500 Code.internal)
    gets (λ s. flatten_all (attach_legs s.db (Store.available leg s.db)))

  -- GET /orders/{id}
  unfoldable pub get_order : Handler.Env → String → Handler (State W) Order
  get_order env id = do rec ← Handler.load env id; pure (flatten rec)

-- The order's client is the caller.
abbrev pub IsHis : Claims → Order → Type 0
IsHis claims o = o.client_id ≡ claims.sub

flatten_all-IsHis :
    (claims : Claims) (db : OrdersDb) (client : String) (rows : List OrderRow)
    → client ≡ claims.sub
    → All (λ (o : OrderRow). (o.client_id == client) ≡ true) rows
    → All (IsHis claims) (flatten_all (attach_legs db rows))
unfolding flatten_all attach_legs flatten
flatten_all-IsHis claims db client [] same h = tt
flatten_all-IsHis claims db client (o ∷ rows) same h =
    (ground arith, flatten_all-IsHis claims db client rows same h.1)

list_by_client-IsHis :
    (claims : Claims) (db : OrdersDb) (client : String)
    → client ≡ claims.sub
    → All (IsHis claims) (flatten_all (list_by_client client db))
unfolding list_by_client
list_by_client-IsHis claims db client same =
    flatten_all-IsHis claims db client _ same
      (order_by-All _ later _ (select-All (λ (o : OrderRow). o.client_id == client) db.orders))

asked :
    (claims : Claims) (client : String)
    → (not (client == claims.sub) && not (is_admin claims)) ≡ false
    → is_admin claims ≡ false
    → client ≡ claims.sub
asked claims client h plain = ground arith

listed :
    {W : Type 0} (lost : Bool) (claims : Claims) (client_id : String) (s : State W)
    → is_admin claims ≡ false
    → Yields (λ os _. All (IsHis claims) os) (list_orders lost claims client_id) s
unfolding list_orders
listed lost claims client_id s plain = Yields-raise_if _ _ _ s λ his. Yields-raise_if _ _ _ s λ _.
    record {
      at =
          (Yields-pure {R = λ os _. All (IsHis claims) os} _ s (
            list_by_client-IsHis claims s.db _
              (asked claims (if client_id == "" then claims.sub else client_id) his plain))).at;
    }

-- A caller who is no admin sees only his own orders: whatever client the request names, each order
-- in a list that GET /orders answers with has the caller as its client.
pub list_orders-IsHis :
    {W : Type 0} (lost : Bool) (claims : Claims) (client_id : String) (s : State W)
    (orders : List Order)
    → is_admin claims ≡ false
    → (list_orders lost claims client_id s).0 ≡ ok orders
    → All (IsHis claims) orders
list_orders-IsHis lost claims client_id s orders plain h =
    (listed lost claims client_id s plain).at orders h
