-- ===== src/Orders/Race/Reopened.antt =====
-- internal/orders/handler.go: what a claim that is given back late does to a cancelled order.
use yukbor_backend.Common.{String, Bool, List, some, true, false, ◌≡◌, refl, arith, ◌==◌, string_Eq}
use yukbor_backend.Common.Table.{
  query_row, update_where, query_row-update_where, query_row-fits, count_where,
}
use yukbor_backend.Common.Exec.{ok}
use yukbor_backend.Models.Enums.{Time, OrderStatus, Leg, leg_Eq, order_status_Eq}
use yukbor_backend.Orders.Record.{OrderRow}
use yukbor_backend.Orders.Escrow.{update-LegsAreUnique}
use yukbor_backend.Orders.Store
use yukbor_backend.Orders.Store.{LegRow, OrdersDb, is_leg, is_open, is_of}
use yukbor_backend.Orders.Store.Claims.{LegsAreUnique, count_open}

module _ (now : Time) (order : String) (leg : Leg) where
  abbrev after_both : OrdersDb → OrdersDb
  after_both db = Store.release_leg_claim now order leg (Store.cancel now false order db).1

  -- Giving a claim back asks for no status.
  leg_opens :
      (db : OrdersDb) (r : LegRow)
      → query_row (is_leg order leg) db.legs ≡ some r
      → (r' : LegRow) × (query_row (is_leg order leg) (after_both db).legs ≡ some r')
        × (is_open order leg r' ≡ true)
  unfolding Store.release_leg_claim Store.cancel
  leg_opens db r h = (
    record r { entry = Store.unclaimed now (Store.moved now OrderStatus.cancelled r.entry) },
    ground (
      arith,
      query_row-update_where (is_leg order leg) (is_leg order leg)
          (λ q. record q { entry = Store.unclaimed now q.entry })
          (update_where (is_of order)
            (λ q. record q { entry = Store.moved now OrderStatus.cancelled q.entry }) db.legs)
          (λ q. refl),
      query_row-update_where (is_leg order leg) (is_of order)
          (λ q. record q { entry = Store.moved now OrderStatus.cancelled q.entry }) db.legs
          (λ q. refl),
      query_row-fits (is_leg order leg) db.legs r h,
    ),
    ground (arith, query_row-fits (is_leg order leg) db.legs r h),
  )

  order_stays :
      (db : OrdersDb) (o : OrderRow)
      → query_row (λ (o : OrderRow). o.id == order) db.orders ≡ some o
      → (o' : OrderRow) × (query_row (λ (o : OrderRow). o.id == order) (after_both db).orders
          ≡ some o')
        × (o'.cancelled_at ≡ some now)
  unfolding Store.release_leg_claim Store.cancel Store.mark_cancelled
  order_stays db o h = (
    record o { cancelled_at = some now; updated_at = now },
    ground (
      arith,
      query_row-update_where (λ (o : OrderRow). o.id == order) (λ (o : OrderRow). o.id == order)
          (λ o. record o { cancelled_at = some now; updated_at = now }) db.orders (λ q. refl),
      query_row-fits (λ (o : OrderRow). o.id == order) db.orders o h,
    ),
    refl,
  )

claims_open :
    (now : Time) (lost : Bool) (order : String) (leg : Leg) (executor name : String) (db : OrdersDb)
    → count_where (is_open order leg) db.legs ≡ 1
    → (Store.claim_leg now lost order leg executor name db).0 ≡ ok tt
unfolding Store.claim_leg
claims_open now lost order leg executor name db one = ground (arith, one)

open_count :
    (order : String) (leg : Leg) (rows : List LegRow) (r : LegRow)
    → LegsAreUnique rows
    → query_row (is_leg order leg) rows ≡ some r
    → is_open order leg r ≡ true
    → count_where (is_open order leg) rows ≡ 1
open_count order leg rows r u found opened = ground (arith, count_open order leg rows r u found)

after-LegsAreUnique :
    (now : Time) (order : String) (leg : Leg) (db : OrdersDb)
    → LegsAreUnique db.legs
    → LegsAreUnique (after_both now order leg db).legs
unfolding Store.release_leg_claim Store.cancel
after-LegsAreUnique now order leg db u =
    update-LegsAreUnique (is_leg order leg) (Store.unclaimed now) _ (λ l. refl)
      (update-LegsAreUnique (is_of order) (Store.moved now OrderStatus.cancelled) db.legs
        (λ l. refl) u)

-- Somebody else gets the leg of a cancelled order: where the order is cancelled while an accept waits
-- for the wallet, and the wallet declines, so that the claim is given back, then the next claim of
-- the leg, by any executor, succeeds, and the order is cancelled still. The order and its leg are in
-- their tables, and the keys of the legs are unique.
pub reopened :
    (now later : Time) (lost : Bool) (order : String) (leg : Leg) (executor name : String)
    (db : OrdersDb) (r : LegRow) (o : OrderRow)
    → LegsAreUnique db.legs
    → query_row (is_leg order leg) db.legs ≡ some r
    → query_row (λ (o : OrderRow). o.id == order) db.orders ≡ some o
    → let db' = Store.release_leg_claim now order leg (Store.cancel now false order db).1 in
      ((Store.claim_leg later lost order leg executor name db').0 ≡ ok tt)
      × ((o' : OrderRow) × (query_row (λ (o : OrderRow). o.id == order) db'.orders ≡ some o')
          × (o'.cancelled_at ≡ some now))
reopened now later lost order leg executor name db r o unique found there =
    let (r', at, opened) = leg_opens now order leg db r found in
    let one =
      open_count order leg (after_both now order leg db).legs r'
        (after-LegsAreUnique now order leg db unique) at opened in
    (
      claims_open later lost order leg executor name (after_both now order leg db) one,
      order_stays now order leg db o there,
    )
