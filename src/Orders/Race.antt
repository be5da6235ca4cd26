-- ===== src/Orders/Race.antt =====
-- internal/orders/handler.go: requests that run at the same time. Each statement of the database and
-- each call of the wallet is a step of its own, and between two steps of one request any steps of the
-- others may stand. What a request has read before may be any reading, however old: a step writes
-- what that reading makes the code write.
pub mod Claims
pub mod Covered
pub mod Reopened
use yukbor_backend.Common.{String, Bool, true, false, List, [], ◌∷◌, ◌++◌, ◌≡◌, all, map}
use yukbor_backend.Common.Exec.{Result, ok, err}
use yukbor_backend.Models.Enums.{Time, OrderStatus, Leg}
use yukbor_backend.Models.Money.{Transaction}
use yukbor_backend.Svc.{WalletClient, EscrowRequest, CallError}
use yukbor_backend.Orders.Legs.{can_transition, is_ready_for_client_confirmation}
use yukbor_backend.Orders.Record.{OrderRecord, LegRecord}
use yukbor_backend.Orders.Handler.{cancellable}
use yukbor_backend.Orders.Store
use yukbor_backend.Orders.Store.{OrdersDb, NewOrder}

-- An accept between its claim and its end. `declined` says that the call of the wallet has failed
-- and that the claim is still to be given back.
pub record Claim : Type 0 where
  pub request : EscrowRequest
  pub leg : Leg
  pub declined : Bool

pub record Shared (W : Type 0) : Type 0 where
  pub db : OrdersDb
  pub wallet : W
  pub claims : List Claim

abbrev pub declined : Claim → Claim
declined c = record c { declined = true }

-- A claim that fits no leg changes nothing, so it is no step; nor does an event change anything here.
pub data Step {W : Type 0} (wallet : WalletClient W) (s : Shared W) : Shared W → Type 0 where
  -- `ClaimLeg` in accept
  claimed :
      (now : Time) (lost : Bool) (name : String) (c : Claim)
      → (Store.claim_leg now lost c.request.order_id c.leg c.request.payee_id name s.db).0 ≡ ok tt
      → Step wallet s (record s {
        db = (Store.claim_leg now lost c.request.order_id c.leg c.request.payee_id name s.db).1;
        claims = c ∷ s.claims;
      })
  -- the wallet's answer in accept
  paid :
      (before after : List Claim) (c : Claim) (tx : Transaction)
      → s.claims ≡ before ++ c ∷ after
      → c.declined ≡ false
      → (wallet.open_escrow c.request s.wallet).0 ≡ ok tx
      → Step wallet s (record s {
        wallet = (wallet.open_escrow c.request s.wallet).1;
        claims = before ++ after;
      })
  unpaid :
      (before after : List Claim) (c : Claim) (e : CallError)
      → s.claims ≡ before ++ c ∷ after
      → c.declined ≡ false
      → (wallet.open_escrow c.request s.wallet).0 ≡ err e
      → Step wallet s (record s {
        wallet = (wallet.open_escrow c.request s.wallet).1;
        claims = before ++ declined c ∷ after;
      })
  -- `ReleaseLegClaim` in accept
  gave_back :
      (now : Time) (before after : List Claim) (c : Claim)
      → s.claims ≡ before ++ c ∷ after
      → c.declined ≡ true
      → Step wallet s (record s {
        db = Store.release_leg_claim now c.request.order_id c.leg s.db;
        claims = before ++ after;
      })
  -- the writes of updateStatus, cancel and confirm, by the status or the order that they have read,
  -- and of create
  moved :
      (now : Time) (lost : Bool) (order : String) (leg : Leg) (before status : OrderStatus)
      → can_transition before status ≡ true
      → Step wallet s (record s { db = (Store.update_leg_status now lost order leg status s.db).1 })
  cancelled :
      (now : Time) (lost : Bool) (rec : OrderRecord)
      → all (λ (l : LegRecord). cancellable l.status) rec.legs ≡ true
      → Step wallet s (record s { db = (Store.cancel now lost rec.id s.db).1 })
  completed :
      (now : Time) (lost : Bool) (rec : OrderRecord)
      → is_ready_for_client_confirmation (map (λ (l : LegRecord). l.status) rec.legs) ≡ true
      → Step wallet s (record s { db = (Store.complete_all_legs now lost rec.id s.db).1 })
  placed :
      (now : Time) (id : String) (n : NewOrder)
      → Step wallet s (record s { db = Store.create now id n s.db })
  -- the wallet's other calls, in confirm and cancel
  released :
      (order payee : String)
      → Step wallet s (record s { wallet = (wallet.release order payee s.wallet).1 })
  refunded :
      (order : String) → Step wallet s (record s { wallet = (wallet.refund order s.wallet).1 })

pub data Reach {W : Type 0} (wallet : WalletClient W) (s : Shared W) : Shared W → Type 0 where
  start : Reach wallet s s
  later : {t u : Shared W} → Reach wallet s t → Step wallet t u → Reach wallet s u
