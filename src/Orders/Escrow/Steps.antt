-- ===== src/Orders/Escrow/Steps.antt =====
-- Each step of a request keeps the legs backed by escrows.
use yukbor_backend.Common.{String, Option, Bool, false, List, string_Eq, ◌≡◌, refl, arith, All}
use yukbor_backend.Common.Table.{update_where}
use yukbor_backend.Common.Exec.{Exec, Result, ok, err, EndsIn, ◌>>=◌}
use yukbor_backend.Httpx.{Failure}
use yukbor_backend.Models.Enums.{Time, OrderStatus, order_status_Eq, Leg, leg_Eq}
use yukbor_backend.Models.Events.{EventName, Payload, NotifySpec}
use yukbor_backend.Models.Money.{Transaction}
use yukbor_backend.Svc.{WalletClient, CallError}
use yukbor_backend.Orders.Record.{OrderRecord, LegRecord}
use yukbor_backend.Orders.Store
use yukbor_backend.Orders.Store.{
  LegRow, OrdersDb, StoreError, is_leg, is_open, is_null, is_of, claimed, unclaimed, moved, touch,
  claim_leg, release_leg_claim, update_leg_status, complete_all_legs,
}
use yukbor_backend.Orders.Store.Claims.{LegsAreUnique, claim_leg-rows}
use yukbor_backend.Orders.Handler
use yukbor_backend.Orders.Handler.{Env, State, Point, AcceptRequest, StatusRequest}
use yukbor_backend.Orders.Escrow.{
  EscrowLaws, AllBacked, update-LegsAreUnique, IsPending, claim-IsPending, give_back-backed,
  opened-backed,
}

pub failed_write :
    (r : Result StoreError (Unit {0})) (to_failure : StoreError → Failure) (e : Failure)
    → (elim r as (λ _. Result Failure (Unit {0})) [ ok _ ↦ ok tt | err x ↦ err (to_failure x) ])
      ≡ err e
    → (x : StoreError) × (r ≡ err x)
failed_write (ok u) to_failure e h = cc
failed_write (err x) to_failure e h = (x, refl)

-- The writes that move legs change no executor.
pub update_leg_status-rows :
    (now : Time) (lost : Bool) (order : String) (leg : Leg) (status : OrderStatus) (db : OrdersDb)
    → (update_leg_status now lost order leg status db).1.legs
      ≡ update_where (is_leg order leg) (λ r. record r { entry = moved now status r.entry }) db.legs
unfolding update_leg_status touch
update_leg_status-rows now lost order leg status db = ground arith

pub cancel-rows :
    (now : Time) (lost : Bool) (order : String) (db : OrdersDb)
    → (Store.cancel now lost order db).1.legs
      ≡ update_where
          (is_of order)
          (λ r. record r { entry = moved now OrderStatus.cancelled r.entry })
          db.legs
unfolding Store.cancel
cancel-rows now lost order db = ground arith

pub complete_all_legs-rows :
    (now : Time) (lost : Bool) (order : String) (db : OrdersDb)
    → (complete_all_legs now lost order db).1.legs
      ≡ update_where
          (is_of order)
          (λ r. record r { entry = moved now OrderStatus.completed r.entry })
          db.legs
unfolding complete_all_legs touch
complete_all_legs-rows now lost order db = ground arith

module _ {W : Type 0} (wallet : WalletClient W) (laws : EscrowLaws wallet) where
  open laws use {Has}

  -- The legs are unique, and each leg with an executor has an escrow for its order and executor.
  pub record IsSound (s : State W) : Type 0 where
    pub unique : LegsAreUnique s.db.legs
    pub backed : AllBacked (λ o x. Has o x s.wallet) s.db.legs

  pub load_state : (env : Env) (id : String) (s : State W) → (Handler.load env id s).1 ≡ s
  unfolding Handler.load ◌>>=◌
  load_state env id s = ground arith

  pub reload_state : (env : Env) (id : String) (s : State W) → (Handler.reload env id s).1 ≡ s
  unfolding Handler.reload ◌>>=◌
  reload_state env id s = ground arith

  -- Firing an event changes neither table nor wallet.
  pub emit-IsSound :
      {B : Type 0} (users notified : List String) (name : EventName) (load : Payload)
      (notify : Option NotifySpec) (f : Unit {0} → Exec (State W) Failure B) (s : State W)
      → IsSound s
      → ((t : State W) → IsSound t → EndsIn IsSound (f tt) t)
      → EndsIn IsSound (Handler.emit_to users notified name load notify >>= f) s
  unfolding Handler.emit_to ◌>>=◌
  emit-IsSound users notified name load notify f s h go = record {
    at = (go _ (record { unique = h.unique; backed = h.backed })).at;
  }

  -- The claim is kept with its escrow, or it is given back.
  pub settle-IsSound :
      (env : Env) (order : String) (leg : Leg) (executor : String)
      (r : Result CallError Transaction) (P : String → String → Type 0) (s : State W)
      → env.fails Point.give_back ≡ false
      → ((o x : String) → P o x → Has o x s.wallet)
      → ((tx : Transaction) → r ≡ ok tx → Has order executor s.wallet)
      → LegsAreUnique s.db.legs
      → All (IsPending P order leg executor) s.db.legs
      → IsSound (Handler.settle_claim env order leg r s).1
  unfolding Handler.settle_claim Handler.roll_back release_leg_claim
  settle-IsSound env order leg executor (ok tx) P s up keeps opened u h = record {
    unique = u;
    backed =
        opened-backed P env.now order leg executor "" (λ o x. Has o x s.wallet) s.db.legs keeps
          (opened tx refl) h;
  }
  settle-IsSound env order leg executor (err e) P s up keeps opened u h = rw up (record {
    unique = update-LegsAreUnique (is_leg order leg) (unclaimed env.now) s.db.legs (λ l. refl) u;
    backed =
        give_back-backed P env.now order leg executor "" (λ o x. Has o x s.wallet) s.db.legs keeps
          h;
  })

  pub open_escrow-IsSound :
      (env : Env) (rec : OrderRecord) (row : LegRecord) (leg : Leg) (executor : String)
      (s : State W)
      → env.fails Point.give_back ≡ false
      → LegsAreUnique s.db.legs
      → All (IsPending (λ o x. Has o x s.wallet) rec.id leg executor) s.db.legs
      → IsSound (Handler.open_escrow wallet env rec row leg executor s).1
  unfolding Handler.open_escrow
  open_escrow-IsSound env rec row leg executor s up u h =
      settle-IsSound env rec.id leg executor _ (λ o x. Has o x s.wallet) _ up
        (laws.open_keeps _ s.wallet) (λ tx e. laws.opens _ s.wallet e) u h

  -- The state after a claim that succeeded: all is sound but for the claimed leg.
  pub record IsClaimed (order : String) (leg : Leg) (executor : String) (s : State W) : Type 0 where
    pub unique : LegsAreUnique s.db.legs
    pub pending : All (IsPending (λ o x. Has o x s.wallet) order leg executor) s.db.legs

  pub claim-IsClaimed :
      (now : Time) (lost : Bool) (order : String) (leg : Leg) (executor name : String)
      (to_failure : StoreError → Failure) (s : State W)
      → IsSound s
      → IsClaimed order leg executor
          (Handler.on_db (claim_leg now lost order leg executor name) to_failure s).1
  unfolding Handler.on_db
  claim-IsClaimed now lost order leg executor name to_failure s h = record {
    unique = rw (claim_leg-rows now lost order leg executor name s.db) (
        update-LegsAreUnique (is_open order leg) (claimed now executor name) s.db.legs (λ l. refl)
          h.unique);
    pending =
        rw (claim_leg-rows now lost order leg executor name s.db) (
          claim-IsPending (λ o x. Has o x s.wallet) now order leg executor name s.db.legs h.backed);
  }

  pub unclaimed-IsSound :
      (write : OrdersDb → Result StoreError (Unit {0}) × OrdersDb)
      (to_failure : StoreError → Failure) (s : State W) (e : Failure)
      → IsSound s
      → ((x : StoreError) → (write s.db).0 ≡ err x → (write s.db).1.legs ≡ s.db.legs)
      → (Handler.on_db write to_failure s).0 ≡ err e
      → IsSound (Handler.on_db write to_failure s).1
  unfolding Handler.on_db
  unclaimed-IsSound write to_failure s e h same failed =
      let (x, found) = failed_write (write s.db).0 to_failure e failed in
      let legs : (write s.db).1.legs ≡ s.db.legs = same x found in
      record { unique = rw legs h.unique; backed = rw legs h.backed }
