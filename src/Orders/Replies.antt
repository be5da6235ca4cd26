-- ===== src/Orders/Replies.antt =====
-- When the orders service refuses, and that it then does nothing.
use yukbor_backend.Common.{
  String, some, true, false, List, [], ◌∷◌, map, string_Eq, all, ◌≡◌, arith, ◌⊎◌, inl, inr,
  Bool-cases,
}
use yukbor_backend.Common.Exec.{err, ◌>>=◌}
use yukbor_backend.Httpx.{failure, Code}
use yukbor_backend.Httpx.Guards.{Claims}
use yukbor_backend.Models.Enums.{OrderStatus, order_status_Eq}
use yukbor_backend.Svc.{WalletClient}
use yukbor_backend.Orders.Legs.{is_ready_for_client_confirmation, is_done}
use yukbor_backend.Orders.Record.{OrderRecord, LegRecord, leg_of}
use yukbor_backend.Orders.Store.{by_id, claim_leg, StoreError}
use yukbor_backend.Orders.Store.Claims.{LegsAreUnique, claim_leg-fails}
use yukbor_backend.Orders.Handler
use yukbor_backend.Orders.Handler.{
  Env, State, Point, StatusRequest, cancellable, is_admin, may_drive, AcceptRequest, licence_gate,
  claim_failure,
}

abbrev pub statuses : OrderRecord → List OrderStatus
statuses rec = map (λ (l : LegRecord). l.status) rec.legs

-- The order is read.
abbrev pub Reads : {W : Type 0} → Env → String → State W → OrderRecord → Type 0
Reads env id s rec = (env.fails Point.load_order ≡ false) × (by_id id s.db ≡ some rec)

-- Who may cancel or confirm.
abbrev pub IsOwner : Claims → OrderRecord → Type 0
IsOwner claims rec = (claims.sub ≡ rec.client_id) ⊎ (is_admin claims ≡ true)

module _ {W : Type 0} (wallet : WalletClient W) (env : Env) (claims : Claims) (id : String)
    (s : State W) (rec : OrderRecord) where
  cancel_late :
      Reads env id s rec
      → IsOwner claims rec
      → all (λ (l : LegRecord). cancellable l.status) rec.legs ≡ false
      → Handler.cancel wallet env claims id s ≡ (err (failure 409 Code.order_not_cancellable), s)
  unfolding Handler.cancel Handler.load ◌>>=◌
  cancel_late reads owner late = ground arith

  confirm_early :
      Reads env id s rec
      → IsOwner claims rec
      → is_ready_for_client_confirmation (statuses rec) ≡ false
      → Handler.confirm wallet env claims id s ≡ (err (failure 409 Code.order_not_ready), s)
  unfolding Handler.confirm Handler.load ◌>>=◌
  confirm_early reads owner early = ground arith

done_late : (st : OrderStatus) → is_done st ≡ true → cancellable st ≡ false
unfolding cancellable
done_late st h = ground arith

ready_late :
    (legs : List LegRecord)
    → is_ready_for_client_confirmation (map (λ (l : LegRecord). l.status) legs) ≡ true
    → all (λ (l : LegRecord). cancellable l.status) legs ≡ false
unfolding is_ready_for_client_confirmation
ready_late [] h = ground arith
ready_late (l ∷ legs) h = ground (arith, done_late l.status)

-- An order's money goes one way: from one state, confirming the order answers 409 and changes
-- nothing, or else cancelling it does, so that its executors are paid or its client is refunded and
-- never both. The order is read, and its client or an admin asks.
pub paid_or_refunded :
    {W : Type 0} (wallet : WalletClient W) (env : Env) (claims : Claims) (id : String) (s : State W)
    (rec : OrderRecord)
    → Reads env id s rec
    → IsOwner claims rec
    → (Handler.confirm wallet env claims id s ≡ (err (failure 409 Code.order_not_ready), s))
      ⊎ (Handler.cancel wallet env claims id s ≡ (err (failure 409 Code.order_not_cancellable), s))
paid_or_refunded wallet env claims id s rec reads owner =
    elim (Bool-cases (is_ready_for_client_confirmation (statuses rec))) [
      | inl ready ↦
          inr (cancel_late wallet env claims id s rec reads owner (ready_late rec.legs ready))
      | inr early ↦ inl (confirm_early wallet env claims id s rec reads owner early)
    ]

-- An executor whose claim fails gets 409, or 404 for a leg that is not there, or 500; no leg of the
-- table changes, the wallet is not called and no event is fired. The caller accepts for himself,
-- the order is read and has the leg, his licence fits, the claim's UPDATE does not fail, and the
-- keys of the legs are unique.
pub accept_too_late :
    {W : Type 0} (wallet : WalletClient W) (env : Env) (claims : Claims) (id : String) (s : State W)
    (rec : OrderRecord) (req : AcceptRequest) (l : LegRecord) (e : StoreError)
    → LegsAreUnique s.db.legs
    → Reads env id s rec
    → leg_of req.leg rec.legs ≡ some l
    → req.executor_id ≡ claims.sub
    → licence_gate env rec req.leg claims.sub ≡ true
    → env.fails Point.claim ≡ false
    → (claim_leg env.now
        (env.fails Point.explain_claim)
        rec.id
        req.leg
        claims.sub
        req.executor_name
        s.db).0
      ≡ err e
    → let (reply, s') = Handler.accept wallet env claims id (some req) s in
      (reply ≡ err (claim_failure e))
      × (s'.db.legs ≡ s.db.legs)
      × (s'.wallet ≡ s.wallet)
      × (s'.sent ≡ s.sent)
unfolding Handler.accept Handler.load Handler.on_db ◌>>=◌
accept_too_late wallet env claims id s rec req l e unique reads found self fits up taken = ground (
  arith,
  claim_leg-fails env.now (env.fails Point.explain_claim) rec.id req.leg claims.sub
      req.executor_name s.db e unique taken,
)
