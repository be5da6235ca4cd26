-- ===== src/Orders/Handler.antt =====
-- internal/orders/handler.go: the requests that change an order.
use Prim.Native.String
use yukbor_backend.Common.{
  String, Option, none, some, Bool, true, false, ◌&&◌, ◌||◌, not, List, [], ◌∷◌, map, ◌==◌,
  string_Eq, if◌then◌else◌, all,
}
use yukbor_backend.Common.Strconv.{format_int}
use yukbor_backend.Common.Exec.{
  Result, ok, err, pure, gets, or_raise, raise_if, modify, ◌>>=◌, ◌>>◌,
}
use yukbor_backend.Httpx.{Code, Failure, failure, Handler}
use yukbor_backend.Httpx.Guards.{Claims}
use yukbor_backend.Models.Enums.{Time, OrderStatus, Leg, leg_Eq, NotificationType}
use yukbor_backend.Models.Order.{Order, CargoDetails}
use yukbor_backend.Models.Money.{Transaction}
use yukbor_backend.Models.Events.{EmitEventRequest, NotifySpec, Payload, EventName}
use yukbor_backend.Models.Licensing.{required_license_category}
use yukbor_backend.Models.Admin.{UserDetail, has_category}
use yukbor_backend.Svc.{WalletClient, CallError, code_of, EscrowRequest}
use yukbor_backend.Orders.Legs.{can_transition, is_ready_for_client_confirmation}
use yukbor_backend.Orders.Record.{OrderRecord, LegRecord, leg_of, flatten}
use yukbor_backend.Orders.Store
use yukbor_backend.Orders.Store.{OrdersDb, StoreError, by_id}
use yukbor_backend.Orders.Audience.{
  payees, participants, counterparties, dedupe, title, status_text,
}

-- The statements that can fail in the database; one that fails changes nothing.
pub data Point : Type 0 where
  load_order claim explain_claim give_back : Point
  update_leg cancel_legs complete_legs second_statement reload_order : Point

-- What a request meets: the clock, the failures, and what the auth service answers about a user
-- (`none` where the call fails).
pub record Env : Type 0 where
  pub now : Time
  pub fails : Point → Bool
  pub user_detail : String → Option UserDetail

-- The state that a request changes: the schema, the wallet's state, and the events that were
-- fired, the last first.
pub record State (W : Type 0) : Type 0 where
  pub db : OrdersDb
  pub wallet : W
  pub sent : List EmitEventRequest

abbrev pub is_admin : Claims → Bool
is_admin claims = claims.role == "admin"

unfoldable pub cancellable : OrderStatus → Bool
cancellable OrderStatus.draft = true
cancellable OrderStatus.published = true
cancellable OrderStatus.matched = true
cancellable OrderStatus.accepted = true
cancellable OrderStatus.cancelled = true
cancellable _ = false

pub record AcceptRequest : Type 0 where
  pub leg : Leg
  pub executor_id : String
  pub executor_name : String

pub record StatusRequest : Type 0 where
  pub leg : Leg
  pub status : OrderStatus

-- Whether the executor's licence fits the cargo; a user whom auth does not tell of is let through.
category_held : String → Option UserDetail → Bool
category_held required none = true
category_held required (some user) = has_category user required

cargo_allowed : Env → String → Option CargoDetails → Bool
unfolding category_held
cargo_allowed env executor none = true
cargo_allowed env executor (some cargo) =
    let required = required_license_category cargo.required_vehicle_type in
    if required == "" || required == "C"
    then true
    else category_held required (env.user_detail executor)

-- `licenceGate`: true is "proceed".
unfoldable pub licence_gate : Env → OrderRecord → Leg → String → Bool
unfolding cargo_allowed
licence_gate env rec leg executor =
    if not (leg == Leg.transport) then true else cargo_allowed env executor rec.cargo

escrow_request : OrderRecord → LegRecord → String → EscrowRequest
escrow_request rec leg executor = record {
  order_id = rec.id;
  order_title = title rec;
  payer_id = rec.client_id;
  payee_id = executor;
  amount = format_int leg.price;
  payment_method = rec.payment_method;
}

unfoldable pub claim_failure : StoreError → Failure
claim_failure StoreError.leg_already_taken = failure 409 Code.leg_already_taken
claim_failure StoreError.not_published = failure 409 Code.order_not_published
claim_failure StoreError.leg_not_found = failure 404 Code.leg_not_found
claim_failure StoreError.database = failure 500 Code.internal

escrow_failed : Option Code → Failure
escrow_failed (some Code.payment_declined) = failure 402 Code.payment_declined
escrow_failed _ = failure 500 Code.internal

abbrev pub spec : NotificationType → String → String → String → Option NotifySpec
spec kind heading text order = some (record {
  notification_type = kind;
  title = heading;
  body = text;
  related_order_id = some order;
})

refund_note : List Transaction → String
refund_note [] = ""
refund_note (tx ∷ txs) = ", средства возвращены"

-- The leg's executor, or an admin.
unfoldable pub may_drive : Claims → Option String → Bool
may_drive claims none = false
may_drive claims (some executor) = executor == claims.sub || is_admin claims

module _ {W : Type 0} where
  -- `load`
  unfoldable pub load : Env → String → Handler (State W) OrderRecord
  load env id = do
    raise_if (env.fails Point.load_order) (failure 500 Code.internal)
    found ← gets (λ s. by_id id s.db)
    or_raise found (failure 404 Code.order_not_found)

  -- The order as it is after the request's writes.
  unfoldable pub reload : Env → String → Handler (State W) OrderRecord
  reload env id = do
    raise_if (env.fails Point.reload_order) (failure 500 Code.internal)
    found ← gets (λ s. by_id id s.db)
    or_raise found (failure 500 Code.internal)

  -- `emitTo`
  unfoldable pub emit_to :
      List String
      → List String
      → EventName
      → Payload
      → Option NotifySpec
      → Handler (State W) (Unit {0})
  emit_to users notified event load notify = modify λ s. record s {
    sent =
        record {
          user_ids = dedupe users;
          event = some event;
          payload = some load;
          notify = notify;
          notify_user_ids = dedupe notified;
        }
        ∷ s.sent;
  }

  -- A write of the store that returns an error or nothing.
  unfoldable pub on_db :
      (OrdersDb → Result StoreError (Unit {0}) × OrdersDb)
      → (StoreError → Failure)
      → Handler (State W) (Unit {0})
  on_db write to_failure s =
      let (r, db') = write s.db in
      (elim r [ ok _ ↦ ok tt | err e ↦ err (to_failure e) ], record s { db = db' })

  -- The claim is given back; an error of that is only logged.
  unfoldable pub roll_back : Env → String → Leg → State W → State W
  roll_back env order leg s =
      if env.fails Point.give_back
      then s
      else record s { db = Store.release_leg_claim env.now order leg s.db }

  -- After the wallet's answer: go on, or give the claim back.
  unfoldable pub settle_claim :
      Env → String → Leg → Result CallError Transaction → Handler (State W) Transaction
  unfolding escrow_failed
  settle_claim env order leg (ok tx) s = (ok tx, s)
  settle_claim env order leg (err e) s =
      (err (escrow_failed (code_of e)), roll_back env order leg s)

module _ {W : Type 0} (wallet : WalletClient W) where
  unfoldable pub open_escrow :
      Env → OrderRecord → LegRecord → Leg → String → Handler (State W) Transaction
  unfolding escrow_request
  open_escrow env rec leg name executor s =
      let (r, w) = wallet.open_escrow (escrow_request rec leg executor) s.wallet in
      settle_claim env rec.id name r (record s { wallet = w })

  -- POST /orders/{id}/accept
  unfoldable pub accept : Env → Claims → String → Option AcceptRequest → Handler (State W) Order
  accept env claims id body = do
    req ← or_raise body (failure 400 Code.bad_request)
    let executor = if req.executor_id == "" then claims.sub else req.executor_id
    raise_if (not (executor == claims.sub) && not (is_admin claims)) (failure 403 Code.forbidden)
    rec ← load env id
    leg ← or_raise (leg_of req.leg rec.legs) (failure 404 Code.leg_not_found)
    raise_if (not (licence_gate env rec req.leg executor))
        (failure 403 Code.license_category_mismatch)
    raise_if (env.fails Point.claim) (failure 500 Code.internal)
    on_db
        (Store.claim_leg env.now (env.fails Point.explain_claim) rec.id req.leg executor
          req.executor_name)
        claim_failure
    tx ← open_escrow env rec leg req.leg executor
    updated ← reload env rec.id
    emit_to (rec.client_id ∷ executor ∷ []) (rec.client_id ∷ []) EventName.order_updated
        (Payload.order (flatten updated))
        (spec NotificationType.new_order_match "Исполнитель найден"
          (String.◌++◌ req.executor_name " принял ваш заказ") rec.id)
    emit_to (rec.client_id ∷ executor ∷ []) [] EventName.transaction_updated
        (Payload.transaction tx) none
    pure (flatten updated)

  -- PATCH /orders/{id}/status
  unfoldable pub update_status :
      Env → Claims → String → Option StatusRequest → Handler (State W) Order
  unfolding may_drive
  update_status env claims id body = do
    req ← or_raise body (failure 400 Code.bad_request)
    rec ← load env id
    leg ← or_raise (leg_of req.leg rec.legs) (failure 404 Code.leg_not_found)
    raise_if (not (may_drive claims leg.executor_id)) (failure 403 Code.forbidden)
    raise_if (not (can_transition leg.status req.status))
        (failure 409 Code.invalid_status_transition)
    raise_if (env.fails Point.update_leg) (failure 500 Code.internal)
    on_db
        (Store.update_leg_status env.now (env.fails Point.second_statement) rec.id req.leg
          req.status)
        (λ _. failure 500 Code.internal)
    updated ← reload env rec.id
    emit_to (rec.client_id ∷ claims.sub ∷ []) (rec.client_id ∷ []) EventName.order_updated
        (Payload.order (flatten updated))
        (spec NotificationType.order_status_changed "Статус заказа обновлён"
          (status_text req.leg req.status) rec.id)
    pure (flatten updated)

  -- The refund of a cancelled order; an error is only logged.
  unfoldable pub refund : String → Handler (State W) (List Transaction)
  refund order s =
      let (r, w) = wallet.refund order s.wallet in
      (ok (elim r [ ok txs ↦ txs | err _ ↦ [] ]), record s { wallet = w })

  -- POST /orders/{id}/cancel
  unfoldable pub cancel : Env → Claims → String → Handler (State W) Order
  unfolding refund refund_note
  cancel env claims id = do
    rec ← load env id
    raise_if (not (rec.client_id == claims.sub) && not (is_admin claims))
        (failure 403 Code.forbidden)
    raise_if (not (all (λ (l : LegRecord). cancellable l.status) rec.legs))
        (failure 409 Code.order_not_cancellable)
    raise_if (env.fails Point.cancel_legs) (failure 500 Code.internal)
    on_db (Store.cancel env.now (env.fails Point.second_statement) rec.id)
        (λ _. failure 500 Code.internal)
    refunded ← refund rec.id
    updated ← reload env rec.id
    emit_to (participants rec) (counterparties rec claims.sub) EventName.order_updated
        (Payload.order (flatten updated))
        (spec NotificationType.order_status_changed "Заказ отменён"
          (String.◌++◌ "Клиент отменил заказ" (refund_note refunded)) rec.id)
    pure (flatten updated)

  -- What follows the release for one payee: an event, or nothing but a log line.
  unfoldable pub released : String → String → Result CallError Transaction → State W → State W
  released order payee (err e) s = s
  released order payee (ok tx) s =
      (emit_to (payee ∷ []) [] EventName.transaction_updated (Payload.transaction tx)
        (spec NotificationType.payment_released "Оплата получена"
          "Средства по заказу переведены на ваш счёт" order)
        s).1

  -- The loop that releases the escrow once for each payee.
  unfoldable pub release_all : String → List String → State W → State W
  unfolding released emit_to
  release_all order [] s = s
  release_all order (payee ∷ rest) s =
      let (r, w) = wallet.release order payee s.wallet in
      release_all order rest (released order payee r (record s { wallet = w }))

  -- POST /orders/{id}/confirm-completion
  unfoldable pub confirm : Env → Claims → String → Handler (State W) Order
  confirm env claims id = do
    rec ← load env id
    raise_if (not (rec.client_id == claims.sub) && not (is_admin claims))
        (failure 403 Code.forbidden)
    raise_if (not (is_ready_for_client_confirmation (map (λ (l : LegRecord). l.status) rec.legs)))
        (failure 409 Code.order_not_ready)
    raise_if (env.fails Point.complete_legs) (failure 500 Code.internal)
    on_db (Store.complete_all_legs env.now (env.fails Point.second_statement) rec.id)
        (λ _. failure 500 Code.internal)
    modify (release_all rec.id (payees rec))
    updated ← reload env rec.id
    emit_to (participants rec) [] EventName.order_updated (Payload.order (flatten updated)) none
    pure (flatten updated)
