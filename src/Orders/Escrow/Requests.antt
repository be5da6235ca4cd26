-- ===== src/Orders/Escrow/Requests.antt =====
-- Every request to the orders service keeps each assigned leg backed by an escrow.
use yukbor_backend.Common.{String, Option, Bool, false, List, [], ◌∷◌, string_Eq, ◌≡◌, refl, All}
use yukbor_backend.Common.Table.{update_where}
use yukbor_backend.Common.Exec.{
  Exec, Result, ok, err, EndsIn, EndsIn-pure, EndsIn-bind, EndsIn-reader, EndsIn-or_raise,
  EndsIn-raise_if, ◌>>=◌,
}
use yukbor_backend.Httpx
use yukbor_backend.Httpx.{Failure}
use yukbor_backend.Httpx.Guards.{Claims}
use yukbor_backend.Models.Enums.{Time, OrderStatus, order_status_Eq, Leg, leg_Eq}
use yukbor_backend.Models.Money.{Transaction}
use yukbor_backend.Svc.{WalletClient, CallError}
use yukbor_backend.Orders.Record.{OrderRecord, LegRecord}
use yukbor_backend.Orders.Store.{LegRow, OrdersDb, StoreError, moved}
use yukbor_backend.Orders.Store.Claims.{claim_leg-fails}
use yukbor_backend.Orders.Handler
use yukbor_backend.Orders.Handler.{Env, State, Point, AcceptRequest, StatusRequest}
use yukbor_backend.Orders.Escrow.{
  EscrowLaws, AllBacked-mono, All-update, update-LegsAreUnique, IsBacked,
}
use yukbor_backend.Orders.Escrow.Steps.{
  IsClaimed, IsSound, cancel-rows, claim-IsClaimed, complete_all_legs-rows, emit-IsSound,
  load_state, open_escrow-IsSound, reload_state, unclaimed-IsSound, update_leg_status-rows,
}

module _ {W : Type 0} (wallet : WalletClient W) (laws : EscrowLaws wallet) where
  open laws use {Has}

  -- What `accept` does after the claim.
  accepted :
      {A : Type 0} (env : Env) (rec : OrderRecord) (row : LegRecord) (leg : Leg) (executor : String)
      (rest : Transaction → OrderRecord → Exec (State W) Failure A) (s : State W)
      → env.fails Point.give_back ≡ false
      → IsClaimed wallet laws rec.id leg executor s
      → ((tx : Transaction) (o : OrderRecord) (t : State W)
          → IsSound wallet laws t
          → EndsIn (IsSound wallet laws) (rest tx o) t)
      → EndsIn
          (IsSound wallet laws)
          (Handler.open_escrow wallet env rec row leg executor >>= λ tx.
            Handler.reload env rec.id >>= λ updated. rest tx updated)
          s
  accepted env rec row leg executor rest s up c go =
      let sound =
        open_escrow-IsSound wallet laws env rec row leg executor s up c.unique c.pending in
      EndsIn-bind _ _ s (λ _ _. sound)
        λ tx _.
          EndsIn-reader _ _ _ (reload_state wallet laws env rec.id _) sound
            λ updated _. go tx updated _ sound

  accept-IsSound_at :
      (env : Env) (claims : Claims) (id : String) (body : Option AcceptRequest) (s : State W)
      → env.fails Point.give_back ≡ false
      → IsSound wallet laws s
      → EndsIn (IsSound wallet laws) (Handler.accept wallet env claims id body) s
  unfolding Handler.accept
  accept-IsSound_at env claims id body s up h = EndsIn-or_raise _ _ _ s h λ req _.
      EndsIn-raise_if _ _ _ s h λ _.
        EndsIn-reader _ _ s (load_state wallet laws env id s) h λ rec _.
          EndsIn-or_raise _ _ _ s h λ leg _. EndsIn-raise_if _ _ _ s h λ _.
            EndsIn-raise_if _ _ _ s h λ _.
              EndsIn-bind _ _ s
                (λ e fails.
                  unclaimed-IsSound wallet laws _ _ s e h
                    (λ x k. claim_leg-fails _ _ _ _ _ _ s.db x h.unique k) fails)
                λ _ _.
                  accepted env rec leg req.leg _ _ _ up
                    (claim-IsClaimed wallet laws env.now _ rec.id req.leg _ _ _ s h)
                    λ tx updated t k. emit-IsSound wallet laws _ _ _ _ _ _ t k λ t' k'.
                      emit-IsSound wallet laws _ _ _ _ _ _ t' k' λ t'' k''. EndsIn-pure _ t'' k''

  moved-IsSound :
      (write : OrdersDb → Result StoreError (Unit {0}) × OrdersDb)
      (to_failure : StoreError → Failure) (s : State W) (p : LegRow → Bool) (now : Time)
      (status : OrderStatus)
      → (write s.db).1.legs
        ≡ update_where p (λ r. record r { entry = moved now status r.entry }) s.db.legs
      → IsSound wallet laws s
      → IsSound wallet laws (Handler.on_db write to_failure s).1
  unfolding Handler.on_db
  moved-IsSound write to_failure s p now status rows h = record {
    unique = rw rows (update-LegsAreUnique p (moved now status) s.db.legs (λ l. refl) h.unique);
    backed = rw rows (
        All-update (IsBacked (λ o x. Has o x s.wallet)) (IsBacked (λ o x. Has o x s.wallet)) p _
          s.db.legs (λ r e b. b) (λ r e b. b) h.backed);
  }

  update_status-IsSound_at :
      (env : Env) (claims : Claims) (id : String) (body : Option StatusRequest) (s : State W)
      → IsSound wallet laws s
      → EndsIn (IsSound wallet laws) (Handler.update_status wallet env claims id body) s
  unfolding Handler.update_status
  update_status-IsSound_at env claims id body s h = EndsIn-or_raise _ _ _ s h λ req _.
      EndsIn-reader _ _ s (load_state wallet laws env id s) h λ rec _.
        EndsIn-or_raise _ _ _ s h λ leg _. EndsIn-raise_if _ _ _ s h λ _.
          EndsIn-raise_if _ _ _ s h λ _. EndsIn-raise_if _ _ _ s h λ _.
            let sound =
              moved-IsSound _ (λ _. Httpx.failure 500 Httpx.Code.internal) s _ env.now req.status
                (update_leg_status-rows env.now (env.fails Point.second_statement) rec.id req.leg
                  req.status s.db)
                h in
            EndsIn-bind _ _ s (λ _ _. sound)
              λ _ _.
                EndsIn-reader _ _ _ (reload_state wallet laws env _ _) sound
                  λ updated _. emit-IsSound wallet laws _ _ _ _ _ _ _ sound λ t k. EndsIn-pure _ t k

  refund-IsSound :
      (order : String) (s : State W)
      → IsSound wallet laws s
      → IsSound wallet laws (Handler.refund wallet order s).1
  unfolding Handler.refund
  refund-IsSound order s h = record {
    unique = h.unique;
    backed =
        AllBacked-mono (λ o x. Has o x s.wallet) (λ o x. Has o x (wallet.refund order s.wallet).1)
          s.db.legs (laws.refund_keeps order s.wallet) h.backed;
  }

  cancel-IsSound_at :
      (env : Env) (claims : Claims) (id : String) (s : State W)
      → IsSound wallet laws s
      → EndsIn (IsSound wallet laws) (Handler.cancel wallet env claims id) s
  unfolding Handler.cancel
  cancel-IsSound_at env claims id s h =
      EndsIn-reader _ _ s (load_state wallet laws env id s) h λ rec _.
        EndsIn-raise_if _ _ _ s h λ _. EndsIn-raise_if _ _ _ s h λ _. EndsIn-raise_if _ _ _ s h λ _.
          let sound =
            moved-IsSound _ (λ _. Httpx.failure 500 Httpx.Code.internal) s _ env.now
              OrderStatus.cancelled
              (cancel-rows env.now (env.fails Point.second_statement) rec.id s.db) h in
          EndsIn-bind _ _ s (λ _ _. sound)
            λ _ _.
              let paid_back = refund-IsSound rec.id _ sound in
              EndsIn-bind _ _ _ (λ _ _. paid_back)
                λ _ _. EndsIn-reader _ _ _ (reload_state wallet laws env _ _) paid_back λ updated _.
                  emit-IsSound wallet laws _ _ _ _ _ _ _ paid_back λ t k. EndsIn-pure _ t k

  released-IsSound :
      (order payee : String) (r : Result CallError Transaction) (s : State W)
      → IsSound wallet laws s
      → IsSound wallet laws (Handler.released wallet order payee r s)
  unfolding Handler.released Handler.emit_to
  released-IsSound order payee (err e) s h = h
  released-IsSound order payee (ok tx) s h = record { unique = h.unique; backed = h.backed }

  release_all-IsSound :
      (order : String) (payees : List String) (s : State W)
      → IsSound wallet laws s
      → IsSound wallet laws (Handler.release_all wallet order payees s)
  unfolding Handler.release_all
  release_all-IsSound order [] s h = h
  release_all-IsSound order (payee ∷ rest) s h =
      let (r, w) = wallet.release order payee s.wallet in
      release_all-IsSound order rest
        (Handler.released wallet order payee r (record s { wallet = w }))
        (released-IsSound order payee r (record s { wallet = w })
          (record {
            unique = h.unique;
            backed =
                AllBacked-mono (λ o x. Has o x s.wallet) (λ o x. Has o x w) s.db.legs
                  (laws.release_keeps order payee s.wallet) h.backed;
          }))

  confirm-IsSound_at :
      (env : Env) (claims : Claims) (id : String) (s : State W)
      → IsSound wallet laws s
      → EndsIn (IsSound wallet laws) (Handler.confirm wallet env claims id) s
  unfolding Handler.confirm
  confirm-IsSound_at env claims id s h =
      EndsIn-reader _ _ s (load_state wallet laws env id s) h λ rec _.
        EndsIn-raise_if _ _ _ s h λ _. EndsIn-raise_if _ _ _ s h λ _. EndsIn-raise_if _ _ _ s h λ _.
          let sound =
            moved-IsSound _ (λ _. Httpx.failure 500 Httpx.Code.internal) s _ env.now
              OrderStatus.completed
              (complete_all_legs-rows env.now (env.fails Point.second_statement) rec.id s.db) h in
          EndsIn-bind _ _ s (λ _ _. sound)
            λ _ _.
              let paid = release_all-IsSound rec.id _ _ sound in
              EndsIn-bind _ _ _ (λ _ _. paid)
                λ _ _.
                  EndsIn-reader _ _ _ (reload_state wallet laws env _ _) paid λ updated _.
                    emit-IsSound wallet laws _ _ _ _ _ _ _ paid λ t k. EndsIn-pure _ t k

-- A request to the orders service that changes an order, with what it meets.
pub data Request : Type 0 where
  accept : Env → Claims → String → Option AcceptRequest → Request
  update_status : Env → Claims → String → Option StatusRequest → Request
  cancel : Env → Claims → String → Request
  confirm : Env → Claims → String → Request

-- A request in which the UPDATE that gives a claim back does not fail.
abbrev pub GivesBack : Request → Type 0
GivesBack (Request.accept env claims id body) = env.fails Point.give_back ≡ false
GivesBack (Request.update_status env claims id body) = Unit
GivesBack (Request.cancel env claims id) = Unit
GivesBack (Request.confirm env claims id) = Unit

module _ {W : Type 0} (wallet : WalletClient W) where
  unfoldable pub serve : Request → State W → State W
  serve (Request.accept env claims id body) s = (Handler.accept wallet env claims id body s).1
  serve (Request.update_status env claims id body) s =
      (Handler.update_status wallet env claims id body s).1
  serve (Request.cancel env claims id) s = (Handler.cancel wallet env claims id s).1
  serve (Request.confirm env claims id) s = (Handler.confirm wallet env claims id s).1

  unfoldable pub serve_all : List Request → State W → State W
  unfolding serve
  serve_all [] s = s
  serve_all (req ∷ reqs) s = serve_all reqs (serve req s)

module _ {W : Type 0} (wallet : WalletClient W) (laws : EscrowLaws wallet) where
  serve-IsSound :
      (req : Request) (s : State W)
      → GivesBack req
      → IsSound wallet laws s
      → IsSound wallet laws (serve wallet req s)
  unfolding serve
  serve-IsSound (Request.accept env claims id body) s up h =
      (accept-IsSound_at wallet laws env claims id body s up h).at
  serve-IsSound (Request.update_status env claims id body) s up h =
      (update_status-IsSound_at wallet laws env claims id body s h).at
  serve-IsSound (Request.cancel env claims id) s up h =
      (cancel-IsSound_at wallet laws env claims id s h).at
  serve-IsSound (Request.confirm env claims id) s up h =
      (confirm-IsSound_at wallet laws env claims id s h).at

  -- A leg never sits assigned with no money behind it: after any requests to accept, move, cancel
  -- and confirm, whatever they answer and whatever else fails on the way, every leg that has an
  -- executor has an escrow for its order and that executor, if it was so before. The UPDATE that
  -- gives a claim back does not fail, and the wallet loses no escrow that it has opened.
  pub serve_all-IsSound :
      (reqs : List Request) (s : State W)
      → All GivesBack reqs
      → IsSound wallet laws s
      → IsSound wallet laws (serve_all wallet reqs s)
  unfolding serve_all
  serve_all-IsSound [] s up h = h
  serve_all-IsSound (req ∷ reqs) s up h =
      serve_all-IsSound reqs (serve wallet req s) up.1 (serve-IsSound req s up.0 h)
