-- ===== src/System/Laws.antt =====
-- The wallet behind the network keeps what the orders service relies on.
pub mod Overlap
use yukbor_backend.Common.{
  ℕ, String, Option, none, some, Bool, List, [], ◌∷◌, ◌≡◌, refl, arith, Option-cases, inl, inr,
  string_Eq, All,
}
use yukbor_backend.Common.Exec.{Result, ok, err, Gives, Gives-bind, Gives-some, Gives-gets}
use yukbor_backend.Httpx.{Failure, Code, failure}
use yukbor_backend.Wallet.Store
use yukbor_backend.Wallet.Store.{TxRecord, TxRow, WalletDb, existing, new_row}
use yukbor_backend.Models.Enums.{Time}
use yukbor_backend.Common.Int.{ℤ}
use yukbor_backend.Wallet.Handler
use yukbor_backend.Wallet.Handler.{Env, Point, CreateRequest, ReleaseRequest}
use yukbor_backend.Wallet.Ledger.Pairs.{row_of, row_of-append}
use yukbor_backend.Wallet.Requests
use yukbor_backend.Wallet.Requests.{escrow_survives}
use yukbor_backend.Svc.{CallError}
use yukbor_backend.Orders.Escrow.{EscrowLaws, AllBacked}
use yukbor_backend.Orders.Escrow.Requests as O
use yukbor_backend.Orders.Escrow.Steps.{IsSound}
use yukbor_backend.Orders.Escrow.Requests.{GivesBack, serve_all, serve_all-IsSound}
use yukbor_backend.Orders.Handler.{State}
use yukbor_backend.Orders.Store.Claims.{LegsAreUnique}
use yukbor_backend.System.{
  Delivery, Remote, remotely, answer, call, body_of, wallet_client, map_ok, decoded_tx,
}

-- The ledger has a transaction for the order and the payee.
abbrev pub HasEscrow : String → String → WalletDb → Type 0
HasEscrow order payee db = (r : TxRow) × (row_of order payee db.transactions ≡ some r)

store_create-row :
    (id : String) (now : Time) (n : Store.NewTx) (rows : List TxRow) (x : TxRecord × Bool)
    → (Store.create id now n rows).0 ≡ ok x
    → (r : TxRow) × (row_of n.order_id n.payee_id (Store.create id now n rows).1 ≡ some r)
unfolding Store.create existing new_row
store_create-row id now n rows x h = elim (Option-cases (row_of n.order_id n.payee_id rows)) [
  | inl gone ↦ (
    new_row id now n,
    ground (arith, row_of-append n.order_id n.payee_id rows (new_row id now n)),
  )
  | inr (r, found) ↦ (r, ground arith)
]

-- What the handler answers after the INSERT.
stored-HasEscrow :
    (order payee : String) (r : Result Store.StoreError (TxRecord × Bool)) (db : WalletDb)
    → ((x : TxRecord × Bool) → r ≡ ok x → HasEscrow order payee db)
    → (a : ℕ × TxRecord) → (Handler.stored r db).0 ≡ ok a
    → HasEscrow order payee (Handler.stored r db).1
unfolding Handler.stored
stored-HasEscrow order payee (ok (tx, new)) db h a e = h (tx, new) refl
stored-HasEscrow order payee (err x) db h a e = cc

module _ (env : Env) (b : CreateRequest) where
  insert_tx-HasEscrow :
      (n : Store.NewTx) (db : WalletDb)
      → Gives (HasEscrow n.order_id n.payee_id) (Handler.insert_tx env n) db
  unfolding Handler.insert_tx
  insert_tx-HasEscrow n db = record {
    at =
        stored-HasEscrow n.order_id n.payee_id _ _
          λ x h. store_create-row env.fresh_id env.now n db.transactions x h;
  }

  open_new-HasEscrow :
      (amount : ℤ) (db : WalletDb)
      → Gives (HasEscrow b.order_id b.payee_id) (Handler.open_new env b amount) db
  unfolding Handler.open_new Handler.new_tx
  open_new-HasEscrow amount db = Gives-bind _ _ db λ ref _.
      Gives-bind _ _ _
        λ _ _. Gives-bind _ _ _ λ pct _. Gives-bind _ _ _ λ _ _. insert_tx-HasEscrow _ _

  answer-HasEscrow :
      (amount : ℤ) (found : Option TxRecord) (db : WalletDb)
      → existing b.order_id b.payee_id db.transactions ≡ found
      → Gives (HasEscrow b.order_id b.payee_id) (Handler.answer_existing env b amount found) db
  unfolding Handler.answer_existing existing
  answer-HasEscrow amount none db h = open_new-HasEscrow amount db
  answer-HasEscrow amount (some tx) db h = record {
    at = λ a e. elim (Option-cases (row_of b.order_id b.payee_id db.transactions)) [
      | inl gone ↦ absurd (ground arith)
      | inr found ↦ found
    ];
  }

  create-HasEscrow :
      (db : WalletDb) → Gives (HasEscrow b.order_id b.payee_id) (Handler.create env (some b)) db
  unfolding Handler.create
  create-HasEscrow db = Gives-some b (failure 400 Code.bad_request) _ db (
      Gives-bind _ _ _ λ amount _.
        Gives-bind _ _ _
          λ _ _. Gives-bind _ _ _ λ _ _. Gives-gets _ _ _ (answer-HasEscrow amount _ _ refl))

answer_ok :
    {A : Type 0} (r : Result Failure (ℕ × A)) (a : A) → answer r ≡ ok a → (x : ℕ × A) × (r ≡ ok x)
unfolding answer
answer_ok (ok (status, a)) a' h = ((status, a), refl)
answer_ok (err f) a' h = absurd cc

-- What a lost reply hides, and what a request does not reach, is no positive answer.
call-HasEscrow :
    {A : Type 0} (order payee : String) (way : Delivery)
    (handle : WalletDb → Result Failure (ℕ × A) × WalletDb) (db : WalletDb)
    → Gives (HasEscrow order payee) handle db
    → Gives (HasEscrow order payee) (call way handle) db
unfolding call answer
call-HasEscrow order payee Delivery.delivered handle db h = record {
  at = λ a e. let (x, h') = answer_ok (handle db).0 a e in h.at x h';
}
call-HasEscrow order payee Delivery.request_lost handle db h = record { at = λ a e. cc }
call-HasEscrow order payee Delivery.reply_lost handle db h = record { at = λ a e. cc }

-- However a call ends, an escrow that the ledger has stays there.
call-keeps :
    {A : Type 0} (order payee : String) (way : Delivery)
    (handle : WalletDb → Result Failure (ℕ × A) × WalletDb) (db : WalletDb)
    → HasEscrow order payee (handle db).1
    → HasEscrow order payee db
    → HasEscrow order payee (call way handle db).1
unfolding call
call-keeps order payee Delivery.delivered handle db after before = after
call-keeps order payee Delivery.request_lost handle db after before = before
call-keeps order payee Delivery.reply_lost handle db after before = after

serve-keeps :
    (req : Requests.Request) (db : WalletDb) (order payee : String)
    → HasEscrow order payee db
    → HasEscrow order payee (Requests.serve req db)
unfolding Requests.serve_all
serve-keeps req db order payee (r, found) =
    let (r', still, deal) = escrow_survives (req ∷ []) db order payee r found in (r', still)

module _ {A : Type 0} (conditions : ℕ → Env × Delivery)
    (handle : Env → WalletDb → Result Failure (ℕ × A) × WalletDb) (order payee : String)
    (w : Remote) where
  remotely-opens :
      ((env : Env) → Gives (HasEscrow order payee) (handle env) w.db)
      → (a : A) → (remotely conditions handle w).0 ≡ ok a
      → HasEscrow order payee (remotely conditions handle w).1.db
  unfolding remotely
  remotely-opens h =
      let (env, way) = conditions w.calls in
      (call-HasEscrow order payee way (handle env) w.db (h env)).at

  remotely-keeps :
      ((env : Env) → HasEscrow order payee (handle env w.db).1)
      → HasEscrow order payee w.db
      → HasEscrow order payee (remotely conditions handle w).1.db
  unfolding remotely
  remotely-keeps after =
      let (env, way) = conditions w.calls in
      call-keeps order payee way (handle env) w.db (after env)

map_ok_ok :
    {A B : Type 0} (f : A → B) (r : Result CallError A) (b : B)
    → map_ok f r ≡ ok b
    → (a : A) × (r ≡ ok a)
map_ok_ok f (ok a) b h = (a, refl)
map_ok_ok f (err e) b h = absurd cc

-- The wallet's handlers, called over the network, lose no escrow that they have opened, whichever
-- calls and replies are lost.
pub wallet_laws : (conditions : ℕ → Env × Delivery) → EscrowLaws (wallet_client conditions)
unfolding Requests.serve body_of
wallet_laws conditions = record {
  Has = λ o p w. HasEscrow o p w.db;
  opens = λ req w e.
      remotely-opens conditions _ req.order_id req.payee_id w
        (λ env. create-HasEscrow env (body_of req) w.db) _ (map_ok_ok decoded_tx _ _ e).1;
  open_keeps = λ req w o p h.
      remotely-keeps conditions _ o p w
        (λ env. serve-keeps (Requests.Request.create env (some (body_of req))) w.db o p h) h;
  release_keeps = λ a b w o p h.
      remotely-keeps conditions _ o p w
        (λ env.
          serve-keeps (Requests.Request.release env (some (record { order_id = a; payee_id = b })))
            w.db o p h)
        h;
  refund_keeps = λ a w o p h.
      remotely-keeps conditions _ o p w
        (λ env. serve-keeps (Requests.Request.refund env (some a)) w.db o p h) h;
}

pub funded-IsSound :
    (conditions : ℕ → Env × Delivery) (s : State Remote)
    → LegsAreUnique s.db.legs
    → AllBacked (λ o p. HasEscrow o p s.wallet.db) s.db.legs
    → IsSound (wallet_client conditions) (wallet_laws conditions) s
unfolding wallet_laws
funded-IsSound conditions s u h = record { unique = u; backed = h }

-- The two services together: after any requests to accept, move, cancel and confirm, whatever they
-- answer, whichever calls to the wallet or their replies are lost and whatever fails in either
-- database, every leg that has an executor has a transaction in the wallet's ledger for its order
-- and that executor, if it was so before. The legs' keys are unique, and the UPDATE that gives a claim back does not
-- fail.
pub legs_are_funded :
    (conditions : ℕ → Env × Delivery) (reqs : List O.Request) (s : State Remote)
    → All O.GivesBack reqs
    → LegsAreUnique s.db.legs
    → AllBacked (λ o p. HasEscrow o p s.wallet.db) s.db.legs
    → let s' = O.serve_all (wallet_client conditions) reqs s in
      AllBacked (λ o p. HasEscrow o p s'.wallet.db) s'.db.legs
unfolding wallet_laws
legs_are_funded conditions reqs s up u h =
    (serve_all-IsSound (wallet_client conditions) (wallet_laws conditions) reqs s up
      (funded-IsSound conditions s u h)).backed
