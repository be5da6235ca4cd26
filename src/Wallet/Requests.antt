-- ===== src/Wallet/Requests.antt =====
-- Any sequence of requests to the wallet: what it can never do to a transaction.
use yukbor_backend.Common.{
  String, Option, none, some, Bool, List, [], ◌∷◌, string_Eq, ◌≡◌, refl, ◌≢◌, ap, ◌∙◌,
}
use yukbor_backend.Common.Int.{ℤ}
use yukbor_backend.Common.Exec.{
  Result, ok, err, EndsIn, EndsIn-pure, EndsIn-reader, EndsIn-or_raise, EndsIn-raise_if,
  EndsIn-gets,
}
use yukbor_backend.Models.Enums.{Time, TransactionStatus, transaction_status_Eq}
use yukbor_backend.Wallet.Store
use yukbor_backend.Wallet.Store.{
  TxRecord, TxRow, WalletDb, released_row, scan_tx, existing, new_row,
}
use yukbor_backend.Wallet.Handler
use yukbor_backend.Wallet.Handler.{
  Env, Point, CreateRequest, ReleaseRequest, valid_amount, valid_method,
}
use yukbor_backend.Wallet.Ledger.Pairs.{PairsAreUnique, row_of, Settles, same, paid, returned}
use yukbor_backend.Wallet.Ledger.Lifecycle.{
  create-PairsAreUnique, release-PairsAreUnique, refund_order-PairsAreUnique, Keeps, create-Keeps,
  release-Keeps, refund_order-Keeps,
}

-- A request that writes, with what it meets.
pub data Request : Type 0 where
  create : Env → Option CreateRequest → Request
  release : Env → Option ReleaseRequest → Request
  refund : Env → Option String → Request

unfoldable pub serve : Request → WalletDb → WalletDb
serve (Request.create env body) db = (Handler.create env body db).1
serve (Request.release env body) db = (Handler.release env body db).1
serve (Request.refund env body) db = (Handler.refund env body db).1

unfoldable pub serve_all : List Request → WalletDb → WalletDb
unfolding serve
serve_all [] db = db
serve_all (req ∷ reqs) db = serve_all reqs (serve req db)

-- What a request did to the table: nothing, or one statement of the store.
data Wrote (rows : List TxRow) (rows' : List TxRow) : Type 0 where
  nothing : rows' ≡ rows → Wrote rows rows'
  inserted :
      (id : String) (now : Time) (n : Store.NewTx)
      → rows' ≡ (Store.create id now n rows).1
      → Wrote rows rows'
  released : (now : Time) (o p : String) → rows' ≡ (Store.release now o p rows).1 → Wrote rows rows'
  refunded :
      (now : Time) (o : String) → rows' ≡ (Store.refund_order now o rows).1 → Wrote rows rows'

-- `charged`, `stored` and `released` write nothing.
charged_state :
    (r : Result Handler.ChargeError String) (db : WalletDb) → (Handler.charged r db).1 ≡ db
unfolding Handler.charged
charged_state (ok ref) db = refl
charged_state (err Handler.ChargeError.payment_declined) db = refl
charged_state (err Handler.ChargeError.caller_gone) db = refl

stored_state :
    (r : Result Store.StoreError (TxRecord × Bool)) (db : WalletDb) → (Handler.stored r db).1 ≡ db
unfolding Handler.stored
stored_state (ok (tx, created)) db = refl
stored_state (err e) db = refl

pub released_state :
    (r : Result Store.StoreError TxRecord) (db : WalletDb) → (Handler.released r db).1 ≡ db
unfolding Handler.released
released_state (ok tx) db = refl
released_state (err Store.StoreError.not_found) db = refl
released_state (err Store.StoreError.constraint) db = refl

-- At the end of a request that began at `db`.
abbrev Ends : WalletDb → WalletDb → Type 0
Ends db db' = Wrote db.transactions db'.transactions

module _ (env : Env) (db : WalletDb) where
  insert_tx-Wrote : (n : Store.NewTx) → EndsIn (Ends db) (Handler.insert_tx env n) db
  unfolding Handler.insert_tx
  insert_tx-Wrote n = record {
    at = inserted env.fresh_id env.now n (ap (λ (d : WalletDb). d.transactions) (stored_state _ _));
  }

  open_new-Wrote :
      (b : CreateRequest) (amount : ℤ) → EndsIn (Ends db) (Handler.open_new env b amount) db
  unfolding Handler.open_new
  open_new-Wrote b amount = EndsIn-reader _ _ db (charged_state _ db) (nothing refl) λ ref _.
      EndsIn-raise_if _ _ _ db (nothing refl)
        λ _. EndsIn-gets _ _ db (EndsIn-raise_if _ _ _ db (nothing refl) λ _. insert_tx-Wrote _)

  answer-Wrote :
      (b : CreateRequest) (amount : ℤ) (found : Option TxRecord)
      → EndsIn (Ends db) (Handler.answer_existing env b amount found) db
  unfolding Handler.answer_existing
  answer-Wrote b amount none = open_new-Wrote b amount
  answer-Wrote b amount (some tx) = EndsIn-pure _ db (nothing refl)

  create-Wrote : (body : Option CreateRequest) → EndsIn (Ends db) (Handler.create env body) db
  unfolding Handler.create
  create-Wrote body = EndsIn-or_raise _ _ _ db (nothing refl) λ b _.
      EndsIn-or_raise _ _ _ db (nothing refl) λ amount _.
        EndsIn-raise_if _ _ _ db (nothing refl) λ _.
          EndsIn-raise_if _ _ _ db (nothing refl) λ _. EndsIn-gets _ _ db (answer-Wrote b amount _)

  release-Wrote : (body : Option ReleaseRequest) → EndsIn (Ends db) (Handler.release env body) db
  unfolding Handler.release
  release-Wrote body = EndsIn-or_raise _ _ _ db (nothing refl) λ b _.
      EndsIn-raise_if _ _ _ db (nothing refl) λ _. record {
        at =
            released env.now b.order_id b.payee_id
              (ap (λ (d : WalletDb). d.transactions) (released_state _ _));
      }

  refund-Wrote : (body : Option String) → EndsIn (Ends db) (Handler.refund env body) db
  unfolding Handler.refund
  refund-Wrote body = EndsIn-or_raise _ _ _ db (nothing refl) λ order _.
      EndsIn-raise_if _ _ _ db (nothing refl) λ _. record { at = refunded env.now order refl }

serve-Wrote : (req : Request) (db : WalletDb) → Wrote db.transactions (serve req db).transactions
unfolding serve
serve-Wrote (Request.create env body) db = (create-Wrote env db body).at
serve-Wrote (Request.release env body) db = (release-Wrote env db body).at
serve-Wrote (Request.refund env body) db = (refund-Wrote env db body).at

Wrote-PairsAreUnique :
    (rows rows' : List TxRow) → Wrote rows rows' → PairsAreUnique rows → PairsAreUnique rows'
Wrote-PairsAreUnique rows rows' (nothing e) h = rw e h
Wrote-PairsAreUnique rows rows' (inserted id now n e) h =
    rw e (create-PairsAreUnique id now n rows h)
Wrote-PairsAreUnique rows rows' (released now o p e) h =
    rw e (release-PairsAreUnique now o p rows h)
Wrote-PairsAreUnique rows rows' (refunded now o e) h =
    rw e (refund_order-PairsAreUnique now o rows h)

Wrote-Keeps :
    (rows rows' : List TxRow) (order payee : String) (r : TxRow)
    → Wrote rows rows'
    → row_of order payee rows ≡ some r
    → Keeps order payee r rows'
Wrote-Keeps rows rows' order payee r (nothing e) h = rw e (r, h, same)
Wrote-Keeps rows rows' order payee r (inserted id now n e) h =
    rw e (create-Keeps id now n order payee rows r h)
Wrote-Keeps rows rows' order payee r (released now o p e) h =
    rw e (release-Keeps now o p order payee rows r h)
Wrote-Keeps rows rows' order payee r (refunded now o e) h =
    rw e (refund_order-Keeps now o order payee rows r h)

-- After any requests, whatever fails on the way, an order and a payee have one transaction at most,
-- if they had one at most before.
pub serve_all-PairsAreUnique :
    (reqs : List Request) (db : WalletDb)
    → PairsAreUnique db.transactions
    → PairsAreUnique (serve_all reqs db).transactions
unfolding serve_all
serve_all-PairsAreUnique [] db h = h
serve_all-PairsAreUnique (req ∷ reqs) db h =
    serve_all-PairsAreUnique reqs (serve req db) (Wrote-PairsAreUnique _ _ (serve-Wrote req db) h)

settled : (r r' : TxRow) → Settles r r' → r.status ≢ TransactionStatus.held → r' ≡ r
settled r r' same h = refl
settled r r' (paid now e) h = absurd (h e)
settled r r' (returned now e) h = absurd (h e)

-- Money that has been released or refunded stays so: after any requests, whatever fails on the
-- way, the transaction of the pair is the same in every column.
pub settled_is_final :
    (reqs : List Request) (db : WalletDb) (order payee : String) (r : TxRow)
    → row_of order payee db.transactions ≡ some r
    → r.status ≢ TransactionStatus.held
    → row_of order payee (serve_all reqs db).transactions ≡ some r
unfolding serve_all
settled_is_final [] db order payee r h s = h
settled_is_final (req ∷ reqs) db order payee r h s =
    let (r', found, moved) = Wrote-Keeps _ _ order payee r (serve-Wrote req db) h in
    settled_is_final reqs (serve req db) order payee r (found ∙ ap some (settled r r' moved s)) s

-- The columns that say who pays whom how much.
abbrev pub SameDeal : TxRow → TxRow → Type 0
SameDeal r r' =
    (r'.id ≡ r.id)
    × (r'.payer_id ≡ r.payer_id)
    × (r'.amount ≡ r.amount)
    × (r'.platform_commission ≡ r.platform_commission)

SameDeal-of_Settles : (r r' : TxRow) → Settles r r' → SameDeal r r'
SameDeal-of_Settles r r' same = (refl, refl, refl, refl)
SameDeal-of_Settles r r' (paid now e) = (refl, refl, refl, refl)
SameDeal-of_Settles r r' (returned now e) = (refl, refl, refl, refl)

-- Once opened, an escrow is never lost, and its payer, amount and commission never change: after
-- any requests, whatever fails on the way, the pair still has that transaction.
pub escrow_survives :
    (reqs : List Request) (db : WalletDb) (order payee : String) (r : TxRow)
    → row_of order payee db.transactions ≡ some r
    → (r' : TxRow) × (row_of order payee (serve_all reqs db).transactions ≡ some r') × SameDeal r r'
unfolding serve_all
escrow_survives [] db order payee r h = (r, h, (refl, refl, refl, refl))
escrow_survives (req ∷ reqs) db order payee r h =
    let (m, found, moved) = Wrote-Keeps _ _ order payee r (serve-Wrote req db) h in
    let (r', still, deal) = escrow_survives reqs (serve req db) order payee m found in
    let (a, b, c, d) = SameDeal-of_Settles r m moved in
    (r', still, (deal.0 ∙ a, deal.1 ∙ b, deal.2 ∙ c, deal.3 ∙ d))
