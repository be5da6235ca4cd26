-- ===== src/Wallet/Repeated.antt =====
-- internal/wallet/handler.go: a request to open an escrow that is made again.
use yukbor_backend.Common.{
  ℕ, String, Option, none, some, Bool, false, List, string_Eq, ◌≡◌, refl, sym, ap, ◌∙◌, subst,
  arith, Option-cases, inl, inr,
}
use mathlib.Core.Option.{some-injective}
use yukbor_backend.Common.Int.{ℤ}
use yukbor_backend.Common.Exec.{
  Result, ok, err, Yields, Yields-bind, Yields-or_raise, Yields-raise_if, Yields-gets,
}
use yukbor_backend.Common.Strconv.{format_int}
use yukbor_backend.Models.Enums.{Time}
use yukbor_backend.Wallet.Store
use yukbor_backend.Wallet.Store.{TxRecord, TxRow, WalletDb, existing, new_row, scan_tx}
use yukbor_backend.Wallet.Handler
use yukbor_backend.Wallet.Handler.{Env, Point, CreateRequest}
use yukbor_backend.Wallet.Ledger.Pairs.{row_of, row_of-append}
use yukbor_backend.Wallet.Replies.{IsWellFormed, create_again}
use yukbor_backend.Wallet.Requests.{Request, serve_all, escrow_survives, SameDeal}

-- The answer is the pair's row as it is in the table.
abbrev Shows : String → String → TxRecord → List TxRow → Type 0
Shows order payee t rows = (r : TxRow) × (row_of order payee rows ≡ some r) × (t ≡ scan_tx r)

store_create-Shows :
    (id : String) (now : Time) (n : Store.NewTx) (rows : List TxRow) (x : TxRecord × Bool)
    → (Store.create id now n rows).0 ≡ ok x
    → Shows n.order_id n.payee_id x.0 (Store.create id now n rows).1
unfolding Store.create existing new_row
store_create-Shows id now n rows x h = elim (Option-cases (row_of n.order_id n.payee_id rows)) [
  | inl gone ↦ (
    new_row id now n,
    ground (arith, row_of-append n.order_id n.payee_id rows (new_row id now n)),
    ground arith,
  )
  | inr (r, found) ↦ (r, ground arith, ground arith)
]

abbrev Answer : String → String → ℕ × TxRecord → WalletDb → Type 0
Answer order payee a db = Shows order payee a.1 db.transactions

stored-Shows :
    (order payee : String) (r : Result Store.StoreError (TxRecord × Bool)) (db : WalletDb)
    → ((x : TxRecord × Bool) → r ≡ ok x → Shows order payee x.0 db.transactions)
    → (a : ℕ × TxRecord) → (Handler.stored r db).0 ≡ ok a
    → Answer order payee a (Handler.stored r db).1
unfolding Handler.stored
stored-Shows order payee (ok (tx, new)) db h a e =
    let (r, found, shown) = h (tx, new) refl in (r, found, ground arith)
stored-Shows order payee (err x) db h a e = cc

module _ (env : Env) (b : CreateRequest) where
  insert_tx-Shows :
      (n : Store.NewTx) (db : WalletDb)
      → Yields (Answer n.order_id n.payee_id) (Handler.insert_tx env n) db
  unfolding Handler.insert_tx
  insert_tx-Shows n db = record {
    at =
        stored-Shows n.order_id n.payee_id _ _
          λ x h. store_create-Shows env.fresh_id env.now n db.transactions x h;
  }

  open_new-Shows :
      (amount : ℤ) (db : WalletDb)
      → Yields (Answer b.order_id b.payee_id) (Handler.open_new env b amount) db
  unfolding Handler.open_new Handler.new_tx
  open_new-Shows amount db = Yields-bind _ _ db λ ref _.
      Yields-raise_if _ _ _ _
        λ _. Yields-gets _ _ _ (Yields-raise_if _ _ _ _ λ _. insert_tx-Shows _ _)

  existing-Shows :
      (amount : ℤ) (found : Option TxRecord) (db : WalletDb)
      → existing b.order_id b.payee_id db.transactions ≡ found
      → Yields (Answer b.order_id b.payee_id) (Handler.answer_existing env b amount found) db
  unfolding Handler.answer_existing existing
  existing-Shows amount none db h = open_new-Shows amount db
  existing-Shows amount (some tx) db h = record {
    at = λ a e. elim (Option-cases (row_of b.order_id b.payee_id db.transactions)) [
      | inl gone ↦ absurd (ground arith)
      | inr (r, found) ↦ (r, found, ground arith)
    ];
  }

  create-Shows :
      (body : Option CreateRequest) (db : WalletDb)
      → body ≡ some b
      → Yields (Answer b.order_id b.payee_id) (Handler.create env body) db
  unfolding Handler.create
  create-Shows body db e = Yields-or_raise _ _ _ db λ b' same. Yields-or_raise _ _ _ db λ amount _.
      Yields-raise_if _ _ _ db λ _. Yields-raise_if _ _ _ db λ _. Yields-gets _ _ _ (
        subst
          (λ (c : CreateRequest).
            Yields (Answer b.order_id b.payee_id)
              (Handler.answer_existing env c amount
                (existing c.order_id c.payee_id db.transactions))
              db)
          (some-injective b b' (sym e ∙ same)) (existing-Shows amount _ db refl))

-- The terms of an escrow, as an answer shows them.
abbrev pub SameTerms : TxRecord → TxRecord → Type 0
SameTerms t t' =
    (t'.transaction.id ≡ t.transaction.id)
    × (t'.transaction.payer_id ≡ t.transaction.payer_id)
    × (t'.transaction.amount ≡ t.transaction.amount)
    × (t'.transaction.platform_commission ≡ t.transaction.platform_commission)

SameTerms-scan :
    (t : TxRecord) (r r' : TxRow) → t ≡ scan_tx r → SameDeal r r' → SameTerms t (scan_tx r')
unfolding scan_tx
SameTerms-scan t r r' e (id, payer, amount, commission) = (
  id ∙ sym (ap (λ (t : TxRecord). t.transaction.id) e),
  payer ∙ sym (ap (λ (t : TxRecord). t.transaction.payer_id) e),
  ap format_int amount ∙ sym (ap (λ (t : TxRecord). t.transaction.amount) e),
  ap format_int commission ∙ sym (ap (λ (t : TxRecord). t.transaction.platform_commission) e),
)

there :
    (order payee : String) (rows : List TxRow) (r : TxRow)
    → row_of order payee rows ≡ some r
    → existing order payee rows ≡ some (scan_tx r)
unfolding existing
there order payee rows r h = rw h refl

-- An escrow is opened once for a pair: where a request was answered positively, then after any
-- requests, whatever fails on the way, releases and refunds of the escrow among them, a further
-- request for the same order and payee, whatever payer and amount it names, answers 200 with the
-- transaction of the first one, of the same id, payer, amount and commission, and writes nothing. The
-- further request is well formed, and its look-up of the pair does not fail.
pub create_opens_once :
    (env later : Env) (b b' : CreateRequest) (db : WalletDb) (a : ℕ × TxRecord)
    (reqs : List Request)
    → b'.order_id ≡ b.order_id
    → b'.payee_id ≡ b.payee_id
    → IsWellFormed b'
    → later.fails Point.lookup_transaction ≡ false
    → (Handler.create env (some b) db).0 ≡ ok a
    → let db' = serve_all reqs (Handler.create env (some b) db).1 in
      (t : TxRecord) × (Handler.create later (some b') db' ≡ (ok (200, t), db')) × SameTerms a.1 t
create_opens_once env later b b' db a reqs order payee well up first =
    let db' = serve_all reqs (Handler.create env (some b) db).1 in
    let (r, found, shown) = (create-Shows env b (some b) db refl).at a first in
    let (r', still, deal) =
      escrow_survives reqs (Handler.create env (some b) db).1 b.order_id b.payee_id r found in
    let same : row_of b'.order_id b'.payee_id db'.transactions ≡ some r' =
      subst (λ p. row_of b'.order_id p db'.transactions ≡ some r') (sym payee)
        (subst (λ o. row_of o b.payee_id db'.transactions ≡ some r') (sym order) still) in
    (
      scan_tx r',
      create_again later b' db' (scan_tx r') well up
          (there b'.order_id b'.payee_id db'.transactions r' same),
      SameTerms-scan a.1 r r' shown deal,
    )
