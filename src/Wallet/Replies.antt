-- ===== src/Wallet/Replies.antt =====
-- What a request to the wallet answers, and what it writes.

use yukbor_backend.Common.{
  String, none, some, Bool, true, false, ◌&&◌, List, [], ◌∷◌, string_Eq, if◌then◌else◌, ◌≡◌, refl,
  arith, ◌∙◌,
}
use yukbor_backend.Common.Int.{ℤ}
use yukbor_backend.Common.Exec.{ok, err, ◌>>=◌}
use yukbor_backend.Common.Strconv.{parse_int}
use yukbor_backend.Common.Table.{query_row, query_row-fits}
use yukbor_backend.Httpx.{failure, Code}
use yukbor_backend.Models.Enums.{Time, transaction_status_Eq}
use yukbor_backend.Wallet.Store
use yukbor_backend.Wallet.Store.{
  TxRecord, TxRow, WalletDb, released_row, scan_tx, existing, is_pair, is_held,
}
use yukbor_backend.Wallet.Handler
use yukbor_backend.Wallet.Handler.{
  Env, Point, CreateRequest, ReleaseRequest, valid_amount, valid_method,
}
use yukbor_backend.Wallet.Ledger.Pairs.{PairsAreUnique, row_of, row_of-update}

-- A request that is well formed: a whole amount that is not negative, and a known method.
abbrev pub IsWellFormed : CreateRequest → Type 0
IsWellFormed b =
    (a : ℤ) × (valid_amount (parse_int b.amount) ≡ some a) × (valid_method b.payment_method ≡ true)

-- A repeated request to open an escrow answers 200 with the transaction that the pair has and writes
-- nothing, provided that the request is well formed and that the look-up of the
-- pair does not fail.
pub create_again :
    (env : Env) (b : CreateRequest) (db : WalletDb) (tx : TxRecord)
    → IsWellFormed b
    → env.fails Point.lookup_transaction ≡ false
    → existing b.order_id b.payee_id db.transactions ≡ some tx
    → Handler.create env (some b) db ≡ (ok (200, tx), db)
unfolding Handler.create ◌>>=◌
create_again env b db tx (a, amount, method) up found = ground arith

-- A well-formed first request whose charge the provider declines answers 402, and no transaction is
-- written; the look-up of the pair does not fail and the caller waits.
pub create_declined :
    (env : Env) (b : CreateRequest) (db : WalletDb)
    → IsWellFormed b
    → env.fails Point.lookup_transaction ≡ false
    → existing b.order_id b.payee_id db.transactions ≡ none
    → env.caller_gone ≡ false
    → b.amount ≡ "999999999"
    → Handler.create env (some b) db ≡ (err (failure 402 Code.payment_declined), db)
unfolding Handler.create ◌>>=◌ Handler.charge
create_declined env b db (a, amount, method) up found here declined = ground arith

-- The UPDATE of a release finds the pair's row where that is held, and else none.
abbrev is_due : String → String → TxRow → Bool
is_due order payee q = is_pair order payee q && is_held q

due_none :
    (order payee : String) (rows : List TxRow)
    → row_of order payee rows ≡ none
    → query_row (is_due order payee) rows ≡ none
due_none order payee [] h = refl
due_none order payee (q ∷ rows) h = ground (arith, due_none order payee rows)

due_row :
    (order payee : String) (rows : List TxRow) (r : TxRow)
    → PairsAreUnique rows
    → row_of order payee rows ≡ some r
    → query_row (is_due order payee) rows ≡ (if is_held r then some r else none)
due_row order payee [] r u h = cc
due_row order payee (q ∷ rows) r u h =
    ground (arith, due_row order payee rows r u.1, due_none order payee rows)

released_where :
    (now : Time) (order payee : String) (rows : List TxRow) (r : TxRow)
    → row_of order payee rows ≡ some r
    → row_of order payee (Store.release now order payee rows).1
      ≡ some (if is_held r then released_row now r else r)
unfolding Store.release
released_where now order payee rows r h =
    row_of-update (is_due order payee) (released_row now) (λ _. refl) (λ _. refl) order payee rows
    ∙ rw h (ground (arith, query_row-fits (is_pair order payee) rows r h))

release_reply :
    (now : Time) (order payee : String) (rows : List TxRow) (r : TxRow)
    → PairsAreUnique rows
    → row_of order payee rows ≡ some r
    → (Store.release now order payee rows).0
      ≡ ok (scan_tx (if is_held r then released_row now r else r))
unfolding Store.release existing
release_reply now order payee rows r u h = ground (arith, due_row order payee rows r u h)

-- A release answers 200 with the row of the pair. If that was held, it has been released now; if
-- not, it is as it was, so a repeated release pays nobody twice. The pair's transaction
-- is the row of the answer. The pairs are unique, and the statement does not fail.
pub release_answers :
    (env : Env) (b : ReleaseRequest) (db : WalletDb) (r : TxRow)
    → PairsAreUnique db.transactions
    → env.fails Point.release_transaction ≡ false
    → row_of b.order_id b.payee_id db.transactions ≡ some r
    → let (reply, db') = Handler.release env (some b) db in
      let r' = if is_held r then released_row env.now r else r in
      (reply ≡ ok (200, scan_tx r')) × (row_of b.order_id b.payee_id db'.transactions ≡ some r')
unfolding Handler.release ◌>>=◌
release_answers env b db r u up found = ground (
  arith,
  release_reply env.now b.order_id b.payee_id db.transactions r u found,
  released_where env.now b.order_id b.payee_id db.transactions r found,
)
