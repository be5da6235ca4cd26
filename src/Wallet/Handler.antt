-- ===== src/Wallet/Handler.antt =====
-- internal/wallet/handler.go: the requests that move money.
use yukbor_backend.Common.{
  String, Option, none, some, Bool, true, false, not, List, ◌==◌, string_Eq, if◌then◌else◌, ℕ,
}
use yukbor_backend.Common.Int.{ℤ, pos, ltb_ℤ}
use yukbor_backend.Common.Word.{mul64, div64}
use yukbor_backend.Common.Strconv.{parse_int}
use yukbor_backend.Common.Exec.{Result, ok, err, pure, raise, gets, or_raise, raise_if, ◌>>=◌, ◌>>◌}
use yukbor_backend.Httpx.{Code, failure, fail, Handler}
use yukbor_backend.Models.Enums.{Time, PaymentMethod}
use yukbor_backend.Wallet.Store
use yukbor_backend.Wallet.Store.{TxRecord, WalletDb, NewTx, StoreError}

-- The statements that can fail in the database; one that fails changes nothing.
pub data Point : Type 0 where
  lookup_transaction read_commission create_transaction : Point
  release_transaction refund_transactions : Point

-- What a request meets: the clock, the id that the database draws, the failures, whether the
-- caller has gone while the charge waits, and the digest that the provider's reference shows.
pub record Env : Type 0 where
  pub now : Time
  pub fresh_id : String
  pub fails : Point → Bool
  pub caller_gone : Bool
  pub reference : PaymentMethod → String → String

pub data ChargeError : Type 0 where
  payment_declined caller_gone : ChargeError

-- `SimulatedPaymentProvider.Charge`
unfoldable pub charge : Env → PaymentMethod → String → Result ChargeError String
charge env method amount =
    if env.caller_gone
    then err ChargeError.caller_gone
    else if amount == "999999999"
    then err ChargeError.payment_declined
    else ok (env.reference method amount)

unfoldable pub valid_method : PaymentMethod → Bool
valid_method PaymentMethod.payme = true
valid_method PaymentMethod.click = true
valid_method PaymentMethod.uzcard = true
valid_method (PaymentMethod.other _) = false

-- The body of POST /wallet/transactions.
pub record CreateRequest : Type 0 where
  pub order_id : String
  pub order_title : String
  pub payer_id : String
  pub payee_id : String
  pub amount : String
  pub payment_method : PaymentMethod

-- The amount, if it is a whole number that is not negative.
abbrev pub valid_amount : Option ℤ → Option ℤ
valid_amount none = none
valid_amount (some a) = if ltb_ℤ a (pos 0) then none else some a

unfoldable pub charged : Result ChargeError String → Handler WalletDb String
charged (ok ref) = pure ref
charged (err ChargeError.payment_declined) = raise (failure 402 Code.payment_declined)
charged (err ChargeError.caller_gone) = fail

-- 201 where the row is new.
unfoldable pub stored : Result StoreError (TxRecord × Bool) → Handler WalletDb (ℕ × TxRecord)
stored (ok (tx, created)) = pure (if created then 201 else 200, tx)
stored (err _) = fail

unfoldable pub new_tx : CreateRequest → ℤ → ℤ → String → NewTx
new_tx req amount pct ref = record {
  order_id = req.order_id;
  order_title = req.order_title;
  payer_id = req.payer_id;
  payee_id = req.payee_id;
  amount = amount;
  commission = div64 (mul64 amount pct) (pos 100);
  payment_method = req.payment_method;
  provider_ref = ref;
}

unfoldable pub insert_tx : Env → NewTx → Handler WalletDb (ℕ × TxRecord)
unfolding stored
insert_tx env n db =
    let (r, rows) = Store.create env.fresh_id env.now n db.transactions in
    stored r (record db { transactions = rows })

-- No transaction for the pair yet: charge, then insert.
unfoldable pub open_new : Env → CreateRequest → ℤ → Handler WalletDb (ℕ × TxRecord)
unfolding charged new_tx insert_tx
open_new env req amount = do
  ref ← charged (charge env req.payment_method req.amount)
  raise_if (env.fails Point.read_commission) (failure 500 Code.internal)
  pct ← gets (λ db. Store.commission_pct db.commission_setting)
  raise_if (env.fails Point.create_transaction) (failure 500 Code.internal)
  insert_tx env (new_tx req amount pct ref)

-- A transaction for the pair answers the request as it is.
unfoldable pub answer_existing :
    Env → CreateRequest → ℤ → Option TxRecord → Handler WalletDb (ℕ × TxRecord)
unfolding open_new
answer_existing env req amount (some tx) = pure (200, tx)
answer_existing env req amount none = open_new env req amount

-- POST /wallet/transactions; the body is `none` where it does not decode.
unfoldable pub create : Env → Option CreateRequest → Handler WalletDb (ℕ × TxRecord)
unfolding answer_existing
create env body = do
  req ← or_raise body (failure 400 Code.bad_request)
  amount ← or_raise (valid_amount (parse_int req.amount)) (failure 400 Code.validation)
  raise_if (not (valid_method req.payment_method)) (failure 400 Code.validation)
  raise_if (env.fails Point.lookup_transaction) (failure 500 Code.internal)
  found ← gets (λ db. Store.existing req.order_id req.payee_id db.transactions)
  answer_existing env req amount found

pub record ReleaseRequest : Type 0 where
  pub order_id : String
  pub payee_id : String

unfoldable pub released : Result StoreError TxRecord → Handler WalletDb (ℕ × TxRecord)
released (ok tx) = pure (200, tx)
released (err StoreError.not_found) = raise (failure 404 Code.transaction_not_found)
released (err StoreError.constraint) = fail

unfoldable pub release_rows : Env → ReleaseRequest → Handler WalletDb (ℕ × TxRecord)
unfolding released
release_rows env req db =
    let (r, rows) = Store.release env.now req.order_id req.payee_id db.transactions in
    released r (record db { transactions = rows })

-- POST /wallet/transactions/release
unfoldable pub release : Env → Option ReleaseRequest → Handler WalletDb (ℕ × TxRecord)
unfolding release_rows
release env body = do
  req ← or_raise body (failure 400 Code.bad_request)
  raise_if (env.fails Point.release_transaction) (failure 500 Code.internal)
  release_rows env req

unfoldable pub refund_rows : Env → String → Handler WalletDb (ℕ × List TxRecord)
refund_rows env order db =
    let (txs, rows) = Store.refund_order env.now order db.transactions in
    (ok (200, txs), record db { transactions = rows })

-- POST /internal/transactions/refund; the body is the order's id.
unfoldable pub refund : Env → Option String → Handler WalletDb (ℕ × List TxRecord)
unfolding refund_rows
refund env body = do
  order ← or_raise body (failure 400 Code.bad_request)
  raise_if (env.fails Point.refund_transactions) (failure 500 Code.internal)
  refund_rows env order
