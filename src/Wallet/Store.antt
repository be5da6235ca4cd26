-- ===== src/Wallet/Store.antt =====
-- internal/wallet/store.go over the table wallet.transactions (migrations 0003, 0007 and 0008).
use mathlib.Core.Option
use yukbor_backend.Common.{
  String, Option, none, some, Bool, true, false, ◌&&◌, List, [], ◌∷◌, ◌++◌, map, ◌==◌, string_Eq,
  if◌then◌else◌,
}
use yukbor_backend.Common.Int.{ℤ, pos, ◌+ℤ◌, ◌-ℤ◌, ltb_ℤ, leb_ℤ}
use yukbor_backend.Common.Strconv.{format_int}
use yukbor_backend.Common.Table.{select, query_row, update_where}
use yukbor_backend.Common.Exec.{Result, ok, err}
use yukbor_backend.Models.Enums.{Time, PaymentMethod, TransactionStatus, transaction_status_Eq}
use yukbor_backend.Models.Money.{Transaction}

-- A row of wallet.transactions.
pub record TxRow : Type 0 where
  pub id : String
  pub order_id : String
  pub order_title : String
  pub payer_id : String
  pub payee_id : String
  pub amount : ℤ
  pub platform_commission : ℤ
  pub payment_method : PaymentMethod
  pub status : TransactionStatus
  pub provider_ref : Option String
  pub created_at : Time
  pub released_at : Option Time
  pub refunded_at : Option Time

-- The schema: the transactions, and the row `platform_commission_pct` of wallet.settings.
pub record WalletDb : Type 0 where
  pub transactions : List TxRow
  pub commission_setting : Option ℤ

-- `constraint` is the error of a violated CHECK or of a value out of its column's range.
pub data StoreError : Type 0 where
  not_found constraint : StoreError

-- `TxRecord`, with `models.Transaction` embedded
pub record TxRecord : Type 0 where
  pub transaction : Transaction
  pub provider_ref : Option String
  pub refunded_at : Option Time

-- `scanTx`
unfoldable pub scan_tx : TxRow → TxRecord
scan_tx r = record {
  transaction = record {
    id = r.id;
    order_id = r.order_id;
    order_title = r.order_title;
    payer_id = r.payer_id;
    payee_id = r.payee_id;
    amount = format_int r.amount;
    platform_commission = format_int r.platform_commission;
    payment_method = r.payment_method;
    status = r.status;
    created_at = r.created_at;
    released_at = r.released_at;
  };
  provider_ref = r.provider_ref;
  refunded_at = r.refunded_at;
}

pub record NewTx : Type 0 where
  pub order_id : String
  pub order_title : String
  pub payer_id : String
  pub payee_id : String
  pub amount : ℤ
  pub commission : ℤ
  pub payment_method : PaymentMethod
  pub provider_ref : String

-- `WHERE order_id = $1 AND payee_id = $2`
abbrev pub is_pair : String → String → TxRow → Bool
is_pair order payee r = r.order_id == order && r.payee_id == payee

abbrev pub is_held : TxRow → Bool
is_held r = r.status == TransactionStatus.held

unfoldable pub existing : String → String → List TxRow → Option TxRecord
existing order payee rows = Option.map scan_tx (query_row (is_pair order payee) rows)

-- NUMERIC(14,0) CHECK (… >= 0)
abbrev pub fits_column : ℤ → Bool
fits_column a = leb_ℤ (pos 0) a && ltb_ℤ a (pos 100000000000000)

-- The row that the INSERT writes; the other columns have their defaults.
unfoldable pub new_row : String → Time → NewTx → TxRow
new_row id now n = record {
  id = id;
  order_id = n.order_id;
  order_title = n.order_title;
  payer_id = n.payer_id;
  payee_id = n.payee_id;
  amount = n.amount;
  platform_commission = n.commission;
  payment_method = n.payment_method;
  status = TransactionStatus.held;
  provider_ref = some n.provider_ref;
  created_at = now;
  released_at = none;
  refunded_at = none;
}

-- `INSERT … ON CONFLICT (order_id, payee_id) DO NOTHING`, then the row that was there.
create_row : TxRow → Option TxRecord → List TxRow → Result StoreError (TxRecord × Bool) × List TxRow
create_row r (some tx) rows = (ok (tx, false), rows)
create_row r none rows = (ok (scan_tx r, true), rows ++ r ∷ [])

unfoldable pub create :
    String → Time → NewTx → List TxRow → Result StoreError (TxRecord × Bool) × List TxRow
unfolding create_row
create id now n rows =
    if fits_column n.amount && fits_column n.commission
    then create_row (new_row id now n) (existing n.order_id n.payee_id rows) rows
    else (err StoreError.constraint, rows)

abbrev pub released_row : Time → TxRow → TxRow
released_row now r = record r { status = TransactionStatus.released; released_at = some now }

abbrev pub refunded_row : Time → TxRow → TxRow
refunded_row now r = record r { status = TransactionStatus.refunded; refunded_at = some now }

or_not_found : Option TxRecord → Result StoreError TxRecord
or_not_found none = err StoreError.not_found
or_not_found (some tx) = ok tx

-- The row that `UPDATE … RETURNING` gave, or else the one that is there.
release_result : Time → Option TxRow → Option TxRecord → Result StoreError TxRecord
unfolding or_not_found
release_result now (some r) found = ok (scan_tx (released_row now r))
release_result now none found = or_not_found found

unfoldable pub release :
    Time → String → String → List TxRow → Result StoreError TxRecord × List TxRow
unfolding release_result
release now order payee rows =
    let due = λ (r : TxRow). is_pair order payee r && is_held r in
    (
      release_result now (query_row due rows) (existing order payee rows),
      update_where due (released_row now) rows,
    )

unfoldable pub refund_order : Time → String → List TxRow → List TxRecord × List TxRow
refund_order now order rows =
    let due = λ (r : TxRow). r.order_id == order && is_held r in
    (
      map (λ r. scan_tx (refunded_row now r)) (select due rows),
      update_where due (refunded_row now) rows,
    )

-- A missing setting means ten per cent.
unfoldable pub commission_pct : Option ℤ → ℤ
commission_pct none = pos 10
commission_pct (some pct) = pct

-- `COALESCE(SUM(f) FILTER (WHERE status = s), 0)`
abbrev pub sum_where : TransactionStatus → (TxRow → ℤ) → List TxRow → ℤ
sum_where s f [] = pos 0
sum_where s f (r ∷ rows) = (if r.status == s then f r else pos 0) +ℤ sum_where s f rows

-- Credited to executors, service fees, and still held.
unfoldable pub money_stats : List TxRow → ℤ × ℤ × ℤ
money_stats rows = (
  sum_where TransactionStatus.released (λ r. r.amount -ℤ r.platform_commission) rows,
  sum_where TransactionStatus.released (λ r. r.platform_commission) rows,
  sum_where TransactionStatus.held (λ r. r.amount) rows,
)
