-- ===== src/Wallet/Reads.antt =====
-- internal/wallet/store.go and handler.go: the requests that only read.
use yukbor_backend.Common.{
  ℕ, String, Bool, ◌&&◌, not, List, map, ◌==◌, string_Eq, if◌then◌else◌, leb,
}
use yukbor_backend.Common.Strconv.{format_int}
use yukbor_backend.Common.Table.{select, order_by}
use yukbor_backend.Common.Exec.{Result, ok, err, pure, gets, raise_if, ◌>>=◌, ◌>>◌}
use yukbor_backend.Httpx.{Code, failure, Handler}
use yukbor_backend.Jwtx.{Claims}
use yukbor_backend.Svc.{CallError}
use yukbor_backend.Orders.Dashboard.{OrderStats}
use yukbor_backend.Wallet.Store.{TxRecord, TxRow, WalletDb, scan_tx, money_stats}

abbrev later : TxRow → TxRow → Bool
later t u = leb u.created_at t.created_at

abbrev sooner : TxRow → TxRow → Bool
sooner t u = leb t.created_at u.created_at

-- `ListByPayee`, `ListByOrder` and `ListAll` with their `ORDER BY`
unfoldable pub payee_ledger : String → List TxRow → List TxRecord
payee_ledger payee rows =
    map scan_tx (order_by later (select (λ (r : TxRow). r.payee_id == payee) rows))

unfoldable pub order_ledger : String → List TxRow → List TxRecord
order_ledger order rows =
    map scan_tx (order_by sooner (select (λ (r : TxRow). r.order_id == order) rows))

unfoldable pub list_all : List TxRow → List TxRecord
list_all rows = map scan_tx (order_by later rows)

-- GET /wallet/transactions; the flag says that the query fails.
unfoldable pub list_for_payee : Bool → Claims → String → Handler WalletDb (List TxRecord)
unfolding payee_ledger
list_for_payee lost claims payee_id = do
  let payee = if payee_id == "" then claims.sub else payee_id
  raise_if (not (payee == claims.sub) && not (claims.role == "admin")) (failure 403 Code.forbidden)
  raise_if lost (failure 500 Code.internal)
  gets (λ db. payee_ledger payee db.transactions)

-- GET /internal/transactions
unfoldable pub list_for_order : Bool → String → Handler WalletDb (List TxRecord)
unfolding order_ledger
list_for_order lost order = do
  raise_if lost (failure 500 Code.internal)
  gets (λ db. order_ledger order db.transactions)

-- GET /admin/transactions
unfoldable pub admin_transactions : Bool → Handler WalletDb (List TxRecord)
unfolding list_all
admin_transactions lost = do
  raise_if lost (failure 500 Code.internal)
  gets (λ db. list_all db.transactions)

-- models, `AdminStats`
pub record AdminStats : Type 0 where
  pub total_orders : ℕ
  pub active_orders : ℕ
  pub completed_orders : ℕ
  pub registered_users : ℕ
  pub credited_to_executors : String
  pub service_fees_charged : String
  pub held_in_escrow : String

-- An upstream that does not answer counts as zero.
abbrev orders_part : Result CallError OrderStats → OrderStats
orders_part (ok s) = s
orders_part (err _) = record { total = 0; active = 0; completed = 0 }

abbrev users_part : Result CallError ℕ → ℕ
users_part (ok n) = n
users_part (err _) = 0

-- `adminStats`, with what the orders service and auth answered.
unfoldable pub admin_stats :
    Bool → Result CallError OrderStats → Result CallError ℕ → Handler WalletDb AdminStats
unfolding money_stats format_int
admin_stats lost orders users = do
  raise_if lost (failure 500 Code.internal)
  money ← gets (λ db. money_stats db.transactions)
  pure (record {
    total_orders = (orders_part orders).total;
    active_orders = (orders_part orders).active;
    completed_orders = (orders_part orders).completed;
    registered_users = users_part users;
    credited_to_executors = format_int money.0;
    service_fees_charged = format_int money.1;
    held_in_escrow = format_int money.2;
  })
