-- ===== src/System.antt =====
-- The orders service and the wallet together: the calls of pkg/svc reach the wallet's handlers, or
-- are lost on the way there or back.
pub mod Laws
pub mod Rated
pub mod Payout
pub mod Wire
pub mod Calls
use yukbor_backend.Common.{ℕ, suc, String, Option, none, some, Bool, List, map}
use yukbor_backend.Common.Exec.{Result, ok, err}
use yukbor_backend.Httpx.{Failure}
use yukbor_backend.Models.Money.{Transaction}
use yukbor_backend.Svc.{CallError, EscrowRequest, WalletClient}
use yukbor_backend.Wallet.Store.{WalletDb, TxRecord}
use yukbor_backend.Wallet.Handler
use yukbor_backend.Wallet.Handler.{Env, CreateRequest, ReleaseRequest}

-- What the network does with a call. The client gives up after five seconds, and then the wallet
-- may have served the call or not.
pub data Delivery : Type 0 where
  delivered request_lost reply_lost : Delivery

unfoldable pub answer : {A : Type 0} → Result Failure (ℕ × A) → Result CallError A
answer (ok (status, a)) = ok a
answer (err f) = err (CallError.upstream f)

-- `Client.Do`: a status of 300 or more is the upstream's error.
unfoldable pub call :
    {A : Type 0}
    → Delivery
    → (WalletDb → Result Failure (ℕ × A) × WalletDb)
    → WalletDb
    → Result CallError A × WalletDb
unfolding answer
call Delivery.delivered handle db = let (r, db') = handle db in (answer r, db')
call Delivery.request_lost handle db = (err CallError.transport, db)
call Delivery.reply_lost handle db = let (r, db') = handle db in (err CallError.transport, db')

unfoldable pub body_of : EscrowRequest → CreateRequest
body_of req = record {
  order_id = req.order_id;
  order_title = req.order_title;
  payer_id = req.payer_id;
  payee_id = req.payee_id;
  amount = req.amount;
  payment_method = req.payment_method;
}

-- The wallet's state, and how many calls have been made.
pub record Remote : Type 0 where
  pub db : WalletDb
  pub calls : ℕ

-- One call, under the conditions that it meets.
unfoldable pub remotely :
    {A : Type 0}
    → (ℕ → Env × Delivery)
    → (Env → WalletDb → Result Failure (ℕ × A) × WalletDb)
    → Remote
    → Result CallError A × Remote
unfolding call
remotely conditions handle w =
    let (env, way) = conditions w.calls in
    let (r, db') = call way (handle env) w.db in (r, record { db = db'; calls = suc w.calls })

-- What decoding into `models.Transaction` keeps of the wallet's answer.
abbrev pub decoded_tx : TxRecord → Transaction
decoded_tx t = t.transaction

abbrev pub map_ok : {A B : Type 0} → (A → B) → Result CallError A → Result CallError B
map_ok f (ok a) = ok (f a)
map_ok f (err e) = err e

-- The caller's reading of an answer.
abbrev pub seen_as : {A B W : Type 0} → (A → B) → Result CallError A × W → Result CallError B × W
seen_as f (r, w) = (map_ok f r, w)

-- The wallet behind the network; `conditions n` is what the call number `n` meets.
abbrev pub wallet_client : (ℕ → Env × Delivery) → WalletClient Remote
wallet_client conditions = record {
  open_escrow = λ req w.
      seen_as decoded_tx (remotely conditions (λ env. Handler.create env (some (body_of req))) w);
  release = λ order payee w. seen_as decoded_tx (
      remotely conditions
        (λ env. Handler.release env (some (record { order_id = order; payee_id = payee }))) w);
  refund = λ order w.
      seen_as (map decoded_tx) (remotely conditions (λ env. Handler.refund env (some order)) w);
}
