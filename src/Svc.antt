-- ===== src/Svc.antt =====
-- pkg/svc/client.go: what a call of another service returns, and the wallet as the orders service
-- sees it.
pub mod Client
use yukbor_backend.Common.{String, Option, none, some, List}
use yukbor_backend.Common.Exec.{Result}
use yukbor_backend.Httpx.{Code, Failure}
use yukbor_backend.Models.Enums.{PaymentMethod}
use yukbor_backend.Models.Money.{Transaction}

-- The error of a call: the upstream's contract error, or a failure of the transport.
pub data CallError : Type 0 where
  upstream : Failure → CallError
  transport : CallError

-- `CodeOf`: the upstream's contract code, if there is one.
unfoldable pub code_of : CallError → Option Code
code_of (CallError.upstream f) = some f.code
code_of CallError.transport = none

-- The body of POST /wallet/transactions.
pub record EscrowRequest : Type 0 where
  pub order_id : String
  pub order_title : String
  pub payer_id : String
  pub payee_id : String
  pub amount : String
  pub payment_method : PaymentMethod

-- The three calls that the orders service makes, over a state `W` that is the wallet's.
pub record WalletClient (W : Type 0) : Type 0 where
  pub open_escrow : EscrowRequest → W → Result CallError Transaction × W
  pub release : String → String → W → Result CallError Transaction × W
  pub refund : String → W → Result CallError (List Transaction) × W
