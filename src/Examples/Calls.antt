-- ===== src/Examples/Calls.antt =====
-- A release over bytes.
use yukbor_backend.Common.{ℕ, String, some, true, [], ◌∷◌, ◌≡◌, refl, ap, arith}
use yukbor_backend.Common.Tests.{String-discrete}
use yukbor_backend.Common.Exec.{Result, is_ok, ok, err, ◌>>=◌}
use yukbor_backend.Httpx.{Failure}
use yukbor_backend.Httpx.Mux.{Guard, find}
use yukbor_backend.Httpx.Reply.{code_text}
use yukbor_backend.Models.Enums.{TransactionStatus-discrete}
use yukbor_backend.Models.Money.{Transaction}
use yukbor_backend.Svc.Client.{Client, do_call}
use yukbor_backend.System.{Delivery, call, answer}
use yukbor_backend.System.Wire.{Wire, IsFaithful, route_handler, network}
use yukbor_backend.System.Calls.{Kind, see, calls_are_carried}
use yukbor_backend.Routes.{route_of}
use yukbor_backend.Wallet.Handler
use yukbor_backend.Wallet.Handler.{ReleaseRequest}
use yukbor_backend.Wallet.Store
use yukbor_backend.Wallet.Store.{TxRecord, TxRow, scan_tx}
use yukbor_backend.Examples.Data.{wallet_env, ledger, paid_tx}

abbrev orders_client : Client
orders_client = record { base = "http://wallet:8083"; token = "secret" }

-- The crane's escrow is held.
abbrev crane : ReleaseRequest
crane = record { order_id = "o1"; payee_id = "crane" }

abbrev message : Failure → String
message _ = ""

abbrev paid_now : TxRow
paid_now = record paid_tx { released_at = some 7 }

abbrev paid : TxRecord
paid = scan_tx paid_now

-- One body and one answer, as bytes.
abbrev wire : Wire ReleaseRequest TxRecord Transaction
unfolding scan_tx
wire = record {
  stdlib = record {
    marshal = λ _. some (1 ∷ []);
    is_request = λ _ _. true;
    unmarshal = λ _. record { code = ""; message = "" };
    text = λ _. "";
  };
  decode_body = λ _. some crane;
  encode = λ _. 2 ∷ [];
  decode = λ _. some paid.transaction;
  encode_error = λ _. [];
}

apart : ◌≡◌ {A = ℕ} 1 0 → ⊥
apart h = omega (arith, h)

value_of : Result Failure (ℕ × TxRecord) → TxRecord
value_of (ok (_, a)) = a
value_of (err _) = paid

wire-IsFaithful :
    IsFaithful wire
      (see Kind.releasing)
      message
      crane
      (Handler.release wallet_env (some crane) ledger).0
unfolding Handler.release Handler.release_rows Handler.released Store.release ◌>>=◌ String-discrete
    TransactionStatus-discrete value_of code_text Store.existing scan_tx
wire-IsFaithful = record {
  body_read = λ bs _. refl;
  value_read = λ status a p. ap (λ r. some (value_of r).transaction) p;
  error_read = λ f p. absurd (apart (ap is_ok p));
  error_short = λ f _. omega arith;
}

calls_are_carried_example :
    do_call
      (network Delivery.delivered
        (route_handler wire Guard.token_or_internal "secret" message (Handler.release wallet_env)))
      orders_client
      wire.stdlib
      "POST"
      "/wallet/transactions/release"
      (some crane)
      (some wire.decode)
      ledger
    ≡ (ok (some paid.transaction), record ledger { transactions = paid_now ∷ [] })
unfolding Handler.release Handler.release_rows Handler.released Store.release ◌>>=◌ String-discrete
    TransactionStatus-discrete call answer code_text route_of find Store.existing scan_tx
calls_are_carried_example =
    calls_are_carried Kind.releasing wallet_env orders_client message wire Delivery.delivered crane
      ledger _ refl wire-IsFaithful (record { bytes = 1 ∷ []; marshals = refl; requests = refl })
      refl
