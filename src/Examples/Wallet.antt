-- ===== src/Examples/Wallet.antt =====
-- The wallet's theorems at concrete ledgers.
use yukbor_backend.Common.{some, List, [], ◌∷◌, ◌≡◌, refl, ap, String-discrete, arith, ◌≤◌}
use yukbor_backend.Common.Int.{pos, ◌+ℤ◌}
use yukbor_backend.Common.Exec.{ok}
use yukbor_backend.Common.Strconv.{parse_int}
use yukbor_backend.Wallet.Store
use yukbor_backend.Wallet.Store.{TxRecord, scan_tx, existing, release, money_stats}
use yukbor_backend.Wallet.Handler
use yukbor_backend.Wallet.Handler.{CreateRequest, ReleaseRequest}
use yukbor_backend.Wallet.Requests
use yukbor_backend.Wallet.Requests.{
  Request, SameDeal, serve_all-PairsAreUnique, settled_is_final, escrow_survives,
}
use yukbor_backend.Wallet.Ledger.Pairs.{PairsAreUnique, row_of}
use yukbor_backend.Wallet.Ledger.Money.{kept, money_stats-kept, release-money}
use yukbor_backend.Wallet.Repeated.{SameTerms, create_opens_once}
use yukbor_backend.Wallet.Fresh.{create_first, opened_row}
use yukbor_backend.Examples.Data.{
  wallet_env, crane_tx, paid_tx, ledger, paid_ledger, driver_request,
}

-- A driver's escrow, a release of the crane's, a refund of the order and the driver's again.
abbrev requests : List Request
requests =
    Request.create wallet_env (some driver_request)
    ∷ Request.release wallet_env (some (record { order_id = "o1"; payee_id = "crane" }))
    ∷ Request.refund wallet_env (some "o1")
    ∷ Request.create wallet_env (some driver_request)
    ∷ []

serve_all-PairsAreUnique_example : PairsAreUnique (Requests.serve_all requests ledger).transactions
serve_all-PairsAreUnique_example = serve_all-PairsAreUnique requests ledger (refl, tt)

settled_is_final_example :
    row_of "o1" "crane" (Requests.serve_all requests paid_ledger).transactions ≡ some paid_tx
unfolding String-discrete
settled_is_final_example = settled_is_final requests paid_ledger "o1" "crane" paid_tx refl (λ e. cc)

escrow_survives_example :
    (r : Store.TxRow) × (row_of "o1" "crane" (Requests.serve_all requests ledger).transactions
      ≡ some r)
    × SameDeal crane_tx r
unfolding String-discrete
escrow_survives_example = escrow_survives requests ledger "o1" "crane" crane_tx refl

create_first_example :
    (Handler.create wallet_env (some driver_request) ledger ≡ (
      ok (201, scan_tx (opened_row wallet_env driver_request 505 10)),
      record ledger { transactions = crane_tx ∷ opened_row wallet_env driver_request 505 10 ∷ [] },
    ))
    × (50 ≤ 505)
unfolding String-discrete parse_int Handler.valid_method Store.commission_pct existing
create_first_example =
    create_first wallet_env driver_request ledger 505 10 (refl, refl, refl, refl) refl (omega arith)
      (λ e. cc) refl refl (omega arith) refl

abbrev driver_tx : TxRecord
driver_tx = scan_tx (opened_row wallet_env driver_request 505 10)

opens : (Handler.create wallet_env (some driver_request) ledger).0 ≡ ok (201, driver_tx)
unfolding String-discrete parse_int Handler.valid_method Store.commission_pct existing
opens =
    ap (λ p. p.0)
      (create_first wallet_env driver_request ledger 505 10 (refl, refl, refl, refl) refl
        (omega arith) (λ e. cc) refl refl (omega arith) refl).0

-- The driver's escrow again, for another amount, after the order was refunded.
abbrev cheaper : CreateRequest
cheaper = record driver_request { amount = "7" }

create_opens_once_example :
    let db' =
      Requests.serve_all requests (Handler.create wallet_env (some driver_request) ledger).1 in
    (t : TxRecord) × (Handler.create wallet_env (some cheaper) db' ≡ (ok (200, t), db'))
    × SameTerms driver_tx t
unfolding String-discrete parse_int Handler.valid_method
create_opens_once_example =
    create_opens_once wallet_env wallet_env driver_request cheaper ledger (201, driver_tx) requests
      refl refl (pos 7, refl, refl) refl opens

abbrev declined_request : CreateRequest
declined_request = record driver_request { amount = "999999999" }

abbrev release_request : ReleaseRequest
release_request = record { order_id = "o1"; payee_id = "crane" }

release-money_example :
    let (credit, fee, held) = money_stats (crane_tx ∷ []) in
    let (credit', fee', held') = money_stats (release 7 "o1" "crane" (crane_tx ∷ [])).1 in
    credit' +ℤ fee' +ℤ held' ≡ credit +ℤ fee +ℤ held
release-money_example = release-money 7 "o1" "crane" (crane_tx ∷ [])

money_stats-kept_example :
    let (credit, fee, held) = money_stats (paid_tx ∷ crane_tx ∷ []) in
    credit +ℤ fee +ℤ held ≡ kept (paid_tx ∷ crane_tx ∷ [])
money_stats-kept_example = money_stats-kept (paid_tx ∷ crane_tx ∷ [])
