-- ===== src/Examples/Payout.antt =====
-- A confirmation at a concrete order, and requests to the wallet at the contract.
use yukbor_backend.Common.{some, List, [], ◌∷◌, ◌≡◌, refl, String-discrete}
use yukbor_backend.Common.Exec.{ok, ◌>>=◌}
use yukbor_backend.Models.Enums.{
  Leg, OrderStatus, TransactionStatus, Leg-discrete, OrderStatus-discrete,
  TransactionStatus-discrete,
}
use yukbor_backend.Models.Order.{Order}
use yukbor_backend.Orders.Record.{OrderRecord, LegRecord, leg_of, flatten}
use yukbor_backend.Orders.Store
use yukbor_backend.Orders.Handler as Orders
use yukbor_backend.Orders.Handler.{State}
use yukbor_backend.Orders.Legs.{is_ready_for_client_confirmation}
use yukbor_backend.Orders.Audience.{payees}
use yukbor_backend.Wallet.Handler as Wallet
use yukbor_backend.Wallet.Store as WalletStore
use yukbor_backend.Wallet.Requests.{Request, serve_all}
use yukbor_backend.Wallet.Contract.{act_all}
use yukbor_backend.Wallet.Contract.Kept.{phase}
use yukbor_backend.Wallet.Contract.Refines.{accepted, serve_all-act_all}
use yukbor_backend.System.{Remote, remotely, wallet_client}
use yukbor_backend.System.Payout.{phase_at, Arrives, confirm_pays}
use yukbor_backend.Examples.Data.{
  orders_env, order, crane_leg, ledger, start, conditions, claims_of, wallet_env, driver_request,
}

abbrev delivered_leg : LegRecord
delivered_leg = record crane_leg { status = OrderStatus.delivered }

-- The crane's work is done, and nobody has taken the transport.
abbrev crane_done : State Remote
crane_done = record start {
  db = record {
    tariffs = [];
    orders = order ∷ [];
    legs = record { order_id = "o1"; entry = delivered_leg } ∷ [];
  };
}

abbrev crane_order : OrderRecord
crane_order = record { row = order; legs = delivered_leg ∷ [] }

abbrev after_confirm : State Remote
after_confirm =
    (Orders.confirm (wallet_client conditions) orders_env (claims_of "client") "o1" crane_done).1

confirmed :
    (o : Order) × ((Orders.confirm
        (wallet_client conditions)
        orders_env
        (claims_of "client")
        "o1"
        crane_done).0
      ≡ ok o)
unfolding Orders.confirm Orders.load Orders.reload Orders.on_db Orders.emit_to Orders.release_all
    ◌>>=◌ Store.by_id Store.complete_all_legs is_ready_for_client_confirmation String-discrete
    Leg-discrete OrderStatus-discrete payees remotely Wallet.release WalletStore.release
    TransactionStatus-discrete
confirmed = (
  flatten (record {
    row = record order { updated_at = 7 };
    legs = record delivered_leg { status = OrderStatus.completed; updated_at = 7 } ∷ [];
  }),
  refl,
)

all_arrive : Arrives conditions
all_arrive = record { gets_there = λ n h. cc; writes = λ n. refl }

confirm_pays_example : phase_at "o1" "crane" after_confirm ≡ some TransactionStatus.released
unfolding String-discrete Store.by_id Leg-discrete leg_of TransactionStatus-discrete
confirm_pays_example =
    confirm_pays conditions orders_env (claims_of "client") "o1" crane_done crane_order
      Leg.equipment delivered_leg "crane" confirmed.0 all_arrive (refl, refl) refl refl confirmed.1

abbrev wallet_requests : List Request
wallet_requests =
    Request.create wallet_env (some driver_request) ∷ Request.refund wallet_env (some "o1") ∷ []

serve_all-act_all_example :
    phase "o1" "crane" (serve_all wallet_requests ledger).transactions
    ≡ act_all
        (accepted wallet_requests ledger)
        "o1"
        "crane"
        (phase "o1" "crane" ledger.transactions)
serve_all-act_all_example = serve_all-act_all "o1" "crane" wallet_requests ledger
