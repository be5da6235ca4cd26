-- ===== src/Examples/Data.antt =====
-- An order with two legs, the wallet's ledger, and what the requests meet.
use yukbor_backend.Common.{ℕ, String, none, some, false, List, [], ◌∷◌}
use yukbor_backend.Common.Int.{pos}
use yukbor_backend.Httpx.Guards.{Claims}
use yukbor_backend.Models.Enums.{OrderType, OrderStatus, Leg, PaymentMethod, TransactionStatus}
use yukbor_backend.Wallet.Store.{TxRow, WalletDb}
use yukbor_backend.Wallet.Handler as Wallet
use yukbor_backend.Wallet.Handler.{CreateRequest}
use yukbor_backend.Orders.Record.{LegRecord, OrderRow}
use yukbor_backend.Orders.Store.{LegRow, OrdersDb}
use yukbor_backend.Orders.Handler as Orders
use yukbor_backend.Orders.Handler.{State}
use yukbor_backend.System.{Delivery, Remote}

abbrev pub wallet_env : Wallet.Env
wallet_env = record {
  now = 7;
  fresh_id = "t2";
  fails = λ _. false;
  caller_gone = false;
  reference = λ _ _. "sim_1";
}

-- The transaction of the equipment's provider.
abbrev pub crane_tx : TxRow
crane_tx = record {
  id = "t1";
  order_id = "o1";
  order_title = "cement";
  payer_id = "client";
  payee_id = "crane";
  amount = pos 300;
  platform_commission = pos 30;
  payment_method = PaymentMethod.payme;
  status = TransactionStatus.held;
  provider_ref = some "sim_0";
  created_at = 3;
  released_at = none;
  refunded_at = none;
}

abbrev pub paid_tx : TxRow
paid_tx = record crane_tx { status = TransactionStatus.released; released_at = some 5 }

abbrev pub ledger : WalletDb
ledger = record { transactions = crane_tx ∷ []; commission_setting = some (pos 10) }

abbrev pub paid_ledger : WalletDb
paid_ledger = record ledger { transactions = paid_tx ∷ [] }

abbrev pub driver_request : CreateRequest
driver_request = record {
  order_id = "o1";
  order_title = "cement";
  payer_id = "client";
  payee_id = "driver";
  amount = "505";
  payment_method = PaymentMethod.click;
}

abbrev pub order : OrderRow
order = record {
  id = "o1";
  client_id = "client";
  client_name = "Client";
  order_type = OrderType.transport_with_options;
  cargo = none;
  equipment = none;
  labor = none;
  pickup = record { latitude = 0; longitude = 0 };
  pickup_addr = "A";
  dropoff = record { latitude = 0; longitude = 0 };
  dropoff_addr = "B";
  scheduled_date = 9;
  price_estimate = pos 805;
  currency = "UZS";
  payment_method = PaymentMethod.click;
  cancelled_at = none;
  created_at = 1;
  updated_at = 1;
}

abbrev pub transport_leg : LegRecord
transport_leg = record {
  leg = Leg.transport;
  status = OrderStatus.published;
  executor_id = none;
  executor_name = none;
  price = pos 505;
  updated_at = 1;
}

abbrev pub crane_leg : LegRecord
crane_leg = record {
  leg = Leg.equipment;
  status = OrderStatus.accepted;
  executor_id = some "crane";
  executor_name = some "Crane";
  price = pos 300;
  updated_at = 3;
}

abbrev pub legs : List LegRow
legs =
    record { order_id = "o1"; entry = transport_leg }
    ∷ record { order_id = "o1"; entry = crane_leg }
    ∷ []

abbrev pub orders_db : OrdersDb
orders_db = record { tariffs = []; orders = order ∷ []; legs = legs }

abbrev pub orders_env : Orders.Env
orders_env = record { now = 7; fails = λ _. false; user_detail = λ _. none }

abbrev pub start : State Remote
start = record { db = orders_db; wallet = record { db = ledger; calls = 0 }; sent = [] }

abbrev pub conditions : ℕ → Wallet.Env × Delivery
conditions n = (wallet_env, Delivery.delivered)

abbrev pub claims_of : String → Claims
claims_of who = record { sub = who; role = "driver"; typ = "access"; exp = 0; iat = 0 }
