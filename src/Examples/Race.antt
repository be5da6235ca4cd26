-- ===== src/Examples/Race.antt =====
-- Requests that overlap at a concrete order, and an order in its columns.
use yukbor_backend.Common.{
  ℕ, ◌*◌, ◌/◌, none, some, true, false, [], ◌∷◌, ◌≡◌, refl, ◌==◌, string_Eq, String-discrete,
}
use yukbor_backend.Common.Int.{pos}
use yukbor_backend.Common.Table.{query_row}
use yukbor_backend.Common.Exec.{ok}
use yukbor_backend.Models.Enums.{
  Time, Float64, Leg, OrderType, PaymentMethod, VehicleType, Leg-discrete, OrderStatus-discrete,
}
use yukbor_backend.Svc.{CallError}
use yukbor_backend.Orders.Record.{OrderRow}
use yukbor_backend.Orders.Handler.{cancellable}
use yukbor_backend.Orders.Store
use yukbor_backend.Orders.Store.{LegRow, NewOrder, is_leg, is_open}
use yukbor_backend.Orders.Columns.{scan_order, insert_columns, as_kept, scan_order-insert_columns}
use yukbor_backend.Orders.Race
use yukbor_backend.Orders.Race.{Claim, Shared, Step, Reach}
use yukbor_backend.Orders.Escrow.{AllBacked}
use yukbor_backend.Orders.Race.Reopened.{reopened}
use yukbor_backend.System.{Delivery, Remote, wallet_client, remotely, call}
use yukbor_backend.System.Laws.{HasEscrow}
use yukbor_backend.System.Laws.Overlap.{overlapping_is_funded}
use yukbor_backend.Wallet.Handler as Wallet
use yukbor_backend.Examples.Data.{crane_tx, ledger, orders_db, order, transport_leg, wallet_env}

-- The driver's accept of the transport.
abbrev driver_claim : Claim
driver_claim = record {
  request = record {
    order_id = "o1";
    order_title = "Cargo";
    payer_id = "client";
    payee_id = "driver";
    amount = "505";
    payment_method = PaymentMethod.click;
  };
  leg = Leg.transport;
  declined = false;
}

abbrev calm : Shared Remote
calm = record { db = orders_db; wallet = record { db = ledger; calls = 0 }; claims = [] }

abbrev after_claim : Shared Remote
after_claim = record calm {
  db = (Store.claim_leg 7 false "o1" Leg.transport "driver" "Driver" orders_db).1;
  claims = driver_claim ∷ [];
}

abbrev after_cancel : Shared Remote
after_cancel = record after_claim { db = (Store.cancel 8 false "o1" after_claim.db).1 }

driver_wins : (Store.claim_leg 7 false "o1" Leg.transport "driver" "Driver" orders_db).0 ≡ ok tt
unfolding Store.claim_leg String-discrete Leg-discrete OrderStatus-discrete
driver_wins = refl

-- The wallet cannot be reached.
abbrev cut_off : ℕ → Wallet.Env × Delivery
cut_off n = (wallet_env, Delivery.request_lost)

abbrev after_failure : Shared Remote
after_failure = record after_cancel {
  wallet = ((wallet_client cut_off).open_escrow driver_claim.request after_cancel.wallet).1;
  claims = Race.declined driver_claim ∷ [];
}

abbrev after_return : Shared Remote
after_return = record after_failure {
  db = Store.release_leg_claim 9 "o1" Leg.transport after_failure.db;
  claims = [];
}

-- The driver claims the transport, the client cancels, the call of the wallet is lost, and the claim
-- is given back.
overlapping : Reach (wallet_client cut_off) calm after_return
unfolding remotely call cancellable
overlapping =
    Reach.later
      (Reach.later
        (Reach.later
          (Reach.later Reach.start (Step.claimed 7 false "Driver" driver_claim driver_wins))
          (Step.cancelled 8 false (record { row = order; legs = transport_leg ∷ [] }) refl))
        (Step.unpaid [] [] driver_claim CallError.transport refl refl refl))
      (Step.gave_back 9 [] [] (Race.declined driver_claim) refl refl)

overlapping_is_funded_example :
    AllBacked (λ o p. HasEscrow o p after_return.wallet.db) after_return.db.legs
unfolding String-discrete
overlapping_is_funded_example =
    overlapping_is_funded cut_off calm after_return overlapping refl (tt, ((crane_tx, refl), tt))

-- The crane's operator gets the leg that the driver has lost.
reopened_example :
    let db' =
      Store.release_leg_claim 8 "o1" Leg.transport (Store.cancel 8 false "o1" after_claim.db).1 in
    ((Store.claim_leg 9 false "o1" Leg.transport "crane" "Crane" db').0 ≡ ok tt)
    × ((o : OrderRow) × (query_row (λ (o : OrderRow). o.id == "o1") db'.orders ≡ some o)
        × (o.cancelled_at ≡ some 8))
unfolding Store.claim_leg Store.touch String-discrete Leg-discrete OrderStatus-discrete
reopened_example =
    reopened 8 9 false "o1" Leg.transport "crane" "Crane" after_claim.db
      (record { order_id = "o1"; entry = Store.claimed 7 "driver" "Driver" transport_leg })
      (record order { updated_at = 7 }) (refl, (refl, tt)) refl refl

abbrev crane_order : NewOrder
crane_order = record {
  client_id = "client";
  client_name = "Client";
  order_type = OrderType.transport_with_options;
  cargo = some (record {
    cargo_type = "bricks";
    weight_tons = 1234;
    requires_refrigeration = true;
    required_vehicle_type = VehicleType.other "";
    special_instructions = some "handle with care";
  });
  equipment = none;
  labor = some (record { workers_count = pos 2; duration_hours = pos 3; task_description = none });
  pickup = record { latitude = 0; longitude = 1 };
  pickup_addr = "A";
  dropoff = record { latitude = 2; longitude = 3 };
  dropoff_addr = "B";
  scheduled_date = 1234567;
  price_estimate = pos 805;
  currency = "UZS";
  payment_method = PaymentMethod.click;
  leg_prices = (Leg.transport, pos 505) ∷ (Leg.labor, pos 300) ∷ [];
}

-- A column that keeps tens.
abbrev tens : Float64 → Float64
tens w = w / 10 * 10

abbrev thousands : Time → Time
thousands t = t / 1000 * 1000

scan_order-insert_columns_example :
    scan_order 0 (VehicleType.other "") (insert_columns tens thousands 5 "o9" crane_order)
    ≡ Store.new_order_row 5 "o9" (as_kept tens thousands crane_order)
scan_order-insert_columns_example =
    scan_order-insert_columns 0 (VehicleType.other "") tens thousands 5 "o9" crane_order
