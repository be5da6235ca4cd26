-- ===== src/Wallet/Fresh.antt =====
-- The request that opens an escrow for a pair that has none.
use yukbor_backend.Common.{
  ℕ, ◌*◌, ◌/◌, ◌≤◌, ◌<◌, none, some, true, false, [], ◌∷◌, ◌++◌, string_Eq, ◌≡◌, ◌≢◌, arith, ap,
  ◌∙◌,
}
use yukbor_backend.Common.Int.{pos}
use yukbor_backend.Common.Word.{mul64, div64, mul64-pos, div64-pos, half_range}
use yukbor_backend.Common.Exec.{ok, ◌>>=◌}
use yukbor_backend.Common.Strconv.{parse_int}
use yukbor_backend.Wallet.Store
use yukbor_backend.Wallet.Store.{
  TxRow, WalletDb, NewTx, scan_tx, existing, new_row, commission_pct, fits_column,
}
use yukbor_backend.Wallet.Handler
use yukbor_backend.Wallet.Handler.{Env, Point, CreateRequest, valid_amount, valid_method, new_tx}

-- The service's part: so many per cent, rounded down. It does not overflow.
commission_exact :
    (a pct : ℕ)
    → a < 100000000000000
    → pct ≤ 100
    → div64 (mul64 (pos a) (pos pct)) (pos 100) ≡ pos (a * pct / 100)
commission_exact a pct small percent =
    ap (λ x. div64 x (pos 100)) (mul64-pos a pct bound) ∙ div64-pos (a * pct) 100 bound
  where
    bound : a * pct < half_range
    bound = grind arith

-- The row of a new escrow.
abbrev pub opened_row : Env → CreateRequest → ℕ → ℕ → TxRow
opened_row env b a pct = new_row env.fresh_id env.now (record {
  order_id = b.order_id;
  order_title = b.order_title;
  payer_id = b.payer_id;
  payee_id = b.payee_id;
  amount = pos a;
  commission = pos (a * pct / 100);
  payment_method = b.payment_method;
  provider_ref = env.reference b.payment_method b.amount;
})

-- The statements of a request that opens an escrow do not fail.
abbrev pub IsUp : Env → Type 0
IsUp env =
    (env.fails Point.lookup_transaction ≡ false)
    × (env.fails Point.read_commission ≡ false)
    × (env.fails Point.create_transaction ≡ false)
    × (env.caller_gone ≡ false)

commission-le : (a pct : ℕ) → pct ≤ 100 → a * pct / 100 ≤ a
commission-le a pct h = grind arith

created :
    (env : Env) (n : NewTx) (db : WalletDb)
    → fits_column n.amount ≡ true
    → fits_column n.commission ≡ true
    → existing n.order_id n.payee_id db.transactions ≡ none
    → Handler.insert_tx env n db ≡ (
      ok (201, scan_tx (new_row env.fresh_id env.now n)),
      record db { transactions = db.transactions ++ new_row env.fresh_id env.now n ∷ [] },
    )
unfolding Handler.insert_tx Store.create Handler.stored
created env n db amount commission fresh = ground arith

-- A first request for a pair answers 201 and appends one held transaction, whose commission is the
-- percentage in force of the amount, rounded down, and at most the amount. The amount is below
-- 10^14 and not the one that the provider declines, the percentage is at most 100, the method is
-- known, and neither a statement nor the provider fails.
pub create_first :
    (env : Env) (b : CreateRequest) (db : WalletDb) (a pct : ℕ)
    → IsUp env
    → parse_int b.amount ≡ some (pos a)
    → a < 100000000000000
    → b.amount ≢ "999999999"
    → (valid_method b.payment_method ≡ true)
    → commission_pct db.commission_setting ≡ pos pct
    → pct ≤ 100
    → existing b.order_id b.payee_id db.transactions ≡ none
    → (Handler.create env (some b) db ≡ (
      ok (201, scan_tx (opened_row env b a pct)),
      record db { transactions = db.transactions ++ opened_row env b a pct ∷ [] },
    ))
      × (a * pct / 100 ≤ a)
unfolding Handler.create Handler.new_tx ◌>>=◌ Handler.charge
create_first env b db a pct up amount small accepted method percent low fresh = (
  ground (
    arith,
    commission_exact a pct small low,
    commission-le a pct low,
    created env
        (record {
          order_id = b.order_id;
          order_title = b.order_title;
          payer_id = b.payer_id;
          payee_id = b.payee_id;
          amount = pos a;
          commission = div64 (mul64 (pos a) (pos pct)) (pos 100);
          payment_method = b.payment_method;
          provider_ref = env.reference b.payment_method b.amount;
        })
        db,
  ),
  commission-le a pct low,
)
