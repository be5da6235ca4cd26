-- ===== src/Wallet/Ledger/Money.antt =====
-- What the statistics of the dashboard count, and what a release does to it.
use yukbor_backend.Common.{
  String, Bool, List, [], ◌∷◌, ◌&&◌, ◌==◌, if◌then◌else◌, ◌≡◌, arith, refl, string_Eq, ap, ◌∙◌, sym,
}
use yukbor_backend.Common.Int.{ℤ, pos, ◌+ℤ◌, ◌-ℤ◌, int_laws}
use yukbor_backend.Common.Table.{update_where}
use yukbor_backend.Models.Enums.{Time, TransactionStatus, transaction_status_Eq}
use yukbor_backend.Wallet.Store.{
  TxRow, is_held, is_pair, sum_where, money_stats, release, released_row,
}

abbrev pub credited : List TxRow → ℤ
credited rows = sum_where TransactionStatus.released (λ r. r.amount -ℤ r.platform_commission) rows

abbrev pub fees : List TxRow → ℤ
fees rows = sum_where TransactionStatus.released (λ r. r.platform_commission) rows

abbrev pub escrowed : List TxRow → ℤ
escrowed rows = sum_where TransactionStatus.held (λ r. r.amount) rows

-- The money of the transactions that are not refunded.
abbrev pub kept : List TxRow → ℤ
kept [] = pos 0
kept (r ∷ rows) = (if r.status == TransactionStatus.refunded then pos 0 else r.amount) +ℤ kept rows

regroup :
    (a b c k x y z : ℤ) → a +ℤ b +ℤ c ≡ k → (a +ℤ x) +ℤ (b +ℤ y) +ℤ (c +ℤ z) ≡ k +ℤ (x +ℤ y +ℤ z)
regroup a b c k x y z h = grind int_laws

-- One row is counted once, whatever its status.
row_money :
    (s : TransactionStatus) (amount commission : ℤ)
    → (if s == TransactionStatus.released then amount -ℤ commission else pos 0)
        +ℤ (if s == TransactionStatus.released then commission else pos 0)
        +ℤ (if s == TransactionStatus.held then amount else pos 0)
      ≡ (if s == TransactionStatus.refunded then pos 0 else amount)
row_money TransactionStatus.held amount commission = grind int_laws
row_money TransactionStatus.released amount commission = grind int_laws
row_money TransactionStatus.refunded amount commission = grind int_laws

no_money : pos 0 +ℤ pos 0 +ℤ pos 0 ≡ pos 0
no_money = grind int_laws

-- What is credited to executors, the service's fees and what is still held add up to the money of
-- the transactions that are not refunded: no amount is counted twice, and none is missing.
pub money_stats-kept :
    (rows : List TxRow)
    → let (credit, fee, held) = money_stats rows in credit +ℤ fee +ℤ held ≡ kept rows
unfolding money_stats
money_stats-kept [] = no_money
money_stats-kept (r ∷ rows) =
    regroup _ _ _ _ _ _ _ (row_money r.status r.amount r.platform_commission)
    ∙ ap (λ k. (if r.status == TransactionStatus.refunded then pos 0 else r.amount) +ℤ k)
        (money_stats-kept rows)

update-kept :
    (now : Time) (p : TxRow → Bool) (rows : List TxRow)
    → kept (update_where (λ r. p r && is_held r) (released_row now) rows) ≡ kept rows
update-kept now p [] = refl
update-kept now p (r ∷ rows) = ground (arith, update-kept now p rows)

-- A release moves money and makes none: the executor's credit, the fees and what is still held add
-- up to the same sum after it as before.
pub release-money :
    (now : Time) (order payee : String) (rows : List TxRow)
    → let (credit, fee, held) = money_stats rows in
      let (credit', fee', held') = money_stats (release now order payee rows).1 in
      credit' +ℤ fee' +ℤ held' ≡ credit +ℤ fee +ℤ held
unfolding release
release-money now order payee rows =
    money_stats-kept _ ∙ update-kept now (is_pair order payee) rows ∙ sym (money_stats-kept rows)
