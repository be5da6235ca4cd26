-- ===== src/Wallet/Ledger/Lifecycle.antt =====
-- Each statement of the store keeps the pairs unique, and settles a row only from being held.

use yukbor_backend.Common.{
  String, some, Bool, true, ◌&&◌, List, ◌==◌, string_Eq, ◌≡◌, refl, inl, inr, arith, ◌∙◌,
  Bool-cases,
}
use yukbor_backend.Models.Enums.{Time, TransactionStatus, transaction_status_Eq}
use yukbor_backend.Wallet.Store.{
  TxRow, NewTx, is_pair, is_held, released_row, refunded_row, create, release, refund_order,
  new_row, existing,
}
use yukbor_backend.Wallet.Ledger.Pairs.{
  PairsAreUnique, row_of, Settles, same, paid, returned, row_of-update, update-PairsAreUnique,
  row_of-append, append-PairsAreUnique,
}

pub create-PairsAreUnique :
    (id : String) (now : Time) (n : NewTx) (rows : List TxRow)
    → PairsAreUnique rows
    → PairsAreUnique (create id now n rows).1
unfolding create existing new_row
create-PairsAreUnique id now n rows h =
    ground (arith, append-PairsAreUnique rows (new_row id now n) h)

pub release-PairsAreUnique :
    (now : Time) (order payee : String) (rows : List TxRow)
    → PairsAreUnique rows
    → PairsAreUnique (release now order payee rows).1
unfolding release
release-PairsAreUnique now order payee rows h =
    update-PairsAreUnique (λ r. is_pair order payee r && is_held r) (released_row now) (λ r. refl)
      (λ r. refl) rows h

pub refund_order-PairsAreUnique :
    (now : Time) (order : String) (rows : List TxRow)
    → PairsAreUnique rows
    → PairsAreUnique (refund_order now order rows).1
unfolding refund_order
refund_order-PairsAreUnique now order rows h =
    update-PairsAreUnique (λ r. r.order_id == order && is_held r) (refunded_row now) (λ r. refl)
      (λ r. refl) rows h

-- The row of a pair after the statement, which has at most been settled.
abbrev pub Keeps : String → String → TxRow → List TxRow → Type 0
Keeps order payee r rows = (r' : TxRow) × (row_of order payee rows ≡ some r') × Settles r r'

pub create-Keeps :
    (id : String) (now : Time) (n : NewTx) (order payee : String) (rows : List TxRow) (r : TxRow)
    → row_of order payee rows ≡ some r
    → Keeps order payee r (create id now n rows).1
unfolding create existing new_row
create-Keeps id now n order payee rows r h =
    (r, ground (arith, row_of-append order payee rows (new_row id now n)), same)

held_of_test : (r : TxRow) (b : Bool) → (b && is_held r) ≡ true → r.status ≡ TransactionStatus.held
held_of_test r b h = ground arith

pub release-Keeps :
    (now : Time) (o p order payee : String) (rows : List TxRow) (r : TxRow)
    → row_of order payee rows ≡ some r
    → Keeps order payee r (release now o p rows).1
unfolding release
release-Keeps now o p order payee rows r h =
    let found =
      row_of-update (λ q. is_pair o p q && is_held q) (released_row now) (λ _. refl) (λ _. refl)
        order payee rows in
    elim (Bool-cases (is_pair o p r && is_held r)) [
      | inl due ↦ (released_row now r, found ∙ rw h (rw due refl), paid now (held_of_test r _ due))
      | inr not_due ↦ (r, found ∙ rw h (rw not_due refl), same)
    ]

pub refund_order-Keeps :
    (now : Time) (o order payee : String) (rows : List TxRow) (r : TxRow)
    → row_of order payee rows ≡ some r
    → Keeps order payee r (refund_order now o rows).1
unfolding refund_order
refund_order-Keeps now o order payee rows r h =
    let found =
      row_of-update (λ q. q.order_id == o && is_held q) (refunded_row now) (λ _. refl) (λ _. refl)
        order payee rows in
    elim (Bool-cases (r.order_id == o && is_held r)) [
      | inl due ↦
          (refunded_row now r, found ∙ rw h (rw due refl), returned now (held_of_test r _ due))
      | inr not_due ↦ (r, found ∙ rw h (rw not_due refl), same)
    ]
