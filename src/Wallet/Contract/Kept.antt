-- ===== src/Wallet/Contract/Kept.antt =====
-- internal/wallet: the handlers and the table keep the contract.
use mathlib.Core.Option
use yukbor_backend.Common.{
  String, Option, none, some, Bool, ◌&&◌, List, ◌==◌, string_Eq, if◌then◌else◌, ◌≡◌, refl, arith,
  inl, inr, Option-cases, ap,
}
use yukbor_backend.Common.Table.{query_row, query_row-fits, update_where-none}
use yukbor_backend.Common.Exec.{ok, err}
use yukbor_backend.Models.Enums.{Time, TransactionStatus, transaction_status_Eq}
use yukbor_backend.Wallet.Store
use yukbor_backend.Wallet.Store.{
  TxRecord, TxRow, WalletDb, is_pair, is_held, released_row, refunded_row, existing, new_row,
}
use yukbor_backend.Wallet.Ledger.Pairs.{row_of, row_of-update, row_of-append}
use yukbor_backend.Wallet.Contract.{Op, Phase, act, settled_as}

-- What the table says of an escrow.
abbrev pub phase : String → String → List TxRow → Phase
phase order payee rows = Option.map (λ (r : TxRow). r.status) (row_of order payee rows)

-- How a statement of the store ended, seen by one escrow.
abbrev Did : Op → String → String → List TxRow → List TxRow → Type 0
Did op order payee rows rows' =
    phase order payee rows' ≡ act op order payee (phase order payee rows)

-- An UPDATE that settles what is held of some orders and payees.
updated :
    (order payee : String) (to : TransactionStatus) (applies : Bool) (due : TxRow → Bool)
    (mark : TxRow → TxRow) (found found' : Option TxRow)
    → found' ≡ Option.map (λ r. if due r then mark r else r) found
    → ((r : TxRow) → found ≡ some r → due r ≡ (applies && is_held r))
    → ((r : TxRow) → (mark r).status ≡ to)
    → Option.map (λ (r : TxRow). r.status) found' ≡ (
        if applies
        then settled_as to (Option.map (λ (r : TxRow). r.status) found)
        else Option.map (λ (r : TxRow). r.status) found)
updated order payee to applies due mark none found' e d m = ground arith
updated order payee to applies due mark (some r) found' e d m = ground (arith, d r refl, m r)

module _ (now : Time) (o p order payee : String) (rows : List TxRow) where
  pub release-Did : Did (Op.release o p) order payee rows (Store.release now o p rows).1
  unfolding Store.release
  release-Did =
      updated order payee TransactionStatus.released (o == order && p == payee)
        (λ q. is_pair o p q && is_held q) (released_row now) (row_of order payee rows) _
        (row_of-update (λ q. is_pair o p q && is_held q) (released_row now) (λ _. refl) (λ _. refl)
          order payee rows)
        (λ r h. ground (arith, query_row-fits (is_pair order payee) rows r h)) (λ r. refl)

  pub refund_order-Did : Did (Op.refund o) order payee rows (Store.refund_order now o rows).1
  unfolding Store.refund_order
  refund_order-Did =
      updated order payee TransactionStatus.refunded (o == order)
        (λ q. q.order_id == o && is_held q) (refunded_row now) (row_of order payee rows) _
        (row_of-update (λ q. q.order_id == o && is_held q) (refunded_row now) (λ _. refl)
          (λ _. refl) order payee rows)
        (λ r h. ground (arith, query_row-fits (is_pair order payee) rows r h)) (λ r. refl)

pub release_failed :
    (now : Time) (o p order payee : String) (rows : List TxRow) (e : Store.StoreError)
    → (Store.release now o p rows).0 ≡ err e
    → phase order payee (Store.release now o p rows).1 ≡ phase order payee rows
unfolding Store.release existing
release_failed now o p order payee rows e h =
    elim (Option-cases (query_row (λ (q : TxRow). is_pair o p q && is_held q) rows)) [
      | inl gone ↦ ap (phase order payee) (update_where-none _ (released_row now) rows gone)
      | inr (r, due) ↦ absurd (ground arith)
    ]

module _ (id : String) (now : Time) (n : Store.NewTx) (order payee : String)
    (rows : List TxRow) where
  pub create-Did :
      (x : TxRecord × Bool)
      → (Store.create id now n rows).0 ≡ ok x
      → Did (Op.open_escrow n.order_id n.payee_id) order payee rows (Store.create id now n rows).1
  unfolding Store.create existing new_row
  create-Did x h = elim (Option-cases (row_of n.order_id n.payee_id rows)) [
    | inl gone ↦ ground (arith, row_of-append order payee rows (new_row id now n))
    | inr (r, there) ↦ ground arith
  ]

  pub create_failed :
      (e : Store.StoreError)
      → (Store.create id now n rows).0 ≡ err e
      → (Store.create id now n rows).1 ≡ rows
  unfolding Store.create
  create_failed e h = ground arith
