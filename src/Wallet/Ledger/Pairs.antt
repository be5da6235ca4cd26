-- ===== src/Wallet/Ledger/Pairs.antt =====
-- One row for each pair of an order and a payee, and what happens to that row.
use mathlib.Core.Option
use yukbor_backend.Common.{
  String, Option, none, some, Bool, List, [], ◌∷◌, ◌++◌, string_Eq, if◌then◌else◌, ◌≡◌, refl, arith,
}
use yukbor_backend.Common.Table.{query_row, update_where, query_row-update_where}
use yukbor_backend.Models.Enums.{Time, TransactionStatus, transaction_status_Eq}
use yukbor_backend.Wallet.Store.{TxRow, is_pair, released_row, refunded_row}

-- UNIQUE (order_id, payee_id)
abbrev pub PairsAreUnique : List TxRow → Type 0
PairsAreUnique [] = Unit
PairsAreUnique (r ∷ rows) =
    (query_row (is_pair r.order_id r.payee_id) rows ≡ none) × PairsAreUnique rows

-- The row of a pair.
abbrev pub row_of : String → String → List TxRow → Option TxRow
row_of order payee = query_row (is_pair order payee)

-- What may become of a row: nothing, or it is settled from being held. The parties, the amount and
-- the commission stay.
pub data Settles (r : TxRow) : TxRow → Type 0 where
  same : Settles r r
  paid : (now : Time) → r.status ≡ TransactionStatus.held → Settles r (released_row now r)
  returned : (now : Time) → r.status ≡ TransactionStatus.held → Settles r (refunded_row now r)

module _ (p : TxRow → Bool) (f : TxRow → TxRow)
    (keeps_order : (r : TxRow) → (f r).order_id ≡ r.order_id)
    (keeps_payee : (r : TxRow) → (f r).payee_id ≡ r.payee_id) where
  -- An UPDATE that leaves both ids alone finds each pair where it was.
  pub row_of-update :
      (order payee : String) (rows : List TxRow)
      → row_of order payee (update_where p f rows)
        ≡ Option.map (λ r. if p r then f r else r) (row_of order payee rows)
  row_of-update order payee rows =
      query_row-update_where (is_pair order payee) p f rows
        λ r. ground (arith, keeps_order r, keeps_payee r)

  pub update-PairsAreUnique :
      (rows : List TxRow) → PairsAreUnique rows → PairsAreUnique (update_where p f rows)
  update-PairsAreUnique [] h = tt
  update-PairsAreUnique (r ∷ rows) h = ground (
    arith,
    keeps_order r,
    keeps_payee r,
    update-PairsAreUnique rows h.1,
    row_of-update r.order_id r.payee_id rows,
  )

pub row_of-append :
    (order payee : String) (rows : List TxRow) (r : TxRow)
    → row_of order payee (rows ++ r ∷ [])
      ≡ Option.get_or
          (Option.map some (row_of order payee rows))
          (if is_pair order payee r then some r else none)
row_of-append order payee [] r = ground arith
row_of-append order payee (q ∷ rows) r = ground (arith, row_of-append order payee rows r)

pub append-PairsAreUnique :
    (rows : List TxRow) (r : TxRow)
    → PairsAreUnique rows
    → row_of r.order_id r.payee_id rows ≡ none
    → PairsAreUnique (rows ++ r ∷ [])
append-PairsAreUnique [] r h e = (refl, tt)
append-PairsAreUnique (q ∷ rows) r h e =
    ground (arith, append-PairsAreUnique rows r h.1, row_of-append q.order_id q.payee_id rows r)
