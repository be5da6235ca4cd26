-- ===== src/Orders/Store/Claims.antt =====
-- Executors who race for a leg.
use mathlib.Core.Option
use yukbor_backend.Common.{
  ℕ, ◌+◌, ◌≤◌, String, Option, none, some, Bool, false, ◌&&◌, List, [], ◌∷◌, ◌==◌, string_Eq,
  if◌then◌else◌, ◌≡◌, refl, arith, inl, inr, Option-cases,
}
use yukbor_backend.Common.Table.{
  query_row, update_where, count_where, query_row-update_where, query_row-fits, update_where-none,
  count_where-zero,
}
use yukbor_backend.Common.Exec.{Result, ok, err, is_ok}
use yukbor_backend.Models.Enums.{Time, OrderStatus, order_status_Eq, Leg, leg_Eq}
use yukbor_backend.Orders.Store.{
  LegRow, OrdersDb, StoreError, is_leg, is_open, is_null, claimed, claim_leg, explain_claim, touch,
}

-- PRIMARY KEY (order_id, leg)
abbrev pub LegsAreUnique : List LegRow → Type 0
LegsAreUnique [] = Unit
LegsAreUnique (r ∷ rows) = (query_row (is_leg r.order_id r.leg) rows ≡ none) × LegsAreUnique rows

-- What a claim returns, by the row of the leg.
abbrev pub verdict : Option LegRow → Result StoreError (Unit {0})
verdict none = err StoreError.leg_not_found
verdict (some r) =
    if is_null r.executor_id
    then (if r.status == OrderStatus.published then ok tt else err StoreError.not_published)
    else err StoreError.leg_already_taken

-- The row after the claim.
abbrev pub after_claim : Time → String → String → LegRow → LegRow
after_claim now executor name r =
    if is_null r.executor_id && r.status == OrderStatus.published
    then record r { entry = claimed now executor name r.entry }
    else r

count_none :
    (order : String) (leg : Leg) (rows : List LegRow)
    → query_row (is_leg order leg) rows ≡ none
    → count_where (is_open order leg) rows ≡ 0
count_none order leg [] h = refl
count_none order leg (r ∷ rows) h = ground (arith, count_none order leg rows)

-- With one row for the leg, the number of rows that the UPDATE fits is told by that row.
pub count_open :
    (order : String) (leg : Leg) (rows : List LegRow) (r : LegRow)
    → LegsAreUnique rows
    → query_row (is_leg order leg) rows ≡ some r
    → count_where (is_open order leg) rows
      ≡ (if is_null r.executor_id && r.status == OrderStatus.published then 1 else 0)
count_open order leg [] r u h = cc
count_open order leg (q ∷ rows) r u h =
    ground (arith, count_open order leg rows r u.1, count_none order leg rows)

pub row-claim :
    (now : Time) (order : String) (leg : Leg) (executor name : String) (rows : List LegRow)
    → query_row (is_leg order leg) (
        update_where
          (is_open order leg)
          (λ q. record q { entry = claimed now executor name q.entry })
          rows)
      ≡ Option.map
          (λ q.
            if is_open order leg q
            then record q { entry = claimed now executor name q.entry }
            else q)
          (query_row (is_leg order leg) rows)
row-claim now order leg executor name rows =
    query_row-update_where (is_leg order leg) (is_open order leg) _ rows λ q. refl

-- A claim is decided by the leg's row alone: it succeeds exactly where the leg is published and
-- has no executor, and otherwise says that the leg is not there, is taken, or is not published.
-- The order's rows are unique, and the SELECT that explains a miss does not fail.
pub claim_leg-verdict :
    (now : Time) (order : String) (leg : Leg) (executor name : String) (db : OrdersDb)
    → LegsAreUnique db.legs
    → (claim_leg now false order leg executor name db).0
      ≡ verdict (query_row (is_leg order leg) db.legs)
unfolding claim_leg explain_claim
claim_leg-verdict now order leg executor name db u =
    elim (Option-cases (query_row (is_leg order leg) db.legs)) [
      | inl gone ↦
          ground (
            arith,
            count_none order leg db.legs gone,
            row-claim now order leg executor name db.legs,
          )
      | inr (r, found) ↦ ground (
        arith,
        count_open order leg db.legs r u found,
        row-claim now order leg executor name db.legs,
        query_row-fits (is_leg order leg) db.legs r found,
      )
    ]

none_open :
    (now : Time) (order : String) (leg : Leg) (executor name : String) (rows : List LegRow)
    → count_where (is_open order leg) (
        update_where
          (is_open order leg)
          (λ q. record q { entry = claimed now executor name q.entry })
          rows)
      ≡ 0
none_open now order leg executor name [] = refl
none_open now order leg executor name (q ∷ rows) =
    ground (arith, none_open now order leg executor name rows)

-- One attempt: who claims, and when.
pub record Attempt : Type 0 where
  pub now : Time
  pub lost : Bool
  pub executor : String
  pub name : String

is_ok-le-one : {E A : Type 0} (r : Result E A) → is_ok r ≤ 1
is_ok-le-one (ok a) = omega arith
is_ok-le-one (err e) = omega arith

-- How many of the attempts on one leg succeed, made one after the other in any order.
unfoldable pub winners : String → Leg → List Attempt → OrdersDb → ℕ
winners order leg [] db = 0
winners order leg (a ∷ attempts) db =
    let (r, db') = claim_leg a.now a.lost order leg a.executor a.name db in
    is_ok r + winners order leg attempts db'

claim_leg-closed :
    (a : Attempt) (order : String) (leg : Leg) (db : OrdersDb)
    → count_where (is_open order leg) (claim_leg a.now a.lost order leg a.executor a.name db).1.legs
      ≡ 0
unfolding claim_leg touch
claim_leg-closed a order leg db =
    ground (arith, none_open a.now order leg a.executor a.name db.legs)

claim_leg-loses :
    (a : Attempt) (order : String) (leg : Leg) (db : OrdersDb)
    → count_where (is_open order leg) db.legs ≡ 0
    → is_ok (claim_leg a.now a.lost order leg a.executor a.name db).0 ≡ 0
unfolding claim_leg
claim_leg-loses a order leg db h = ground arith

winners_closed :
    (order : String) (leg : Leg) (attempts : List Attempt) (db : OrdersDb)
    → count_where (is_open order leg) db.legs ≡ 0
    → winners order leg attempts db ≡ 0
unfolding winners
winners_closed order leg [] db h = refl
winners_closed order leg (a ∷ attempts) db h = omega (
  arith,
  claim_leg-loses a order leg db h,
  winners_closed order leg attempts (claim_leg a.now a.lost order leg a.executor a.name db).1
      (claim_leg-closed a order leg db),
)

-- However many executors race for a leg, in whatever order their claims arrive and whichever
-- reads fail, at most one of them gets it.
pub winners-le-one :
    (order : String) (leg : Leg) (attempts : List Attempt) (db : OrdersDb)
    → winners order leg attempts db ≤ 1
unfolding winners
winners-le-one order leg [] db = omega arith
winners-le-one order leg (a ∷ attempts) db = omega (
  arith,
  is_ok-le-one (claim_leg a.now a.lost order leg a.executor a.name db).0,
  winners_closed order leg attempts (claim_leg a.now a.lost order leg a.executor a.name db).1
      (claim_leg-closed a order leg db),
)

count-le-one :
    (order : String) (leg : Leg) (rows : List LegRow)
    → LegsAreUnique rows
    → count_where (is_open order leg) rows ≤ 1
count-le-one order leg rows u = elim (Option-cases (query_row (is_leg order leg) rows)) [
  | inl gone ↦ ground (arith, count_none order leg rows gone)
  | inr (r, found) ↦ ground (arith, count_open order leg rows r u found)
]

-- A claim that fails changes no leg.
pub claim_leg-fails :
    (now : Time) (lost : Bool) (order : String) (leg : Leg) (executor name : String) (db : OrdersDb)
    (e : StoreError)
    → LegsAreUnique db.legs
    → (claim_leg now lost order leg executor name db).0 ≡ err e
    → (claim_leg now lost order leg executor name db).1.legs ≡ db.legs
unfolding claim_leg
claim_leg-fails now lost order leg executor name db e u h = ground (
  arith,
  count-le-one order leg db.legs u,
  count_where-zero (is_open order leg) db.legs,
  update_where-none (is_open order leg)
      (λ (q : LegRow). record q { entry = claimed now executor name q.entry }) db.legs,
)

-- A claim writes no leg but by its UPDATE.
pub claim_leg-rows :
    (now : Time) (lost : Bool) (order : String) (leg : Leg) (executor name : String) (db : OrdersDb)
    → (claim_leg now lost order leg executor name db).1.legs
      ≡ update_where
          (is_open order leg)
          (λ q. record q { entry = claimed now executor name q.entry })
          db.legs
unfolding claim_leg touch
claim_leg-rows now lost order leg executor name db = ground arith
