-- ===== src/Orders/Race/Claims.antt =====
-- The legs that are covered by an escrow, or by an accept that is still running.
use yukbor_backend.Common.{
  String, Option, none, some, Bool, true, ◌&&◌, ◌||◌, List, [], ◌∷◌, ◌++◌, ◌≡◌, refl, ◌⊎◌, inl, inr,
  arith, ◌==◌, string_Eq, any, All, Bool-cases,
}
use yukbor_backend.Common.Table.{update_where}
use yukbor_backend.Models.Enums.{Leg, leg_Eq, order_status_Eq}
use yukbor_backend.Orders.Record.{LegRecord}
use yukbor_backend.Orders.Store.{LegRow}
use yukbor_backend.Orders.Escrow.{All-update}
use yukbor_backend.Orders.Race.{Claim}

abbrev pub is_claim : String → Leg → String → Claim → Bool
is_claim order leg executor c =
    (c.request.order_id == order && c.leg == leg) && c.request.payee_id == executor

-- The executor has an escrow, or the accept that claimed the leg for him is still running.
abbrev pub CoveredBy :
    (String → String → Type 0) → List Claim → String → Leg → Option String → Type 0
CoveredBy Has claims order leg none = Unit
CoveredBy Has claims order leg (some x) = Has order x ⊎ (any (is_claim order leg x) claims ≡ true)

abbrev pub IsCovered : (String → String → Type 0) → List Claim → LegRow → Type 0
IsCovered Has claims r = CoveredBy Has claims r.order_id r.entry.leg r.entry.executor_id

any-append : (p : Claim → Bool) (xs ys : List Claim) → any p (xs ++ ys) ≡ (any p xs || any p ys)
any-append p [] ys = refl
any-append p (x ∷ xs) ys = ground (arith, any-append p xs ys)

-- One claim among the others.
pub any-split :
    (p : Claim → Bool) (before after : List Claim) (c : Claim)
    → any p (before ++ c ∷ after) ≡ true
    → (p c ≡ true) ⊎ (any p (before ++ after) ≡ true)
any-split p before after c h = elim (Bool-cases (p c)) [
  | inl fits ↦ inl fits
  | inr not_ ↦ inr (ground (arith, any-append p before (c ∷ after), any-append p before after))
]

pub any-swap :
    (p : Claim → Bool) (before after : List Claim) (c d : Claim)
    → p c ≡ p d
    → any p (before ++ c ∷ after) ≡ true
    → any p (before ++ d ∷ after) ≡ true
any-swap p before after c d same h =
    ground (arith, any-append p before (c ∷ after), any-append p before (d ∷ after))

pub is_claim-eq :
    (order : String) (leg : Leg) (executor : String) (c : Claim)
    → is_claim order leg executor c ≡ true
    → (c.request.order_id ≡ order) × (c.leg ≡ leg) × (c.request.payee_id ≡ executor)
is_claim-eq order leg executor c h = (ground arith, ground arith, ground arith)

pub CoveredBy-map :
    (P Q : String → String → Type 0) (cs ds : List Claim) (order : String) (leg : Leg)
    (executor : Option String)
    → ((x : String) → P order x → Q order x)
    → ((x : String)
        → any (is_claim order leg x) cs ≡ true
        → Q order x ⊎ (any (is_claim order leg x) ds ≡ true))
    → CoveredBy P cs order leg executor
    → CoveredBy Q ds order leg executor
CoveredBy-map P Q cs ds order leg none f g h = tt
CoveredBy-map P Q cs ds order leg (some x) f g (inl p) = inl (f x p)
CoveredBy-map P Q cs ds order leg (some x) f g (inr c) = g x c

pub AllCovered-map :
    (P Q : String → String → Type 0) (cs ds : List Claim) (rows : List LegRow)
    → ((o x : String) → P o x → Q o x)
    → ((o : String) (leg : Leg) (x : String)
        → any (is_claim o leg x) cs ≡ true
        → Q o x ⊎ (any (is_claim o leg x) ds ≡ true))
    → All (IsCovered P cs) rows
    → All (IsCovered Q ds) rows
AllCovered-map P Q cs ds [] f g h = tt
AllCovered-map P Q cs ds (r ∷ rows) f g h = (
  CoveredBy-map P Q cs ds r.order_id r.entry.leg r.entry.executor_id (f r.order_id)
      (g r.order_id r.entry.leg) h.0,
  AllCovered-map P Q cs ds rows f g h.1,
)

-- A write that changes neither the key nor the executor of a leg.
pub same_executors :
    (P : String → String → Type 0) (cs : List Claim) (p : LegRow → Bool) (f : LegRecord → LegRecord)
    (rows : List LegRow)
    → ((l : LegRecord) → (f l).leg ≡ l.leg)
    → ((l : LegRecord) → (f l).executor_id ≡ l.executor_id)
    → All (IsCovered P cs) rows
    → All (IsCovered P cs) (update_where p (λ r. record r { entry = f r.entry }) rows)
same_executors P cs p f rows leg executor h =
    All-update _ _ p _ rows (λ r e c. rw (leg r.entry, executor r.entry) c) (λ r e c. c) h
