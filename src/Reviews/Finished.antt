-- ===== src/Reviews/Finished.antt =====
-- internal/reviews/handler.go, `completed`, over the orders that internal/orders/store.go flattens.
use mathlib.Core.Option
use yukbor_backend.Common.{
  Option, none, some, Bool, true, false, ◌&&◌, List, [], ◌∷◌, all, ◌==◌, ◌≡◌, ◌≢◌, refl, arith, ap,
  sym, ◌∙◌,
}
use yukbor_backend.Models.Enums.{OrderStatus, order_status_Eq, Leg, leg_Eq, Leg-discrete}
use yukbor_backend.Orders.Record
use yukbor_backend.Orders.Record.{LegRecord, OrderRecord, leg_of, flatten}
use yukbor_backend.Reviews
use yukbor_backend.Reviews.{completed}

abbrev pub is_done : LegRecord → Bool
is_done l = l.status == OrderStatus.completed

-- A leg of one of the three kinds.
abbrev is_known : Leg → Bool
is_known Leg.transport = true
is_known Leg.equipment = true
is_known Leg.labor = true
is_known (Leg.other _) = false

-- Legs of the three kinds, and one of a kind: the table's key and its CHECK.
abbrev pub LegsAreDistinct : List LegRecord → Type 0
LegsAreDistinct [] = Unit
LegsAreDistinct (l ∷ legs) =
    (is_known l.leg ≡ true) × (leg_of l.leg legs ≡ none) × LegsAreDistinct legs

abbrev done_or_none : Option LegRecord → Bool
done_or_none none = true
done_or_none (some l) = is_done l

abbrev each_kind : List LegRecord → Bool
each_kind legs =
    done_or_none (leg_of Leg.transport legs)
    && (done_or_none (leg_of Leg.equipment legs) && done_or_none (leg_of Leg.labor legs))

leg_of-first :
    (k : Leg) (l : LegRecord) (legs : List LegRecord) → l.leg ≡ k → leg_of k (l ∷ legs) ≡ some l
unfolding leg_of
leg_of-first k l legs e = ground arith

leg_of-later :
    (k : Leg) (l : LegRecord) (legs : List LegRecord)
    → (l.leg == k) ≡ false
    → leg_of k (l ∷ legs) ≡ leg_of k legs
unfolding leg_of
leg_of-later k l legs e = ground arith

one_more :
    (k : Leg) (l : LegRecord) (legs : List LegRecord)
    → l.leg ≡ k
    → is_known k ≡ true
    → leg_of k legs ≡ none
    → each_kind (l ∷ legs) ≡ is_done l && each_kind legs
unfolding Leg-discrete
one_more Leg.transport l legs e h n = ground (
  arith,
  leg_of-first Leg.transport l legs e,
  leg_of-later Leg.equipment l legs (ground arith),
  leg_of-later Leg.labor l legs (ground arith),
)
one_more Leg.equipment l legs e h n = ground (
  arith,
  leg_of-first Leg.equipment l legs e,
  leg_of-later Leg.transport l legs (ground arith),
  leg_of-later Leg.labor l legs (ground arith),
)
one_more Leg.labor l legs e h n = ground (
  arith,
  leg_of-first Leg.labor l legs e,
  leg_of-later Leg.equipment l legs (ground arith),
  leg_of-later Leg.transport l legs (ground arith),
)
one_more (Leg.other s) l legs e h n = cc

all_by_kind : (legs : List LegRecord) → LegsAreDistinct legs → all is_done legs ≡ each_kind legs
unfolding leg_of
all_by_kind [] h = refl
all_by_kind (l ∷ legs) h =
    ap (λ b. is_done l && b) (all_by_kind legs h.2) ∙ sym (one_more l.leg l legs refl h.0 h.1)

-- The status that the flat order shows is that of the transport leg, or else of the first.
primary_counts :
    (legs : List LegRecord)
    → legs ≢ []
    → each_kind legs ≡ true
    → LegsAreDistinct legs
    → (Record.status_of (Record.primary_leg legs) == OrderStatus.completed) ≡ true
unfolding Record.status_of Record.primary_leg Record.or_first Record.first_leg
primary_counts [] some_leg done h = absurd (some_leg refl)
primary_counts (l ∷ legs) some_leg done h = ground (arith, all_by_kind (l ∷ legs) h)

reads_kinds :
    (t e l : Option LegRecord) (legs : List LegRecord)
    → (done_or_none t && (done_or_none e && done_or_none l) ≡ true
        → (Record.status_of (Record.or_first t legs) == OrderStatus.completed) ≡ true)
    → (Record.status_of (Record.or_first t legs) == OrderStatus.completed)
        && (Reviews.completed_or_none (Option.map (λ x. x.status) e)
            && Reviews.completed_or_none (Option.map (λ x. x.status) l))
      ≡ done_or_none t && (done_or_none e && done_or_none l)
unfolding Reviews.completed_or_none Record.or_first Record.status_of
reads_kinds (some t) none none legs h = refl
reads_kinds (some t) none (some l) legs h = refl
reads_kinds (some t) (some e) none legs h = refl
reads_kinds (some t) (some e) (some l) legs h = refl
reads_kinds none none none legs h = ground arith
reads_kinds none none (some l) legs h = ground arith
reads_kinds none (some e) none legs h = ground arith
reads_kinds none (some e) (some l) legs h = ground arith

-- A review waits for the whole order: what the reviews service reads off the flat order is that
-- every leg of the order is completed, whatever legs it has. The order has a leg, of the three
-- kinds and one of a kind.
pub completed-flatten :
    (rec : OrderRecord)
    → rec.legs ≢ []
    → LegsAreDistinct rec.legs
    → completed (flatten rec) ≡ all is_done rec.legs
unfolding completed flatten Record.primary_leg
completed-flatten rec some_leg h =
    reads_kinds (leg_of Leg.transport rec.legs) (leg_of Leg.equipment rec.legs)
      (leg_of Leg.labor rec.legs) rec.legs (λ done. primary_counts rec.legs some_leg done h)
    ∙ sym (all_by_kind rec.legs h)
