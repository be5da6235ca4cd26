-- ===== src/Orders/Legs/Progress.antt =====
-- A leg moves forward only.
use yukbor_backend.Common.{ℕ, ◌≤◌, ◌<◌, ◌≡◌, ◌≢◌, true, arith}
use yukbor_backend.Models.Enums.{OrderStatus, order_status_Eq}
use yukbor_backend.Orders.Legs.{can_transition}

-- How far a leg has come. Draft, cancelled, disputed and unknown statuses stand outside the line.
abbrev pub progress : OrderStatus → ℕ
progress OrderStatus.published = 1
progress OrderStatus.matched = 2
progress OrderStatus.accepted = 3
progress OrderStatus.in_progress = 4
progress OrderStatus.loading_in_progress = 5
progress OrderStatus.in_transit = 6
progress OrderStatus.delivered = 7
progress OrderStatus.completed = 8
progress _ = 0

-- The statuses that a leg takes one after the other, each allowed after the one before.
pub data Moves : OrderStatus → OrderStatus → Type 0 where
  here : {s : OrderStatus} → Moves s s
  then : {s t u : OrderStatus} → Moves s t → can_transition t u ≡ true → Moves s u

pub can_transition-progress :
    (s t : OrderStatus) → can_transition s t ≡ true → progress s < progress t
unfolding can_transition
can_transition-progress OrderStatus.published t h = ground arith
can_transition-progress _ t h = ground arith

Moves-progress : {s t : OrderStatus} → Moves s t → progress s ≤ progress t
Moves-progress here = omega arith
Moves-progress (then {t = t} {u = u} m h) =
    omega (arith, Moves-progress m, can_transition-progress t u h)

-- No sequence of allowed moves, with a first move and any number after it, comes back to a
-- status that the leg has left.
pub Moves-no_return : (s t u : OrderStatus) → can_transition s t ≡ true → Moves t u → u ≢ s
Moves-no_return s t u h m e =
    absurd (omega (arith, can_transition-progress s t h, Moves-progress m, ap_progress u s e))
  where
    ap_progress : (u s : OrderStatus) → u ≡ s → progress u ≡ progress s
    ap_progress u s e = cc
