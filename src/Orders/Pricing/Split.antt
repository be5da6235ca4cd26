-- ===== src/Orders/Pricing/Split.antt =====
-- The parts of a price as numbers, and the loop of SplitTotal that gives them, where nothing
-- overflows.
use yukbor_backend.Common.{
  ℕ, ◌+◌, ◌*◌, ◌/◌, ◌<◌, ◌≤◌, none, true, false, List, [], ◌∷◌, ◌≡◌, refl, sym, ◌∙◌, subst, arith,
  ap, contains, ◌==◌, Bool-cases, inl, inr,
}
use native.Mathlib.Nat.{div-mul-le_self}
use yukbor_backend.Common.Int.{ℤ, pos, negsuc}
use yukbor_backend.Common.Word.{add64, mul64, div64, half_range, add64-pos, mul64-pos, div64-pos}
use yukbor_backend.Common.GoMap.{GoMap, get_or, get?, set, get?-set}
use yukbor_backend.Models.Enums.{Leg, leg_Eq}
use yukbor_backend.Orders.Pricing.{add_to, share_by_weight}

abbrev pub part_of : Leg → GoMap Leg ℤ → ℤ
part_of leg parts = get_or (get? leg parts) (pos 0)

-- The legs of an order are different, as the keys of a map are.
abbrev pub AreDistinct : List Leg → Type 0
AreDistinct [] = Unit
AreDistinct (leg ∷ legs) = (contains leg legs ≡ false) × AreDistinct legs

-- None of the legs has a part yet.
abbrev pub AreAbsent : GoMap Leg ℤ → List Leg → Type 0
AreAbsent parts [] = Unit
AreAbsent parts (leg ∷ legs) = (get? leg parts ≡ none) × AreAbsent parts legs

pub set-AreAbsent :
    (leg : Leg) (v : ℤ) (parts : GoMap Leg ℤ) (legs : List Leg)
    → contains leg legs ≡ false
    → AreAbsent parts legs
    → AreAbsent (set leg v parts) legs
set-AreAbsent leg v parts [] other absent = tt
set-AreAbsent leg v parts (j ∷ legs) other absent =
    (ground (arith, get?-set leg j v parts), set-AreAbsent leg v parts legs (ground arith) absent.1)

pub absent_at_first : (legs : List Leg) → AreAbsent [] legs
absent_at_first [] = tt
absent_at_first (leg ∷ legs) = (refl, absent_at_first legs)

-- No part is negative, and together they are this number.
abbrev pub AddUp : ℕ → GoMap Leg ℤ → Type 0
AddUp n [] = n ≡ 0
AddUp n ((_, pos v) ∷ parts) = (m : ℕ) × AddUp m parts × (n ≡ v + m)
AddUp n ((_, negsuc _) ∷ parts) = ⊥

pub set_new-AddUp :
    (leg : Leg) (v a : ℕ) (parts : GoMap Leg ℤ)
    → get? leg parts ≡ none
    → AddUp a parts
    → AddUp (a + v) (set leg (pos v) parts)
set_new-AddUp leg v a [] new h = (a, h, omega arith)
set_new-AddUp leg v a ((j, pos x) ∷ parts) new (m, h, e) = elim (Bool-cases (j == leg)) [
  | inl same ↦ absurd (ground arith)
  | inr other ↦
      rw other (m + v, set_new-AddUp leg v m parts (ground (arith, new, other)) h, omega (arith, e))
]
set_new-AddUp leg v a ((j, negsuc x) ∷ parts) new h = absurd h

add_to_other :
    (leg j : Leg) (e w : ℤ) (parts : GoMap Leg ℤ)
    → (j == leg) ≡ false
    → (j, w) ∷ add_to leg e parts ≡ add_to leg e ((j, w) ∷ parts)
add_to_other leg j e w parts other = ground arith

add_to_same :
    (leg j : Leg) (v x : ℕ) (parts : GoMap Leg ℤ)
    → v + x < half_range
    → (j == leg) ≡ true
    → (leg, pos (v + x)) ∷ parts ≡ add_to leg (pos x) ((j, pos v) ∷ parts)
add_to_same leg j v x parts small same = ground (arith, add64-pos v x small)

pub add_to-AddUp :
    (leg : Leg) (x a : ℕ) (parts : GoMap Leg ℤ)
    → a + x < half_range
    → AddUp a parts
    → AddUp (a + x) (add_to leg (pos x) parts)
add_to-AddUp leg x a [] small h = rw (add64-pos 0 x (omega (arith, small))) (a, h, omega arith)
add_to-AddUp leg x a ((j, pos v) ∷ parts) small (m, h, e) = elim (Bool-cases (j == leg)) [
  | inl same ↦
      subst (AddUp (a + x)) (add_to_same leg j v x parts (omega (arith, small, e)) same)
        (m, h, omega (arith, e))
  | inr other ↦
      subst (AddUp (a + x)) (add_to_other leg j (pos x) (pos v) parts other)
        (m + x, add_to-AddUp leg x m parts (omega (arith, small, e)) h, omega (arith, e))
]
add_to-AddUp leg x a ((j, negsuc v) ∷ parts) small h = absurd h

-- The weights of the legs together.
abbrev pub weight_of_all : (Leg → ℕ) → List Leg → ℕ
weight_of_all w [] = 0
weight_of_all w (leg ∷ legs) = w leg + weight_of_all w legs

part_low :
    (n w all a total : ℕ)
    → 0 < total
    → a * total + n * (w + all) ≤ n * total
    → (a + n * w / total) * total + n * all ≤ n * total
part_low n w all a total p h = grind (arith, div-mul-le_self (n * w) total)

le_by : (a n total : ℕ) → 0 < total → a * total ≤ n * total → a ≤ n
le_by a n total p h = grind arith

-- What the loops of `SplitTotal` need of the weights: each is the natural number `w` says.
abbrev pub Weighs : (Leg → ℕ) → GoMap Leg ℤ → List Leg → Type 0
Weighs w weights [] = Unit
Weighs w weights (leg ∷ legs) = (part_of leg weights ≡ pos (w leg)) × Weighs w weights legs

-- The loop over the weights gives away at most the price.
pub record Given (n : ℕ) (r : GoMap Leg ℤ × ℤ) : Type 0 where
  pub given : ℕ
  pub parts : AddUp given r.0
  pub counted : r.1 ≡ pos given
  pub low : given ≤ n

part_exact :
    (n w total : ℕ)
    → n * w < half_range
    → div64 (mul64 (pos n) (pos w)) (pos total) ≡ pos (n * w / total)
part_exact n w total small =
    ap (λ x. div64 x (pos total)) (mul64-pos n w small) ∙ div64-pos (n * w) total small

product_small :
    (n w all a total : ℕ)
    → n * total < half_range
    → a * total + n * (w + all) ≤ n * total
    → n * w < half_range
product_small n w all a total small h = grind arith

pub share-Given :
    (n total : ℕ) (w : Leg → ℕ) (weights : GoMap Leg ℤ) (legs : List Leg) (out : GoMap Leg ℤ)
    (a : ℕ)
    → 0 < total
    → n < half_range
    → n * total < half_range
    → a * total + n * weight_of_all w legs ≤ n * total
    → Weighs w weights legs
    → AreDistinct legs
    → AreAbsent out legs
    → AddUp a out
    → Given n (share_by_weight (pos n) weights (pos total) legs (out, pos a))
unfolding share_by_weight
share-Given n total w weights [] out a p range small h _ d absent ok_ = record {
  given = a;
  parts = ok_;
  counted = refl;
  low = le_by a n total p (omega (arith, h));
}
share-Given n total w weights (leg ∷ legs) out a p range small h (own, others) d absent ok_ =
    let v = n * w leg / total in
    let low = part_low n (w leg) (weight_of_all w legs) a total p h in
    let fits : a + v ≤ n = le_by (a + v) n total p (omega (arith, low)) in
    let exact : div64 (mul64 (pos n) (part_of leg weights)) (pos total) ≡ pos v =
      ap (λ x. div64 (mul64 (pos n) x) (pos total)) own
      ∙ part_exact n (w leg) total
          (product_small n (w leg) (weight_of_all w legs) a total small h) in
    subst
      (λ part.
        Given n
          (share_by_weight (pos n) weights (pos total) legs (set leg part out, add64 (pos a) part)))
      (sym exact)
      (subst
        (λ sum.
          Given n (share_by_weight (pos n) weights (pos total) legs (set leg (pos v) out, sum)))
        (sym (add64-pos a v (omega (arith, fits, range))))
        (share-Given n total w weights legs (set leg (pos v) out) (a + v) p range small low others
          d.1 (set-AreAbsent leg (pos v) out legs d.0 absent.1)
          (set_new-AddUp leg v a out absent.0 ok_)))
