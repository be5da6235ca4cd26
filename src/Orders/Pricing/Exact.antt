-- ===== src/Orders/Pricing/Exact.antt =====
-- The parts of a price add up to the price, where nothing overflows.
use yukbor_backend.Common.{
  ℕ, ◌+◌, ◌-◌, ◌*◌, ◌/◌, ◌<◌, ◌≤◌, false, List, [], ◌∷◌, ◌≡◌, refl, sym, ◌∙◌, subst, arith, ap,
  contains, length, Bool-cases, inl, inr,
}
use native.Mathlib.Nat.{div-mul-le_self}
use yukbor_backend.Common.Int.{ℤ, pos, leb_ℤ}
use yukbor_backend.Common.Word.{
  add64, sub64, mul64, half_range, add64-pos, sub64-pos, mul64-pos, div64-pos,
}
use yukbor_backend.Common.GoMap.{GoMap, get_or, get?, set, get?-set}
use yukbor_backend.Models.Enums.{Leg, leg_Eq}
use yukbor_backend.Orders.Pricing.{
  Breakdown, add_to, share_evenly, share_by_weight, split_weighed, split_total, weigh, heaviest,
  price_for,
}
use yukbor_backend.Orders.Pricing.Split.{
  AreDistinct, AreAbsent, set-AreAbsent, absent_at_first, AddUp, set_new-AddUp, add_to-AddUp,
  weight_of_all, Weighs, share-Given,
}

abbrev pub prices : ℕ → ℕ → ℕ → Breakdown
prices transport equipment labor = record {
  transport = pos transport;
  equipment = pos equipment;
  labor = pos labor;
}

module _ (b : Breakdown) (w : Leg → ℕ) (priced : (leg : Leg) → price_for b leg ≡ pos (w leg)) where
  weigh_sum :
      (legs : List Leg) (weights : GoMap Leg ℤ) (sum : ℕ)
      → sum + weight_of_all w legs < half_range
      → (weigh b legs (weights, pos sum)).1 ≡ pos (sum + weight_of_all w legs)
  unfolding weigh
  weigh_sum [] weights sum small = ap pos (omega arith)
  weigh_sum (leg ∷ legs) weights sum small =
      ap (λ x. (weigh b legs (set leg (price_for b leg) weights, x)).1)
        (ap (λ x. add64 (pos sum) x) (priced leg) ∙ add64-pos sum (w leg) (omega (arith, small)))
      ∙ weigh_sum legs (set leg (price_for b leg) weights) (sum + w leg) (omega (arith, small))
      ∙ ap pos (omega arith)

  weigh_keeps :
      (j : Leg) (legs : List Leg) (weights : GoMap Leg ℤ) (sum : ℤ)
      → contains j legs ≡ false
      → get? j (weigh b legs (weights, sum)).0 ≡ get? j weights
  unfolding weigh
  weigh_keeps j [] weights sum other = refl
  weigh_keeps j (leg ∷ legs) weights sum other =
      weigh_keeps j legs (set leg (price_for b leg) weights) (add64 sum (price_for b leg))
        (ground arith)
      ∙ ground (arith, get?-set leg j (price_for b leg) weights)

  weigh-Weighs :
      (legs : List Leg) (weights : GoMap Leg ℤ) (sum : ℤ)
      → AreDistinct legs
      → Weighs w (weigh b legs (weights, sum)).0 legs
  unfolding weigh
  weigh-Weighs [] weights sum d = tt
  weigh-Weighs (leg ∷ legs) weights sum d = (
    ap (λ o. get_or o (pos 0))
          (weigh_keeps leg legs (set leg (price_for b leg) weights) (add64 sum (price_for b leg))
            d.0)
        ∙ ground (arith, get?-set leg leg (price_for b leg) weights, priced leg),
    weigh-Weighs legs (set leg (price_for b leg) weights) (add64 sum (price_for b leg)) d.1,
  )

share_evenly-AddUp :
    (share : ℕ) (legs : List Leg) (out : GoMap Leg ℤ) (a : ℕ)
    → AreDistinct legs
    → AreAbsent out legs
    → AddUp a out
    → AddUp (a + share * length legs) (share_evenly (pos share) legs out)
unfolding share_evenly
share_evenly-AddUp share [] out a d absent h = subst (λ n. AddUp n out) (grind arith) h
share_evenly-AddUp share (leg ∷ legs) out a d absent h =
    subst (λ n. AddUp n (share_evenly (pos share) legs (set leg (pos share) out))) (grind arith)
      (share_evenly-AddUp share legs (set leg (pos share) out) (a + share) d.1
        (set-AreAbsent leg (pos share) out legs d.0 absent.1)
        (set_new-AddUp leg share a out absent.0 h))

-- What is left over goes to one leg.
rest-AddUp :
    (best : Leg) (n given : ℕ) (parts : GoMap Leg ℤ)
    → given ≤ n
    → n < half_range
    → AddUp given parts
    → AddUp n (add_to best (sub64 (pos n) (pos given)) parts)
rest-AddUp best n given parts le range h =
    subst (λ x. AddUp n (add_to best x parts)) (sym (sub64-pos n given le range))
      (subst (λ m. AddUp m (add_to best (pos (n - given)) parts)) (omega (arith, le))
        (add_to-AddUp best (n - given) given parts (omega (arith, le, range)) h))

quotient_low : (n k : ℕ) → n / k * k ≤ n
quotient_low n k = div-mul-le_self n k

split_weighed-AddUp :
    (w : Leg → ℕ) (weights : GoMap Leg ℤ) (n total : ℕ) (first : Leg) (rest : List Leg)
    → n < half_range
    → n * total < half_range
    → total ≡ weight_of_all w (first ∷ rest)
    → Weighs w weights (first ∷ rest)
    → AreDistinct (first ∷ rest)
    → AddUp n (split_weighed (pos n) first rest (weights, pos total))
unfolding split_weighed
split_weighed-AddUp w weights n total first rest range small sum own d =
    let legs = first ∷ rest in
    let best = heaviest weights first rest in
    let count = length legs in
    let share = n / count in
    let low = quotient_low n count in
    let absent = absent_at_first legs in
    elim (Bool-cases (leb_ℤ (pos total) (pos 0))) [
      | inl e ↦ rw e (
          subst
            (λ q.
              AddUp n (add_to best (sub64 (pos n) (mul64 q (pos count))) (share_evenly q legs [])))
            (sym (div64-pos n count range))
            (subst (λ x. AddUp n (add_to best (sub64 (pos n) x) (share_evenly (pos share) legs [])))
              (sym (mul64-pos share count (omega (arith, low, range))))
              (rest-AddUp best n (share * count) (share_evenly (pos share) legs []) low range (
                subst (λ m. AddUp m (share_evenly (pos share) legs [])) (omega arith)
                  (share_evenly-AddUp share legs [] 0 d absent refl)))))
      | inr e ↦ rw e (
          let g =
            share-Given n total w weights legs [] 0 (ground (arith, e)) range small
              (grind (arith, sum)) own d absent refl in
          subst
            (λ x. AddUp n (
              add_to best (sub64 (pos n) x)
                (share_by_weight (pos n) weights (pos total) legs ([], pos 0)).0))
            (sym g.counted) (rest-AddUp best n g.given _ g.low range g.parts))
    ]

-- The price of a leg by the three prices of a breakdown.
abbrev pub price_of : ℕ → ℕ → ℕ → Leg → ℕ
price_of transport equipment labor Leg.transport = transport
price_of transport equipment labor Leg.equipment = equipment
price_of transport equipment labor Leg.labor = labor
price_of transport equipment labor (Leg.other _) = 0

priced :
    (transport equipment labor : ℕ) (leg : Leg)
    → price_for (prices transport equipment labor) leg
      ≡ pos (price_of transport equipment labor leg)
unfolding price_for
priced transport equipment labor Leg.transport = refl
priced transport equipment labor Leg.equipment = refl
priced transport equipment labor Leg.labor = refl
priced transport equipment labor (Leg.other _) = refl

-- Splitting a price over different legs loses nothing and adds nothing: whatever the roundings are,
-- also where no leg has a price of its own, no executor's part is negative and the parts, added up
-- as natural numbers, are the price. There is at least one leg, the legs' own prices are not
-- negative, and neither their sum nor the price nor the product of the two reaches 2^63.
pub split_total-AddUp :
    (transport equipment labor n : ℕ) (first : Leg) (rest : List Leg)
    → AreDistinct (first ∷ rest)
    → n < half_range
    → weight_of_all (price_of transport equipment labor) (first ∷ rest) < half_range
    → n * weight_of_all (price_of transport equipment labor) (first ∷ rest) < half_range
    → AddUp n (split_total (prices transport equipment labor) (pos n) (first ∷ rest))
unfolding split_total
split_total-AddUp transport equipment labor n first rest d range sum_small small =
    let b = prices transport equipment labor in
    let w = price_of transport equipment labor in
    let known = priced transport equipment labor in
    let legs = first ∷ rest in
    subst (λ sum. AddUp n (split_weighed (pos n) first rest ((weigh b legs ([], pos 0)).0, sum)))
      (sym (weigh_sum b w known legs [] 0 (omega (arith, sum_small))))
      (split_weighed-AddUp w (weigh b legs ([], pos 0)).0 n (0 + weight_of_all w legs) first rest
        range (grind (arith, small)) (omega arith) (weigh-Weighs b w known legs [] (pos 0) d) d)
