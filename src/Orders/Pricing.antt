-- ===== src/Orders/Pricing.antt =====
-- internal/orders/pricing.go: the price of an order, and its split over the legs.
pub mod Split
pub mod Exact
use yukbor_backend.Common.{
  String, Option, none, some, List, [], ◌∷◌, string_Eq, if◌then◌else◌, length,
}
use yukbor_backend.Common.Int.{ℤ, pos, ltb_ℤ, leb_ℤ}
use yukbor_backend.Common.Word.{add64, sub64, mul64, div64}
use yukbor_backend.Common.GoMap.{GoMap, get_or, set, get?}
use yukbor_backend.Models.Enums.{Leg, leg_Eq, EquipmentType, equipment_type_text, Float64}
use yukbor_backend.Models.Order.{CargoDetails, EquipmentRequest, LaborRequest}
use Prim.Native.String

abbrev pub tariff_transport_per_ton : String
tariff_transport_per_ton = "transport_per_ton"

abbrev pub tariff_labor_hour_per_worker : String
tariff_labor_hour_per_worker = "labor_hour_per_worker"

abbrev pub tariff_minimum_order : String
tariff_minimum_order = "minimum_order"

abbrev pub Tariffs : Type 0
Tariffs = GoMap String ℤ

-- `Tariffs.get`
abbrev pub tariff : Tariffs → String → ℤ → ℤ
tariff t key fallback = get_or (get? key t) fallback

unfoldable pub equipment_tariff_key : EquipmentType → String
equipment_tariff_key e = String.◌++◌ "equipment_hour_" (equipment_type_text e)

pub record PriceInput : Type 0 where
  pub cargo : Option CargoDetails
  pub equipment : Option EquipmentRequest
  pub labor : Option LaborRequest

pub record Breakdown : Type 0 where
  pub transport : ℤ
  pub equipment : ℤ
  pub labor : ℤ

-- `Breakdown.Sum`
unfoldable pub breakdown_sum : Breakdown → ℤ
breakdown_sum b = add64 (add64 b.transport b.equipment) b.labor

-- `Breakdown.For`
unfoldable pub price_for : Breakdown → Leg → ℤ
price_for b Leg.transport = b.transport
price_for b Leg.equipment = b.equipment
price_for b Leg.labor = b.labor
price_for b (Leg.other _) = pos 0

equipment_cost : Tariffs → Option EquipmentRequest → ℤ
unfolding equipment_tariff_key
equipment_cost t none = pos 0
equipment_cost t (some e) =
    mul64 e.duration_hours (tariff t (equipment_tariff_key e.equipment_type) (pos 250000))

labor_cost : Tariffs → Option LaborRequest → ℤ
labor_cost t none = pos 0
labor_cost t (some l) =
    mul64 (mul64 l.workers_count l.duration_hours)
      (tariff t tariff_labor_hour_per_worker (pos 45000))

-- `round_product w n` is `int64(math.Round(w * float64(n)))`, which the floating point unit computes.
module _ (round_product : Float64 → ℤ → ℤ) where
  transport_cost : Tariffs → Option CargoDetails → ℤ
  transport_cost t none = pos 0
  transport_cost t (some c) =
      round_product c.weight_tons (tariff t tariff_transport_per_ton (pos 80000))

  unfoldable pub estimate : Tariffs → PriceInput → Breakdown
  unfolding transport_cost equipment_cost labor_cost
  estimate t input = record {
    transport = transport_cost t input.cargo;
    equipment = equipment_cost t input.equipment;
    labor = labor_cost t input.labor;
  }

-- The order price: the sum, or the minimum where that is not below it.
unfoldable pub total_price : Tariffs → Breakdown → ℤ
unfolding breakdown_sum
total_price t b =
    let minimum = tariff t tariff_minimum_order (pos 100000) in
    let sum = breakdown_sum b in if ltb_ℤ minimum sum then sum else minimum

-- `len(legs)` as an int64
abbrev pub leg_count : List Leg → ℤ
leg_count legs = pos (length legs)

-- The loop that fills `weights` and adds them up.
unfoldable pub weigh : Breakdown → List Leg → GoMap Leg ℤ × ℤ → GoMap Leg ℤ × ℤ
weigh b [] acc = acc
weigh b (leg ∷ legs) (weights, weight_sum) =
    let w = price_for b leg in weigh b legs (set leg w weights, add64 weight_sum w)

-- The loop of `largest` over `legs[1:]`.
unfoldable pub heaviest : GoMap Leg ℤ → Leg → List Leg → Leg
heaviest weights best [] = best
heaviest weights best (leg ∷ legs) =
    heaviest weights
      (if ltb_ℤ (get_or (get? best weights) (pos 0)) (get_or (get? leg weights) (pos 0))
        then leg
        else best)
      legs

-- `out[leg] += extra`
abbrev pub add_to : Leg → ℤ → GoMap Leg ℤ → GoMap Leg ℤ
add_to leg extra out = set leg (add64 (get_or (get? leg out) (pos 0)) extra) out

-- The loop that gives each leg the same share.
unfoldable pub share_evenly : ℤ → List Leg → GoMap Leg ℤ → GoMap Leg ℤ
share_evenly share [] out = out
share_evenly share (leg ∷ legs) out = share_evenly share legs (set leg share out)

-- The loop that gives each leg its part, and adds up what it gave.
unfoldable pub share_by_weight : ℤ → GoMap Leg ℤ → ℤ → List Leg → GoMap Leg ℤ × ℤ → GoMap Leg ℤ × ℤ
share_by_weight total weights weight_sum [] acc = acc
share_by_weight total weights weight_sum (leg ∷ legs) (out, assigned) =
    let part = div64 (mul64 total (get_or (get? leg weights) (pos 0))) weight_sum in
    share_by_weight total weights weight_sum legs (set leg part out, add64 assigned part)

split_weighed : ℤ → Leg → List Leg → GoMap Leg ℤ × ℤ → GoMap Leg ℤ
unfolding heaviest share_evenly share_by_weight
split_weighed total first rest (weights, weight_sum) =
    let legs = first ∷ rest in
    let best = heaviest weights first rest in
    let share = div64 total (leg_count legs) in
    let even =
      add_to best (sub64 total (mul64 share (leg_count legs))) (share_evenly share legs []) in
    let (out, assigned) = share_by_weight total weights weight_sum legs ([], pos 0) in
    if leb_ℤ weight_sum (pos 0) then even else add_to best (sub64 total assigned) out

unfoldable pub split_total : Breakdown → ℤ → List Leg → GoMap Leg ℤ
unfolding weigh split_weighed
split_total b total [] = []
split_total b total (first ∷ rest) =
    split_weighed total first rest (weigh b (first ∷ rest) ([], pos 0))
