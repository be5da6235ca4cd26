-- ===== src/Common/GoMap.antt =====
-- A Go map as the list of its entries, in the order in which the keys were first set.
use mathlib.Core.Path.{◌≡◌, refl}
use mathlib.Core.Option.{Option, none, some}
pub use mathlib.Core.Option.{get_or}
use mathlib.Core.List.{List, [], ◌∷◌}
use native.Mathlib.Omega.{arith}
use yukbor_backend.Common.Tests.{Eq, ◌==◌, if◌then◌else◌}

abbrev pub GoMap {ℓ κ} : Type ℓ → Type κ → Type (ℓ ⊔ κ)
GoMap K V = List (K × V)

module _ {ℓ κ} {K : Type ℓ} {V : Type κ} ⦃e : Eq K⦄ where
  abbrev pub get? : K → GoMap K V → Option V
  get? k [] = none
  get? k ((j, v) ∷ m) = if j == k then some v else get? k m

  abbrev pub set : K → V → GoMap K V → GoMap K V
  set k v [] = (k, v) ∷ []
  set k v ((j, w) ∷ m) = if j == k then (k, v) ∷ m else (j, w) ∷ set k v m

  pub get?-set :
      (k j : K) (v : V) (m : GoMap K V) → get? j (set k v m) ≡ (if k == j then some v else get? j m)
  get?-set k j v [] = refl
  get?-set k j v ((i, w) ∷ m) = ground (arith, get?-set k j v m)
