-- ===== src/Httpx/Mux/Found.antt =====
-- The route that is found is one of the table, and it fits the path.
use yukbor_backend.Common.{
  String, Option, none, some, Bool, true, false, List, [], ◌∷◌, ◌≡◌, refl, subst, inl, inr, arith,
  ◌==◌, string_Eq, if◌then◌else◌, all, Bool-cases, Option-cases, eq_of_==,
}
use yukbor_backend.Common.Table.{select}
use yukbor_backend.Httpx.Mux.{Segment, Route, match, beats, prefer, best, find, has_method, or_else}

module _ {E : Type 0} (p : Route E → Bool) (parts : List String) where
  -- A route that passes the test and fits.
  pub record Fits (r : Route E) : Type 0 where
    pub passes : p r ≡ true
    pub values : List String
    pub fits : match r.pattern parts ≡ some values

  -- What is found, if anything is.
  abbrev pub FoundFits : Option (Route E) → Type 0
  FoundFits none = Unit
  FoundFits (some r) = Fits r

  prefer-Fits : (r : Route E) (o : Option (Route E)) → Fits r → FoundFits o → Fits (prefer r o)
  unfolding prefer
  prefer-Fits r none f g = f
  prefer-Fits r (some q) f g = elim (Bool-cases (beats r.pattern q.pattern)) [
    | inl first ↦ rw first f
    | inr second ↦ rw second g
  ]

  best-Fits : (routes : List (Route E)) → all p routes ≡ true → FoundFits (best parts routes)
  unfolding best
  best-Fits [] h = tt
  best-Fits (r ∷ routes) h = elim (Option-cases (match r.pattern parts)) [
    | inl misses ↦ rw (misses, FoundFits) (best-Fits routes (ground arith))
    | inr (vs, fits) ↦
        rw (fits, FoundFits)
          (prefer-Fits r (best parts routes)
            (record { passes = ground arith; values = vs; fits = fits })
            (best-Fits routes (ground arith)))
  ]

  or_else-Fits :
      (o next : Option (Route E)) → FoundFits o → FoundFits next → FoundFits (or_else o next)
  or_else-Fits none next f g = g
  or_else-Fits (some r) next f g = f

  if-Fits : (c : Bool) (o : Option (Route E)) → FoundFits o → FoundFits (if c then o else none)
  if-Fits true o f = f
  if-Fits false o f = tt

  all-select :
      (q : Route E → Bool) (routes : List (Route E))
      → all p routes ≡ true
      → all p (select q routes) ≡ true
  all-select q [] h = refl
  all-select q (r ∷ routes) h = ground (arith, all-select q routes)

  find-Fits :
      (method : String) (routes : List (Route E))
      → all p routes ≡ true
      → FoundFits (find method parts routes)
  unfolding find
  find-Fits method routes h = or_else-Fits _ _ (with_method (some method)) (
      or_else-Fits _ _ (if-Fits (method == "HEAD") _ (with_method (some "GET"))) (with_method none))
    where
      with_method : (m : Option String) → FoundFits (best parts (select (has_method m) routes))
      with_method m = best-Fits (select (has_method m) routes) (all-select (has_method m) routes h)

  -- Every route that is found fits the path, and passes each test that all routes pass.
  pub found-Fits :
      (method : String) (routes : List (Route E)) (r : Route E)
      → all p routes ≡ true
      → find method parts routes ≡ some r
      → Fits r
  found-Fits method routes r h e = subst FoundFits e (find-Fits method routes h)

-- What the first part of a pattern is.
abbrev pub leads : (String → Bool) → List Segment → Bool
leads q (Segment.lit s ∷ _) = q s
leads q _ = false

-- A path that fits a pattern has its first part.
pub fits_first :
    (q : String → Bool) (pattern : List Segment) (parts values : List String)
    → leads q pattern ≡ true
    → match pattern parts ≡ some values
    → (first : String) × (more : List String) × (parts ≡ first ∷ more) × (q first ≡ true)
unfolding match
fits_first q [] parts values h fits = cc
fits_first q (Segment.param ∷ pattern) parts values h fits = cc
fits_first q (Segment.rest ∷ pattern) parts values h fits = cc
fits_first q (Segment.lit s ∷ pattern) [] values h fits = cc
fits_first q (Segment.lit s ∷ pattern) (x ∷ parts) values h fits = elim (Bool-cases (s == x)) [
  | inl same ↦ (x, parts, refl, subst (λ (t : String). q t ≡ true) (eq_of_== s x same) h)
  | inr other ↦ absurd (ground arith)
]
