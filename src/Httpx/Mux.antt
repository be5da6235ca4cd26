-- ===== src/Httpx/Mux.antt =====
-- The routes of a service: what the program uses of Go's `http.ServeMux`, and the guard that stands
-- before each handler.
pub mod Found
use mathlib.Core.Option
use yukbor_backend.Common.{
  String, Option, none, some, Bool, true, false, List, [], ◌∷◌, ◌==◌, string_Eq, if◌then◌else◌,
}
use yukbor_backend.Common.Table.{select}
use yukbor_backend.Httpx.Core.{Handler}
use yukbor_backend.Httpx.Guards.{Claims, authed, authed_role, authed_or_internal, internal_only}

-- A part of a pattern: a text, `{name}`, or the end of a pattern with a final slash.
pub data Segment : Type 0 where
  lit : String → Segment
  param rest : Segment

pub data Guard : Type 0 where
  unguarded by_token token_or_internal by_internal : Guard
  by_role : List String → Guard

-- A pattern with its handler `to`; without a method it fits each.
pub record Route (E : Type 0) : Type 0 where
  pub method : Option String
  pub pattern : List Segment
  pub guard : Guard
  pub to : E

-- The values of the parameters, if the parts of a path fit the pattern.
unfoldable pub match : List Segment → List String → Option (List String)
match [] [] = some []
match [] (x ∷ parts) = none
match (Segment.lit s ∷ pattern) [] = none
match (Segment.lit s ∷ pattern) (x ∷ parts) =
    let values = match pattern parts in if s == x then values else none
match (Segment.param ∷ pattern) [] = none
match (Segment.param ∷ pattern) (x ∷ parts) =
    let values = Option.map (λ vs. x ∷ vs) (match pattern parts) in if x == "" then none else values
match (Segment.rest ∷ pattern) [] = none
match (Segment.rest ∷ pattern) (x ∷ parts) = some []

-- Whether the first pattern is the more specific one, where both fit.
unfoldable pub beats : List Segment → List Segment → Bool
beats (Segment.lit s ∷ p) (Segment.lit t ∷ q) = beats p q
beats (Segment.lit s ∷ p) _ = true
beats (Segment.param ∷ p) (Segment.param ∷ q) = beats p q
beats (Segment.param ∷ p) (Segment.rest ∷ q) = true
beats _ _ = false

abbrev pub same_method : Option String → Option String → Bool
same_method none none = true
same_method (some m) (some n) = m == n
same_method _ _ = false

module _ {E : Type 0} where
  -- A route that fits, with its values, against the best of the others.
  unfoldable pub prefer : Route E → Option (Route E) → Route E
  unfolding beats
  prefer r none = r
  prefer r (some q) = if beats r.pattern q.pattern then r else q

  -- The most specific route that fits.
  unfoldable pub best : List String → List (Route E) → Option (Route E)
  unfolding match prefer
  best parts [] = none
  best parts (r ∷ routes) = elim (match r.pattern parts) [
    | none ↦ best parts routes
    | some _ ↦ some (prefer r (best parts routes))
  ]

  abbrev pub has_method : Option String → Route E → Bool
  has_method m r = same_method m r.method

  abbrev pub or_else : Option (Route E) → Option (Route E) → Option (Route E)
  or_else (some r) next = some r
  or_else none next = next

  -- The route of a request: one with its method, or, for HEAD, with GET, or else one without.
  unfoldable pub find : String → List String → List (Route E) → Option (Route E)
  unfolding best
  find method parts routes = or_else (best parts (select (has_method (some method)) routes)) (
      or_else
        (if method == "HEAD" then best parts (select (has_method (some "GET")) routes) else none)
        (best parts (select (has_method none) routes)))

-- The claims that a guard hands on, `none` where the handler reads none, or the refusal. `token` is
-- the service's internal token, and `header` is the request's.
unfoldable pub guarded :
    {S A : Type 0}
    → Guard
    → Option Claims
    → String
    → String
    → (Option Claims → Handler S A)
    → Handler S A
unfolding authed authed_role authed_or_internal internal_only
guarded Guard.unguarded bearer token header next = next none
guarded Guard.by_token bearer token header next = authed bearer λ c. next (some c)
guarded Guard.token_or_internal bearer token header next =
    authed_or_internal token header bearer (next none)
guarded Guard.by_internal bearer token header next = internal_only token header (next none)
guarded (Guard.by_role roles) bearer token header next = authed_role bearer roles λ c. next (some c)
