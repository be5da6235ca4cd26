-- ===== src/Gateway/Inside.antt =====
-- internal/gateway/proxy.go: what of the services cannot be reached from outside.
use yukbor_backend.Common.{
  String, Option, none, some, Bool, true, false, not, List, [], ◌∷◌, ◌≡◌, ◌≢◌, refl, sym, subst,
  inl, inr, arith, ◌==◌, string_Eq, String-discrete, all, Bool-cases, Option-cases,
}
use yukbor_backend.Httpx.Mux.{Guard, Route, find}
use yukbor_backend.Httpx.Mux.Found.{leads, fits_first, found-Fits}
use yukbor_backend.Routes.{Service, Endpoint, Request, route_of, routes}
use yukbor_backend.Routes.Access.{is_suited, suits, all_suited}
use yukbor_backend.Gateway.{Target, Reply, gateway_routes, handle, targeted, routed, unrouted}

abbrev is_outside : Route Target → Bool
is_outside r = leads (λ s. not (s == "internal")) r.pattern

all_outside : all is_outside gateway_routes ≡ true
unfolding gateway_routes String-discrete
all_outside = refl

-- The path that a service gets does not begin with /internal.
abbrev StartsOutside : List String → Type 0
StartsOutside [] = ⊥
StartsOutside (x ∷ _) = (x == "internal") ≡ false

health_outside : StartsOutside ("health" ∷ [])
unfolding String-discrete
health_outside = refl

targeted-StartsOutside :
    (parts sent : List String) (t : Target) (service : Service)
    → StartsOutside parts
    → targeted parts t ≡ Reply.forwarded service sent
    → StartsOutside sent
targeted-StartsOutside parts sent Target.own service h e = cc
targeted-StartsOutside parts sent (Target.to s) service h e =
    let same : parts ≡ sent = ground arith in subst StartsOutside same h
targeted-StartsOutside parts sent (Target.health_of s) service h e =
    let same : "health" ∷ [] ≡ sent = ground arith in subst StartsOutside same health_outside

routed-StartsOutside :
    (method : String) (parts sent : List String) (service : Service) (otherwise : Reply)
    → ((r : Route Target) → find method parts gateway_routes ≡ some r → StartsOutside parts)
    → (otherwise ≡ Reply.forwarded service sent → ⊥)
    → routed parts (find method parts gateway_routes) otherwise ≡ Reply.forwarded service sent
    → StartsOutside sent
routed-StartsOutside method parts sent service otherwise starts other e =
    elim (Option-cases (find method parts gateway_routes)) [
      | inl no_ ↦ absurd (other (rw no_ at e))
      | inr (r, found) ↦
          targeted-StartsOutside parts sent r.to service (starts r found) (rw found at e)
    ]

unrouted_here :
    (o q : Option (Route Target)) (service : Service) (sent : List String)
    → unrouted o q ≢ Reply.forwarded service sent
unrouted_here (some _) q service sent e = cc
unrouted_here none (some _) service sent e = cc
unrouted_here none none service sent e = cc

found_outside :
    (method : String) (parts : List String) (r : Route Target)
    → find method parts gateway_routes ≡ some r
    → StartsOutside parts
found_outside method parts r found =
    let f = found-Fits is_outside parts method gateway_routes r all_outside found in
    let (first, more, at, outside) = fits_first _ r.pattern parts f.values f.passes f.fits in
    subst StartsOutside (sym at) (ground arith)

handle-StartsOutside :
    (method : String) (parts sent : List String) (service : Service)
    → handle method parts ≡ Reply.forwarded service sent
    → StartsOutside sent
unfolding handle
handle-StartsOutside method parts sent service e = elim (Bool-cases (method == "OPTIONS")) [
  | inl asks ↦ absurd (ground arith)
  | inr no_ ↦
      routed-StartsOutside method parts sent service _ (found_outside method parts)
        (unrouted_here _ _ service sent) (rw no_ at e)
]

internal_first :
    (guard : Guard) (first : String)
    → guard ≡ Guard.by_internal
    → suits guard first ≡ true
    → (first == "internal") ≡ true
internal_first guard first e h = subst (λ g. suits g first ≡ true) e h

-- What stands behind the internal token cannot be reached through the gateway at all, whatever
-- headers a request carries: no request that the gateway passes on gets to a route of a service that
-- has the guard `InternalOnly`.
pub gateway-hides :
    (req : Request) (service : Service) (sent : List String) (r : Route Endpoint)
    → handle req.method req.parts ≡ Reply.forwarded service sent
    → route_of service (record req { parts = sent }) ≡ some r
    → r.guard ≢ Guard.by_internal
unfolding route_of
gateway-hides req service sent r e found internal =
    let f = found-Fits is_suited sent req.method (routes service) r (all_suited service) found in
    let (first, more, at, suited) =
      fits_first (suits r.guard) r.pattern sent f.values f.passes f.fits in
    let outside : StartsOutside (first ∷ more) =
      subst StartsOutside at (handle-StartsOutside req.method req.parts sent service e) in
    cc (outside, internal_first r.guard first internal suited)
