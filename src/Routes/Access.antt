-- ===== src/Routes/Access.antt =====
-- internal/*/handler.go, `Routes`: what a request needs to get to a handler.
use yukbor_backend.Common.{
  String, some, Bool, true, false, ◌&&◌, ◌||◌, not, List, [], ◌∷◌, ◌≡◌, ◌≢◌, refl, sym, subst, ◌⊎◌,
  inl, inr, arith, ◌==◌, string_Eq, String-discrete, all, eq_of_==,
}
use yukbor_backend.Common.Exec.{ok, pure}
use yukbor_backend.Httpx.Guards.{Claims}
use yukbor_backend.Httpx.Guards.Passed.{
  authed_ok, authed_role_ok, internal_only_ok, authed_or_internal_ok,
}
use yukbor_backend.Httpx.Mux.{Guard, Route, guarded}
use yukbor_backend.Httpx.Mux.Found.{leads, fits_first, found-Fits}
use yukbor_backend.Routes.{
  Service, Endpoint, Request, pass, route_of, routes, auth_routes, orders_routes, wallet_routes,
  notifications_routes, reviews_routes,
}

-- The caller knows the internal token, and there is one.
abbrev pub IsInternal : String → Request → Type 0
IsInternal token req = (token ≢ "") × (req.header ≡ token)

-- The caller has a valid access token, and `Q` holds of its claims.
abbrev pub HasAccess : (Claims → Type 0) → Request → Type 0
HasAccess Q req = (c : Claims) × (req.bearer ≡ some c) × (c.typ ≡ "access") × Q c

-- What a caller showed who got to a handler, by the first part of the path.
pub record Permitted (token : String) (req : Request) (first : String) : Type 0 where
  pub internal : first ≡ "internal" → IsInternal token req
  pub admin : first ≡ "admin" → HasAccess (λ c. c.role ≡ "admin") req
  pub wallet : first ≡ "wallet" → IsInternal token req ⊎ HasAccess (λ _. Unit) req
  pub other :
      first ≢ "internal"
      → first ≢ "wallet"
      → first ≢ "auth"
      → first ≢ "health"
      → first ≢ "ws"
      → HasAccess (λ _. Unit) req

abbrev pub PermittedAt : String → Request → List String → Type 0
PermittedAt token req [] = ⊥
PermittedAt token req (first ∷ _) = Permitted token req first

-- What the guard of a route must be, by the first part of its pattern.
abbrev pub suits : Guard → String → Bool
suits Guard.by_internal first = first == "internal"
suits (Guard.by_role (r ∷ [])) first = r == "admin" && first == "admin"
suits (Guard.by_role _) first = false
suits Guard.by_token first = not (first == "internal") && not (first == "admin")
suits Guard.token_or_internal first = first == "wallet"
suits Guard.unguarded first = first == "health" || (first == "auth" || first == "ws")

abbrev pub is_suited : Route Endpoint → Bool
is_suited r = leads (suits r.guard) r.pattern

pub all_suited : (service : Service) → all is_suited (routes service) ≡ true
unfolding routes auth_routes orders_routes wallet_routes notifications_routes reviews_routes
    String-discrete
all_suited Service.auth = refl
all_suited Service.orders = refl
all_suited Service.wallet = refl
all_suited Service.notifications = refl
all_suited Service.reviews = refl

public_cases :
    (first : String)
    → suits Guard.unguarded first ≡ true
    → (first ≡ "health") ⊎ ((first ≡ "auth") ⊎ (first ≡ "ws"))
public_cases first fit = elim (String-discrete first "health") [
  | yes h ↦ inl h
  | no not_health ↦ elim (String-discrete first "auth") [
    | yes a ↦ inr (inl a)
    | no not_auth ↦ inr (inr (ground arith))
  ]
]

pub clash : (s t first : String) → (s == t) ≡ false → first ≡ s → first ≢ t
clash s t first apart p q = ground arith

abbrev IsElsewhere : String → Type 0
IsElsewhere first = (first ≢ "internal") × (first ≢ "admin")

public_apart :
    (first : String) → suits Guard.unguarded first ≡ true → IsElsewhere first × (first ≢ "wallet")
unfolding String-discrete
public_apart first fit = elim (public_cases first fit) [
  | inl h ↦ (
    (clash "health" "internal" first refl h, clash "health" "admin" first refl h),
    clash "health" "wallet" first refl h,
  )
  | inr (inl h) ↦ (
    (clash "auth" "internal" first refl h, clash "auth" "admin" first refl h),
    clash "auth" "wallet" first refl h,
  )
  | inr (inr h) ↦ (
    (clash "ws" "internal" first refl h, clash "ws" "admin" first refl h),
    clash "ws" "wallet" first refl h,
  )
]

wallet_apart : (first : String) → suits Guard.token_or_internal first ≡ true → IsElsewhere first
unfolding String-discrete
wallet_apart first fit =
    let h : first ≡ "wallet" = eq_of_== first "wallet" fit in
    (clash "wallet" "internal" first refl h, clash "wallet" "admin" first refl h)

internal_apart : (first : String) → suits Guard.by_internal first ≡ true → first ≢ "admin"
unfolding String-discrete
internal_apart first fit = clash "internal" "admin" first refl (eq_of_== first "internal" fit)

admin_apart : (first : String) → first ≡ "admin" → (first ≢ "internal") × (first ≢ "wallet")
unfolding String-discrete
admin_apart first h = (clash "admin" "internal" first refl h, clash "admin" "wallet" first refl h)

module _ {S : Type 0} (token : String) (req : Request) (first : String) (s : S)
    (to e : Endpoint) where
  -- The guard lets nobody through without what the path needs.
  guarded-Permitted :
      (g : Guard)
      → suits g first ≡ true
      → (guarded {S = S} g req.bearer token req.header (λ _. pure to) s).0 ≡ ok e
      → Permitted token req first
  unfolding guarded
  guarded-Permitted Guard.unguarded fit h = record {
    internal = λ f. absurd ((public_apart first fit).0.0 f);
    admin = λ f. absurd ((public_apart first fit).0.1 f);
    wallet = λ f. absurd ((public_apart first fit).1 f);
    other = λ i w a l ws.
        absurd
          (elim (public_cases first fit) [ inl h ↦ l h | inr (inl h) ↦ a h | inr (inr h) ↦ ws h ]);
  }
  guarded-Permitted Guard.by_token fit h =
      let (c, has, typ, _) = authed_ok s e req.bearer _ h in
      record {
        internal = λ f. absurd (ground arith);
        admin = λ f. absurd (ground arith);
        wallet = λ f. inr (c, has, typ, tt);
        other = λ i w a l ws. (c, has, typ, tt);
      }
  guarded-Permitted Guard.token_or_internal fit h = record {
    internal = λ f. absurd ((wallet_apart first fit).0 f);
    admin = λ f. absurd ((wallet_apart first fit).1 f);
    wallet = λ f. elim (authed_or_internal_ok s e token req.header req.bearer _ h) [
      | inl known ↦ inl known
      | inr (c, has, typ) ↦ inr (c, has, typ, tt)
    ];
    other = λ i w a l ws. absurd (ground arith);
  }
  guarded-Permitted Guard.by_internal fit h =
      let known : IsInternal token req = internal_only_ok s e token req.header _ h in
      record {
        internal = λ f. known;
        admin = λ f. absurd (internal_apart first fit f);
        wallet = λ f. inl known;
        other = λ i w a l ws. absurd (ground arith);
      }
  guarded-Permitted (Guard.by_role []) fit h = cc
  guarded-Permitted (Guard.by_role (r ∷ q ∷ roles)) fit h = cc
  guarded-Permitted (Guard.by_role (r ∷ [])) fit h =
      let (c, has, typ, role) = authed_role_ok s e req.bearer r _ h in
      let (not_internal, not_wallet) = admin_apart first (ground arith) in
      record {
        internal = λ f. absurd (not_internal f);
        admin = λ f. (c, has, typ, ground arith);
        wallet = λ f. absurd (not_wallet f);
        other = λ i w a l ws. (c, has, typ, tt);
      }

-- Nobody gets to a handler without what its path needs, in any of the five services: behind
-- /internal/… stands the internal token, which is not the empty one; behind /admin/… a valid access
-- token of an admin; behind /wallet/… one of the internal token and a valid access token; and behind
-- every other path but /auth/…, /health and /ws a valid access token.
pub route-PermittedAt :
    {S : Type 0} (service : Service) (token : String) (req : Request) (r : Route Endpoint) (s : S)
    (to : Endpoint)
    → route_of service req ≡ some r
    → (pass req token r s).0 ≡ ok to
    → PermittedAt token req req.parts
unfolding route_of pass
route-PermittedAt service token req r s to found entered =
    let f =
      found-Fits is_suited req.parts req.method (routes service) r (all_suited service) found in
    let (first, more, at, suited) =
      fits_first (suits r.guard) r.pattern req.parts f.values f.passes f.fits in
    subst (PermittedAt token req) (sym at)
      (guarded-Permitted token req first s r.to to r.guard suited entered)
