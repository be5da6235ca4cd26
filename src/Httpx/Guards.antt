-- ===== src/Httpx/Guards.antt =====
-- pkg/httpx/auth.go: the guards of the routes.
pub mod Passed
use yukbor_backend.Common.{
  String, Option, none, some, List, ◌&&◌, ◌||◌, not, ◌==◌, string_Eq, contains, if◌then◌else◌,
}
use yukbor_backend.Common.Exec.{raise}
pub use yukbor_backend.Jwtx.{Claims}
use yukbor_backend.Httpx.Core.{Code, Handler, failure}

-- `Authed`: `bearer` is what `jwtx.FromRequest` returned, `none` where it is an error.
unfoldable pub authed : {S A : Type 0} → Option Claims → (Claims → Handler S A) → Handler S A
authed none next = raise (failure 401 Code.unauthorized)
authed (some claims) next =
    if not (claims.typ == "access") then raise (failure 401 Code.unauthorized) else next claims

-- `AuthedRole`
unfoldable pub authed_role :
    {S A : Type 0} → Option Claims → List String → (Claims → Handler S A) → Handler S A
unfolding authed
authed_role bearer roles next =
    authed bearer λ claims.
      if contains claims.role roles then next claims else raise (failure 403 Code.forbidden)

-- `AuthedOrInternal`: `internal_token` is the service's own, and `header` is the request's. A
-- caller with the token has no claims; the handlers behind this guard read none.
unfoldable pub authed_or_internal :
    {S A : Type 0} → String → String → Option Claims → Handler S A → Handler S A
unfolding authed
authed_or_internal internal_token header bearer next =
    if not (internal_token == "") && header == internal_token then next else authed bearer λ _. next

-- `InternalOnly`
unfoldable pub internal_only : {S A : Type 0} → String → String → Handler S A → Handler S A
internal_only token header next =
    if token == "" || not (header == token) then raise (failure 403 Code.forbidden) else next
