-- ===== src/Httpx/Guards/Passed.antt =====
-- pkg/httpx/auth.go and httpx.go: what a request has shown that a guard lets through.
use yukbor_backend.Common.{
  String, Option, none, some, ◌&&◌, not, [], ◌∷◌, ◌≡◌, ◌≢◌, refl, ◌⊎◌, inl, inr, arith, ◌==◌,
  string_Eq, Bool-cases,
}
use yukbor_backend.Common.Exec.{ok}
use yukbor_backend.Httpx.Core.{Handler}
use yukbor_backend.Httpx.Guards.{Claims, authed, authed_role, authed_or_internal, internal_only}

module _ {S A : Type 0} (s : S) (e : A) where
  pub authed_ok :
      (bearer : Option Claims) (next : Claims → Handler S A)
      → (authed bearer next s).0 ≡ ok e
      → (c : Claims) × (bearer ≡ some c) × (c.typ ≡ "access") × ((next c s).0 ≡ ok e)
  unfolding authed
  authed_ok none next h = cc
  authed_ok (some c) next h = (c, refl, ground arith, ground arith)

  pub authed_role_ok :
      (bearer : Option Claims) (role : String) (next : Claims → Handler S A)
      → (authed_role bearer (role ∷ []) next s).0 ≡ ok e
      → (c : Claims) × (bearer ≡ some c) × (c.typ ≡ "access") × (c.role ≡ role)
  unfolding authed_role
  authed_role_ok bearer role next h =
      let (c, has, typ, entered) = authed_ok bearer _ h in (c, has, typ, ground arith)

  pub internal_only_ok :
      (token header : String) (next : Handler S A)
      → (internal_only token header next s).0 ≡ ok e
      → (token ≢ "") × (header ≡ token)
  unfolding internal_only
  internal_only_ok token header next h = (ground arith, ground arith)

  pub authed_or_internal_ok :
      (token header : String) (bearer : Option Claims) (next : Handler S A)
      → (authed_or_internal token header bearer next s).0 ≡ ok e
      → ((token ≢ "") × (header ≡ token)) ⊎ ((c : Claims) × (bearer ≡ some c) × (c.typ ≡ "access"))
  unfolding authed_or_internal
  authed_or_internal_ok token header bearer next h =
      elim (Bool-cases (not (token == "") && header == token)) [
        | inl known ↦ inl (ground arith, ground arith)
        | inr unknown ↦
            let (c, has, typ, _) = authed_ok bearer (λ _. next) (ground arith) in inr (c, has, typ)
      ]
