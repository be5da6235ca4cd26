-- ===== src/Jwtx.antt =====
-- pkg/jwtx/jwtx.go: signed tokens.
pub mod Tokens
use Prim.Native.String
use text.Mathlib.Text.{starts_with}
use yukbor_backend.Common.{
  ℕ, ◌+◌, ◌/◌, String, Option, none, some, Bool, true, false, List, [], ◌∷◌, ◌==◌, string_Eq, leb,
  if◌then◌else◌,
}
use yukbor_backend.Common.Exec.{Result, ok, err}
use yukbor_backend.Common.Text.{split}

-- `exp` and `iat` are seconds.
pub record Claims : Type 0 where
  pub sub : String
  pub role : String
  pub typ : String
  pub exp : ℕ
  pub iat : ℕ

pub data TokenError : Type 0 where
  invalid expired : TokenError

-- What the standard library computes: the MAC of a text under a secret, in base64; the claims as
-- JSON in base64, and back.
pub record Codec : Type 0 where
  pub mac : String → String → String
  pub encode : Claims → String
  pub decode : String → Option Claims

-- The header in base64: it is the same for each token.
abbrev pub header : String
header = "eyJhbGciOiJIUzI1NiIsInR5cCI6IkpXVCJ9"

-- `a + "." + b`
abbrev pub dotted : String → String → String
dotted a b = String.◌++◌ a (String.◌∷◌ "." b)

unfoldable pub sign : Codec → String → Claims → String
sign codec secret c =
    let input = dotted header (codec.encode c) in dotted input (codec.mac secret input)

abbrev in_time : ℕ → Option Claims → Result TokenError Claims
in_time now none = err TokenError.invalid
in_time now (some c) = if leb c.exp now then err TokenError.expired else ok c

verify_parts : Codec → String → ℕ → List String → Result TokenError Claims
verify_parts codec secret now (a ∷ b ∷ c ∷ []) =
    if codec.mac secret (dotted a b) == c
    then in_time now (codec.decode b)
    else err TokenError.invalid
verify_parts codec secret now _ = err TokenError.invalid

-- `Verify`; `now` is in seconds, and 46 is the full stop.
unfoldable pub verify : Codec → String → ℕ → String → Result TokenError Claims
unfolding verify_parts
verify codec secret now token = verify_parts codec secret now (split token 46)

-- An instant in nanoseconds, as `Unix` gives it.
abbrev pub unix : ℕ → ℕ
unix t = t / 1000000000

-- `NewAccess` and `NewRefresh`
unfoldable pub new_access : ℕ → String → String → ℕ → Claims
new_access now user role ttl = record {
  sub = user;
  role = role;
  typ = "access";
  exp = unix (now + ttl);
  iat = unix now;
}

unfoldable pub new_refresh : ℕ → String → String → ℕ → Claims
new_refresh now user role ttl = record {
  sub = user;
  role = role;
  typ = "refresh";
  exp = unix (now + ttl);
  iat = unix now;
}

-- The bearer token of an `Authorization` header.
unfoldable pub from_request : Codec → String → ℕ → String → Result TokenError Claims
unfolding verify
from_request codec secret now authorization =
    if starts_with authorization "Bearer "
    then verify codec secret now (String.slice authorization 7 (String.len authorization))
    else err TokenError.invalid
