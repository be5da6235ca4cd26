-- ===== src/Jwtx/Tokens.antt =====
-- A token that was signed is read back.
use Prim.Native.String
use text.Mathlib.TextLemmas.{append_assoc, cons-append}
use yukbor_backend.Common.{
  ℕ, String, some, [], ◌∷◌, string_Eq, leb, ◌≡◌, refl, ◌∙◌, ap, arith, ==_refl, if◌then◌else◌,
}
use yukbor_backend.Common.Exec.{ok, err}
use yukbor_backend.Common.Text.{split, Lacks, split-append, split-Lacks}
use yukbor_backend.Jwtx.{Claims, Codec, TokenError, header, dotted, sign, verify}

-- What the standard library does with these claims: base64 has no full stop, and JSON is read back.
pub record CodecLaws (codec : Codec) (c : Claims) : Type 0 where
  pub encode_lacks : Lacks 46 (codec.encode c)
  pub mac_lacks : (secret input : String) → Lacks 46 (codec.mac secret input)
  pub decode-encode : codec.decode (codec.encode c) ≡ some c

header-Lacks : Lacks 46 header
header-Lacks = ground arith

split-sign :
    (codec : Codec) (secret : String) (c : Claims) (laws : CodecLaws codec c)
    → split (sign codec secret c) 46
      ≡ header ∷ codec.encode c ∷ codec.mac secret (dotted header (codec.encode c)) ∷ []
unfolding sign
split-sign codec secret c laws =
    let body = codec.encode c in
    let m = codec.mac secret (dotted header body) in
    ap (λ s. split s 46)
      (append_assoc header (String.◌∷◌ "." body) (String.◌∷◌ "." m)
        ∙ ap (String.◌++◌ header) (cons-append "." body (String.◌∷◌ "." m)))
    ∙ split-append header "." (dotted body m) 46 refl header-Lacks
    ∙ ap (λ parts. header ∷ parts)
        (split-append body "." m 46 refl laws.encode_lacks
          ∙ ap (λ parts. body ∷ parts) (split-Lacks m 46 (laws.mac_lacks secret _)))

-- A token that was signed with a secret is read back under it with all its claims until it
-- expires, and refused from then on. Base64 writes no full stop, and JSON is read back.
pub verify-sign :
    (codec : Codec) (secret : String) (now : ℕ) (c : Claims) (laws : CodecLaws codec c)
    → verify codec secret now (sign codec secret c)
      ≡ (if leb c.exp now then err TokenError.expired else ok c)
unfolding verify
verify-sign codec secret now c laws = ground (
  arith,
  split-sign codec secret c laws,
  laws.decode-encode,
  ==_refl (codec.mac secret (dotted header (codec.encode c))),
)
