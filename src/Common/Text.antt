-- ===== src/Common/Text.antt =====
-- Go's `strings` package, as the program calls it.
use Prim.Native.Char.{Char, code}
use Prim.Native.Nat.{ℕ}
use Prim.Native.String
use Prim.Native.String.{String}
use mathlib.Core.Path.{◌≡◌, refl}
use mathlib.Core.Bool.{Bool, true, false, ◌&&◌, ◌||◌}
use mathlib.Core.List.{List, [], ◌∷◌}
use native.Mathlib.Omega.{arith}
use text.Mathlib.TextLemmas.{nil-append, cons-append}
use yukbor_backend.Common.Tests.{leb, natb, if◌then◌else◌}

-- `unicode.IsSpace`
unfoldable pub is_space : Char → Bool
is_space c =
    (leb 9 (code c) && leb (code c) 13)
    || (natb (code c) 32
        || natb (code c) 0x85
        || natb (code c) 0xA0
        || natb (code c) 0x1680
        || (leb 0x2000 (code c) && leb (code c) 0x200A)
        || natb (code c) 0x2028
        || natb (code c) 0x2029
        || natb (code c) 0x202F
        || natb (code c) 0x205F
        || natb (code c) 0x3000)

trim_left : String → String
unfolding is_space
trim_left String.[] = String.[]
trim_left (String.◌∷◌ c s) = let rest = trim_left s in if is_space c then rest else String.◌∷◌ c s

-- A space goes if nothing but spaces stands behind it.
keep_before : Char → String → String
unfolding is_space
keep_before c String.[] = if is_space c then String.[] else String.◌∷◌ c String.[]
keep_before c (String.◌∷◌ d s) = String.◌∷◌ c (String.◌∷◌ d s)

trim_right : String → String
unfolding keep_before
trim_right String.[] = String.[]
trim_right (String.◌∷◌ c s) = keep_before c (trim_right s)

-- `strings.TrimSpace`
unfoldable pub trim_space : String → String
unfolding trim_left trim_right
trim_space s = trim_right (trim_left s)

-- A character in front of the first part.
abbrev push_first : Char → List String → List String
push_first c [] = String.◌∷◌ c String.[] ∷ []
push_first c (part ∷ parts) = String.◌∷◌ c part ∷ parts

abbrev is_at : ℕ → Char → Bool
is_at sep c = natb (code c) sep

-- `strings.Split` by one character, given by its code.
unfoldable pub split : String → ℕ → List String
split String.[] sep = String.[] ∷ []
split (String.◌∷◌ c s) sep =
    let parts = split s sep in if is_at sep c then String.[] ∷ parts else push_first c parts

-- The separator is not in the text.
abbrev pub Lacks : ℕ → String → Type 0
Lacks sep String.[] = Unit
Lacks sep (String.◌∷◌ c s) = (is_at sep c ≡ false) × Lacks sep s

-- Splitting finds the first separator again.
pub split-append :
    (s : String) (c : Char) (rest : String) (sep : ℕ)
    → is_at sep c ≡ true
    → Lacks sep s
    → split (String.◌++◌ s (String.◌∷◌ c rest)) sep ≡ s ∷ split rest sep
unfolding split
split-append String.[] c rest sep at lacks = rw (nil-append (String.◌∷◌ c rest)) (ground arith)
split-append (String.◌∷◌ d s) c rest sep at lacks =
    rw (cons-append d s (String.◌∷◌ c rest)) (ground (arith, split-append s c rest sep at lacks.1))

pub split-Lacks : (s : String) (sep : ℕ) → Lacks sep s → split s sep ≡ s ∷ []
unfolding split
split-Lacks String.[] sep lacks = refl
split-Lacks (String.◌∷◌ c s) sep lacks = ground (arith, split-Lacks s sep lacks.1)
