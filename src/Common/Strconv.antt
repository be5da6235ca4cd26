-- ===== src/Common/Strconv.antt =====
-- Go's `strconv.FormatInt(n, 10)` and `strconv.ParseInt(s, 10, 64)`: money crosses the wire as a
-- decimal string.
use Prim.Native.Char.{Char, code}
use Prim.Native.Nat.{ℕ, zero, suc, ◌+◌, ◌-◌, ◌*◌, ◌/◌, ◌%◌, ◌^◌, ◌≤◌, ◌<◌}
use Prim.Native.String.{String}
use mathlib.Core.Path.{◌≡◌, refl, ◌∙◌, ap}
use mathlib.Core.Logic.{inl, inr}
use mathlib.Core.Bool.{Bool, ◌&&◌}
use mathlib.Core.Option.{Option, none, some}
use native.Mathlib.Omega.{arith}
use native.Mathlib.Nat.{pow-suc}
use yukbor_backend.Common.Tests.{ltb, leb, if◌then◌else◌, Bool-cases, ltb→lt}
use yukbor_backend.Common.Int.{ℤ, pos, negsuc}
use yukbor_backend.Common.Word.{half_range}

unfoldable pub digit : ℕ → Char
digit zero = "0"
digit (suc zero) = "1"
digit (suc (suc zero)) = "2"
digit (suc (suc (suc zero))) = "3"
digit (suc (suc (suc (suc zero)))) = "4"
digit (suc (suc (suc (suc (suc zero))))) = "5"
digit (suc (suc (suc (suc (suc (suc zero)))))) = "6"
digit (suc (suc (suc (suc (suc (suc (suc zero))))))) = "7"
digit (suc (suc (suc (suc (suc (suc (suc (suc zero)))))))) = "8"
digit (suc (suc (suc (suc (suc (suc (suc (suc (suc d))))))))) = "9"

-- The digits of `n` in front of `out`; an `int64` has at most 19.
unfoldable pub format_digits : ℕ → ℕ → String → String
unfolding digit
format_digits zero n out = out
format_digits (suc fuel) n out =
    let rest = format_digits fuel (n / 10) (String.◌∷◌ (digit (n % 10)) out) in
    if ltb n 10 then String.◌∷◌ (digit n) out else rest

unfoldable pub format_int : ℤ → String
unfolding format_digits
format_int (pos n) = format_digits 20 n String.[]
format_int (negsuc n) = String.◌∷◌ "-" (format_digits 20 (n + 1) String.[])

abbrev is_digit : Char → Bool
is_digit c = leb 48 (code c) && leb (code c) 57

unfoldable pub parse_digits : String → ℕ → Option ℕ
parse_digits String.[] n = some n
parse_digits (String.◌∷◌ c s) n =
    let rest = parse_digits s (n * 10 + (code c - 48)) in if is_digit c then rest else none

-- At least one digit.
parse_unsigned : String → Option ℕ
unfolding parse_digits
parse_unsigned String.[] = none
parse_unsigned (String.◌∷◌ c s) = parse_digits (String.◌∷◌ c s) 0

in_range : Option ℕ → Option ℤ
in_range none = none
in_range (some n) = if ltb n half_range then some (pos n) else none

in_range_negative : Option ℕ → Option ℤ
in_range_negative none = none
in_range_negative (some zero) = some (pos 0)
in_range_negative (some (suc n)) = if ltb n half_range then some (negsuc n) else none

-- A sign, then digits; `none` is the syntax error or the range error.
unfoldable pub parse_int : String → Option ℤ
unfolding parse_unsigned in_range in_range_negative
parse_int String.[] = none
parse_int (String.◌∷◌ c s) =
    if leb (code c) 43 && leb 43 (code c)
    then in_range (parse_unsigned s)
    else if leb (code c) 45 && leb 45 (code c)
    then in_range_negative (parse_unsigned s)
    else in_range (parse_unsigned (String.◌∷◌ c s))

code-digit : (d : ℕ) → d < 10 → code (digit d) ≡ 48 + d
unfolding digit
code-digit zero h = refl
code-digit (suc zero) h = refl
code-digit (suc (suc zero)) h = refl
code-digit (suc (suc (suc zero))) h = refl
code-digit (suc (suc (suc (suc zero)))) h = refl
code-digit (suc (suc (suc (suc (suc zero))))) h = refl
code-digit (suc (suc (suc (suc (suc (suc zero)))))) h = refl
code-digit (suc (suc (suc (suc (suc (suc (suc zero))))))) h = refl
code-digit (suc (suc (suc (suc (suc (suc (suc (suc zero)))))))) h = refl
code-digit (suc (suc (suc (suc (suc (suc (suc (suc (suc zero))))))))) h = refl
code-digit (suc (suc (suc (suc (suc (suc (suc (suc (suc (suc d)))))))))) h = absurd (omega arith)

parse_digits-digit :
    (d n : ℕ) (s : String)
    → d < 10
    → parse_digits (String.◌∷◌ (digit d) s) n ≡ parse_digits s (n * 10 + d)
unfolding parse_digits
parse_digits-digit d n s h = ground (arith, code-digit d h)

-- Reading the digits back, before any rest.
parse_digits-format_digits :
    (fuel n : ℕ) (out : String)
    → n < 10 ^ fuel
    → parse_digits (format_digits fuel n out) 0 ≡ parse_digits out n
unfolding format_digits
parse_digits-format_digits zero n out h = ap (parse_digits out) (omega arith)
parse_digits-format_digits (suc fuel) n out h = elim (Bool-cases (ltb n 10)) [
  | inl small ↦
      rw small
        (parse_digits-digit n 0 out (ltb→lt n 10 small) ∙ ap (parse_digits out) (omega arith))
  | inr large ↦ rw large (
      parse_digits-format_digits fuel (n / 10) (String.◌∷◌ (digit (n % 10)) out)
        (omega (arith, pow-suc 10 fuel))
      ∙ parse_digits-digit (n % 10) (n / 10) out (omega arith)
      ∙ ap (parse_digits out) (omega arith))
]

-- The first character of a formatted number is a digit, so it is no sign.
abbrev StartsWithDigit : String → Type 0
StartsWithDigit String.[] = ⊥
StartsWithDigit (String.◌∷◌ c s) = (48 ≤ code c) × (code c ≤ 57)

format_digits-StartsWithDigit :
    (fuel n : ℕ) (out : String) → StartsWithDigit out → StartsWithDigit (format_digits fuel n out)
unfolding format_digits
format_digits-StartsWithDigit zero n out h = h
format_digits-StartsWithDigit (suc fuel) n out h = elim (Bool-cases (ltb n 10)) [
  | inl small ↦ rw small (omega (arith, ltb→lt n 10 small, code-digit n (ltb→lt n 10 small)))
  | inr large ↦ rw large (
      format_digits-StartsWithDigit fuel (n / 10) (String.◌∷◌ (digit (n % 10)) out)
        (omega (arith, code-digit (n % 10) (omega arith))))
]

parse_int_of_StartsWithDigit :
    (s : String) → StartsWithDigit s → parse_int s ≡ in_range (parse_digits s 0)
unfolding parse_int
parse_int_of_StartsWithDigit String.[] h = absurd h
parse_int_of_StartsWithDigit (String.◌∷◌ c s) h = ground arith

format_digits-StartsWithDigit_top : (n : ℕ) → StartsWithDigit (format_digits 20 n String.[])
unfolding format_digits
format_digits-StartsWithDigit_top n = elim (Bool-cases (ltb n 10)) [
  | inl small ↦ rw small (omega (arith, ltb→lt n 10 small, code-digit n (ltb→lt n 10 small)))
  | inr large ↦ rw large (
      format_digits-StartsWithDigit 19 (n / 10) (String.◌∷◌ (digit (n % 10)) String.[])
        (omega (arith, code-digit (n % 10) (omega arith))))
]

in_range-some : (n : ℕ) → n < half_range → in_range (parse_digits String.[] n) ≡ some (pos n)
unfolding in_range parse_digits
in_range-some n h = ground arith

-- A number that is not negative and fits an `int64` survives the wire.
pub parse_int-format_int : (n : ℕ) → n < half_range → parse_int (format_int (pos n)) ≡ some (pos n)
unfolding format_int
parse_int-format_int n h =
    parse_int_of_StartsWithDigit _ (format_digits-StartsWithDigit_top n)
    ∙ ap in_range (parse_digits-format_digits 20 n String.[] (omega arith))
    ∙ in_range-some n h

format_int_test : format_int (negsuc 1203) ≡ "-1204"
unfolding format_int
format_int_test = refl

parse_int_test : parse_int "-1204" ≡ some (negsuc 1203)
unfolding parse_int
parse_int_test = refl
