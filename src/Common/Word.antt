-- ===== src/Common/Word.antt =====
-- Go's `int64`: arithmetic that wraps around modulo 2^64.
use Prim.Native.Nat.{ℕ, ◌+◌, ◌-◌, ◌*◌, ◌/◌, ◌%◌, ◌≤◌, ◌<◌}
use mathlib.Core.Path.{◌≡◌}
use native.Mathlib.Omega.{arith}
use yukbor_backend.Common.Tests.{ltb, if◌then◌else◌}
use yukbor_backend.Common.Int.{ℤ, pos, negsuc, ◌+ℤ◌, ◌-ℤ◌, ◌*ℤ◌, quot}

-- 2^63 and 2^64
abbrev pub half_range : ℕ
half_range = 9223372036854775808

abbrev pub full_range : ℕ
full_range = 18446744073709551616

-- The integer that a pattern of 64 bits stands for.
abbrev pub signed : ℕ → ℤ
signed n = if ltb n half_range then pos n else negsuc (full_range - 1 - n)

unfoldable pub wrap : ℤ → ℤ
wrap (pos n) = signed (n % full_range)
wrap (negsuc n) = signed (full_range - 1 - n % full_range)

unfoldable pub add64 : ℤ → ℤ → ℤ
unfolding wrap ◌+ℤ◌
add64 a b = wrap (a +ℤ b)

unfoldable pub sub64 : ℤ → ℤ → ℤ
unfolding wrap ◌-ℤ◌
sub64 a b = wrap (a -ℤ b)

unfoldable pub mul64 : ℤ → ℤ → ℤ
unfolding wrap ◌*ℤ◌
mul64 a b = wrap (a *ℤ b)

unfoldable pub div64 : ℤ → ℤ → ℤ
unfolding wrap quot
div64 a b = wrap (quot a b)

-- Where the exact result is a natural number in range, the machine computes it.
pub add64-pos : (a b : ℕ) → a + b < half_range → add64 (pos a) (pos b) ≡ pos (a + b)
unfolding add64
add64-pos a b h = ground arith

pub sub64-pos : (a b : ℕ) → b ≤ a → a < half_range → sub64 (pos a) (pos b) ≡ pos (a - b)
unfolding sub64
sub64-pos a b h k = ground arith

pub mul64-pos : (a b : ℕ) → a * b < half_range → mul64 (pos a) (pos b) ≡ pos (a * b)
unfolding mul64
mul64-pos a b h = ground arith

pub div64-pos : (a b : ℕ) → a < half_range → div64 (pos a) (pos b) ≡ pos (a / b)
unfolding div64
div64-pos a b h = ground arith
