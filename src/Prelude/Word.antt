-- ===== src/Prelude/Word.antt =====
-- Go's int32: an integer in range, with sums and differences that wrap.
use Prim.Native.Nat.{ℕ, ◌-◌, ◌%◌, ◌^◌}
use mathlib.Core.Path.{◌≡◌}
use native.Mathlib.Omega.{arith}
use hedonify.Prelude.Tests.{ltb, if◌then◌else◌}
use hedonify.Prelude.Int.{ℤ, pos, negsuc, ◌+ℤ◌, ◌-ℤ◌, ◌≤ℤ◌}

-- The low 32 bits of the two's complement of an integer.
abbrev bits32 : ℤ → ℕ
bits32 (pos n) = n % 2 ^ 32
bits32 (negsuc n) = 2 ^ 32 - 1 - n % 2 ^ 32

-- The integer that 32 bits stand for.
abbrev signed32 : ℕ → ℤ
signed32 w = if ltb w (2 ^ 31) then pos w else negsuc (2 ^ 32 - w - 1)

-- The conversion `int32(x)`.
unfoldable pub wrap32 : ℤ → ℤ
wrap32 z = signed32 (bits32 z)

unfoldable pub add32 : ℤ → ℤ → ℤ
add32 a b = wrap32 (a +ℤ b)

unfoldable pub sub32 : ℤ → ℤ → ℤ
sub32 a b = wrap32 (a -ℤ b)

-- The values of the type.
abbrev pub IsInt32 : ℤ → Type 0
IsInt32 z = (negsuc (2 ^ 31 - 1) ≤ℤ z) × (z ≤ℤ pos (2 ^ 31 - 1))

pub wrap32_self : (z : ℤ) → IsInt32 z → wrap32 z ≡ z
unfolding wrap32
wrap32_self z h = ground arith

pub add32_wrap : (a b : ℤ) → add32 (wrap32 a) b ≡ wrap32 (a +ℤ b)
unfolding add32 wrap32 ◌+ℤ◌
add32_wrap a b = ground arith

pub sub32_wrap : (a b : ℤ) → sub32 (wrap32 a) b ≡ wrap32 (a -ℤ b)
unfolding sub32 wrap32 ◌-ℤ◌
sub32_wrap a b = ground arith
