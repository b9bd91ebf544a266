-- ===== src/Prelude/Words.antt =====
-- 32-bit words of the i386: a value is its bit pattern, a number below 2 ^ 32. A signed `int` is
-- the pattern of its two's complement.
use Prim.Native.Nat.{ℕ, ◌+◌, ◌-◌, ◌*◌, ◌%◌, ◌^◌}
use mathlib.Core.Bool.{Bool}
use icix.Prelude.Tests.{ltb, leb}

abbrev pub u8 : ℕ → ℕ
u8 n = n % 2 ^ 8

abbrev pub u16 : ℕ → ℕ
u16 n = n % 2 ^ 16

abbrev pub u32 : ℕ → ℕ
u32 n = n % 2 ^ 32

-- The pattern of -1.
abbrev pub minus_one : ℕ
minus_one = 2 ^ 32 - 1

abbrev pub add32 : ℕ → ℕ → ℕ
add32 a b = u32 (a + b)

-- `-` stops at 0, so the modulus is added first.
abbrev pub sub32 : ℕ → ℕ → ℕ
sub32 a b = u32 (a + 2 ^ 32 - b)

abbrev pub mul32 : ℕ → ℕ → ℕ
mul32 a b = u32 (a * b)

-- The complement `~x` of a word below 2 ^ 32.
abbrev pub not32 : ℕ → ℕ
not32 x = 2 ^ 32 - 1 - x

-- The shift instruction of the i386 reads the low five bits of its count.
unfoldable pub shl32 : ℕ → ℕ → ℕ
shl32 x k = u32 (x * 2 ^ (k % 32))

-- Comparison of two patterns as `int`s.
abbrev pub is_neg : ℕ → Bool
is_neg a = leb (2 ^ 31) a

abbrev pub slt : ℕ → ℕ → Bool
slt a b = ltb ((a + 2 ^ 31) % 2 ^ 32) ((b + 2 ^ 31) % 2 ^ 32)
