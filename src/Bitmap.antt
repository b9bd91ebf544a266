-- ===== src/Bitmap.antt =====
-- The bitmaps of kernel/kernel/filesystem.c (`set_bitmap`, `reset_bitmap`, `get_bitmap`,
-- `get_bitmap_sz`): arrays of 32-bit words in which bit 0 is the top bit of the first word.
-- The count `31 - i` is negative from i = 32 on, which C leaves undefined; on the i386 the shift
-- instruction reads its low five bits, and that is what is modelled.
pub mod Laws
use icix.Prelude.{ℕ, suc, ◌+◌, ◌/◌, ◌==◌, if◌then◌else◌, List, bit_and, bit_or}
use icix.Prelude.{◌-◌, ◌^◌, is_neg, u32, sub32, shl32, not32, get_or, set}

-- `1 << (31 - i)`
pub mask : ℕ → ℕ
unfolding shl32
mask i = shl32 1 (sub32 31 i)

unfoldable pub set_bitmap : List ℕ → ℕ → List ℕ
unfolding mask
set_bitmap b i = set b (i / 32) (bit_or (get_or b (i / 32) 0) (mask i))

unfoldable pub reset_bitmap : List ℕ → ℕ → List ℕ
unfolding mask
reset_bitmap b i = set b (i / 32) (bit_and (get_or b (i / 32) 0) (not32 (mask i)))

unfoldable pub get_bitmap : List ℕ → ℕ → ℕ
unfolding mask
get_bitmap b i = if bit_and (get_or b (i / 32) 0) (mask i) == 0 then 0 else 1

-- Division of an `int` rounds towards zero.
unfoldable pub get_bitmap_sz : ℕ → ℕ
get_bitmap_sz n = let m = u32 (n + 31) in if is_neg m then sub32 0 ((2 ^ 32 - m) / 32) else m / 32
