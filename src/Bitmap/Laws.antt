-- ===== src/Bitmap/Laws.antt =====
-- A bitmap is a map from positions to 0 and 1: reads after writes, for every position.
use icix.Prelude.{ℕ, ◌-◌, ◌*◌, ◌/◌, ◌%◌, ◌+◌, ◌^◌, ◌≤◌, ◌<◌, ◌==◌, if◌then◌else◌}
use icix.Prelude.{List, ◌≡◌, ap, ◌∙◌, arith}
use icix.Prelude.{length, length-set, shl32-one}
use icix.Prelude.{bit_and-test, bit_at, bit_at-set_bit, bit_at-clear_bit}
use icix.Bitmap.{mask, set_bitmap, reset_bitmap, get_bitmap, get_bitmap_sz}

mask-eq-pow : (i : ℕ) → i < 2 ^ 31 → mask i ≡ 2 ^ (31 - i % 32)
unfolding mask
mask-eq-pow i h =
    shl32-one _
    ∙ ap (λ t. 2 ^ t) (let e : (31 + 2 ^ 32 - i) % 2 ^ 32 % 32 ≡ 31 - i % 32 = omega arith in e)

-- The bit that position i names.
pub get_bitmap-eq-bit :
    (b : List ℕ) (i : ℕ) → i < 2 ^ 31 → get_bitmap b i ≡ bit_at b (i / 32) (31 - i % 32)
unfolding get_bitmap
get_bitmap-eq-bit b i h = rw (mask-eq-pow i h) (bit_and-test _ (31 - i % 32))

pub get_bitmap-le_one : (b : List ℕ) (i : ℕ) → get_bitmap b i ≤ 1
unfolding get_bitmap
get_bitmap-le_one b i = ground arith

pub length-set_bitmap : (b : List ℕ) (i : ℕ) → length (set_bitmap b i) ≡ length b
unfolding set_bitmap
length-set_bitmap b i = length-set b (i / 32) _

pub length-reset_bitmap : (b : List ℕ) (i : ℕ) → length (reset_bitmap b i) ≡ length b
unfolding reset_bitmap
length-reset_bitmap b i = length-set b (i / 32) _

-- After `set_bitmap` at a position inside the array, that position reads 1 and every other
-- position reads what it read before.
pub get_bitmap-set_bitmap :
    (b : List ℕ) (i j : ℕ)
    → i < 32 * length b
    → i < 2 ^ 31
    → j < 2 ^ 31
    → get_bitmap (set_bitmap b i) j ≡ (if i == j then 1 else get_bitmap b j)
unfolding set_bitmap
get_bitmap-set_bitmap b i j inside hi hj =
    rw (get_bitmap-eq-bit _ j hj, get_bitmap-eq-bit b j hj, mask-eq-pow i hi)
      (ground (arith, bit_at-set_bit b (i / 32) (31 - i % 32) (j / 32) (31 - j % 32) (omega arith)))

-- After `reset_bitmap` at a position inside the array, that position reads 0 and every other
-- position reads what it read before.
pub get_bitmap-reset_bitmap :
    (b : List ℕ) (i j : ℕ)
    → i < 32 * length b
    → i < 2 ^ 31
    → j < 2 ^ 31
    → get_bitmap (reset_bitmap b i) j ≡ (if i == j then 0 else get_bitmap b j)
unfolding reset_bitmap
get_bitmap-reset_bitmap b i j inside hi hj =
    rw (get_bitmap-eq-bit _ j hj, get_bitmap-eq-bit b j hj, mask-eq-pow i hi)
      (ground (
        arith,
        bit_at-clear_bit b (i / 32) (31 - i % 32) (j / 32) (31 - j % 32) (omega arith) (omega arith)
            (omega arith),
      ))

-- For n from 0 on with no overflow of n + 31, `get_bitmap_sz n` is the least number of words that
-- hold n bits.
pub get_bitmap_sz_lem :
    (n k : ℕ) → n < 2 ^ 31 - 31 → (n ≤ 32 * get_bitmap_sz n) × (n ≤ 32 * k → get_bitmap_sz n ≤ k)
unfolding get_bitmap_sz
get_bitmap_sz_lem n k h = (ground arith, λ p. ground arith)
