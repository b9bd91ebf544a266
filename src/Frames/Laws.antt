-- ===== src/Frames/Laws.antt =====
-- The frame bitmap is a map from frame numbers to 0 and 1.
use icix.Prelude.{ℕ, ◌*◌, ◌/◌, ◌%◌, ◌^◌, ◌<◌, ◌==◌, if◌then◌else◌}
use icix.Prelude.{List, ◌≡◌, ap, ◌∙◌, arith, length, length-set, shl32-one, shl32}
use icix.Prelude.{bit_and-pow, bit_at, bit_at-set_bit, bit_at-clear_bit}
use icix.Frames.{set_frame, clear_frame, test_frame}

-- Whether frame number n is in use.
abbrev pub used : List ℕ → ℕ → ℕ
used frames n = bit_at frames (n / 32) (n % 32)

pub shl32_low : (k : ℕ) → k < 32 → shl32 1 k ≡ 2 ^ k
shl32_low k h = shl32-one k ∙ ap (λ t. 2 ^ t) (let e : k % 32 ≡ k = omega arith in e)

-- `set_frame` at an address inside the bitmap marks the frame of that address and no other.
pub used-set_frame :
    (f : List ℕ) (addr n : ℕ)
    → addr / 0x1000 < 32 * length f
    → used (set_frame f addr) n ≡ (if addr / 0x1000 == n then 1 else used f n)
unfolding set_frame
used-set_frame f addr n inside = rw (shl32_low (addr / 0x1000 % 32) (omega arith)) (
    ground (
      arith,
      bit_at-set_bit f (addr / 0x1000 / 32) (addr / 0x1000 % 32) (n / 32) (n % 32) (omega arith),
    ))

-- `clear_frame` at an address inside the bitmap clears the frame of that address and no other.
pub used-clear_frame :
    (f : List ℕ) (addr n : ℕ)
    → addr / 0x1000 < 32 * length f
    → used (clear_frame f addr) n ≡ (if addr / 0x1000 == n then 0 else used f n)
unfolding clear_frame
used-clear_frame f addr n inside = rw (shl32_low (addr / 0x1000 % 32) (omega arith)) (
    ground (
      arith,
      bit_at-clear_bit f (addr / 0x1000 / 32) (addr / 0x1000 % 32) (n / 32) (n % 32) (omega arith)
          (omega arith) (omega arith),
    ))

-- `test_frame` is the frame's bit, in its place in the word.
pub test_frame-eq-used :
    (f : List ℕ) (addr : ℕ) → test_frame f addr ≡ used f (addr / 0x1000) * 2 ^ (addr / 0x1000 % 32)
unfolding test_frame
test_frame-eq-used f addr =
    rw (shl32_low (addr / 0x1000 % 32) (omega arith)) (bit_and-pow _ (addr / 0x1000 % 32))

pub length-set_frame : (f : List ℕ) (addr : ℕ) → length (set_frame f addr) ≡ length f
unfolding set_frame
length-set_frame f addr = length-set f _ _
