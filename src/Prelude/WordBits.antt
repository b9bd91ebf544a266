-- ===== src/Prelude/WordBits.antt =====
-- Setting and clearing one bit of a 32-bit word, and of one word of an array of words.
use Prim.Native.Nat.{ℕ, ◌*◌, ◌%◌, ◌^◌, ◌≤◌, ◌<◌, bit_and, bit_or}
use mathlib.Core.Path.{◌≡◌, ap}
use mathlib.Core.Logic.{inl, inr}
use mathlib.Core.List.{List}
use native.Mathlib.Omega.{arith}
use native.Mathlib.Nat.{le_refl, pow-le-pow_right, one-le-pow}
use icix.Prelude.Tests.{◌==◌, if◌then◌else◌, Bool-cases, ==_iff}
use icix.Prelude.Lists.{length, get_or, set, get_or-set_self, get_or-set_ne}
use icix.Prelude.Words.{shl32, not32}
use icix.Prelude.Bits.{
  bit, bit-le_one, bit-bit_or, bit-bit_and, bit-pow, bit-complement, bit_and-pow,
}
use icix.Prelude.Bits.{bit_or-lt, bit_and-le}

pub pow-lt-word : (k : ℕ) → k < 32 → 2 ^ k < 2 ^ 32
pow-lt-word k h =
    let le : 2 ^ k ≤ 2 ^ 31 = pow-le-pow_right (omega arith) {i = k} {j = 31} (omega arith) in
    omega (arith, le)

pub shl32-one : (k : ℕ) → shl32 1 k ≡ 2 ^ (k % 32)
unfolding shl32
shl32-one k = omega (arith, pow-lt-word (k % 32) (omega arith))

pub bit-set_bit : (w p q : ℕ) → bit (bit_or w (2 ^ p)) q ≡ (if p == q then 1 else bit w q)
bit-set_bit w p q = ground (arith, bit-bit_or w (2 ^ p) q, bit-pow p q, bit-le_one w q)

pub bit-clear_bit :
    (w p q : ℕ)
    → p < 32
    → q < 32
    → bit (bit_and w (not32 (2 ^ p))) q ≡ (if p == q then 0 else bit w q)
bit-clear_bit w p q hp hq = ground (
  arith,
  bit-bit_and w (not32 (2 ^ p)) q,
  bit-complement 32 (2 ^ p) q (pow-lt-word p hp) hq,
  bit-pow p q,
  bit-le_one w q,
)

pub set_bit-lt : (w p : ℕ) → w < 2 ^ 32 → p < 32 → bit_or w (2 ^ p) < 2 ^ 32
set_bit-lt w p hw hp = bit_or-lt 32 w (2 ^ p) hw (pow-lt-word p hp)

pub clear_bit-lt : (w m : ℕ) → w < 2 ^ 32 → bit_and w m < 2 ^ 32
clear_bit-lt w m hw = omega (arith, bit_and-le w w m (le_refl _))

-- The test `w & mask` against zero reads one bit.
pub bit_and-test : (w p : ℕ) → (if bit_and w (2 ^ p) == 0 then 0 else 1) ≡ bit w p
bit_and-test w p = elim (Bool-cases (bit w p == 0)) [
  | inl e ↦ ground (arith, bit_and-pow w p, ap (λ (t : ℕ). t * 2 ^ p) ((==_iff (bit w p) 0).0 e))
  | inr e ↦
      let one : bit w p ≡ 1 = ground (arith, bit-le_one w p) in
      ground (arith, bit_and-pow w p, ap (λ (t : ℕ). t * 2 ^ p) one, one-le-pow p 2)
]

-- Bit p of word i of an array.
abbrev pub bit_at : List ℕ → ℕ → ℕ → ℕ
bit_at b i p = bit (get_or b i 0) p

pub bit_at-set_bit :
    (b : List ℕ) (i p j q : ℕ)
    → i < length b
    → bit_at (set b i (bit_or (get_or b i 0) (2 ^ p))) j q
      ≡ (if i == j then (if p == q then 1 else bit_at b j q) else bit_at b j q)
bit_at-set_bit b i p j q h = elim (Bool-cases (i == j)) [
  | inl e ↦
      let i≡j : i ≡ j = (==_iff i j).0 e in
      rw (e, ← i≡j, get_or-set_self b i (bit_or (get_or b i 0) (2 ^ p)) 0 h)
        (bit-set_bit (get_or b i 0) p q)
  | inr e ↦ rw (e, get_or-set_ne b i j (bit_or (get_or b i 0) (2 ^ p)) 0 (ground arith))
]

pub bit_at-clear_bit :
    (b : List ℕ) (i p j q : ℕ)
    → i < length b
    → p < 32
    → q < 32
    → bit_at (set b i (bit_and (get_or b i 0) (not32 (2 ^ p)))) j q
      ≡ (if i == j then (if p == q then 0 else bit_at b j q) else bit_at b j q)
bit_at-clear_bit b i p j q h hp hq = elim (Bool-cases (i == j)) [
  | inl e ↦
      let i≡j : i ≡ j = (==_iff i j).0 e in
      rw (e, ← i≡j, get_or-set_self b i (bit_and (get_or b i 0) (not32 (2 ^ p))) 0 h)
        (bit-clear_bit (get_or b i 0) p q hp hq)
  | inr e ↦ rw (e, get_or-set_ne b i j (bit_and (get_or b i 0) (not32 (2 ^ p))) 0 (ground arith))
]
