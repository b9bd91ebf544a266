-- ===== src/Prelude/Bits.antt =====
-- Facts about `bit_and` and `bit_or` at variables, through the digits of a number.
use Prim.Native.Nat.{ℕ, zero, suc, ◌+◌, ◌-◌, ◌*◌, ◌/◌, ◌%◌, ◌^◌, ◌≤◌, ◌<◌, min, max}
use Prim.Native.Nat.{bit_and, bit_or, digits, bitwise, bit_and-bitwise, bit_or-bitwise}
use mathlib.Core.Path.{◌≡◌, refl, sym, ap, ◌∙◌}
use native.Mathlib.Omega.{arith}
use native.Mathlib.Decide.{ℕ_discrete}
use native.Mathlib.Nat.{le_refl, pow-suc, one-le-pow, mod-lt, div-add-mod}
use native.Mathlib.Nat.{add-mul-mod_self_right, mod-eq_of_lt}
use icix.Prelude.Tests.{◌==◌, if◌then◌else◌}

-- One more round than the number needs adds nothing, so any fuel from the number on gives `bitwise`.
module _ (z : ℕ → ℕ) (f : ℕ → ℕ → ℕ) where
  extra_round : (fuel x y : ℕ) → x ≤ fuel → digits z f (suc fuel) x y ≡ digits z f fuel x y
  extra_round zero zero y h = refl
  extra_round zero (suc x) y h = absurd (omega arith)
  extra_round (suc fuel) zero y h = refl
  extra_round (suc fuel) (suc x) y h = rw (extra_round fuel (suc x / 2) (y / 2) (omega arith))

  digits-eq-bitwise : (fuel x y : ℕ) → x ≤ fuel → digits z f fuel x y ≡ bitwise z f x y
  digits-eq-bitwise zero x y h =
      let none_left : x ≡ 0 = omega arith in ap (λ t. digits z f t x y) (sym none_left)
  digits-eq-bitwise (suc fuel) x y h = elim (ℕ_discrete x (suc fuel)) [
    | yes e ↦ ap (λ t. digits z f t x y) (sym e)
    | no ne ↦ extra_round fuel x y (omega arith) ∙ digits-eq-bitwise fuel x y (omega arith)
  ]

  bitwise_last :
      (x y : ℕ)
      → f (suc x % 2) (y % 2) + 2 * bitwise z f (suc x / 2) (y / 2) ≡ bitwise z f (suc x) y
  bitwise_last x y = omega (arith, digits-eq-bitwise x (suc x / 2) (y / 2) (omega arith))

-- The last digit of `x & y` and the others.
pub bit_and_step : (x y : ℕ) → bit_and x y ≡ min (x % 2) (y % 2) + 2 * bit_and (x / 2) (y / 2)
bit_and_step zero y = simp bit_and-bitwise (omega arith)
bit_and_step (suc x) y = simp bit_and-bitwise (sym (bitwise_last (λ t. 0) min x y))

-- The digit of weight 2 ^ k.
pub bit : ℕ → ℕ → ℕ
bit w zero = w % 2
bit w (suc k) = bit (w / 2) k

pub bit-le_one : (w k : ℕ) → bit w k ≤ 1
unfolding bit
bit-le_one w zero = omega arith
bit-le_one w (suc k) = bit-le_one (w / 2) k

-- The last digit of `x | y` and the others.
pub bit_or_step : (x y : ℕ) → bit_or x y ≡ max (x % 2) (y % 2) + 2 * bit_or (x / 2) (y / 2)
bit_or_step zero y = simp bit_or-bitwise (omega arith)
bit_or_step (suc x) y = simp bit_or-bitwise (sym (bitwise_last (λ t. t) max x y))

pub bit-bit_or : (a b k : ℕ) → bit (bit_or a b) k ≡ max (bit a k) (bit b k)
unfolding bit
bit-bit_or a b zero = omega (arith, bit_or_step a b)
bit-bit_or a b (suc k) =
    let e : bit_or a b / 2 ≡ bit_or (a / 2) (b / 2) = omega (arith, bit_or_step a b) in
    rw e (bit-bit_or (a / 2) (b / 2) k)

pub bit-bit_and : (a b k : ℕ) → bit (bit_and a b) k ≡ min (bit a k) (bit b k)
unfolding bit
bit-bit_and a b zero = omega (arith, bit_and_step a b)
bit-bit_and a b (suc k) =
    let e : bit_and a b / 2 ≡ bit_and (a / 2) (b / 2) = omega (arith, bit_and_step a b) in
    rw e (bit-bit_and (a / 2) (b / 2) k)

pub bit-zero : (k : ℕ) → bit 0 k ≡ 0
unfolding bit
bit-zero zero = refl
bit-zero (suc k) = bit-zero k

pub bit-pow : (k j : ℕ) → bit (2 ^ k) j ≡ (if k == j then 1 else 0)
unfolding bit
bit-pow zero zero = refl
bit-pow zero (suc j) = ground (arith, bit-zero j)
bit-pow (suc k) zero = ground (arith, pow-suc 2 k)
bit-pow (suc k) (suc j) =
    let e : 2 ^ suc k / 2 ≡ 2 ^ k = omega (arith, pow-suc 2 k) in
    let ih : bit (2 ^ suc k / 2) j ≡ (if k == j then 1 else 0) = rw e (bit-pow k j) in
    ground (arith, ih)

bit_and-zero_below : (n a : ℕ) → a ≤ n → bit_and a 0 ≡ 0
bit_and-zero_below n zero h = bit_and-bitwise 0 0
bit_and-zero_below zero (suc a) h = absurd (omega arith)
bit_and-zero_below (suc n) (suc a) h =
    omega (arith, bit_and_step (suc a) 0, bit_and-zero_below n (suc a / 2) (omega arith))

-- A mask of one bit picks that bit.
pub bit_and-pow : (w k : ℕ) → bit_and w (2 ^ k) ≡ bit w k * 2 ^ k
unfolding bit
bit_and-pow w zero = omega (arith, bit_and_step w 1, bit_and-zero_below (w / 2) (w / 2) (le_refl _))
bit_and-pow w (suc k) =
    let e : 2 ^ suc k / 2 ≡ 2 ^ k = omega (arith, pow-suc 2 k) in
    let h : bit_and (w / 2) (2 ^ suc k / 2) ≡ bit (w / 2) k * 2 ^ k =
      rw e (bit_and-pow (w / 2) k) in
    omega (
      arith,
      bit_and_step w (2 ^ suc k),
      h,
      pow-suc 2 k,
      ap (λ (t : ℕ). bit (w / 2) k * t) (pow-suc 2 k),
    )

-- The complement below 2 ^ n.
pub bit-complement : (n x k : ℕ) → x < 2 ^ n → k < n → bit (2 ^ n - 1 - x) k ≡ 1 - bit x k
unfolding bit
bit-complement zero x k p q = absurd (omega arith)
bit-complement (suc n) x zero p q = omega (arith, pow-suc 2 n, one-le-pow n 2)
bit-complement (suc n) x (suc k) p q =
    let e : (2 ^ suc n - 1 - x) / 2 ≡ 2 ^ n - 1 - x / 2 =
      omega (arith, pow-suc 2 n, one-le-pow n 2) in
    rw e (bit-complement n (x / 2) k (omega (arith, pow-suc 2 n)) (omega arith))

-- A number whose low n digits are all one, and which has no others, is 2 ^ n - 1.
pub eq-ones_of_bits : (n w : ℕ) → w < 2 ^ n → ((k : ℕ) → k < n → bit w k ≡ 1) → w ≡ 2 ^ n - 1
unfolding bit
eq-ones_of_bits zero w h all = omega arith
eq-ones_of_bits (suc n) w h all =
    let ih : w / 2 ≡ 2 ^ n - 1 =
      eq-ones_of_bits n (w / 2) (omega (arith, pow-suc 2 n)) (λ k p. all (suc k) (omega arith)) in
    omega (arith, ih, all 0 (omega arith), pow-suc 2 n, one-le-pow n 2)

-- Digits do not grow the number past the wider of the two.
pub bit_or-lt : (n a b : ℕ) → a < 2 ^ n → b < 2 ^ n → bit_or a b < 2 ^ n
bit_or-lt zero a b p q =
    let e : a ≡ 0 = omega arith in
    let d : b ≡ 0 = omega arith in rw (e, d) (omega (arith, bit_or-bitwise 0 0))
bit_or-lt (suc n) a b p q =
    let ih : bit_or (a / 2) (b / 2) < 2 ^ n =
      bit_or-lt n (a / 2) (b / 2) (omega (arith, pow-suc 2 n)) (omega (arith, pow-suc 2 n)) in
    omega (arith, bit_or_step a b, pow-suc 2 n, ih)

pub bit_and-le : (n a b : ℕ) → a ≤ n → bit_and a b ≤ a
bit_and-le n zero b h = omega (arith, bit_and-bitwise 0 b)
bit_and-le zero (suc a) b h = absurd (omega arith)
bit_and-le (suc n) (suc a) b h =
    omega (arith, bit_and_step (suc a) b, bit_and-le n (suc a / 2) (b / 2) (omega arith))

bit_or-zero : (n a : ℕ) → a ≤ n → bit_or a 0 ≡ a
bit_or-zero n zero h = bit_or-bitwise 0 0
bit_or-zero zero (suc a) h = absurd (omega arith)
bit_or-zero (suc n) (suc a) h =
    omega (arith, bit_or_step (suc a) 0, bit_or-zero n (suc a / 2) (omega arith))

-- A remainder by 2 ^ (k + 1), one digit at a time.
mod-pow-suc : (k a : ℕ) → a % 2 ^ suc k ≡ a / 2 % 2 ^ k * 2 + a % 2
mod-pow-suc k a =
    let q = a / 2 / 2 ^ k in
    let x = a / 2 % 2 ^ k * 2 + a % 2 in
    let small : x < 2 ^ suc k =
      omega (arith, pow-suc 2 k, mod-lt (a / 2) {m = 2 ^ k} (one-le-pow k 2 (omega arith))) in
    let whole : a ≡ x + q * 2 ^ suc k =
      omega (arith, div-add-mod (a / 2) (2 ^ k), ap (λ (t : ℕ). q * t) (pow-suc 2 k)) in
    ap (λ t. t % 2 ^ suc k) whole ∙ add-mul-mod_self_right x q (2 ^ suc k) ∙ mod-eq_of_lt small

-- Fields that do not overlap: `(q << k) | r` is a sum, and a mask of k ones is a remainder.
pub bit_or_sum : (k q r : ℕ) → r < 2 ^ k → bit_or (q * 2 ^ k) r ≡ q * 2 ^ k + r
bit_or_sum zero q r h =
    let e : r ≡ 0 = omega arith in
    let d : q * 2 ^ 0 ≡ q = omega arith in rw (e, d) (omega (arith, bit_or-zero q q (le_refl _)))
bit_or_sum (suc k) q r h =
    let d : q * 2 ^ suc k ≡ 2 * (q * 2 ^ k) = omega (arith, ap (λ (t : ℕ). q * t) (pow-suc 2 k)) in
    let e : q * 2 ^ suc k / 2 ≡ q * 2 ^ k = omega (arith, d) in
    let ih : bit_or (q * 2 ^ suc k / 2) (r / 2) ≡ q * 2 ^ k + r / 2 =
      rw e (bit_or_sum k q (r / 2) (omega (arith, pow-suc 2 k))) in
    omega (arith, bit_or_step (q * 2 ^ suc k) r, d, ih)

pub bit_and_low : (k a : ℕ) → bit_and a (2 ^ k - 1) ≡ a % 2 ^ k
bit_and_low zero a = omega (arith, bit_and-zero_below a a (le_refl _))
bit_and_low (suc k) a =
    let e : (2 ^ suc k - 1) / 2 ≡ 2 ^ k - 1 = omega (arith, pow-suc 2 k, one-le-pow k 2) in
    let ih : bit_and (a / 2) ((2 ^ suc k - 1) / 2) ≡ a / 2 % 2 ^ k = rw e (bit_and_low k (a / 2)) in
    omega (arith, bit_and_step a (2 ^ suc k - 1), ih, mod-pow-suc k a, pow-suc 2 k, one-le-pow k 2)
