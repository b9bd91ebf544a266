-- ===== src/Printf/Number/Decimal.antt =====
-- The characters of `__int_str` for a number in base 10, and reading them back.
use mathlib.Core.Path.{sym}
use native.Mathlib.Nat.{pow-succ'}
use icix.Prelude.{
  ℕ, zero, suc, ◌+◌, ◌-◌, ◌*◌, ◌/◌, ◌%◌, ◌^◌, ◌≤◌, ◌<◌, ◌==◌, leb, ◌&&◌, if◌then◌else◌, List, [],
  ◌∷◌, ◌++◌, ◌≡◌, ◌∙◌, refl, ap, arith, Bool-cases, inl, inr, length, map, set, get_or, replicate,
  add32, mul32, true,
}
use icix.Printf.Number.{count_digits, write_digits}
use icix.Printf.Directive.{isdigit, read_number}

-- The decimal characters of a number, in at most `fuel` digits.
unfoldable pub decimal : ℕ → ℕ → List ℕ
decimal zero n = []
decimal (suc fuel) n =
    let rest = decimal fuel (n / 10) in
    if n / 10 == 0 then (b'0' + n % 10) ∷ [] else rest ++ (b'0' + n % 10) ∷ []

abbrev pub AreDigits : List ℕ → Type 0
AreDigits [] = Unit {0}
AreDigits (c ∷ t) = ((b'0' ≤ c) × (c ≤ b'9')) × AreDigits t

AreDigits-append : (t u : List ℕ) → AreDigits t → AreDigits u → AreDigits (t ++ u)
AreDigits-append [] u h g = g
AreDigits-append (c ∷ t) u h g = (h.0, AreDigits-append t u h.1 g)

pub decimal-AreDigits : (fuel n : ℕ) → AreDigits (decimal fuel n)
unfolding decimal
decimal-AreDigits zero n = tt
decimal-AreDigits (suc fuel) n = elim (Bool-cases (n / 10 == 0)) [
  | inl e ↦ rw e ((omega arith, omega arith), tt)
  | inr e ↦ rw e (
      AreDigits-append (decimal fuel (n / 10)) _ (decimal-AreDigits fuel (n / 10))
        ((omega arith, omega arith), tt))
]

read_number-digit :
    (a c : ℕ) (f : List ℕ)
    → b'0' ≤ c
    → c ≤ b'9'
    → read_number a (c ∷ f) ≡ read_number (add32 (mul32 a 10) (c - 48)) f
unfolding read_number isdigit
read_number-digit a c f h g =
    let t : (leb b'0' c && leb c b'9') ≡ true = ground (arith, h, g) in rw t refl

read_number-append :
    (a : ℕ) (t u : List ℕ)
    → AreDigits t
    → read_number a (t ++ u) ≡ read_number (read_number a t).0 u
unfolding read_number
read_number-append a [] u h = refl
read_number-append a (c ∷ t) u h =
    read_number-digit a c (t ++ u) h.0.0 h.0.1
    ∙ read_number-append (add32 (mul32 a 10) (c - 48)) t u h.1
    ∙ ap (λ r. read_number r.0 u) (sym (read_number-digit a c t h.0.0 h.0.1))

read_number-last :
    (a n : ℕ) → a ≡ n / 10 → n < 2 ^ 31 → read_number a ((b'0' + n % 10) ∷ []) ≡ (n, [])
unfolding read_number
read_number-last a n e h =
    read_number-digit a (b'0' + n % 10) [] (omega arith) (omega arith)
    ∙ ap (λ v. (v, [])) (omega (arith, e, h))

-- The format's own reader of numbers gives the number back.
pub read_number-decimal :
    (fuel n : ℕ) → n < 10 ^ fuel → n < 2 ^ 31 → read_number 0 (decimal fuel n) ≡ (n, [])
unfolding decimal read_number
read_number-decimal zero n h small = ap (λ v. (v, [])) {x = 0} {y = n} (omega (arith, h))
read_number-decimal (suc fuel) n h small = elim (Bool-cases (n / 10 == 0)) [
  | inl e ↦ rw e (read_number-last 0 n (ground (arith, e)) small)
  | inr e ↦
      let bound : n < 10 ^ fuel * 10 = omega (arith, h, pow-succ' 10 fuel) in
      let front = read_number-decimal fuel (n / 10) (omega (arith, bound)) (omega (arith, small)) in
      rw e (
        read_number-append 0 (decimal fuel (n / 10)) _ (decimal-AreDigits fuel (n / 10))
        ∙ read_number-last (read_number 0 (decimal fuel (n / 10))).0 n (ap (λ r. r.0) front) small)
]

abbrev pub zeros : ℕ → List ℕ
zeros n = replicate n 0

set-zeros : (w : List ℕ) (m d : ℕ) → set (zeros (suc m) ++ w) m d ≡ zeros m ++ d ∷ w
set-zeros w zero d = refl
set-zeros w (suc m) d = ap (λ t. 0 ∷ t) (set-zeros w m d)

set-between : (u v w : List ℕ) (m d : ℕ) → set v m d ≡ w → set (u ++ v) (length u + m) d ≡ u ++ w
set-between [] v w m d e = ap (λ i. set v i d) {x = 0 + m} {y = m} (omega arith) ∙ e
set-between (x ∷ u) v w m d e =
    ap (λ i. set (x ∷ u ++ v) i d) {x = suc (length u) + m} {y = suc (length u + m)} (omega arith)
    ∙ ap (λ t. x ∷ t) (set-between u v w m d e)

-- The character of a decimal digit in a table.
abbrev pub table_char : List ℕ → ℕ → ℕ
table_char table c = get_or table (c - b'0') 0

map-last : (f : ℕ → ℕ) (t w : List ℕ) (c : ℕ) → map f (t ++ c ∷ []) ++ w ≡ map f t ++ f c ∷ w
map-last f [] w c = refl
map-last f (x ∷ t) w c = ap (λ s. f x ∷ s) (map-last f t w c)

-- The digits take the place of as many zeros.
pub write_digits-decimal :
    (table u w : List ℕ) (fuel n : ℕ)
    → n < 10 ^ fuel
    → write_digits table 10 fuel n
        (length u + count_digits fuel 10 n)
        (u ++ (zeros (count_digits fuel 10 n) ++ w))
      ≡ u ++ (map (table_char table) (decimal fuel n) ++ w)
unfolding write_digits count_digits decimal
write_digits-decimal table u w zero n h = refl
write_digits-decimal table u w (suc fuel) n h =
    let c = b'0' + n % 10 in
    let d = get_or table (n % 10) 0 in
    let same : table_char table c ≡ d = ap (λ i. get_or table i 0) (omega arith) in
    elim (Bool-cases (n / 10 == 0)) [
      | inl e ↦
          let p : length u + 1 - 1 ≡ length u + 0 = omega arith in
          rw e (
            ap (λ i. set (u ++ 0 ∷ w) i d) p
            ∙ set-between u (0 ∷ w) (d ∷ w) 0 d refl
            ∙ ap (λ x. u ++ x ∷ w) (sym same))
      | inr e ↦
          let bound : n < 10 ^ fuel * 10 = omega (arith, h, pow-succ' 10 fuel) in
          let m = count_digits fuel 10 (n / 10) in
          let p : length u + (m + 1) - 1 ≡ length u + m = omega arith in
          let b : set (u ++ (zeros (m + 1) ++ w)) (length u + (m + 1) - 1) d
              ≡ u ++ (zeros m ++ d ∷ w) =
            ap (set (u ++ (zeros (m + 1) ++ w)) (length u + (m + 1) - 1)) refl
            ∙ ap (λ i. set (u ++ (zeros (m + 1) ++ w)) i d) p
            ∙ ap (λ k. set (u ++ (zeros k ++ w)) (length u + m) d) {x = m + 1} {y = suc m}
                (omega arith)
            ∙ set-between u (zeros (suc m) ++ w) (zeros m ++ d ∷ w) m d (set-zeros w m d) in
          rw e (
            ap (write_digits table 10 fuel (n / 10) (length u + (m + 1) - 1)) b
            ∙ ap (λ i. write_digits table 10 fuel (n / 10) i (u ++ (zeros m ++ d ∷ w))) p
            ∙ write_digits-decimal table u (d ∷ w) fuel (n / 10) (omega (arith, bound))
            ∙ ap (λ t. u ++ t)
                (ap (λ x. map (table_char table) (decimal fuel (n / 10)) ++ x ∷ w) (sym same)
                  ∙ sym (map-last (table_char table) (decimal fuel (n / 10)) w c)))
    ]
