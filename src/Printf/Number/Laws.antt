-- ===== src/Printf/Number/Laws.antt =====
-- The digits that `__int_str` writes are those of the number in the base.
use icix.Prelude.{
  ℕ, zero, suc, ◌+◌, ◌-◌, ◌*◌, ◌/◌, ◌%◌, ◌^◌, ◌≤◌, ◌<◌, ◌==◌, List, ◌≡◌, ◌≢◌, ◌∙◌, refl, ap, arith,
  inl, inr, ◌⊎◌, Bool-cases, length, length-set, get_or, get_or-set_self, get_or-set_ne, set,
}
use native.Mathlib.Nat.{
  pow-le-pow_left, pow-le-pow_right, lt_of_lt_of_le, pow-zero, pow-succ', pow-suc,
  div-lt_iff_lt-mul, le-div_iff_mul-le, div-div-eq-div-mul,
}
use native.Mathlib.Decide.{dec_lt}
use mathlib.Core.Path.{subst, sym}
use icix.Printf.Number.{count_digits, write_digits, put_number}

-- The number has `suc c` digits.
abbrev pub HasDigits : ℕ → ℕ → ℕ → Type 0
HasDigits base n c = (n < base ^ suc c) × (c ≡ 0 ⊎ base ^ c ≤ n)

-- A round leaves a number that the fuel left is enough for.
one_round :
    (base n fuel : ℕ)
    → 1 < base
    → n < base ^ suc fuel
    → n / base ≢ 0
    → (n / base < base ^ fuel) × (0 < fuel)
one_round base n fuel h p ne =
    let smaller : n / base < base ^ fuel =
      (div-lt_iff_lt-mul {k = base} {x = n} {y = base ^ fuel} (omega arith)).1
        (subst (λ t. n < t) (pow-suc base fuel) p) in
    (smaller, more fuel smaller)
  where
    more : (fuel : ℕ) → n / base < base ^ fuel → 0 < fuel
    more zero s = absurd (ne (omega (arith, subst (λ t. n / base < t) (pow-zero base) s)))
    more (suc fuel) s = omega arith

pub count_digits-HasDigits :
    (fuel base n : ℕ)
    → 1 < base
    → n < base ^ fuel
    → 0 < fuel
    → (c : ℕ) × (count_digits fuel base n ≡ suc c) × HasDigits base n c
unfolding count_digits
count_digits-HasDigits zero base n h p q = absurd (omega arith)
count_digits-HasDigits (suc fuel) base n h p q = elim (Bool-cases (n / base == 0)) [
  | inl e ↦ rw e (0, refl, (rw (pow-suc base 0) (one_digit (ground (arith, e))), inl refl))
  | inr e ↦
      let (smaller, some_fuel) = one_round base n fuel h p (ground (arith, e)) in
      let (c, count, (below, above)) =
        count_digits-HasDigits fuel base (n / base) h smaller some_fuel in
      rw e (
        suc c,
        omega (arith, count),
        (
          rw (pow-suc base (suc c))
              ((div-lt_iff_lt-mul {k = base} {x = n} {y = base ^ suc c} (omega arith)).0 below),
          inr (
              rw (pow-suc base c) (
                (le-div_iff_mul-le {k = base} {x = base ^ c} {y = n} (omega arith)).0
                  (lower c above (ground (arith, e))))),
        ),
      )
]
  where
    one_digit : n / base ≡ 0 → n < base ^ 0 * base
    one_digit e =
        (div-lt_iff_lt-mul {k = base} {x = n} {y = base ^ 0} (omega arith)).0
          (omega (arith, e, pow-zero base))

    lower : (c : ℕ) → c ≡ 0 ⊎ base ^ c ≤ n / base → n / base ≢ 0 → base ^ c ≤ n / base
    lower c (inl z) ne = subst (λ t. base ^ t ≤ n / base) (sym z) (omega (arith, ne, pow-zero base))
    lower c (inr l) ne = l

-- `*p` gets the digits from its position down; nothing else changes.
abbrev pub Digits : List ℕ → ℕ → ℕ → ℕ → ℕ → List ℕ → List ℕ → Type 0
Digits digit base n c p b b' =
    ((k : ℕ) → k ≤ c → get_or b' (p - 1 - k) 0 ≡ get_or digit (n / base ^ k % base) 0)
    × ((j : ℕ) → p ≤ j ⊎ j + suc c < p → get_or b' j 0 ≡ get_or b j 0)
    × (length b' ≡ length b)

at_digit :
    (digit rest : List ℕ) (base n p c : ℕ)
    → ((k : ℕ)
        → k ≤ c
        → get_or rest (p - 1 - 1 - k) 0 ≡ get_or digit (n / base / base ^ k % base) 0)
    → get_or rest (p - 1) 0 ≡ get_or digit (n % base) 0
    → (k : ℕ) → k ≤ suc c
    → get_or rest (p - 1 - k) 0 ≡ get_or digit (n / base ^ k % base) 0
at_digit digit rest base n p c digits last zero le =
    ap (λ i. get_or rest i 0) (omega arith)
    ∙ last
    ∙ ap (λ m. get_or digit (m % base) 0) (rw (pow-zero base) (omega arith))
at_digit digit rest base n p c digits last (suc k) le =
    ap (λ i. get_or rest i 0) (omega arith)
    ∙ digits k (omega arith)
    ∙ ap (λ m. get_or digit (m % base) 0)
        (div-div-eq-div-mul n base (base ^ k) ∙ ap (λ t. n / t) (sym (pow-succ' base k)))

pub write_digits-Digits :
    (digit : List ℕ) (base fuel n p c : ℕ) (b : List ℕ)
    → 1 < base
    → n < base ^ fuel
    → count_digits fuel base n ≡ suc c
    → c < p
    → p ≤ length b
    → Digits digit base n c p b (write_digits digit base fuel n p b)
unfolding write_digits count_digits
write_digits-Digits digit base zero n p c b h small e lt room = absurd (omega (arith, e))
write_digits-Digits digit base (suc fuel) n p c b h small e lt room =
    let d = get_or digit (n % base) 0 in
    let b1 = set b (p - 1) d in
    let len1 = length-set b (p - 1) d in
    let here : get_or b1 (p - 1) 0 ≡ d = get_or-set_self b (p - 1) d 0 (omega arith) in
    elim (Bool-cases (n / base == 0)) [
      | inl t ↦
          let single : c ≡ 0 = ground (arith, t, e) in
          let at_first : get_or b1 (p - 1 - 0) 0 ≡ get_or digit (n / base ^ 0 % base) 0 =
            ap (λ i. get_or b1 i 0) (omega arith)
            ∙ here
            ∙ ap (λ m. get_or digit (m % base) 0) (rw (pow-zero base) (omega arith)) in
          rw t (
            λ k le.
                subst (λ (i : ℕ). get_or b1 (p - 1 - i) 0 ≡ get_or digit (n / base ^ i % base) 0)
                  (omega (arith, single, le)) at_first,
            λ j o. get_or-set_ne b (p - 1) j d 0 (ground (arith, o)),
            len1,
          )
      | inr t ↦
          let (smaller, some_fuel) = one_round base n fuel h small (ground (arith, t)) in
          let (c1, count, _) = count_digits-HasDigits fuel base (n / base) h smaller some_fuel in
          let next : c ≡ suc c1 = ground (arith, t, e, count) in
          let (digits, others, len) =
            write_digits-Digits digit base fuel (n / base) (p - 1) c1 b1 h smaller count
              (omega (arith, next)) (omega (arith, len1)) in
          let rest = write_digits digit base fuel (n / base) (p - 1) b1 in
          rw t (
            λ k le.
                at_digit digit rest base n p c1 digits (others (p - 1) (inl (omega arith)) ∙ here) k
                  (omega (arith, le, next)),
            λ j o.
                others j (ground (arith, o, next))
                ∙ get_or-set_ne b (p - 1) j d 0 (ground (arith, o)),
            len ∙ len1,
          )
    ]

-- The characters of a magnitude below 2 ^ 31, in a base from 2 on, behind the sign: the k-th from
-- the right is the one that the table has for the k-th digit of the number, the first of them is
-- not a leading zero, and a 0 follows.
pub put_number-Digits :
    (digit : List ℕ) (base n start : ℕ) (b : List ℕ)
    → 1 < base
    → n < 2 ^ 31
    → start + 32 ≤ length b
    → (c : ℕ) × HasDigits base n c
      × (get_or (put_number digit base n (b, start)) (start + suc c) 0 ≡ 0)
      × ((k : ℕ)
          → k ≤ c
          → get_or (put_number digit base n (b, start)) (start + c - k) 0
            ≡ get_or digit (n / base ^ k % base) 0)
unfolding put_number
put_number-Digits digit base n start b h small room =
    let fits : n < base ^ 31 =
      lt_of_lt_of_le small (pow-le-pow_left {n = 2} {m = base} (omega arith) 31) in
    let (c, count, has) = count_digits-HasDigits 31 base n h fits (omega arith) in
    let short : c < 31 = few base n c h small has in
    let p = start + suc c in
    let (digits, others, _) =
      write_digits-Digits digit base 31 n p c (set b p 0) h fits count (omega arith)
        (omega (arith, length-set b p 0)) in
    rw count (
      c,
      has,
      others p (inl (omega arith)) ∙ get_or-set_self b p 0 0 (omega arith),
      λ k le.
          ap (λ i. get_or (write_digits digit base 31 n p (set b p 0)) i 0) (omega (arith, le))
          ∙ digits k le,
    )
  where
    few : (base n c : ℕ) → 1 < base → n < 2 ^ 31 → HasDigits base n c → c < 31
    few base n c h small (below, inl z) = omega (arith, z)
    few base n c h small (below, inr l) = elim (dec_lt c 31) [
      | yes lt ↦ lt
      | no ge ↦
          let wide : 2 ^ 31 ≤ base ^ 31 = pow-le-pow_left {n = 2} {m = base} (omega arith) 31 in
          let wider : base ^ 31 ≤ base ^ c =
            pow-le-pow_right {n = base} (omega arith) {i = 31} {j = c} (omega arith) in
          absurd (omega (arith, wide, wider, l, small))
    ]
