-- ===== src/Printf/Number/Shown.antt =====
-- What `__int_str` leaves in the buffer for a number in base 10 without flags and width.
use icix.Prelude.{
  ℕ, zero, suc, ◌+◌, ◌-◌, ◌/◌, ◌%◌, ◌^◌, ◌≤◌, ◌<◌, ◌==◌, ltb, leb, if◌then◌else◌, List, [], ◌∷◌,
  ◌++◌, ◌≡◌, ◌∙◌, refl, ap, arith, Bool-cases, inl, inr, length, length-append, length-replicate,
  map, set, drop, get_or, replicate, is_neg, false,
}
use native.Mathlib.Nat.{pow-le-pow_left}
use icix.Outcome.{done}
use icix.Cstring.{strlen, strcat, strcpy, bytes_of}
use icix.Cstring.Laws.{text, text-strcat, strlen-eq-length}
use icix.Printf.Number.{
  digit_table, count_digits, write_digits, put_number, pad, justified, padding_for, int_str,
}
use icix.Printf.Number.Padding.{text-bytes_of_same}
use icix.Printf.Number.Decimal.{
  decimal, decimal-AreDigits, AreDigits, table_char, zeros, write_digits-decimal,
}

-- The characters in front of the first digit from 5 on.
abbrev pub up_to_five : List ℕ → List ℕ
up_to_five [] = []
up_to_five (c ∷ t) = if ltb c b'5' then c ∷ up_to_five t else []

get_or-zeros : (m k : ℕ) → get_or (zeros m) k 0 ≡ 0
get_or-zeros zero k = refl
get_or-zeros (suc m) zero = refl
get_or-zeros (suc m) (suc k) = get_or-zeros m k

-- The table has the digits below 5 only.
table_digit :
    (k : ℕ) → get_or (digit_table 10).0 k 0 ≡ (if ltb (b'0' + k) b'5' then b'0' + k else 0)
unfolding digit_table strcpy bytes_of
table_digit zero = refl
table_digit (suc zero) = refl
table_digit (suc (suc zero)) = refl
table_digit (suc (suc (suc zero))) = refl
table_digit (suc (suc (suc (suc zero)))) = refl
table_digit (suc (suc (suc (suc (suc k))))) =
    let t : ltb (b'0' + suc (suc (suc (suc (suc k))))) b'5' ≡ false = ground arith in
    rw t (get_or-zeros 27 k)

text-digits :
    (t : List ℕ) (m : ℕ)
    → AreDigits t
    → text (map (table_char (digit_table 10).0) t ++ zeros (suc m)) ≡ up_to_five t
text-digits [] m h = refl
text-digits (c ∷ t) m h =
    let back : b'0' + (c - b'0') ≡ c = omega (arith, h.0) in
    let here : table_char (digit_table 10).0 c ≡ (if ltb c b'5' then c else 0) =
      table_digit (c - b'0') ∙ ap (λ x. if ltb x b'5' then x else 0) back in
    elim (Bool-cases (ltb c b'5')) [
      | inl e ↦
          let now : table_char (digit_table 10).0 c ≡ c = here ∙ ap (λ b. if b then c else 0) e in
          let e0 : (c == 0) ≡ false = ground (arith, h.0) in
          rw (now, e, e0) (ap (λ s. c ∷ s) (text-digits t m h.1))
      | inr e ↦
          let now : table_char (digit_table 10).0 c ≡ 0 = here ∙ ap (λ b. if b then c else 0) e in
          rw (now, e) refl
    ]

length-up_to_five : (t : List ℕ) → length (up_to_five t) ≤ length t
length-up_to_five [] = omega arith
length-up_to_five (c ∷ t) = ground (arith, length-up_to_five t)

count_digits-le : (fuel n : ℕ) → count_digits fuel 10 n ≤ fuel
unfolding count_digits
count_digits-le zero n = omega arith
count_digits-le (suc fuel) n = ground (arith, count_digits-le fuel (n / 10))

length-decimal : (fuel n : ℕ) → length (decimal fuel n) ≡ count_digits fuel 10 n
unfolding decimal count_digits
length-decimal zero n = refl
length-decimal (suc fuel) n = ground (
  arith,
  length-decimal fuel (n / 10),
  length-append (decimal fuel (n / 10)) ((b'0' + n % 10) ∷ []),
)

zeros-add : (n m : ℕ) → zeros (n + m) ≡ zeros n ++ zeros m
zeros-add zero m = ap (λ k. zeros k) (omega arith)
zeros-add (suc n) m =
    ap (λ k. zeros k) {x = suc n + m} {y = suc (n + m)} (omega arith)
    ∙ ap (λ t. 0 ∷ t) (zeros-add n m)

set-zeros_same : (m p : ℕ) → set (zeros m) p 0 ≡ zeros m
set-zeros_same zero p = refl
set-zeros_same (suc m) zero = refl
set-zeros_same (suc m) (suc p) = ap (λ t. 0 ∷ t) (set-zeros_same m p)

-- The number in front of at least 225 zeros.
put_number-decimal :
    (n : ℕ)
    → n < 2 ^ 31
    → put_number (digit_table 10).0 10 n (zeros 256, 0)
      ≡ map (table_char (digit_table 10).0) (decimal 31 n)
        ++ zeros (suc (255 - count_digits 31 10 n))
unfolding put_number
put_number-decimal n h =
    let c = count_digits 31 10 n in
    let le = count_digits-le 31 n in
    let wide : 2 ^ 31 ≤ 10 ^ 31 = pow-le-pow_left {n = 2} {m = 10} (omega arith) 31 in
    let split : set (zeros 256) (0 + c) 0 ≡ zeros c ++ zeros (suc (255 - c)) =
      set-zeros_same 256 (0 + c)
      ∙ ap (λ k. zeros k) {x = 256} {y = c + suc (255 - c)} (omega (arith, le))
      ∙ zeros-add c (suc (255 - c)) in
    ap (write_digits (digit_table 10).0 10 31 n (0 + c)) split
    ∙ write_digits-decimal (digit_table 10).0 [] (zeros (suc (255 - c))) 31 n
        (omega (arith, h, wide))

pub length-bytes_of : (n : ℕ) (s : List ℕ) → length (bytes_of n s) ≡ n
unfolding bytes_of
length-bytes_of zero s = refl
length-bytes_of (suc n) [] = ap suc (length-bytes_of n [])
length-bytes_of (suc n) (c ∷ s) = ap suc (length-bytes_of n s)

length-drop : (n : ℕ) (s : List ℕ) → length (drop n s) ≡ length s - n
length-drop zero s = omega arith
length-drop (suc n) [] = omega arith
length-drop (suc n) (c ∷ s) = omega (arith, length-drop n s)

length-strcpy : (b a : List ℕ) → length b ≤ length (strcpy b a)
unfolding strcpy
length-strcpy b a =
    omega (arith, length-append (bytes_of 5 a) (drop 5 b), length-bytes_of 5 a, length-drop 5 b)

-- A justification without padding keeps the text.
justified-keeps :
    (b : List ℕ)
    → strlen b < 256
    → justified 0 false false b ≡ done (strcpy b (strcat (zeros 256) b))
unfolding justified pad
justified-keeps b h =
    let z : strlen (zeros 256) ≡ 0 = strlen-zeros in
    let t : leb 256 (strlen (zeros 256) + strlen b) ≡ false = ground (arith, h, z) in rw t refl
  where
    strlen-zeros : strlen (zeros 256) ≡ 0
    strlen-zeros = strlen-eq-length (zeros 256)

text-kept : (b : List ℕ) → text (strcpy b (strcat (zeros 256) b)) ≡ text b
unfolding strcpy
text-kept b = text-bytes_of_same 5 (strcat (zeros 256) b) b (text-strcat (zeros 256) b)

no_padding : (b : List ℕ) → strlen b < 256 → padding_for 0 b ≡ 0
unfolding padding_for
no_padding b h = ground (arith, h)

base_ten : (digit_table 10).1 ≡ 10
unfolding digit_table
base_ten = refl

-- The buffer holds the decimal digits of the number up to the first one from 5 on.
pub int_str-decimal :
    (n : ℕ)
    → n < 2 ^ 31
    → (b : List ℕ) × (int_str n (replicate 256 0) 10 false false 0 false false ≡ done b)
      × (text b ≡ up_to_five (decimal 31 n))
      × (length (text b) < length b)
unfolding int_str
int_str-decimal n h =
    let b1 = put_number (digit_table 10).0 10 n (zeros 256, 0) in
    let whole = put_number-decimal n h in
    let c = count_digits 31 10 n in
    let le = count_digits-le 31 n in
    let shown : text b1 ≡ up_to_five (decimal 31 n) =
      ap (λ t. text t) whole ∙ text-digits (decimal 31 n) (255 - c) (decimal-AreDigits 31 n) in
    let few : length (text b1) ≤ 31 = omega (
      arith,
      ap (λ t. length t) shown,
      length-up_to_five (decimal 31 n),
      length-decimal 31 n,
      le,
    ) in
    let long : 225 ≤ length b1 = omega (
      arith,
      ap (λ t. length t) whole,
      length-append (map (table_char (digit_table 10).0) (decimal 31 n)) (zeros (suc (255 - c))),
      length-replicate {A = ℕ} (suc (255 - c)) 0,
      le,
    ) in
    let short : strlen b1 < 256 = omega (arith, strlen-eq-length b1, few) in
    let t : (n == 2 ^ 31) ≡ false = ground (arith, h) in
    let neg : is_neg n ≡ false = ground (arith, h) in
    (
      strcpy b1 (strcat (zeros 256) b1),
      rw (t, neg)
          (ap
              (λ (base : ℕ).
                let b = put_number (digit_table 10).0 base n (zeros 256, 0) in
                justified (padding_for 0 b) false false b)
              base_ten
            ∙ ap (λ k. justified k false false b1) (no_padding b1 short)
            ∙ justified-keeps b1 short),
      text-kept b1 ∙ shown,
      omega (
        arith,
        length-strcpy b1 (strcat (zeros 256) b1),
        long,
        few,
        ap (λ t. length t) (text-kept b1),
      ),
    )
