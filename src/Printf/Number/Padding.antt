-- ===== src/Printf/Number/Padding.antt =====
-- What justification does to the text of a number.
use icix.Prelude.{
  ℕ, zero, suc, ◌+◌, ◌-◌, ◌<◌, ◌==◌, if◌then◌else◌, ltb, leb, List, [], ◌∷◌, ◌++◌, ◌≡◌, ◌≢◌, ◌∙◌,
  length-append, length-replicate, refl, ap, arith, inl, inr, ◌⊎◌, Bool, Bool-cases, true, false,
  length, set, drop, replicate,
}
use icix.Outcome.{done}
use icix.Cstring.{strlen, strcat, strcpy, bytes_of}
use icix.Cstring.Laws.{text, text-strcat}
use mathlib.Core.Path.{ap₂}
use mathlib.Core.List.{append-nil, append_assoc}
use icix.Printf.Number.{pad, filler, justified}

-- A copy of the first bytes of a string leaves a text that was already there.
pub text-bytes_of_same :
    (n : ℕ) (a b : List ℕ) → text a ≡ text b → text (bytes_of n a ++ drop n b) ≡ text b
unfolding bytes_of
text-bytes_of_same zero a b e = refl
text-bytes_of_same (suc n) [] [] e = refl
text-bytes_of_same (suc n) [] (y ∷ b) e = e
text-bytes_of_same (suc n) (x ∷ a) [] e = elim (Bool-cases (x == 0)) [
  | inl t ↦ rw t refl
  | inr t ↦ absurd (ground (arith, t, e))
]
text-bytes_of_same (suc n) (x ∷ a) (y ∷ b) e = ground (arith, e, text-bytes_of_same n a b)

-- A text that is shorter than the bytes that are copied arrives whole.
text-bytes_of_short :
    (n : ℕ) (a b : List ℕ) → length (text a) < n → text (bytes_of n a ++ b) ≡ text a
unfolding bytes_of
text-bytes_of_short zero a b h = absurd (omega arith)
text-bytes_of_short (suc n) [] b h = refl
text-bytes_of_short (suc n) (x ∷ a) b h = elim (Bool-cases (x == 0)) [
  | inl e ↦ rw e refl
  | inr e ↦ rw e (ap (λ t. x ∷ t) (text-bytes_of_short n a b (ground (arith, e, h))))
]

text-strcpy_short : (b a : List ℕ) → length (text a) < 5 → text (strcpy b a) ≡ text a
unfolding strcpy
text-strcpy_short b a = text-bytes_of_short 5 a (drop 5 b)

-- No NUL among the characters.
abbrev pub IsText : List ℕ → Type 0
IsText [] = Unit {0}
IsText (c ∷ t) = (c ≢ 0) × IsText t

abbrev zeros : ℕ → List ℕ
zeros n = replicate n 0

strlen-zeros : (t : List ℕ) (m : ℕ) → IsText t → strlen (t ++ zeros m) ≡ length t
unfolding strlen
strlen-zeros [] zero h = refl
strlen-zeros [] (suc m) h = refl
strlen-zeros (c ∷ t) m h = ground (arith, h.0, strlen-zeros t m h.1)

text-zeros : (t : List ℕ) (m : ℕ) → IsText t → text (t ++ zeros m) ≡ t
text-zeros [] zero h = refl
text-zeros [] (suc m) h = refl
text-zeros (c ∷ t) m h =
    let e : (c == 0) ≡ false = ground (arith, h.0) in rw e (ap (λ s. c ∷ s) (text-zeros t m h.1))

set-end : (t : List ℕ) (m c : ℕ) → set (t ++ zeros (suc m)) (length t) c ≡ (t ++ c ∷ []) ++ zeros m
set-end [] m c = refl
set-end (x ∷ t) m c = ap (λ s. x ∷ s) (set-end t m c)

IsText-append : (t u : List ℕ) → IsText t → IsText u → IsText (t ++ u)
IsText-append [] u h g = g
IsText-append (c ∷ t) u h g = (h.0, IsText-append t u h.1 g)

-- The bytes that are written one by one at the end of a text in a zeroed buffer.
pad-zeros :
    (n c m : ℕ) (t : List ℕ)
    → IsText t
    → c ≢ 0
    → pad n c (t ++ zeros (n + m)) ≡ done ((t ++ replicate n c) ++ zeros m)
unfolding pad
pad-zeros zero c m t h ne = let e : 0 + m ≡ m = omega arith in rw (e, append-nil t) refl
pad-zeros (suc n) c m t h ne =
    let e : suc n + m ≡ suc (n + m) = omega arith in
    let here = strlen-zeros t (suc (n + m)) h in
    let room : ltb (strlen (t ++ zeros (suc (n + m)))) (length (t ++ zeros (suc (n + m)))) ≡ true =
      ground (arith, here, length-append t (zeros (suc (n + m)))) in
    rw e (
      rw (room, pad)
        (rw (here, pad)
          (rw (set-end t (n + m) c, pad)
            (pad-zeros n c m (t ++ c ∷ []) (IsText-append t (c ∷ []) h (ne, tt)) ne
              ∙ ap (λ s. done (s ++ zeros m)) (append_assoc t (c ∷ []) (replicate n c))))))

IsText-replicate : (n c : ℕ) → c ≢ 0 → IsText (replicate n c)
IsText-replicate zero c h = tt
IsText-replicate (suc n) c h = (h, IsText-replicate n c h)

not_nul : (zero_pad : Bool) → filler zero_pad ≢ 0
not_nul true e = omega (arith, e)
not_nul false e = omega (arith, e)

-- In a zeroed buffer with room for them, left justification puts the padding behind the number. Right
-- justification puts it in front, if they take fewer than five characters together: it copies five
-- bytes back.
pub justified-text :
    (n m : ℕ) (left zero_pad : Bool) (t : List ℕ)
    → IsText t
    → n < 256
    → (left ≡ true) ⊎ (n + length t < 5)
    → let c = filler zero_pad in
      (b : List ℕ) × (justified n left zero_pad (t ++ zeros (n + suc m)) ≡ done b)
      × (text b ≡ (if left then t ++ replicate n c else replicate n c ++ t))
unfolding justified
justified-text n m true zero_pad t h small o =
    let c = filler zero_pad in
    (
      (t ++ replicate n c) ++ zeros (suc m),
      pad-zeros n c (suc m) t h (not_nul zero_pad),
      text-zeros (t ++ replicate n c) (suc m)
          (IsText-append t (replicate n c) h (IsText-replicate n c (not_nul zero_pad))),
    )
justified-text n m false zero_pad t h small (inl e) = cc
justified-text n m false zero_pad t h small (inr short) =
    let c = filler zero_pad in
    let ne = not_nul zero_pad in
    let b = t ++ zeros (n + suc m) in
    let a = replicate n c ++ zeros (256 - n) in
    let padded : pad n c (replicate 256 0) ≡ done a =
      ap (λ k. pad n c (zeros k)) {x = 256} {y = n + (256 - n)} (omega arith)
      ∙ pad-zeros n c (256 - n) [] tt ne in
    let len_a : strlen a ≡ n =
      strlen-zeros (replicate n c) (256 - n) (IsText-replicate n c ne) ∙ length-replicate n c in
    let fits : leb 256 (strlen a + strlen b) ≡ false =
      ground (arith, len_a, strlen-zeros t (n + suc m) h) in
    let whole : text (strcat a b) ≡ replicate n c ++ t =
      text-strcat a b
      ∙ ap₂ ◌++◌ (text-zeros (replicate n c) (256 - n) (IsText-replicate n c ne))
          (text-zeros t (n + suc m) h) in
    rw padded (
      rw fits (
        strcpy b (strcat a b),
        refl,
        text-strcpy_short b (strcat a b) (
              omega (arith, ap length whole, length-append (replicate n c) t, length-replicate n c))
            ∙ whole,
      ))
