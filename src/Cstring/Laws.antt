-- ===== src/Cstring/Laws.antt =====
-- Strings by their text: the bytes in front of the first NUL.
use icix.Prelude.{drop, ◌++◌, Bool-cases, ap, inl, inr, ℕ, ◌<◌, ◌==◌, if◌then◌else◌, List, [], ◌∷◌}
use icix.Prelude.{◌≡◌, ◌↔◌, refl, arith, length}
use icix.Cstring.{copy_string, strcat, strlen, strcmp}

abbrev pub text : List ℕ → List ℕ
text [] = []
text (c ∷ s) = if c == 0 then [] else c ∷ text s

-- `strlen` is the length of the text.
pub strlen-eq-length : (s : List ℕ) → strlen s ≡ length (text s)
unfolding strlen
strlen-eq-length [] = refl
strlen-eq-length (c ∷ s) = ground (arith, strlen-eq-length s)

abbrev pub AreBytes : List ℕ → Type 0
AreBytes [] = Unit {0}
AreBytes (c ∷ s) = (c < 256) × AreBytes s

-- For two strings of bytes, `strcmp` gives 0 exactly if they have the same text.
pub strcmp-eq-zero_iff :
    (s t : List ℕ) → AreBytes s → AreBytes t → (strcmp s t ≡ 0) ↔ (text s ≡ text t)
unfolding strcmp
strcmp-eq-zero_iff [] [] p q = (λ _. refl, λ _. refl)
strcmp-eq-zero_iff [] (b ∷ t) p q = ground (arith, q.0)
strcmp-eq-zero_iff (a ∷ s) [] p q = ground arith
strcmp-eq-zero_iff (a ∷ s) (b ∷ t) p q = ground (arith, strcmp-eq-zero_iff s t p.1 q.1)

pub text-copy_string : (dest src : List ℕ) → text (copy_string dest src) ≡ text src
unfolding copy_string
text-copy_string dest [] = refl
text-copy_string dest (c ∷ src) = ground (arith, text-copy_string (drop 1 dest) src)

-- After `strcat` the text of the destination is its old text followed by the source's.
pub text-strcat : (dest src : List ℕ) → text (strcat dest src) ≡ text dest ++ text src
unfolding strcat
text-strcat [] src = text-copy_string [] src
text-strcat (c ∷ dest) src = elim (Bool-cases (c == 0)) [
  | inl e ↦ rw (e, strcat) (text-copy_string (c ∷ dest) src)
  | inr e ↦ rw (e, strcat) (rw e (ap (λ t. c ∷ t) (text-strcat dest src)))
]
