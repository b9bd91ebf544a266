-- ===== src/Ufs/Create/Found.antt =====
-- What a search over a directory finds once an entry has been put at its end.
use mathlib.Core.Path.{sym}
use icix.Prelude.{
  ℕ, ◌≤◌, ◌<◌, ◌==◌, if◌then◌else◌, List, [], ◌∷◌, ◌++◌, ◌≡◌, ◌≢◌, ◌∙◌, refl, ap, arith, Bool-cases,
  inl, inr, length, minus_one, Bool, true, false,
}
use icix.Outcome.{Outcome, done, aborted, undefined}
use icix.Cstring.{strcmp, strlen}
use icix.Cstring.Laws.{text, AreBytes, strcmp-eq-zero_iff, strlen-eq-length}
use icix.Ufs.Layout.{DirEnt, word_bytes}
use icix.Ufs.Lookup.{name_pointer}
use icix.Ufs.Lookup.Laws.{search_then, search_then-append}

-- Only the text of a string matters to `strcmp`.
strcmp-ap : (a b y : List ℕ) → text a ≡ text b → strcmp a y ≡ strcmp b y
unfolding strcmp
strcmp-ap [] [] y e = refl
strcmp-ap [] (c ∷ b) [] e = ground arith
strcmp-ap [] (c ∷ b) (x ∷ y) e = ground arith
strcmp-ap (c ∷ a) [] [] e = ground arith
strcmp-ap (c ∷ a) [] (x ∷ y) e = ground arith
strcmp-ap (c ∷ a) (k ∷ b) [] e = ground arith
strcmp-ap (c ∷ a) (k ∷ b) (x ∷ y) e = ground (arith, strcmp-ap a b y)

-- A text that ends inside the list.
text-append : (s rest : List ℕ) → length (text s) < length s → text (s ++ rest) ≡ text s
text-append [] rest h = absurd (omega arith)
text-append (c ∷ s) rest h = elim (Bool-cases (c == 0)) [
  | inl e ↦ rw e refl
  | inr e ↦ rw e (ap (λ t. c ∷ t) (text-append s rest (ground (arith, e, h))))
]

AreBytes-append : (s rest : List ℕ) → AreBytes s → AreBytes rest → AreBytes (s ++ rest)
AreBytes-append [] rest h g = g
AreBytes-append (c ∷ s) rest h g = (h.0, AreBytes-append s rest h.1 g)

AreBytes-word_bytes : (w : ℕ) → AreBytes (word_bytes w)
unfolding word_bytes
AreBytes-word_bytes w = (omega arith, (omega arith, (omega arith, (omega arith, tt))))

same_inode : {a b : ℕ} → done a ≡ done b → a ≡ b
same_inode {a} e = ap (λ o. elim o [ done x ↦ x | aborted ↦ a | undefined ↦ a ]) e

miss_step :
    (t s : Bool) (i : ℕ) (x y rest : Outcome ℕ)
    → (t ≡ false → i ≢ minus_one)
    → (if t then aborted else if s then done i else x) ≡ done minus_one
    → (x ≡ done minus_one → y ≡ rest)
    → (if t then aborted else if s then done i else y) ≡ rest
miss_step true s i x y rest n h f = cc
miss_step false true i x y rest n h f = absurd (n refl (same_inode h))
miss_step false false i x y rest n h f = f h

-- A search that misses goes on behind the list.
pub search_then-miss :
    (name : List ℕ) (es : List DirEnt) (rest : Outcome ℕ)
    → search_then name es (done minus_one) ≡ done minus_one
    → search_then name es rest ≡ rest
unfolding search_then
search_then-miss name [] rest h = refl
search_then-miss name (e ∷ es) rest h =
    miss_step (e.inum == minus_one) (strcmp name (name_pointer e) == 0) e.inum _ _ rest
      (λ t. ground (arith, t)) h (search_then-miss name es rest)

pub search_then-last :
    (other : List ℕ) (e : DirEnt)
    → e.inum ≢ minus_one
    → search_then other (e ∷ []) (done minus_one)
      ≡ (if strcmp other (name_pointer e) == 0 then done e.inum else done minus_one)
unfolding search_then
search_then-last other e used =
    let u : (e.inum == minus_one) ≡ false = ground (arith, used) in rw u refl

search_then-text :
    (name other : List ℕ) (es : List DirEnt) (rest : Outcome ℕ)
    → text other ≡ text name
    → search_then other es rest ≡ search_then name es rest
unfolding search_then
search_then-text name other [] rest same = refl
search_then-text name other (e ∷ es) rest same =
    rw (strcmp-ap other name (name_pointer e) same, search_then-text name other es rest same) refl

-- The strings that are equal to a name, for the entry that holds it.
strcmp-name_pointer :
    (e : DirEnt) (name other : List ℕ)
    → length e.name ≡ 28
    → AreBytes e.name
    → text e.name ≡ text name
    → strlen name ≤ 27
    → AreBytes name
    → AreBytes other
    → (strcmp other (name_pointer e) == 0) ≡ (strcmp other name == 0)
unfolding name_pointer
strcmp-name_pointer e name other field h same short g o =
    let whole : text (e.name ++ word_bytes e.inum) ≡ text name =
      text-append e.name (word_bytes e.inum)
        (omega (arith, field, short, ap length same, strlen-eq-length name))
      ∙ same in
    let (to, from) =
      strcmp-eq-zero_iff other (e.name ++ word_bytes e.inum) o
        (AreBytes-append e.name (word_bytes e.inum) h (AreBytes-word_bytes e.inum)) in
    let (to', from') = strcmp-eq-zero_iff other name o g in
    same_test (λ z. from' (to z ∙ whole)) (λ z. from (to' z ∙ sym whole))
  where
    same_test : {x y : ℕ} → (x ≡ 0 → y ≡ 0) → (y ≡ 0 → x ≡ 0) → (x == 0) ≡ (y == 0)
    same_test {x} {y} p q = elim (Bool-cases (x == 0)) [
      | inl e ↦ ground (arith, p)
      | inr e ↦ ground (arith, q)
    ]

-- A search over a directory in which the name was missing, once its entry is there.
pub search_then-added :
    (es : List DirEnt) (e : DirEnt) (name other : List ℕ)
    → search_then name es (done minus_one) ≡ done minus_one
    → e.inum ≢ minus_one
    → length e.name ≡ 28
    → AreBytes e.name
    → text e.name ≡ text name
    → strlen name ≤ 27
    → AreBytes name
    → AreBytes other
    → search_then other (es ++ e ∷ []) (done minus_one)
      ≡ (if strcmp other name == 0 then done e.inum else search_then other es (done minus_one))
search_then-added es e name other miss used field h same short g o =
    let last = search_then-last other e used in
    let test = strcmp-name_pointer e name other field h same short g o in
    let split =
      search_then-append other es (e ∷ []) (done minus_one)
      ∙ ap (search_then other es)
          (last ∙ ap (λ t. if t then done e.inum else done minus_one) test) in
    elim (Bool-cases (strcmp other name == 0)) [
      | inl z ↦
          let text_same = (strcmp-eq-zero_iff other name o g).0 (ground (arith, z)) in
          split
          ∙ ap (λ (t : Bool). search_then other es (if t then done e.inum else done minus_one)) z
          ∙ search_then-text name other es (done e.inum) text_same
          ∙ search_then-miss name es (done e.inum) miss
          ∙ ap (λ t. if t then done e.inum else search_then other es (done minus_one)) (sym z)
      | inr z ↦
          split
          ∙ ap (λ (t : Bool). search_then other es (if t then done e.inum else done minus_one)) z
          ∙ ap (λ t. if t then done e.inum else search_then other es (done minus_one)) (sym z)
    ]
