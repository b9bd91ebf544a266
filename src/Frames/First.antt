-- ===== src/Frames/First.antt =====
-- `first_frame` finds the least free frame, or says that there is none.
use mathlib.Core.Path.{subst}
use native.Mathlib.Decide.{dec_lt}
use icix.Prelude.{ℕ, zero, suc, ◌-◌, ◌*◌, ◌/◌, ◌%◌, ◌+◌, ◌^◌, ◌≤◌, ◌<◌, ◌==◌, if◌then◌else◌}
use icix.Prelude.{List, ◌≡◌, refl, ap, ◌∙◌, arith, get_or, true, false, inl, inr, ◌⊎◌}
use icix.Prelude.{bit, bit_and-test, eq-ones_of_bits, Bool-cases, minus_one, u32}
use icix.Prelude.{Option, none, some, shl32, bit_and, bit-complement, bit-zero, ==_iff}
use icix.Frames.{first_clear, first_frame_from, first_frame}
use icix.Frames.Laws.{used, shl32_low}

-- What a search from `lo` for a zero of `digit` comes to: the least one below `hi`, or none.
abbrev Finds : (ℕ → ℕ) → ℕ → ℕ → Option ℕ → Type 0
Finds digit lo hi none = (k : ℕ) → lo ≤ k → k < hi → digit k ≡ 1
Finds digit lo hi (some r) =
    (lo ≤ r) × (r < hi) × (digit r ≡ 0) × ((k : ℕ) → lo ≤ k → k < r → digit k ≡ 1)

test-bit : (w j : ℕ) → j < 32 → (if bit_and w (shl32 1 j) == 0 then 0 else 1) ≡ bit w j
test-bit w j h = rw (shl32_low j h) (bit_and-test w j)

first_clear-Finds :
    (w left j hi : ℕ) → j + left ≡ hi → hi ≤ 32 → Finds (bit w) j hi (first_clear w left j)
unfolding first_clear
first_clear-Finds w zero j hi e h = λ k p q. absurd (omega arith)
first_clear-Finds w (suc left) j hi e h = elim (Bool-cases (bit_and w (shl32 1 j) == 0)) [
  | inl z ↦
      rw (z, Finds)
        (
          omega arith,
          omega arith,
          ground (arith, test-bit w j (omega arith)),
          λ k p q. absurd (omega arith),
        )
  | inr z ↦
      let one : bit w j ≡ 1 = ground (arith, test-bit w j (omega arith)) in
      rw (z, Finds)
        (extend one (first_clear w left (j + 1))
          (first_clear-Finds w left (j + 1) hi (omega arith) h))
]
  where
    extend : bit w j ≡ 1 → (o : Option ℕ) → Finds (bit w) (j + 1) hi o → Finds (bit w) j hi o
    extend one none f = λ k p q. elim (Bool-cases (k == j)) [
      | inl s ↦ rw ((let t : k ≡ j = ground arith in t)) one
      | inr s ↦ f k (ground arith) q
    ]
    extend one (some r) f = (
      omega (arith, f.0),
      f.1,
      f.2,
      λ k p q. elim (Bool-cases (k == j)) [
        | inl s ↦ rw ((let t : k ≡ j = ground arith in t)) one
        | inr s ↦ f.3 k (ground arith) q
      ],
    )

-- A word other than 0xFFFFFFFF has a zero among its 32 bits.
first_clear-ne-none :
    (w : ℕ) → w < 2 ^ 32 → (w == 0xFFFFFFFF) ≡ false → (r : ℕ) × (first_clear w 32 0 ≡ some r)
first_clear-ne-none w h ne = go (first_clear w 32 0) refl
  where
    go : (o : Option ℕ) → first_clear w 32 0 ≡ o → (r : ℕ) × (first_clear w 32 0 ≡ some r)
    go (some r) e = (r, e)
    go none e =
        let all : Finds (bit w) 0 32 none =
          subst (Finds (bit w) 0 32) e (first_clear-Finds w 32 0 32 refl (omega arith)) in
        let full : w ≡ 2 ^ 32 - 1 = eq-ones_of_bits 32 w h (λ k p. all k (omega arith) p) in
        absurd (ground arith)

-- Every word is below 2 ^ 32.
abbrev pub IsWords : List ℕ → Type 0
IsWords f = (i : ℕ) → get_or f i 0 < 2 ^ 32

-- The result of `first_frame`: the least free frame from `lo`, or -1 if all below `hi` are in use.
pub record IsFirstFree (f : List ℕ) (lo hi r : ℕ) : Type 0 where
  pub in_range : (r ≡ minus_one) ⊎ (r < hi)
  pub full : r ≡ minus_one → (k : ℕ) → lo ≤ k → k < hi → used f k ≡ 1
  pub free : r < hi → used f r ≡ 0
  pub least : r < hi → (k : ℕ) → lo ≤ k → k < r → used f k ≡ 1

-- Frame 32 i + j is bit j of word i.
used-split : (f : List ℕ) (i j k : ℕ) → j < 32 → k ≡ 32 * i + j → used f k ≡ bit (get_or f i 0) j
used-split f i j k h e =
    let q : k / 32 ≡ i = omega arith in let r : k % 32 ≡ j = omega arith in rw (q, r)

-- All of a word of ones is in use.
used-ones :
    (f : List ℕ) (i k : ℕ)
    → (get_or f i 0 == 0xFFFFFFFF) ≡ true
    → 32 * i ≤ k
    → k < 32 * i + 32
    → used f k ≡ 1
used-ones f i k e p q =
    let j = k - 32 * i in
    used-split f i j k (omega arith) (omega arith)
    ∙ ap (λ w. bit w j) ((==_iff (get_or f i 0) 0xFFFFFFFF).0 e)
    ∙ bit-complement 32 0 j (omega arith) (omega arith)
    ∙ omega (arith, bit-zero j)

-- A full word in front of a search changes nothing but where it starts.
IsFirstFree-skip :
    (f : List ℕ) (i hi r : ℕ)
    → (get_or f i 0 == 0xFFFFFFFF) ≡ true
    → IsFirstFree f (32 * (i + 1)) hi r
    → IsFirstFree f (32 * i) hi r
IsFirstFree-skip f i hi r e rest = record {
  in_range = rest.in_range;
  full = λ m k p q. front k p (rest.full m k) q;
  free = rest.free;
  least = λ m k p q. front k p (rest.least m k) q;
}
  where
    front :
        {n : ℕ} (k : ℕ)
        → 32 * i ≤ k
        → (32 * (i + 1) ≤ k → k < n → used f k ≡ 1)
        → k < n
        → used f k ≡ 1
    front k p later q = elim (dec_lt k (32 * i + 32)) [
      | yes s ↦ used-ones f i k e p s
      | no s ↦ later (omega arith) q
    ]

-- A zero found in the first word is the result.
IsFirstFree-found :
    (f : List ℕ) (i hi j : ℕ)
    → 32 * i + 32 ≤ hi
    → hi < 2 ^ 32 - 1
    → Finds (bit (get_or f i 0)) 0 32 (some j)
    → IsFirstFree f (32 * i) hi (u32 (i * 4 * 8 + j))
IsFirstFree-found f i hi j a b found =
    let e : u32 (i * 4 * 8 + j) ≡ 32 * i + j = omega (arith, found.1) in
    rw e (record {
      in_range = inr (omega (arith, found.1));
      full = λ m. absurd (omega (arith, found.1));
      free = λ _. used-split f i j _ found.1 refl ∙ found.2;
      least = λ _ k p q.
          used-split f i (k - 32 * i) k (omega (arith, found.1)) (omega arith)
          ∙ found.3 (k - 32 * i) (omega arith) (omega arith);
    })

first_frame_from-IsFirstFree :
    (f : List ℕ) (left i hi : ℕ)
    → IsWords f
    → 32 * i + 32 * left ≡ hi
    → hi < 2 ^ 32 - 1
    → IsFirstFree f (32 * i) hi (first_frame_from f left i)
unfolding first_frame_from
first_frame_from-IsFirstFree f zero i hi w e h = record {
  in_range = inl refl;
  full = λ _ k p q. absurd (omega arith);
  free = λ p. absurd (omega arith);
  least = λ p. absurd (omega arith);
}
first_frame_from-IsFirstFree f (suc left) i hi w e h =
    elim (Bool-cases (get_or f i 0 == 0xFFFFFFFF)) [
      | inl t ↦ rw t (
          IsFirstFree-skip f i hi _ t
            (first_frame_from-IsFirstFree f left (i + 1) hi w (omega arith) h))
      | inr t ↦
          let (j, found) = first_clear-ne-none (get_or f i 0) (w i) t in
          rw (t, found)
            (IsFirstFree-found f i hi j (omega arith) h (
              subst (Finds (bit (get_or f i 0)) 0 32) found
                (first_clear-Finds (get_or f i 0) 32 0 32 refl (omega arith))))
    ]

-- For a bitmap of 32-bit words, `first_frame` returns -1 only if every frame of the words searched
-- is in use; else it returns a frame that is free, with every frame below it in use.
pub first_frame-IsFirstFree :
    (f : List ℕ) (nframes : ℕ)
    → IsWords f
    → nframes < 2 ^ 32 - 1
    → IsFirstFree f 0 (32 * (nframes / 32)) (first_frame f nframes)
unfolding first_frame
first_frame-IsFirstFree f nframes w h =
    first_frame_from-IsFirstFree f (nframes / 32) 0 _ w (omega arith) (omega arith)
