-- ===== src/Ufs/Search/Laws.antt =====
-- The searches find the least clear positions.
use icix.Prelude.{ℕ, zero, suc, ◌+◌, ◌^◌, ◌<◌, ◌≤◌, ◌==◌, false, List, minus_one}
use icix.Prelude.{◌≡◌, ◌≢◌, ◌⊎◌, inl, inr, refl, arith, Bool-cases}
use native.Mathlib.Decide.{ℕ_discrete}
use icix.Bitmap.{get_bitmap}
use icix.Bitmap.Laws.{get_bitmap-le_one}
use icix.Ufs.Search.{find_empty_from, find_empty, find_two_from, find_two}

-- r is the least clear position from lo on below hi, or -1 if there is none.
pub record IsLeastClear (b : List ℕ) (lo hi r : ℕ) : Type 0 where
  pub in_range : (r ≡ minus_one) ⊎ ((lo ≤ r) × (r < hi))
  pub none_clear : r ≡ minus_one → (k : ℕ) → lo ≤ k → k < hi → get_bitmap b k ≡ 1
  pub clear : r < hi → get_bitmap b r ≡ 0
  pub least : r < hi → (k : ℕ) → lo ≤ k → k < r → get_bitmap b k ≡ 1

find_empty_from-IsLeastClear :
    (b : List ℕ) (left i hi : ℕ)
    → i + left ≡ hi
    → hi < 2 ^ 31
    → IsLeastClear b i hi (find_empty_from b left i)
unfolding find_empty_from
find_empty_from-IsLeastClear b zero i hi e h = record {
  in_range = inl refl;
  none_clear = λ _ k p q. absurd (omega arith);
  clear = λ p. absurd (omega arith);
  least = λ p. absurd (omega arith);
}
find_empty_from-IsLeastClear b (suc left) i hi e h = elim (Bool-cases (get_bitmap b i == 0)) [
  | inl t ↦
      rw (t, find_empty_from)
        (record {
          in_range = inr (omega arith, omega arith);
          none_clear = λ m. absurd (omega arith);
          clear = λ _. ground arith;
          least = λ _ k p q. absurd (omega arith);
        })
  | inr t ↦
      let one : get_bitmap b i ≡ 1 = ground (arith, get_bitmap-le_one b i) in
      let rest = find_empty_from-IsLeastClear b left (i + 1) hi (omega arith) h in
      let first =
        λ (k : ℕ) (p : i ≤ k) (later : i + 1 ≤ k → get_bitmap b k ≡ 1). front k p one later in
      rw (t, find_empty_from)
        (record {
          in_range = ground (arith, rest.in_range);
          none_clear = λ m k p q. first k p (λ r. rest.none_clear m k r q);
          clear = rest.clear;
          least = λ m k p q. first k p (λ r. rest.least m k r q);
        })
]
  where
    front :
        (k : ℕ) → i ≤ k → get_bitmap b i ≡ 1 → (i + 1 ≤ k → get_bitmap b k ≡ 1) → get_bitmap b k ≡ 1
    front k p one later = elim (ℕ_discrete i k) [
      | yes s ↦ rw (← s) one
      | no s ↦ later (omega arith)
    ]

-- The search for an inode or a block gives the least clear position below n, or -1 if all of them
-- are set.
pub find_empty-IsLeastClear :
    (b : List ℕ) (n : ℕ) → n < 2 ^ 31 → IsLeastClear b 0 n (find_empty b n)
unfolding find_empty
find_empty-IsLeastClear b n h = find_empty_from-IsLeastClear b n 0 n (omega arith) h

-- Two positions once found are kept.
find_two_from-found :
    (b : List ℕ) (left i x y : ℕ)
    → x ≢ minus_one
    → y ≢ minus_one
    → find_two_from b left i (x, y) ≡ (x, y)
unfolding find_two_from
find_two_from-found b zero i x y p q = refl
find_two_from-found b (suc left) i x y p q =
    let e : (x == minus_one) ≡ false = ground arith in
    let d : (y == minus_one) ≡ false = ground arith in
    elim (Bool-cases (get_bitmap b i == 0)) [
      | inl t ↦ rw (t, e, d) (find_two_from-found b left (i + 1) x y p q)
      | inr t ↦ rw t (find_two_from-found b left (i + 1) x y p q)
    ]

-- With the first one found, the second is the next clear position.
find_two_from-second :
    (b : List ℕ) (left i x : ℕ)
    → x ≢ minus_one
    → i + left < 2 ^ 31
    → find_two_from b left i (x, minus_one) ≡ (x, find_empty_from b left i)
unfolding find_two_from find_empty_from
find_two_from-second b zero i x p h = refl
find_two_from-second b (suc left) i x p h =
    let e : (x == minus_one) ≡ false = ground arith in
    elim (Bool-cases (get_bitmap b i == 0)) [
      | inl t ↦ rw (t, e, find_empty_from) (find_two_from-found b left (i + 1) x i p (omega arith))
      | inr t ↦ rw (t, find_empty_from) (find_two_from-second b left (i + 1) x p (omega arith))
    ]

find_two_from-first :
    (b : List ℕ) (left i : ℕ) {hi : ℕ}
    → i ≢ minus_one
    → i + 1 + left < 2 ^ 31
    → IsLeastClear b (i + 1) hi (find_empty_from b left (i + 1))
    → ((find_two_from b left (i + 1) (i, minus_one)).0 ≡ i)
      × IsLeastClear b (i + 1) hi (find_two_from b left (i + 1) (i, minus_one)).1
find_two_from-first b left i p h c = rw (find_two_from-second b left (i + 1) i p h) (refl, c)

find_two_from-IsLeastClear :
    (b : List ℕ) (left i hi : ℕ)
    → i + left ≡ hi
    → hi < 2 ^ 31
    → ((find_two_from b left i (minus_one, minus_one)).0 ≡ find_empty_from b left i)
      × IsLeastClear b
          (find_empty_from b left i + 1)
          hi
          (find_two_from b left i (minus_one, minus_one)).1
unfolding find_two_from find_empty_from
find_two_from-IsLeastClear b zero i hi e h = (
  refl,
  record {
    in_range = inl refl;
    none_clear = λ _ k p q. absurd (omega arith);
    clear = λ p. absurd (omega arith);
    least = λ p. absurd (omega arith);
  },
)
find_two_from-IsLeastClear b (suc left) i hi e h = elim (Bool-cases (get_bitmap b i == 0)) [
  | inl t ↦
      rw (t, find_empty_from)
        (rw (t, find_two_from)
          (find_two_from-first b left i (omega arith) (omega arith)
            (find_empty_from-IsLeastClear b left (i + 1) hi (omega arith) h)))
  | inr t ↦
      rw (t, find_empty_from)
        (rw (t, find_two_from) (find_two_from-IsLeastClear b left (i + 1) hi (omega arith) h))
]

-- For fewer than 2 ^ 31 blocks, the first of the two blocks that `ufs_creat` looks for is the one
-- that a plain search finds, and the second is the least clear one behind it (-1 if there is none).
pub find_two-eq-find_empty :
    (b : List ℕ) (n : ℕ)
    → n < 2 ^ 31
    → ((find_two b n).0 ≡ find_empty b n) × IsLeastClear b (find_empty b n + 1) n (find_two b n).1
unfolding find_two find_empty
find_two-eq-find_empty b n h = find_two_from-IsLeastClear b n 0 n (omega arith) h
