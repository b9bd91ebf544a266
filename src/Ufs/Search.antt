-- ===== src/Ufs/Search.antt =====
-- The searches over bitmaps in `ufs_creat` and `ufs_write`.
pub mod Laws
use icix.Prelude.{ℕ, zero, suc, ◌+◌, ◌==◌, if◌then◌else◌, true, false, List, minus_one}
use icix.Bitmap.{get_bitmap}

-- The first clear position from i on, with `left` rounds to go; -1 if there is none.
pub find_empty_from : List ℕ → ℕ → ℕ → ℕ
find_empty_from b zero i = minus_one
find_empty_from b (suc left) i = elim (get_bitmap b i == 0) [
  | true ↦ i
  | false ↦ find_empty_from b left (i + 1)
]

unfoldable pub find_empty : List ℕ → ℕ → ℕ
unfolding find_empty_from get_bitmap
find_empty b n = find_empty_from b n 0

-- The loop of `ufs_creat` that keeps the first two clear positions.
pub find_two_from : List ℕ → ℕ → ℕ → ℕ × ℕ → ℕ × ℕ
find_two_from b zero i found = found
find_two_from b (suc left) i (first, second) = find_two_from b left (i + 1) (
    if get_bitmap b i == 0
    then (if first == minus_one
        then (i, second)
        else if second == minus_one
        then (first, i)
        else (first, second))
    else (first, second))

unfoldable pub find_two : List ℕ → ℕ → ℕ × ℕ
unfolding find_two_from get_bitmap
find_two b n = find_two_from b n 0 (minus_one, minus_one)
