-- ===== src/Ufs/Unlink/Laws.antt =====
-- Which block bits `ufs_unlink` clears, and what it does under a parent that is no directory.
use icix.Prelude.{ℕ, ◌*◌, ◌^◌, ◌≤◌, ◌<◌, ◌==◌, ltb, if◌then◌else◌, not, ◌||◌}
use icix.Prelude.{List, [], ◌∷◌, ◌≡◌, ◌≢◌, ◌∙◌, refl, arith, minus_one, Bool-cases, inl, inr, ◌⊎◌}
use icix.Prelude.{true, false, Bool, length}
use icix.Outcome.{undefined}
use icix.Bitmap.{get_bitmap, reset_bitmap, set_bitmap}
use icix.Bitmap.Laws.{get_bitmap-reset_bitmap, length-reset_bitmap}
use icix.Cstring.{strcmp}
use icix.Disk.{DiskDriver}
use icix.Ufs.State.{Ufs, inode_at, out_of_range, is_unallocated, minus_four}
use icix.Ufs.Unlink.{release_blocks, ufs_unlink}

-- Every pointer in use is a position of the bitmap.
abbrev pub PointersInside : List ℕ → ℕ → Type 0
PointersInside [] n = Unit {0}
PointersInside (p ∷ ps) n = (p ≡ minus_one ⊎ p < n) × PointersInside ps n

-- k is one of the pointers.
pub is_pointer : ℕ → List ℕ → Bool
is_pointer k [] = false
is_pointer k (p ∷ ps) = p == k || is_pointer k ps

-- `release_blocks` clears the bits at the pointers themselves, which are block addresses on the
-- disk, and no others: block number k of the data region, whose pointer is k plus the address of
-- the region, keeps its bit unless the number k is also one of the pointers.
pub get_bitmap-release_blocks :
    (direct : List ℕ) (nfs : Ufs) (k : ℕ)
    → PointersInside direct (32 * length nfs.data_bp)
    → 32 * length nfs.data_bp ≤ 2 ^ 31
    → k < 2 ^ 31
    → get_bitmap (release_blocks direct nfs).data_bp k
      ≡ (if is_pointer k direct then 0 else get_bitmap nfs.data_bp k)
unfolding release_blocks is_pointer
get_bitmap-release_blocks [] nfs k inside small h = refl
get_bitmap-release_blocks (p ∷ ps) nfs k inside small h = elim (Bool-cases (p == minus_one)) [
  | inl t ↦
      let ne : (p == k) ≡ false = ground arith in
      rw (t, release_blocks) (get_bitmap-release_blocks ps nfs k inside.1 small h ∙ ground arith)
  | inr t ↦
      let below : p < 32 * length nfs.data_bp = ground (arith, inside.0) in
      let nfs1 = record nfs {
        data_bp = reset_bitmap nfs.data_bp p;
        dirty_data_bp = set_bitmap nfs.dirty_data_bp p;
      } in
      let len = length-reset_bitmap nfs.data_bp p in
      let ih = get_bitmap-release_blocks ps nfs1 k (rw len inside.1) (omega (arith, len)) h in
      let one = get_bitmap-reset_bitmap nfs.data_bp p k below (omega arith) h in
      rw (t, release_blocks) (ih ∙ ground (arith, one))
]

-- Under an allocated inode that is no directory, a name other than `.` and `..` makes `ufs_unlink`
-- index the inode table with -4, the code of `ufs_lookup`, which C leaves undefined.
pub ufs_unlink_not_directory :
    {D : Type 0} (disk : DiskDriver D) (stack_name name : List ℕ) (pinum : ℕ) (nfs : Ufs) (d : D)
    → out_of_range nfs pinum ≡ false
    → is_unallocated nfs pinum ≡ false
    → (inode_at nfs pinum).type ≢ 0
    → (strcmp name (b'.' ∷ 0 ∷ []) == 0) ≡ false
    → (strcmp name (b'.' ∷ b'.' ∷ 0 ∷ []) == 0) ≡ false
    → length nfs.inodes < 2 ^ 31
    → ufs_unlink disk stack_name name pinum nfs d ≡ undefined
unfolding ufs_unlink
ufs_unlink_not_directory disk stack_name name pinum nfs d range alloc file dot dots small =
    let t : not ((inode_at nfs pinum).type == 0) ≡ true = ground arith in
    let b : not (ltb minus_four (length nfs.inodes)) ≡ true = ground arith in
    rw (range, alloc, dot, dots, t, b)
