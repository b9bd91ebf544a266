-- ===== src/Ufs/Write/Laws.antt =====
-- What `ufs_write` may change in memory, with any driver.
use mathlib.Core.Path.{subst}
use icix.Prelude.{ℕ, zero, suc, ◌+◌, ◌-◌, ◌*◌, ◌/◌, ◌%◌, ◌^◌, ◌≤◌, ◌<◌, ◌==◌, ltb, not}
use icix.Prelude.{List, ◌≡◌, ◌∙◌, refl, ap, arith, minus_one, add32, get_or}
use icix.Prelude.{inl, inr, ◌⊎◌, u32}
use icix.Outcome.{done, Post, returns, aborts, Post-if, Post-bind, Post-then}
use icix.Outcome.{Post-weaken}
use icix.Bitmap.{set_bitmap}
use icix.Disk.{DiskDriver, disk_write}
use icix.Ufs.State.{Ufs, inode_at, blank_inode, out_of_range, is_unallocated}
use icix.Ufs.Write.{ensure_block, grow, piece, Progress, no_block, written, write_blocks}
use icix.Ufs.Write.{ufs_write}
use icix.Ufs.Commit.{commit_and_sync}
use icix.Ufs.Commit.Frame.{commit_and_sync-SameTables}
use icix.Ufs.Write.Extends.{
  Extends, Covers, Extends-refl, Extends-trans, grow-Extends, Extends-Covers, ensure_block-Extends,
  size-grow, Extends-dirty, Extends-SameTables,
}

-- How the loop ends: with no block, or with all bytes written and the size grown by their number.
abbrev Ends : ℕ → ℕ → ℕ → ℕ → Progress → Type 0
Ends nbytes cur before after no_block = Unit {0}
Ends nbytes cur before after (written c) = (c ≡ nbytes) × (after ≡ u32 (before + (nbytes - cur)))

Ends-grow :
    (nbytes cur sz before after : ℕ) (p : Progress)
    → sz ≤ nbytes - cur
    → Ends nbytes (cur + sz) (add32 before sz) after p
    → Ends nbytes cur before after p
Ends-grow nbytes cur sz before after no_block h e = tt
Ends-grow nbytes cur sz before after (written c) h e = (e.0, omega (arith, e.1))

module _ {D : Type 0} (disk : DiskDriver D) (inum : ℕ) (buf : List ℕ) (nbytes : ℕ) where
  write_blocks-Extends :
      (left i cur offset : ℕ) (a : Ufs) (d : D)
      → Covers inum a
      → (inode_at a inum).size < 2 ^ 32
      → offset < 4096
      → cur ≤ nbytes
      → offset + (nbytes - cur) ≤ left * 4096
      → Post
          (λ r.
            Extends inum a r.1
            × Ends nbytes cur (inode_at a inum).size (inode_at r.1 inum).size r.0)
          (write_blocks disk inum buf nbytes left i cur offset a d)
  unfolding write_blocks
  write_blocks-Extends zero i cur offset a d c small o le room =
      returns (Extends-refl inum a, (omega arith, omega arith))
  write_blocks-Extends (suc left) i cur offset a d c small o le room =
      let nfs1 = (ensure_block a inum i).1 in
      let sz = piece nbytes cur offset in
      let (x, same_size) = ensure_block-Extends inum i a c in
      let c1 = Extends-Covers inum a nfs1 x c in
      let y = grow-Extends inum sz nfs1 c1.0 in
      let grown : (inode_at (grow nfs1 inum sz) inum).size ≡ add32 (inode_at a inum).size sz =
        size-grow inum sz nfs1 c1.0 ∙ ap (λ n. add32 n sz) same_size in
      Post-if (not (ltb cur nbytes)) _ _
        (λ t. returns (Extends-refl inum a, (ground arith, ground arith)))
        (λ t.
          Post-if ((ensure_block a inum i).0 == minus_one) _ _ (λ u. returns (x, tt))
            (λ u. Post-bind (disk_write disk _ _ d) _ (λ r _.
              Post-if (r.0 == minus_one) _ _ (λ v. aborts)
                (λ v.
                  Post-weaken
                    (λ r' q. (
                      Extends-trans inum a nfs1 r'.1 x
                          (Extends-trans inum nfs1 (grow nfs1 inum sz) r'.1 y q.0),
                      Ends-grow nbytes cur sz (inode_at a inum).size (inode_at r'.1 inum).size r'.0
                          (ground arith)
                          (subst (λ n. Ends nbytes (cur + sz) n (inode_at r'.1 inum).size r'.0)
                            grown q.1),
                    ))
                    (write_blocks-Extends left (i + 1) (cur + sz) 0 (grow nfs1 inum sz) r.1
                      (Extends-Covers inum nfs1 (grow nfs1 inum sz) y c1) (omega (arith, grown))
                      (omega arith) (ground arith) (ground arith))))))

  -- What every return of `ufs_write` means for the file system in memory: the code is 0 or -1, only
  -- this file changed, it lost no block, no block was freed, and on 0 its size grew by all of
  -- `nbytes`.
  abbrev pub Writes : Ufs → ℕ × Ufs × D → Type 0
  Writes nfs (rc, nfs', d) =
      (rc ≡ 0 ⊎ rc ≡ minus_one)
      × Extends inum nfs nfs'
      × (rc ≡ 0 → (inode_at nfs' inum).size ≡ u32 ((inode_at nfs inum).size + nbytes))

  -- With any driver, and for a range that the 30 pointers reach: whenever `ufs_write` returns, the
  -- code is 0 or -1, no other inode, no inode bit and no set block bit changed, the file kept the
  -- blocks it had, and on 0 its size grew by the number of bytes written, also where they replaced
  -- bytes that the file already had.
  pub ufs_write-Writes :
      (offset : ℕ) (nfs : Ufs) (d : D)
      → Covers inum nfs
      → (inode_at nfs inum).size < 2 ^ 32
      → offset + nbytes ≤ 30 * 4096
      → Post (Writes nfs) (ufs_write disk inum buf nbytes offset nfs d)
  unfolding ufs_write
  ufs_write-Writes offset nfs d c small room =
      Post-if (out_of_range nfs inum) _ _ (λ _. refused)
        (λ _.
          Post-if (is_unallocated nfs inum) _ _ (λ _. refused)
            (λ _.
              Post-if _ _ _ (λ _. refused)
                (λ _.
                  Post-then (write_blocks disk inum buf nbytes _ _ 0 _ dirty d) _
                    (write_blocks-Extends (30 - offset / 4096) (offset / 4096) 0 (offset % 4096)
                      dirty d c small (omega arith) (omega arith) (omega arith))
                    (λ r q. finish r.0 r.1 r.2 q.0 q.1))))
    where
      dirty : Ufs
      dirty = record nfs { dirty_inode_bp = set_bitmap nfs.dirty_inode_bp inum }

      refused : Post (Writes nfs) (done (minus_one, nfs, d))
      refused = returns (inr refl, Extends-refl inum nfs, λ e. absurd (omega arith))

      finish :
          (p : Progress) (b : Ufs) (d1 : D)
          → Extends inum dirty b
          → Ends nbytes 0 (inode_at nfs inum).size (inode_at b inum).size p
          → Post (Writes nfs) (elim p [
            | no_block ↦ done (minus_one, b, d1)
            | written cur ↦ commit_and_sync disk b d1
          ])
      finish no_block b d1 x e =
          returns (inr refl, Extends-dirty inum nfs b _ x, λ t. absurd (omega arith))
      finish (written cur) b d1 x e =
          Post-weaken
            (λ r s. (
              inl s.1,
              Extends-trans inum nfs b r.1 (Extends-dirty inum nfs b _ x)
                  (Extends-SameTables inum b r.1 s.0),
              λ _. ap (λ t. (get_or t inum blank_inode).size) s.0.3 ∙ e.1 ∙ omega arith,
            ))
            (commit_and_sync-SameTables disk b d1)
