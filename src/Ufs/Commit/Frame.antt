-- ===== src/Ufs/Commit/Frame.antt =====
-- A commit leaves the tables in memory as they are, with any driver and any sizes.
use icix.Prelude.{ℕ, zero, suc, ◌+◌, ◌≡◌, refl, ◌==◌, minus_one}
use icix.Outcome.{returns, aborts, Post, Post-elim, Post-if, Post-bind, Post-weaken, Post-then}
use icix.Bitmap.{get_bitmap, reset_bitmap}
use icix.Disk.{DiskDriver}
use icix.Ufs.State.{Ufs, rounds}
use icix.Ufs.Commit.{commit_inodes, commit_datas, commit_inode, commit_data, commit_dirty_to_disk}
use icix.Ufs.Commit.{commit_and_sync}
use icix.Ufs.Commit.Laws.{SameTables, SameTables-trans}

module _ {D : Type 0} (disk : DiskDriver D) where
  commit_inodes-SameTables :
      (left i : ℕ) (nfs : Ufs) (d : D)
      → Post (λ r. SameTables nfs r.1) (commit_inodes disk left i nfs d)
  unfolding commit_inodes
  commit_inodes-SameTables zero i nfs d = returns (refl, refl, refl, refl)
  commit_inodes-SameTables (suc left) i nfs d =
      let nfs1 = record nfs { dirty_inode_bp = reset_bitmap nfs.dirty_inode_bp i } in
      Post-elim (get_bitmap nfs.dirty_inode_bp i == 0) _ _
        (λ t. commit_inodes-SameTables left (i + 1) nfs d)
        (λ t. Post-bind (commit_inode disk i nfs1 d) _ (λ r _.
          Post-if (r.0 == minus_one) _ _ (λ f. returns (refl, refl, refl, refl))
            (λ f. Post-weaken (λ r' c. c) (commit_inodes-SameTables left (i + 1) nfs1 r.1))))

  commit_datas-SameTables :
      (left i : ℕ) (nfs : Ufs) (d : D)
      → Post (λ r. SameTables nfs r.1) (commit_datas disk left i nfs d)
  unfolding commit_datas
  commit_datas-SameTables zero i nfs d = returns (refl, refl, refl, refl)
  commit_datas-SameTables (suc left) i nfs d =
      let nfs1 = record nfs { dirty_data_bp = reset_bitmap nfs.dirty_data_bp i } in
      Post-elim (get_bitmap nfs.dirty_data_bp i == 0) _ _
        (λ t. commit_datas-SameTables left (i + 1) nfs d)
        (λ t. Post-bind (commit_data disk i nfs1 d) _ (λ r _.
          Post-if (r.0 == minus_one) _ _ (λ f. returns (refl, refl, refl, refl))
            (λ f. Post-weaken (λ r' c. c) (commit_datas-SameTables left (i + 1) nfs1 r.1))))

  pub commit_and_sync-SameTables :
      (nfs : Ufs) (d : D) → Post (λ r. SameTables nfs r.1 × (r.0 ≡ 0)) (commit_and_sync disk nfs d)
  unfolding commit_and_sync
  commit_and_sync-SameTables nfs d = Post-then (commit_dirty_to_disk disk nfs d) _ whole (λ r c.
      Post-if (r.0 == minus_one) _ _ (λ t. aborts)
        (λ t. Post-bind (disk.fsync r.2) _ (λ _ _. returns (c, refl))))
    where
      whole : Post (λ r. SameTables nfs r.1) (commit_dirty_to_disk disk nfs d)
      whole =
          Post-then (commit_inodes disk (rounds nfs.s.num_inodes) 0 nfs d) _
            (commit_inodes-SameTables (rounds nfs.s.num_inodes) 0 nfs d)
            (λ r c.
              Post-if (r.0 == minus_one) _ _ (λ t. returns c)
                (λ t.
                  Post-weaken (λ r' e. SameTables-trans nfs r.1 r'.1 c e)
                    (commit_datas-SameTables (rounds r.1.s.num_data) 0 r.1 r.2)))
