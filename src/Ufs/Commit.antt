-- ===== src/Ufs/Commit.antt =====
-- `commit_dirty_to_disk`: writes the bitmap word and the inode of each dirty inode, and the bitmap
-- word of each dirty data block, and marks them clean.
pub mod Laws
pub mod Frame
pub mod Device
pub mod Sync
use icix.Prelude.{ℕ, zero, suc, ◌+◌, ◌*◌, ◌/◌, ◌==◌, if◌then◌else◌, true, false, minus_one}
use icix.Prelude.{add32, mul32, get_or}
use icix.Outcome.{Outcome, done, ◌>>=◌}
use icix.Bitmap.{get_bitmap, reset_bitmap}
use icix.Disk.{DiskDriver, disk_write}
use icix.Ufs.Layout.{word_bytes, inode_bytes, inode_size, ufs_block_size}
use icix.Ufs.State.{Ufs, inode_at, rounds}

module _ {D : Type 0} (disk : DiskDriver D) where
  -- The body of the first loop for a dirty inode i.
  pub commit_inode : ℕ → Ufs → D → Outcome (ℕ × D)
  commit_inode i nfs d = do
    let idx = i / 32
    (rc, d1) ←
        disk_write disk (add32 (mul32 nfs.s.inode_bitmap_addr ufs_block_size) (idx * 4))
          (word_bytes (get_or nfs.inode_bp idx 0)) d
    if rc == minus_one
        then done (minus_one, d1)
        else disk_write disk (add32 (mul32 nfs.s.inode_region_addr ufs_block_size) (i * inode_size))
            (inode_bytes (inode_at nfs i)) d1

  -- The body of the second loop for a dirty block i.
  pub commit_data : ℕ → Ufs → D → Outcome (ℕ × D)
  commit_data i nfs d =
      let idx = i / 32 in
      disk_write disk (add32 (mul32 nfs.s.data_bitmap_addr ufs_block_size) (idx * 4))
        (word_bytes (get_or nfs.data_bp idx 0)) d

  pub commit_inodes : ℕ → ℕ → Ufs → D → Outcome (ℕ × Ufs × D)
  commit_inodes zero i nfs d = done (0, nfs, d)
  commit_inodes (suc left) i nfs d = elim (get_bitmap nfs.dirty_inode_bp i == 0) [
    | true ↦ commit_inodes left (i + 1) nfs d
    | false ↦ do
      let nfs1 = record nfs { dirty_inode_bp = reset_bitmap nfs.dirty_inode_bp i }
      (rc, d1) ← commit_inode i nfs1 d
      if rc == minus_one then done (minus_one, nfs1, d1) else commit_inodes left (i + 1) nfs1 d1
  ]

  pub commit_datas : ℕ → ℕ → Ufs → D → Outcome (ℕ × Ufs × D)
  commit_datas zero i nfs d = done (0, nfs, d)
  commit_datas (suc left) i nfs d = elim (get_bitmap nfs.dirty_data_bp i == 0) [
    | true ↦ commit_datas left (i + 1) nfs d
    | false ↦ do
      let nfs1 = record nfs { dirty_data_bp = reset_bitmap nfs.dirty_data_bp i }
      (rc, d1) ← commit_data i nfs1 d
      if rc == minus_one then done (minus_one, nfs1, d1) else commit_datas left (i + 1) nfs1 d1
  ]

  unfoldable pub commit_dirty_to_disk : Ufs → D → Outcome (ℕ × Ufs × D)
  unfolding commit_inodes commit_datas commit_inode commit_data
  commit_dirty_to_disk nfs d = do
    (rc, nfs1, d1) ← commit_inodes (rounds nfs.s.num_inodes) 0 nfs d
    if rc == minus_one
        then done (minus_one, nfs1, d1)
        else commit_datas (rounds nfs1.s.num_data) 0 nfs1 d1

  -- The end of each operation that writes: commit, abort if that fails, then `fsync`.
  unfoldable pub commit_and_sync : Ufs → D → Outcome (ℕ × Ufs × D)
  unfolding commit_dirty_to_disk
  commit_and_sync nfs d = do
    (rc, nfs1, d1) ← commit_dirty_to_disk nfs d
    if rc == minus_one then Outcome.aborted else (do (_, d2) ← disk.fsync d1; done (0, nfs1, d2))
