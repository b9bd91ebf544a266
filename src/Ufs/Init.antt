-- ===== src/Ufs/Init.antt =====
-- `ufs_init`: mounts the file system that the disk holds, from the superblock at the driver's
-- cursor. The dirty bitmaps come from `malloc` and are not cleared: what they hold is a parameter.
pub mod Image
pub mod Formatted
use icix.Prelude.{ℕ, ◌==◌, if◌then◌else◌, not, List, minus_one, mul32}
use icix.Outcome.{Outcome, done, aborted, ◌>>=◌}
use icix.Bitmap.{get_bitmap_sz}
use icix.Disk.{DiskDriver}
use icix.Ufs.Layout.{Super, super_of, words_of, inodes_of, super_size, inode_size, ufs_block_size}
use icix.Ufs.State.{Ufs}

module _ {D : Type 0} (disk : DiskDriver D) where
  -- A seek to a block and a read there; either failure aborts.
  pub read_region : ℕ → ℕ → D → Outcome (List ℕ × D)
  read_region block count d = do
    (rc, d1) ← disk.lseek (mul32 block ufs_block_size) d
    if rc == minus_one then aborted else (do
      (rc', buf, d2) ← disk.read count d1
      if not (rc' == count) then aborted else done (buf, d2))

  -- What follows the superblock: both bitmaps and the inode table.
  unfoldable pub mount : List ℕ → List ℕ → Super → D → Outcome (Ufs × D)
  unfolding read_region get_bitmap_sz words_of inodes_of
  mount fresh_inode_bp fresh_data_bp s d0 = do
    let inode_bp_sz = get_bitmap_sz s.num_inodes
    let data_bp_sz = get_bitmap_sz s.num_data
    (inode_bp, d1) ← read_region s.inode_bitmap_addr (mul32 inode_bp_sz 4) d0
    (data_bp, d2) ← read_region s.data_bitmap_addr (mul32 data_bp_sz 4) d1
    (itable, d3) ← read_region s.inode_region_addr (mul32 inode_size s.num_inodes) d2
    done (
      record {
        s = s;
        inode_bp = words_of inode_bp_sz inode_bp;
        inode_bp_sz = inode_bp_sz;
        data_bp = words_of data_bp_sz data_bp;
        data_bp_sz = data_bp_sz;
        inodes = inodes_of s.num_inodes itable;
        dirty_inode_bp = fresh_inode_bp;
        dirty_data_bp = fresh_data_bp;
      },
      d3,
    )

  unfoldable pub ufs_init : List ℕ → List ℕ → D → Outcome (Ufs × D)
  unfolding mount super_of
  ufs_init fresh_inode_bp fresh_data_bp d = do
    (rc, buf, d0) ← disk.read super_size d
    if not (rc == super_size) then aborted else mount fresh_inode_bp fresh_data_bp (super_of buf) d0
