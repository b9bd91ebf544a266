-- ===== src/Ufs/Write.antt =====
-- `ufs_write`: allocates the blocks that a file lacks, writes them piece by piece, and commits.
pub mod Extends
pub mod Block
pub mod RoundTrip
pub mod Laws
use icix.Prelude.{
  ℕ, zero, suc, ◌+◌, ◌-◌, ◌/◌, ◌%◌, ◌==◌, ltb, if◌then◌else◌, not, ◌||◌, List, take, drop,
}
use icix.Prelude.{minus_one, is_neg, slt, add32, mul32, get_or, set}
use icix.Outcome.{Outcome, done, aborted, ◌>>=◌}
use icix.Bitmap.{set_bitmap}
use icix.Disk.{DiskDriver, disk_write}
use icix.Ufs.Layout.{Inode, direct_ptrs, ufs_block_size, ufs_regular_file}
use icix.Ufs.State.{Ufs, inode_at, put_inode, out_of_range, is_unallocated, rounds}
use icix.Ufs.Search.{find_empty}
use icix.Ufs.Commit.{commit_and_sync}

-- A data block for pointer i of the file: the mark in both bitmaps and the pointer.
pub take_block : Ufs → ℕ → ℕ → ℕ → Ufs
take_block nfs inum i empty_block =
    let inode = inode_at nfs inum in
    record nfs {
      data_bp = set_bitmap nfs.data_bp empty_block;
      dirty_data_bp = set_bitmap nfs.dirty_data_bp empty_block;
      inodes =
          set nfs.inodes inum (record inode {
            direct = set inode.direct i (add32 empty_block nfs.s.data_region_addr);
          });
    }

-- `if (direct[i] == -1)`: -1 if a block is wanted and there is none.
pub ensure_block : Ufs → ℕ → ℕ → ℕ × Ufs
unfolding take_block
ensure_block nfs inum i =
    if not (get_or (inode_at nfs inum).direct i 0 == minus_one)
    then (0, nfs)
    else (let empty_block = find_empty nfs.data_bp (rounds nfs.s.num_data) in
        if empty_block == minus_one
        then (minus_one, nfs)
        else (0, take_block nfs inum i empty_block))

-- `nfs->inodes[inum].size += sz`
pub grow : Ufs → ℕ → ℕ → Ufs
grow nfs inum sz =
    let inode = inode_at nfs inum in
    put_inode nfs inum (record inode { size = add32 inode.size sz })

-- `sz`: what is left to write, cut at the end of the block.
abbrev pub piece : ℕ → ℕ → ℕ → ℕ
piece nbytes cur offset =
    if ltb (ufs_block_size - offset) (nbytes - cur) then ufs_block_size - offset else nbytes - cur

-- How the loop was left: the early `return -1`, or its end with `cur` bytes written.
pub data Progress : Type 0 where
  no_block : Progress
  written : ℕ → Progress

module _ {D : Type 0} (disk : DiskDriver D) (inum : ℕ) (buf : List ℕ) (nbytes : ℕ) where
  -- The loop over i, with `left` pointers to go.
  pub write_blocks : ℕ → ℕ → ℕ → ℕ → Ufs → D → Outcome (Progress × Ufs × D)
  write_blocks zero i cur offset nfs d = done (written cur, nfs, d)
  write_blocks (suc left) i cur offset nfs d =
      if not (ltb cur nbytes)
      then done (written cur, nfs, d)
      else (let (ok, nfs1) = ensure_block nfs inum i in
          if ok == minus_one then done (no_block, nfs1, d) else (do
            let sz = piece nbytes cur offset
            (rc, d1) ←
                disk_write disk
                  (add32 (mul32 (get_or (inode_at nfs1 inum).direct i 0) ufs_block_size) offset)
                  (take sz (drop cur buf)) d
            if rc == minus_one
                then aborted
                else write_blocks left (i + 1) (cur + sz) 0 (grow nfs1 inum sz) d1))

  unfoldable pub ufs_write : ℕ → Ufs → D → Outcome (ℕ × Ufs × D)
  unfolding write_blocks ensure_block grow commit_and_sync find_empty
  ufs_write offset nfs d =
      if out_of_range nfs inum
      then done (minus_one, nfs, d)
      else if is_unallocated nfs inum
      then done (minus_one, nfs, d)
      else if slt 4096 nbytes
          || slt (inode_at nfs inum).size offset
          || not ((inode_at nfs inum).type == ufs_regular_file)
          || is_neg offset
          || is_neg nbytes
          || nbytes == 0
      then done (minus_one, nfs, d)
      else (do
        let strt = offset / ufs_block_size
        (progress, nfs1, d1) ←
            write_blocks (direct_ptrs - strt) strt 0 (offset % ufs_block_size)
              (record nfs { dirty_inode_bp = set_bitmap nfs.dirty_inode_bp inum }) d
        elim progress [
          | no_block ↦ done (minus_one, nfs1, d1)
          | written cur ↦ commit_and_sync disk nfs1 d1
        ])
