-- ===== src/Ufs/Read.antt =====
-- `ufs_read`: copies a range of a file or a directory into a buffer, block by block.
pub mod Laws
use icix.Prelude.{ℕ, zero, suc, ◌+◌, ◌-◌, ◌/◌, ◌%◌, ◌==◌, ltb, if◌then◌else◌, not, ◌||◌, ◌&&◌}
use icix.Prelude.{List, [], ◌++◌, minus_one, is_neg, slt, add32, mul32, get_or}
use icix.Outcome.{Outcome, done, aborted, ◌>>=◌}
use icix.Disk.{DiskDriver, disk_read}
use icix.Ufs.Layout.{direct_ptrs, ufs_block_size, ufs_directory, dir_ent_size}
use icix.Ufs.State.{Ufs, inode_at, out_of_range, is_unallocated}

-- `sz`: what is left to read, cut at the end of the block.
abbrev pub piece : ℕ → ℕ → ℕ → ℕ
piece nbytes cur offset =
    if ltb (ufs_block_size - offset) (nbytes - cur) then ufs_block_size - offset else nbytes - cur

module _ {D : Type 0} (disk : DiskDriver D) where
  -- The loop over i, with `left` pointers to go; `out` is what the buffer holds so far.
  pub read_blocks : List ℕ → ℕ → ℕ → ℕ → ℕ → ℕ → List ℕ → D → Outcome (ℕ × List ℕ × D)
  read_blocks direct nbytes zero i cur offset out d = done (cur, out, d)
  read_blocks direct nbytes (suc left) i cur offset out d =
      if not (ltb cur nbytes) then done (cur, out, d) else (do
        let sz = piece nbytes cur offset
        (rc, bytes, d1) ←
            disk_read disk (add32 (mul32 (get_or direct i 0) ufs_block_size) offset) sz d
        if rc == minus_one
            then aborted
            else read_blocks direct nbytes left (i + 1) (cur + sz) 0 (out ++ bytes) d1)

  -- The result code, what was stored in the buffer, and the device.
  unfoldable pub ufs_read : Ufs → ℕ → ℕ → ℕ → D → Outcome (ℕ × List ℕ × D)
  unfolding read_blocks
  ufs_read nfs inum offset nbytes d =
      if out_of_range nfs inum
      then done (minus_one, [], d)
      else if is_unallocated nfs inum
      then done (minus_one, [], d)
      else if is_neg offset
          || (is_neg nbytes || nbytes == 0)
          || slt (inode_at nfs inum).size (add32 offset nbytes)
      then done (minus_one, [], d)
      else (let strt = offset / ufs_block_size in
          let offset' = offset % ufs_block_size in
          if (inode_at nfs inum).type == ufs_directory && not (offset' % dir_ent_size == 0)
          then done (minus_one, [], d)
          else (do
            (_, out, d1) ←
                read_blocks (inode_at nfs inum).direct nbytes (direct_ptrs - strt) strt 0 offset' []
                  d
            done (0, out, d1)))
