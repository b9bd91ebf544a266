-- ===== src/Ufs/Unlink.antt =====
-- `ufs_unlink`: removes a name from a directory and frees its inode and blocks. A result of
-- `ufs_lookup` other than -1 indexes the inode table, also the codes -2, -3 and -4.
pub mod Laws
use icix.Prelude.{
  ℕ, zero, suc, ◌+◌, ◌*◌, ◌==◌, ltb, length, if◌then◌else◌, not, ◌||◌, ◌&&◌, List, [], ◌∷◌,
}
use icix.Prelude.{minus_one, add32, sub32, mul32, get_or, set}
use icix.Outcome.{Outcome, done, aborted, undefined, ◌>>=◌}
use icix.Bitmap.{set_bitmap, reset_bitmap}
use icix.Cstring.{strcmp}
use icix.Disk.{DiskDriver, disk_read, disk_write}
use icix.Ufs.Layout.{Inode, DirEnt, dir_block_of, dir_ent_bytes, ufs_block_size, ufs_directory}
use icix.Ufs.Layout.{dir_ent_size}
use icix.Ufs.State.{Ufs, inode_at, put_inode, out_of_range, is_unallocated}
use icix.Ufs.Lookup.{ufs_lookup, name_pointer}
use icix.Ufs.Commit.{commit_and_sync}

-- The loop that clears the block bits of the file. The pointers are block addresses on the disk,
-- and go to the bitmap as they are.
pub release_blocks : List ℕ → Ufs → Ufs
release_blocks [] nfs = nfs
release_blocks (p ∷ ps) nfs = release_blocks ps (
    if p == minus_one then nfs else record nfs {
      data_bp = reset_bitmap nfs.data_bp p;
      dirty_data_bp = set_bitmap nfs.dirty_data_bp p;
    })

-- The loop over j: the last entry with the name (-1 if none), and how many entries are in use.
pub scan_block : List ℕ → List DirEnt → ℕ → ℕ × ℕ → ℕ × ℕ
scan_block name [] j (entry_idx, cnt) = (entry_idx, cnt)
scan_block name (e ∷ es) j (entry_idx, cnt) = scan_block name es (j + 1) (
    if e.inum == minus_one
    then (entry_idx, cnt)
    else (if strcmp (name_pointer e) name == 0 then j else entry_idx, cnt + 1))

-- The block of pointer i of the directory, all of whose entries are gone.
pub drop_block : Ufs → ℕ → ℕ → ℕ → Ufs
drop_block nfs pinum i p =
    let inode = inode_at nfs pinum in
    record nfs {
      data_bp = reset_bitmap nfs.data_bp p;
      dirty_data_bp = set_bitmap nfs.dirty_data_bp p;
      inodes = set nfs.inodes pinum (record inode { direct = set inode.direct i minus_one });
    }

-- `stack_name` is what the name field of the uninitialised `dentry` holds.
module _ {D : Type 0} (disk : DiskDriver D) (stack_name name : List ℕ) (pinum : ℕ) where
  -- The loop over the pointers of the directory, `ps` from place i on.
  pub unlink_entry : List ℕ → ℕ → Ufs → D → Outcome (Ufs × D)
  unlink_entry [] i nfs d = done (nfs, d)
  unlink_entry (p ∷ ps) i nfs d = if p == minus_one then unlink_entry ps (i + 1) nfs d else (do
    (rc, block, d1) ← disk_read disk (mul32 p ufs_block_size) ufs_block_size d
    let (entry_idx, cnt) = scan_block name (dir_block_of 128 block) 0 (minus_one, 0)
    if rc == minus_one
        then aborted
        else if entry_idx == minus_one
        then unlink_entry ps (i + 1) nfs d1
        else if cnt == 1
        then done (drop_block nfs pinum i p, d1)
        else (do
          (rc', d2) ←
              disk_write disk (add32 (mul32 p ufs_block_size) (entry_idx * dir_ent_size))
                (dir_ent_bytes (record { name = stack_name; inum = minus_one })) d1
          if rc' == minus_one then aborted else done (nfs, d2)))

  -- What happens once the name is found and may be removed.
  pub unlink_inode : ℕ → Ufs → D → Outcome (ℕ × Ufs × D)
  unfolding release_blocks unlink_entry drop_block scan_block name_pointer commit_and_sync
  unlink_inode inum nfs d = do
    let nfs1 = record nfs {
      inode_bp = reset_bitmap nfs.inode_bp inum;
      dirty_inode_bp = set_bitmap (set_bitmap nfs.dirty_inode_bp inum) pinum;
    }
    let nfs2 = release_blocks (inode_at nfs1 inum).direct nfs1
    let parent = inode_at nfs2 pinum
    let nfs3 = put_inode nfs2 pinum (record parent { size = sub32 parent.size dir_ent_size })
    (nfs4, d1) ← unlink_entry (inode_at nfs3 pinum).direct 0 nfs3 d
    commit_and_sync disk nfs4 d1

  unfoldable pub ufs_unlink : Ufs → D → Outcome (ℕ × Ufs × D)
  unfolding unlink_inode ufs_lookup
  ufs_unlink nfs d =
      if out_of_range nfs pinum
      then done (minus_one, nfs, d)
      else if is_unallocated nfs pinum
      then done (minus_one, nfs, d)
      else if strcmp name (b'.' ∷ 0 ∷ []) == 0 || strcmp name (b'.' ∷ b'.' ∷ 0 ∷ []) == 0
      then done (minus_one, nfs, d)
      else (do
        (inum, d1) ← ufs_lookup disk nfs pinum name d
        if inum == minus_one
            then done (minus_one, nfs, d1)
            else if not (ltb inum (length nfs.inodes))
            then undefined
            else if (inode_at nfs inum).type == ufs_directory
                && not ((inode_at nfs inum).size == 2 * dir_ent_size)
            then done (minus_one, nfs, d1)
            else unlink_inode inum nfs d1)
