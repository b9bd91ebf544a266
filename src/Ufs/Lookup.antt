-- ===== src/Ufs/Lookup.antt =====
-- `ufs_lookup`: the entry of a name in a directory, by reading its entries one after the other.
pub mod Laws
pub mod Keeps
use icix.Prelude.{ℕ, zero, suc, ◌/◌, ◌%◌, ◌==◌, if◌then◌else◌, not, List, [], ◌∷◌, ◌++◌}
use icix.Prelude.{minus_one, mul32, sub32}
use icix.Outcome.{Outcome, done, aborted, ◌>>=◌}
use icix.Disk.{DiskDriver}
use icix.Cstring.{strcmp}
use icix.Ufs.Layout.{
  Inode, DirEnt, dir_ent_of, word_bytes, dir_ent_size, ufs_block_size, ufs_directory,
}
use icix.Ufs.State.{Ufs, inode_at, out_of_range, is_unallocated, minus_two, minus_three, minus_four}

-- The bytes from `entry.name` on: behind the name field stands the inode number.
unfoldable pub name_pointer : DirEnt → List ℕ
unfolding word_bytes
name_pointer e = e.name ++ word_bytes e.inum

-- The state of the search after a block: the inode number, or how many entries are left.
pub data Scan : Type 0 where
  found : ℕ → Scan
  remaining : ℕ → Scan

module _ {D : Type 0} (disk : DiskDriver D) (name : List ℕ) where
  -- The loop over j, with `left` rounds to go.
  pub lookup_entries : ℕ → ℕ → D → Outcome (Scan × D)
  lookup_entries zero dir_ent_cnt d = done (remaining dir_ent_cnt, d)
  lookup_entries (suc left) dir_ent_cnt d = do
    (rc, buf, d1) ← disk.read dir_ent_size d
    let dir_ent = dir_ent_of buf
    let cnt' = sub32 dir_ent_cnt 1
    if not (rc == dir_ent_size)
        then aborted
        else if dir_ent.inum == minus_one
        then aborted
        else if strcmp name (name_pointer dir_ent) == 0
        then done (found dir_ent.inum, d1)
        else if cnt' == 0
        then done (remaining cnt', d1)
        else lookup_entries left cnt' d1

  -- The loop over i.
  pub lookup_blocks : List ℕ → ℕ → D → Outcome (ℕ × D)
  lookup_blocks [] dir_ent_cnt d = done (minus_one, d)
  lookup_blocks (p ∷ ps) dir_ent_cnt d = if dir_ent_cnt == 0 then done (minus_one, d) else (do
    (rc, d1) ← disk.lseek (mul32 p ufs_block_size) d
    if rc == minus_one then aborted else (do
      (scan, d2) ← lookup_entries (ufs_block_size / dir_ent_size) dir_ent_cnt d1
      elim scan [ found inum ↦ done (inum, d2) | remaining cnt ↦ lookup_blocks ps cnt d2 ]))

unfoldable pub ufs_lookup : {D : Type 0} → DiskDriver D → Ufs → ℕ → List ℕ → D → Outcome (ℕ × D)
unfolding lookup_blocks lookup_entries name_pointer
ufs_lookup disk nfs pinum name d =
    if out_of_range nfs pinum
    then done (minus_two, d)
    else if is_unallocated nfs pinum
    then done (minus_three, d)
    else (let inode = inode_at nfs pinum in
        if not (inode.type == ufs_directory)
        then done (minus_four, d)
        else if not (inode.size % dir_ent_size == 0)
        then aborted
        else lookup_blocks disk name inode.direct (inode.size / dir_ent_size) d)
