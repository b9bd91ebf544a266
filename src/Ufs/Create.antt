-- ===== src/Ufs/Create.antt =====
-- `ufs_creat`: a new file or directory under a name. What uninitialised stack memory holds in
-- `dir_block_t data` and `dir_ent_t dent` is a parameter, and so are `strcpy` and `malloc` with the
-- heap behind it, which the kernel and the host program take from different libraries.
pub mod Laws
pub mod Names
pub mod Directory
pub mod Room
pub mod Insert
pub mod Found
pub mod Added
pub mod Run
pub mod RoundTrip
use icix.Prelude.{
  ℕ, zero, suc, ◌+◌, ◌*◌, ◌==◌, if◌then◌else◌, ltb, not, ◌||◌, ◌&&◌, Bool, true, false,
}
use icix.Prelude.{List, [], ◌∷◌, map, drop, minus_one, add32, mul32, get_or, set, replicate}
use icix.Outcome.{Outcome, done, aborted, ◌>>=◌}
use icix.Bitmap.{set_bitmap}
use icix.Cstring.{strlen}
use icix.Disk.{DiskDriver, disk_read, disk_write}
use icix.Ufs.Layout.{Inode, DirEnt, dir_block_of, dir_block_bytes, dir_ent_bytes, ufs_block_size}
use icix.Ufs.Layout.{ufs_directory, dir_ent_size, direct_ptrs}
use icix.Ufs.State.{Ufs, inode_at, put_inode, out_of_range, is_unallocated, rounds}
use icix.Ufs.Search.{find_empty, find_two}
use icix.Ufs.Lookup.{ufs_lookup}
use icix.Ufs.Commit.{commit_and_sync}

-- The first unused entry of a block; -1 if there is none.
unfoldable pub free_entry_from : List DirEnt → ℕ → ℕ
free_entry_from [] j = minus_one
free_entry_from (e ∷ es) j = if e.inum == minus_one then j else free_entry_from es (j + 1)

-- `direct[i] = addr` at the first i with `direct[i] == -1`.
pub assign_pointer : List ℕ → ℕ → List ℕ
assign_pointer [] addr = []
assign_pointer (p ∷ ps) addr = if p == minus_one then addr ∷ ps else p ∷ assign_pointer ps addr

-- `.inum = -1` in every entry.
abbrev pub unused : List DirEnt → List DirEnt
unused es = map (λ e. record { name = e.name; inum = minus_one }) es

-- One entry with its name copied over what the field held.
pub entry : (List ℕ → List ℕ → List ℕ) → DirEnt → List ℕ → ℕ → DirEnt
entry strcpy e name inum = record { name = strcpy e.name name; inum = inum }

-- The marks for the new inode, and its type and pointers.
pub claim_inode : Ufs → ℕ → ℕ → Ufs
claim_inode nfs inum type = record nfs {
  inode_bp = set_bitmap nfs.inode_bp inum;
  dirty_inode_bp = set_bitmap nfs.dirty_inode_bp inum;
  inodes = set nfs.inodes inum (record {
    type = type;
    size = (inode_at nfs inum).size;
    direct = replicate direct_ptrs minus_one;
  });
}

pub mark_data : Ufs → ℕ → Ufs
mark_data nfs block = record nfs {
  data_bp = set_bitmap nfs.data_bp block;
  dirty_data_bp = set_bitmap nfs.dirty_data_bp block;
}

abbrev pub blank_entry : DirEnt
blank_entry = record { name = []; inum = 0 }

module _ {D : Type 0} (disk : DiskDriver D) (strcpy : List ℕ → List ℕ → List ℕ)
    (stack_block : List DirEnt) (stack_entry : DirEnt) where
  -- `is_pinode_full`, over the parent's pointers.
  pub scan_full : List ℕ → D → Outcome (Bool × D)
  scan_full [] d = done (true, d)
  scan_full (p ∷ ps) d = if p == minus_one then scan_full ps d else (do
    (rc, block, d1) ← disk_read disk (mul32 p ufs_block_size) ufs_block_size d
    if rc == minus_one
        then aborted
        else if free_entry_from (dir_block_of 128 block) 0 == minus_one
        then scan_full ps d1
        else done (false, d1))

  -- The first block of a new directory: `.` and `..`, and 126 unused entries.
  pub fresh_directory : ℕ → ℕ → List DirEnt
  fresh_directory inum pinum =
      entry strcpy (get_or stack_block 0 blank_entry) (b'.' ∷ 0 ∷ []) inum
      ∷ entry strcpy (get_or stack_block 1 blank_entry) (b'.' ∷ b'.' ∷ 0 ∷ []) pinum
      ∷ unused (drop 2 stack_block)

  -- `if (type == UFS_DIRECTORY) … else …`: the code to return (0 to go on), the block that is left.
  pub fill_inode : ℕ → ℕ → ℕ → Bool → ℕ × ℕ → Ufs → D → Outcome (ℕ × ℕ × Ufs × D)
  fill_inode pinum type inum full (first, second) nfs d =
      let inode = inode_at nfs inum in
      if not (type == ufs_directory)
      then done (0, first, put_inode nfs inum (record inode { size = 0 }), d)
      else if first == minus_one || full && second == minus_one
      then done (minus_one, first, nfs, d)
      else (do
        let addr = add32 first nfs.s.data_region_addr
        let nfs1 =
            mark_data
              (put_inode nfs inum
                (record inode { size = 2 * dir_ent_size; direct = set inode.direct 0 addr }))
              first
        (rc, d1) ←
            disk_write disk (mul32 addr ufs_block_size)
              (dir_block_bytes (fresh_directory inum pinum)) d
        if rc == minus_one then aborted else done (0, second, nfs1, d1))

  -- The entry in the first block of the parent that has room.
  pub insert_entry : List ℕ → List ℕ → ℕ → D → Outcome D
  insert_entry [] name inum d = done d
  insert_entry (p ∷ ps) name inum d = do
    (rc, block, d1) ← disk_read disk (mul32 p ufs_block_size) ufs_block_size d
    let empty_idx = free_entry_from (dir_block_of 128 block) 0
    if rc == minus_one
        then aborted
        else if empty_idx == minus_one
        then insert_entry ps name inum d1
        else (do
          (rc', d2) ←
              disk_write disk (add32 (mul32 p ufs_block_size) (empty_idx * dir_ent_size))
                (dir_ent_bytes (entry strcpy stack_entry name inum)) d1
          if rc' == minus_one then aborted else done d2)

  -- A new block of the parent, with the entry as its first; 0, or -1 if there is no room for it.
  pub extend_parent : ℕ → ℕ → List ℕ → ℕ → Ufs → D → Outcome (ℕ × Ufs × D)
  extend_parent pinum block name inum nfs d =
      if block == minus_one || (inode_at nfs pinum).size == direct_ptrs * ufs_block_size
      then done (minus_one, nfs, d)
      else (do
        let addr = add32 block nfs.s.data_region_addr
        (rc, d1) ←
            disk_write disk (mul32 addr ufs_block_size)
              (dir_block_bytes (
                entry strcpy (get_or stack_block 0 blank_entry) name inum
                ∷ unused (drop 1 stack_block)))
              d
        let nfs1 = mark_data nfs block
        let parent = inode_at nfs1 pinum
        if rc == minus_one
            then aborted
            else done (
              0,
              put_inode nfs1 pinum (record parent { direct = assign_pointer parent.direct addr }),
              d1,
            ))

  module _ {H : Type 0} (malloc : ℕ → H → Outcome (ℕ × H)) where
    -- The block of the heap that holds what is read is never freed; where it lies makes no difference.
    pub update_parent : ℕ → ℕ → List ℕ → ℕ → Bool → Ufs → D → H → Outcome (ℕ × Ufs × D × H)
    update_parent pinum block name inum true nfs d h = do
      (rc, nfs1, d1) ← extend_parent pinum block name inum nfs d
      done (rc, nfs1, d1, h)
    update_parent pinum block name inum false nfs d h = do
      (_, h1) ← malloc ufs_block_size h
      d1 ← insert_entry (inode_at nfs pinum).direct name inum d
      done (0, nfs, d1, h1)

    -- The parent is one entry longer, and everything is written.
    pub finish_parent : ℕ → ℕ × Ufs × D × H → Outcome (ℕ × Ufs × D × H)
    finish_parent pinum (rc, nfs, d, h) =
        let parent = inode_at nfs pinum in
        if rc == minus_one then done (minus_one, nfs, d, h) else (do
          (rc', nfs1, d1) ←
              commit_and_sync disk
                (put_inode nfs pinum (record parent { size = add32 parent.size dir_ent_size })) d
          done (rc', nfs1, d1, h))

    -- From the claim of the inode on.
    pub create_inode : ℕ → ℕ → List ℕ → ℕ → ℕ × ℕ → Ufs → D → H → Outcome (ℕ × Ufs × D × H)
    create_inode pinum type name inum blocks nfs d h =
        let nfs1 = claim_inode nfs inum type in
        if (inode_at nfs1 pinum).size == direct_ptrs * ufs_block_size
        then done (minus_one, nfs1, d, h)
        else (do
          (full, d1) ← scan_full (inode_at nfs1 pinum).direct d
          (rc, block, nfs2, d2) ← fill_inode pinum type inum full blocks nfs1 d1
          if rc == minus_one then done (minus_one, nfs2, d2, h) else (do
            r ←
                update_parent pinum block name inum full
                  (record nfs2 { dirty_inode_bp = set_bitmap nfs2.dirty_inode_bp pinum }) d2 h
            finish_parent pinum r))

    unfoldable pub ufs_creat : Ufs → ℕ → ℕ → List ℕ → D → H → Outcome (ℕ × Ufs × D × H)
    unfolding create_inode finish_parent update_parent extend_parent insert_entry fill_inode
        fresh_directory scan_full claim_inode mark_data entry assign_pointer free_entry_from
        ufs_lookup find_empty find_two commit_and_sync
    ufs_creat nfs pinum type name d h =
        if out_of_range nfs pinum
        then done (minus_one, nfs, d, h)
        else if is_unallocated nfs pinum
        then done (minus_one, nfs, d, h)
        else if not ((inode_at nfs pinum).type == ufs_directory)
        then done (minus_one, nfs, d, h)
        else if ltb 27 (strlen name)
        then done (minus_one, nfs, d, h)
        else (do
          (existing, d1) ← ufs_lookup disk nfs pinum name d
          let inum = find_empty nfs.inode_bp (rounds nfs.s.num_inodes)
          if not (existing == minus_one) || inum == minus_one
              then done (minus_one, nfs, d1, h)
              else create_inode pinum type name inum (find_two nfs.data_bp (rounds nfs.s.num_data))
                  nfs d1 h)
