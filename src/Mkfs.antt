-- ===== src/Mkfs.antt =====
-- fs/mkfs.c: the image of an empty file system. The steps of `main` from the size checks on, as the
-- sequence of its `pwrite` calls; Main has its options and the picture. The texts of the messages
-- are left out, and so is a call that fails, after which the program exits. The host's `strcpy` and
-- what uninitialised stack memory holds are parameters.
pub mod Laws
pub mod Main
use icix.Prelude.{
  ℕ, zero, suc, ◌+◌, ◌-◌, ◌*◌, ◌/◌, ◌%◌, ◌^◌, ◌==◌, if◌then◌else◌, ltb, ◌||◌, List, [], ◌∷◌, ◌++◌,
}
use icix.Prelude.{drop, get_or, replicate, map, minus_one, mul32, u32}
use icix.Outcome.{Outcome, done, aborted}
use icix.Ufs.State.{rounds}
use icix.Ufs.Layout.{
  Super, Inode, DirEnt, words_bytes, inode_bytes, dir_block_bytes, ufs_block_size,
}
use icix.Ufs.Layout.{ufs_directory, dir_ent_size, inode_size, direct_ptrs}

-- `len = n / per; if (n % per != 0) len++`
abbrev pub blocks_for : ℕ → ℕ → ℕ
blocks_for n per = if n % per == 0 then n / per else n / per + 1

abbrev pub bits_per_block : ℕ
bits_per_block = 8 * ufs_block_size

-- The superblock that the two totals give.
unfoldable pub layout : ℕ → ℕ → Super
layout num_inodes num_data =
    let inode_bitmap_len = blocks_for num_inodes bits_per_block in
    let data_bitmap_addr = 1 + inode_bitmap_len in
    let data_bitmap_len = blocks_for num_data bits_per_block in
    let inode_region_addr = data_bitmap_addr + data_bitmap_len in
    let inode_region_len = blocks_for (mul32 num_inodes inode_size) ufs_block_size in
    record {
      inode_bitmap_addr = 1;
      inode_bitmap_len = inode_bitmap_len;
      data_bitmap_addr = data_bitmap_addr;
      data_bitmap_len = data_bitmap_len;
      inode_region_addr = inode_region_addr;
      inode_region_len = inode_region_len;
      data_region_addr = inode_region_addr + inode_region_len;
      data_region_len = num_data;
      num_inodes = num_inodes;
      num_data = num_data;
    }

-- The sum as an `int`.
abbrev pub total_blocks : Super → ℕ
total_blocks s =
    u32 (1 + s.inode_bitmap_len + s.data_bitmap_len + s.inode_region_len + s.data_region_len)

unfoldable pub super_bytes : Super → List ℕ
unfolding words_bytes
super_bytes s = words_bytes (
    s.inode_bitmap_addr ∷ s.inode_bitmap_len ∷ s.data_bitmap_addr ∷ s.data_bitmap_len
    ∷ s.inode_region_addr ∷ s.inode_region_len ∷ s.data_region_addr ∷ s.data_region_len
    ∷ s.num_inodes ∷ s.num_data ∷ [])

-- One `pwrite`: its bytes and its offset, a product of `int`s and so one itself: a call at an offset
-- that has wrapped around to a negative one fails.
abbrev pub Pwrite : Type 0
Pwrite = List ℕ × ℕ

-- The loop that zeroes the blocks from i on, with `left` to go.
unfoldable pub zero_blocks : ℕ → ℕ → List Pwrite
zero_blocks zero i = []
zero_blocks (suc left) i =
    (replicate ufs_block_size 0, mul32 i ufs_block_size) ∷ zero_blocks left (i + 1)

-- `bits[0] = 0x1 << 31`, the others 0.
abbrev pub first_allocated : List ℕ
first_allocated = 2 ^ 31 ∷ replicate 1023 0

module _ (strcpy : List ℕ → List ℕ → List ℕ) where
  -- The first inode is the root directory's; the others of the block are what the stack held.
  pub root_table : Super → List Inode → List Inode
  root_table s stack =
      record {
        type = ufs_directory;
        size = 2 * dir_ent_size;
        direct = s.data_region_addr ∷ replicate 29 minus_one;
      }
      ∷ drop 1 stack

  pub table_bytes : List Inode → List ℕ
  unfolding inode_bytes
  table_bytes [] = []
  table_bytes (i ∷ is) = inode_bytes i ++ table_bytes is

  pub root_directory : List DirEnt → List DirEnt
  root_directory stack =
      let held = λ (i : ℕ). (get_or stack i (record { name = []; inum = 0 })).name in
      record { name = strcpy (held 0) (b'.' ∷ 0 ∷ []); inum = 0 }
      ∷ record { name = strcpy (held 1) (b'.' ∷ b'.' ∷ 0 ∷ []); inum = 0 }
      ∷ map (λ e. record { name = e.name; inum = minus_one }) (drop 2 stack)

  unfoldable pub mkfs : ℕ → ℕ → List Inode → List DirEnt → Outcome (List Pwrite)
  unfolding layout super_bytes zero_blocks root_table table_bytes root_directory
  mkfs num_inodes num_data stack_inodes stack_entries =
      if ltb num_inodes 32 || ltb num_data 32
      then aborted
      else (let s = layout num_inodes num_data in
          let b = words_bytes first_allocated in
          done (
            (super_bytes s, 0) ∷ zero_blocks (rounds (total_blocks s) - 1) 1
            ++ (b, mul32 s.inode_bitmap_addr ufs_block_size)
              ∷ (b, mul32 s.data_bitmap_addr ufs_block_size)
              ∷ (table_bytes (root_table s stack_inodes), mul32 s.inode_region_addr ufs_block_size)
              ∷ (
                dir_block_bytes (root_directory stack_entries),
                mul32 s.data_region_addr ufs_block_size,
              )
              ∷ []))
