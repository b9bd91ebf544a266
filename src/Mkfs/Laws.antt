-- ===== src/Mkfs/Laws.antt =====
-- The layout of a fresh image.
use icix.Prelude.{inl, inr, ◌⊎◌, ℕ, ◌+◌, ◌*◌, ◌%◌, ◌^◌, ◌≤◌, ◌<◌, ◌≡◌, refl, arith}
use icix.Prelude.{List, [], ◌∷◌, ◌++◌, ap, get_or}
use icix.Ufs.Layout.{super_of}
use icix.Ufs.Layout.Codec.{words_of-words_bytes}
use icix.Mkfs.{super_bytes, layout, total_blocks, blocks_for}
use icix.Ufs.Layout.{Super}

blocks_for_lem :
    (n per : ℕ)
    → per ≡ 4096 ⊎ per ≡ 32768
    → (n ≤ blocks_for n per * per) × (blocks_for n per * per < n + per)
blocks_for_lem n per h = (ground (arith, h), ground (arith, h))

-- A superblock whose regions follow each other without a gap from block 1 on, each large enough
-- for what it holds and less than a block too large.
pub record IsLayout (num_inodes num_data : ℕ) (s : Super) : Type 0 where
  pub after_super : s.inode_bitmap_addr ≡ 1
  pub after_inode_bitmap : s.data_bitmap_addr ≡ s.inode_bitmap_addr + s.inode_bitmap_len
  pub after_data_bitmap : s.inode_region_addr ≡ s.data_bitmap_addr + s.data_bitmap_len
  pub after_inodes : s.data_region_addr ≡ s.inode_region_addr + s.inode_region_len
  pub is_total : total_blocks s ≡ s.data_region_addr + num_data
  pub inode_bits : num_inodes ≤ s.inode_bitmap_len * 4096 * 8
  pub data_bits : num_data ≤ s.data_bitmap_len * 4096 * 8
  pub inode_room : num_inodes * 128 ≤ s.inode_region_len * 4096
  pub inode_bits_tight : s.inode_bitmap_len * 4096 * 8 < num_inodes + 4096 * 8
  pub data_bits_tight : s.data_bitmap_len * 4096 * 8 < num_data + 4096 * 8
  pub inode_room_tight : s.inode_region_len * 4096 < num_inodes * 128 + 4096

pub layout-IsLayout :
    (num_inodes num_data : ℕ)
    → num_inodes < 2 ^ 24
    → num_data < 2 ^ 30
    → IsLayout num_inodes num_data (layout num_inodes num_data)
unfolding layout
layout-IsLayout num_inodes num_data small small_data =
    let bits = blocks_for_lem num_inodes 32768 (inr refl) in
    let data_bits = blocks_for_lem num_data 32768 (inr refl) in
    let table = blocks_for_lem (num_inodes * 128 % 2 ^ 32) 4096 (inl refl) in
    record {
      after_super = refl;
      after_inode_bitmap = refl;
      after_data_bitmap = refl;
      after_inodes = refl;
      is_total = omega (arith, bits, data_bits, table);
      inode_bits = omega (arith, bits);
      data_bits = omega (arith, data_bits);
      inode_room = omega (arith, table);
      inode_bits_tight = omega (arith, bits);
      data_bits_tight = omega (arith, data_bits);
      inode_room_tight = omega (arith, table);
    }

-- The superblock that `mkfs` writes first, for fewer than 2^24 inodes and blocks, is the one that
-- `ufs_init` reads from these bytes.
pub super_of-super_bytes :
    (num_inodes num_data : ℕ) (rest : List ℕ)
    → num_inodes < 2 ^ 24
    → num_data < 2 ^ 24
    → super_of (super_bytes (layout num_inodes num_data) ++ rest) ≡ layout num_inodes num_data
unfolding super_of super_bytes layout
super_of-super_bytes num_inodes num_data rest small small_data =
    let s = layout num_inodes num_data in
    let bits = blocks_for_lem num_inodes 32768 (inr refl) in
    let data_bits = blocks_for_lem num_data 32768 (inr refl) in
    let table = blocks_for_lem (num_inodes * 128 % 2 ^ 32) 4096 (inl refl) in
    ap super_from (
      words_of-words_bytes (words_in s) rest 10 refl (
        omega arith,
        (
          omega (arith, bits),
          (
            omega (arith, bits),
            (
              omega (arith, data_bits),
              (
                omega (arith, bits, data_bits),
                (
                  omega (arith, table),
                  (
                    omega (arith, bits, data_bits, table),
                    (omega arith, (omega arith, (omega arith, tt))),
                  ),
                ),
              ),
            ),
          ),
        ),
      ))
  where
    words_in : Super → List ℕ
    words_in s =
        s.inode_bitmap_addr ∷ s.inode_bitmap_len ∷ s.data_bitmap_addr ∷ s.data_bitmap_len
        ∷ s.inode_region_addr ∷ s.inode_region_len ∷ s.data_region_addr ∷ s.data_region_len
        ∷ s.num_inodes ∷ s.num_data ∷ []

    super_from : List ℕ → Super
    super_from ws = record {
      inode_bitmap_addr = get_or ws 0 0;
      inode_bitmap_len = get_or ws 1 0;
      data_bitmap_addr = get_or ws 2 0;
      data_bitmap_len = get_or ws 3 0;
      inode_region_addr = get_or ws 4 0;
      inode_region_len = get_or ws 5 0;
      data_region_addr = get_or ws 6 0;
      data_region_len = get_or ws 7 0;
      num_inodes = get_or ws 8 0;
      num_data = get_or ws 9 0;
    }
