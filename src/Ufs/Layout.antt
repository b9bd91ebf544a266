-- ===== src/Ufs/Layout.antt =====
-- The structures of kernel/include/kernel/filesystem.h and their bytes on disk: 32-bit fields,
-- low byte first, as the i386 lays them out. `int` fields are held as their bit patterns.
pub mod Codec
use icix.Prelude.{ℕ, zero, suc, ◌+◌, ◌*◌, ◌/◌, ◌%◌, List, [], ◌∷◌, ◌++◌, take, drop, get_or}

abbrev pub ufs_directory : ℕ
ufs_directory = 0

abbrev pub ufs_regular_file : ℕ
ufs_regular_file = 1

abbrev pub ufs_block_size : ℕ
ufs_block_size = 4096

abbrev pub direct_ptrs : ℕ
direct_ptrs = 30

-- sizeof(dir_ent_t), sizeof(inode_t), sizeof(super_t)
abbrev pub dir_ent_size : ℕ
dir_ent_size = 32

abbrev pub inode_size : ℕ
inode_size = 128

abbrev pub super_size : ℕ
super_size = 40

-- `inode_t`
pub record Inode : Type 0 where
  pub type : ℕ
  pub size : ℕ
  pub direct : List ℕ

-- `dir_ent_t`
pub record DirEnt : Type 0 where
  pub name : List ℕ
  pub inum : ℕ

-- `super_t`
pub record Super : Type 0 where
  pub inode_bitmap_addr : ℕ
  pub inode_bitmap_len : ℕ
  pub data_bitmap_addr : ℕ
  pub data_bitmap_len : ℕ
  pub inode_region_addr : ℕ
  pub inode_region_len : ℕ
  pub data_region_addr : ℕ
  pub data_region_len : ℕ
  pub num_inodes : ℕ
  pub num_data : ℕ

-- One 32-bit field.
unfoldable pub word_bytes : ℕ → List ℕ
word_bytes w = (w % 256) ∷ (w / 256 % 256) ∷ (w / 65536 % 256) ∷ (w / 16777216 % 256) ∷ []

unfoldable pub word_of : List ℕ → ℕ
word_of b = get_or b 0 0 + 256 * get_or b 1 0 + 65536 * get_or b 2 0 + 16777216 * get_or b 3 0

-- An array of them.
unfoldable pub words_bytes : List ℕ → List ℕ
unfolding word_bytes
words_bytes [] = []
words_bytes (w ∷ ws) = word_bytes w ++ words_bytes ws

unfoldable pub words_of : ℕ → List ℕ → List ℕ
unfolding word_of
words_of zero b = []
words_of (suc n) b = word_of b ∷ words_of n (drop 4 b)

unfoldable pub inode_bytes : Inode → List ℕ
unfolding words_bytes
inode_bytes i = words_bytes (i.type ∷ i.size ∷ i.direct)

unfoldable pub inode_of : List ℕ → Inode
unfolding words_of
inode_of b =
    let ws = words_of 32 b in
    record { type = get_or ws 0 0; size = get_or ws 1 0; direct = drop 2 ws }

unfoldable pub inodes_of : ℕ → List ℕ → List Inode
unfolding inode_of
inodes_of zero b = []
inodes_of (suc n) b = inode_of b ∷ inodes_of n (drop inode_size b)

unfoldable pub dir_ent_bytes : DirEnt → List ℕ
unfolding word_bytes
dir_ent_bytes e = e.name ++ word_bytes e.inum

unfoldable pub dir_ent_of : List ℕ → DirEnt
unfolding word_of
dir_ent_of b = record { name = take 28 b; inum = word_of (drop 28 b) }

-- `dir_block_t`: the entries of one block.
unfoldable pub dir_block_bytes : List DirEnt → List ℕ
unfolding dir_ent_bytes
dir_block_bytes [] = []
dir_block_bytes (e ∷ es) = dir_ent_bytes e ++ dir_block_bytes es

unfoldable pub dir_block_of : ℕ → List ℕ → List DirEnt
unfolding dir_ent_of
dir_block_of zero b = []
dir_block_of (suc n) b = dir_ent_of b ∷ dir_block_of n (drop dir_ent_size b)

unfoldable pub super_of : List ℕ → Super
unfolding words_of
super_of b =
    let ws = words_of 10 b in
    record {
      inode_bitmap_addr = get_or ws 0 0;
      inode_bitmap_len = get_or ws 1 0;
      data_bitmap_addr = get_or ws 2 0;
      data_bitmap_len = get_or ws 3 0;
      inode_region_addr = get_or ws 4 0;
      inode_region_len = get_or ws 5 0;
      data_region_addr = get_or ws 6 0;
      data_region_len = get_or ws 7 0;
      num_inodes = get_or ws 8 0;
      num_data = get_or ws 9 0;
    }
