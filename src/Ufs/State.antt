-- ===== src/Ufs/State.antt =====
-- `ufs` of kernel/include/kernel/filesystem.h: the mounted file system in memory. The disk pointer
-- is a parameter of the operations instead.
use icix.Prelude.{
  ℕ, ◌^◌, ◌-◌, ◌==◌, if◌then◌else◌, not, Bool, ◌||◌, List, replicate, is_neg, slt, get_or, set,
}
use icix.Bitmap.{get_bitmap}
use icix.Ufs.Layout.{Super, Inode, direct_ptrs}

pub record Ufs : Type 0 where
  pub s : Super
  pub inode_bp : List ℕ
  pub inode_bp_sz : ℕ
  pub data_bp : List ℕ
  pub data_bp_sz : ℕ
  pub inodes : List Inode
  pub dirty_inode_bp : List ℕ
  pub dirty_data_bp : List ℕ

-- The pattern of the C constants -2, -3 and -4.
abbrev pub minus_two : ℕ
minus_two = 2 ^ 32 - 2

abbrev pub minus_three : ℕ
minus_three = 2 ^ 32 - 3

abbrev pub minus_four : ℕ
minus_four = 2 ^ 32 - 4

-- The rounds of `for (i = 0; i < n; ++i)` at an `int` n.
abbrev pub rounds : ℕ → ℕ
rounds n = if is_neg n then 0 else n

-- A read out of the inode table; `out_of_range` guards each use.
abbrev pub blank_inode : Inode
blank_inode = record { type = 0; size = 0; direct = replicate direct_ptrs 0 }

abbrev pub inode_at : Ufs → ℕ → Inode
inode_at nfs inum = get_or nfs.inodes inum blank_inode

-- `nfs->inodes[inum] = inode`
abbrev pub put_inode : Ufs → ℕ → Inode → Ufs
put_inode nfs inum inode = record nfs { inodes = set nfs.inodes inum inode }

-- `inum < 0 || inum >= nfs->s.num_inodes`
abbrev pub out_of_range : Ufs → ℕ → Bool
out_of_range nfs inum = is_neg inum || not (slt inum nfs.s.num_inodes)

-- `!get_bitmap(nfs->inode_bp, inum)`
abbrev pub is_unallocated : Ufs → ℕ → Bool
is_unallocated nfs inum = get_bitmap nfs.inode_bp inum == 0
