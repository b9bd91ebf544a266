-- ===== src/Ufs/Write/Extends.antt =====
-- The steps of `ufs_write` on the tables in memory: a file that grows, and all else as it was.
use mathlib.Core.Path.{sym}
use icix.Prelude.{ℕ, ◌*◌, ◌^◌, ◌≤◌, ◌<◌, ◌==◌, not}
use icix.Prelude.{List, ◌≡◌, ◌≢◌, ◌∙◌, refl, ap, arith, minus_one, add32, get_or}
use icix.Prelude.{Bool-cases, inl, inr, length, set, length-set}
use icix.Prelude.{get_or-set_self, get_or-set_ne}
use icix.Bitmap.{get_bitmap}
use icix.Bitmap.Laws.{get_bitmap-set_bitmap, length-set_bitmap}
use icix.Ufs.Layout.{Inode, Super}
use icix.Ufs.State.{Ufs, inode_at, blank_inode, put_inode, rounds}
use icix.Ufs.Search.{find_empty}
use icix.Ufs.Search.Laws.{find_empty-IsLeastClear}
use icix.Ufs.Write.{take_block, ensure_block, grow}
use icix.Ufs.Commit.Laws.{SameTables}

-- From a to b only the file `inum` grew: no other inode changed, no block was given up by the file
-- or in the bitmap.
pub record Extends (inum : ℕ) (a b : Ufs) : Type 0 where
  pub super_same : b.s ≡ a.s
  pub inode_bp_same : b.inode_bp ≡ a.inode_bp
  pub length_inodes : length b.inodes ≡ length a.inodes
  pub length_data : length b.data_bp ≡ length a.data_bp
  pub others : (j : ℕ) → j ≢ inum → inode_at b j ≡ inode_at a j
  pub type_same : (inode_at b inum).type ≡ (inode_at a inum).type
  pub bits_kept : (k : ℕ) → k < 2 ^ 31 → get_bitmap a.data_bp k ≡ 1 → get_bitmap b.data_bp k ≡ 1
  pub pointers_kept :
      (i : ℕ)
      → get_or (inode_at a inum).direct i 0 ≢ minus_one
      → get_or (inode_at b inum).direct i 0 ≡ get_or (inode_at a inum).direct i 0

pub Extends-refl : (inum : ℕ) (a : Ufs) → Extends inum a a
Extends-refl inum a = record {
  super_same = refl;
  inode_bp_same = refl;
  length_inodes = refl;
  length_data = refl;
  others = λ j p. refl;
  type_same = refl;
  bits_kept = λ k p h. h;
  pointers_kept = λ i p. refl;
}

pub Extends-trans :
    (inum : ℕ) (a b c : Ufs) → Extends inum a b → Extends inum b c → Extends inum a c
Extends-trans inum a b c p q = record {
  super_same = q.super_same ∙ p.super_same;
  inode_bp_same = q.inode_bp_same ∙ p.inode_bp_same;
  length_inodes = q.length_inodes ∙ p.length_inodes;
  length_data = q.length_data ∙ p.length_data;
  others = λ j n. q.others j n ∙ p.others j n;
  type_same = q.type_same ∙ p.type_same;
  bits_kept = λ k l h. q.bits_kept k l (p.bits_kept k l h);
  pointers_kept =
      λ i n. q.pointers_kept i (λ e. n (sym (p.pointers_kept i n) ∙ e)) ∙ p.pointers_kept i n;
}

inode_at-put_inode :
    (a : Ufs) (inum : ℕ) (x : Inode)
    → inum < length a.inodes
    → inode_at (put_inode a inum x) inum ≡ x
inode_at-put_inode a inum x h = get_or-set_self a.inodes inum x blank_inode h

pub grow-Extends :
    (inum sz : ℕ) (a : Ufs) → inum < length a.inodes → Extends inum a (grow a inum sz)
unfolding grow
grow-Extends inum sz a h =
    let x : Inode = record (inode_at a inum) { size = add32 (inode_at a inum).size sz } in
    let e : inode_at (put_inode a inum x) inum ≡ x = inode_at-put_inode a inum x h in
    record {
      super_same = refl;
      inode_bp_same = refl;
      length_inodes = length-set a.inodes inum x;
      length_data = refl;
      others = λ j n. get_or-set_ne a.inodes inum j x blank_inode (λ t. n (sym t));
      type_same = ap (λ (y : Inode). y.type) e;
      bits_kept = λ k l h. h;
      pointers_kept = λ i n. ap (λ (y : Inode). get_or y.direct i 0) e;
    }

-- The dirty mark of the inode is no change of the tables.
pub Extends-dirty :
    (inum : ℕ) (a b : Ufs) (dirty : List ℕ)
    → Extends inum (record a { dirty_inode_bp = dirty }) b
    → Extends inum a b
Extends-dirty inum a b dirty x = record {
  super_same = x.super_same;
  inode_bp_same = x.inode_bp_same;
  length_inodes = x.length_inodes;
  length_data = x.length_data;
  others = x.others;
  type_same = x.type_same;
  bits_kept = x.bits_kept;
  pointers_kept = x.pointers_kept;
}

pub Extends-SameTables : (inum : ℕ) (a b : Ufs) → SameTables a b → Extends inum a b
Extends-SameTables inum a b s =
    let at : (j : ℕ) → inode_at b j ≡ inode_at a j = λ j. ap (λ t. get_or t j blank_inode) s.3 in
    record {
      super_same = s.0;
      inode_bp_same = s.1;
      length_inodes = ap length s.3;
      length_data = ap length s.2;
      others = λ j n. at j;
      type_same = ap (λ (y : Inode). y.type) (at inum);
      bits_kept = λ k l h. ap (λ t. get_bitmap t k) s.2 ∙ h;
      pointers_kept = λ i n. ap (λ (y : Inode). get_or y.direct i 0) (at inum);
    }

-- The bitmap covers the blocks that the superblock counts, and the table has the inode.
abbrev pub Covers : ℕ → Ufs → Type 0
Covers inum a =
    (inum < length a.inodes) × (a.s.num_data < 2 ^ 31) × (a.s.num_data ≤ 32 * length a.data_bp)

pub Extends-Covers : (inum : ℕ) (a b : Ufs) → Extends inum a b → Covers inum a → Covers inum b
Extends-Covers inum a b x c =
    let n : b.s.num_data ≡ a.s.num_data = ap (λ (s : Super). s.num_data) x.super_same in
    (
      omega (arith, x.length_inodes, c.0),
      omega (arith, n, c.1),
      omega (arith, n, x.length_data, c.2),
    )

take_block-Extends :
    (inum i block : ℕ) (a : Ufs)
    → Covers inum a
    → block < a.s.num_data
    → get_or (inode_at a inum).direct i 0 ≡ minus_one
    → Extends inum a (take_block a inum i block)
unfolding take_block
take_block-Extends inum i block a c below empty =
    let x : Inode = record (inode_at a inum) {
      direct = set (inode_at a inum).direct i (add32 block a.s.data_region_addr);
    } in
    let e : inode_at (put_inode a inum x) inum ≡ x = inode_at-put_inode a inum x c.0 in
    record {
      super_same = refl;
      inode_bp_same = refl;
      length_inodes = length-set a.inodes inum x;
      length_data = length-set_bitmap a.data_bp block;
      others = λ j n. get_or-set_ne a.inodes inum j x blank_inode (λ t. n (sym t));
      type_same = ap (λ (y : Inode). y.type) e;
      bits_kept = λ k l h.
          get_bitmap-set_bitmap a.data_bp block k (omega (arith, c.2)) (omega (arith, c.1)) l
          ∙ ground arith;
      pointers_kept = λ j n.
          ap (λ (y : Inode). get_or y.direct j 0) e
          ∙ get_or-set_ne (inode_at a inum).direct i j _ 0
              (λ t. n (ap (λ m. get_or (inode_at a inum).direct m 0) (sym t) ∙ empty));
    }

size-take_block :
    (inum i block : ℕ) (a : Ufs)
    → inum < length a.inodes
    → (inode_at (take_block a inum i block) inum).size ≡ (inode_at a inum).size
unfolding take_block
size-take_block inum i block a h =
    ap (λ (y : Inode). y.size) (get_or-set_self a.inodes inum _ blank_inode h)

pub size-grow :
    (inum sz : ℕ) (a : Ufs)
    → inum < length a.inodes
    → (inode_at (grow a inum sz) inum).size ≡ add32 (inode_at a inum).size sz
unfolding grow
size-grow inum sz a h = ap (λ (y : Inode). y.size) (get_or-set_self a.inodes inum _ blank_inode h)

-- Both results of `ensure_block` keep the size.
pub ensure_block-Extends :
    (inum i : ℕ) (a : Ufs)
    → Covers inum a
    → Extends inum a (ensure_block a inum i).1
      × ((inode_at (ensure_block a inum i).1 inum).size ≡ (inode_at a inum).size)
unfolding ensure_block
ensure_block-Extends inum i a c =
    elim (Bool-cases (not (get_or (inode_at a inum).direct i 0 == minus_one))) [
      | inl t ↦ rw t (Extends-refl inum a, refl)
      | inr t ↦
          let r : rounds a.s.num_data ≡ a.s.num_data = ground (arith, c.1) in
          let first =
            find_empty-IsLeastClear a.data_bp (rounds a.s.num_data) (omega (arith, r, c.1)) in
          elim (Bool-cases (find_empty a.data_bp (rounds a.s.num_data) == minus_one)) [
            | inl u ↦ rw (t, u) (Extends-refl inum a, refl)
            | inr u ↦
                let below : find_empty a.data_bp (rounds a.s.num_data) < a.s.num_data =
                  ground (arith, first.in_range, r) in
                rw (t, u)
                  (
                    take_block-Extends inum i _ a c below (ground arith),
                    size-take_block inum i _ a c.0,
                  )
          ]
    ]
