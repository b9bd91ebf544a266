-- ===== src/Ufs/Write/Block.antt =====
-- Where one round of `ufs_write` puts its bytes.
use icix.Prelude.{
  ℕ, zero, suc, ◌+◌, ◌*◌, ◌^◌, ◌≤◌, ◌<◌, ◌==◌, if◌then◌else◌, not, ltb, List, [], ◌∷◌, ◌≡◌, ◌≢◌,
  ◌∙◌, refl, ap, arith, inl, inr, ◌⊎◌, length, length-set, get_or, get_or-set_self, set, minus_one,
  add32, mul32, true, false, take,
}
use icix.Outcome.{done, aborted, ◌>>=◌}
use icix.Bitmap.{get_bitmap}
use icix.Disk.{DiskDriver, disk_write}
use icix.Ufs.Layout.{Inode}
use icix.Ufs.State.{Ufs, inode_at, blank_inode, rounds}
use icix.Ufs.Search.{find_empty}
use icix.Ufs.Search.Laws.{find_empty-IsLeastClear}
use icix.Ufs.Write.{take_block, ensure_block, grow, piece, no_block, written, write_blocks}
use icix.Ufs.Commit.Device.{HasPointers, MetadataBelow, length-inode_at}

-- A block that lies behind the metadata and on the device.
abbrev pub InData : ℕ → ℕ → ℕ → Type 0
InData limit capacity p = (limit ≤ p * 4096) × (p * 4096 + 4096 ≤ capacity)

-- The pointer is there and leads to such a block, or a data block is free.
abbrev pub CanHold : ℕ → ℕ → ℕ → ℕ → Ufs → Type 0
CanHold limit capacity inum i nfs =
    let p = get_or (inode_at nfs inum).direct i 0 in
    ((p ≢ minus_one) × InData limit capacity p)
    ⊎ ((p ≡ minus_one) × (b : ℕ) × (b < nfs.s.num_data) × (get_bitmap nfs.data_bp b ≡ 0))

-- What `ensure_block` leaves when it succeeds.
pub record HasBlock (limit capacity inum i : ℕ) (a b : Ufs) (p : ℕ) : Type 0 where
  pub runs : ensure_block a inum i ≡ (0, b)
  pub pointer : get_or (inode_at b inum).direct i 0 ≡ p
  pub in_data : InData limit capacity p
  pub super_same : b.s ≡ a.s
  pub inode_bp_same : b.inode_bp ≡ a.inode_bp
  pub length_inodes : length b.inodes ≡ length a.inodes
  pub pointers : HasPointers b.inodes
  pub size_same : (inode_at b inum).size ≡ (inode_at a inum).size
  pub type_same : (inode_at b inum).type ≡ (inode_at a inum).type

pub HasPointers-set :
    (is : List Inode) (n : ℕ) (x : Inode)
    → HasPointers is
    → length x.direct ≡ 30
    → HasPointers (set is n x)
HasPointers-set [] n x h e = tt
HasPointers-set (y ∷ is) zero x h e = (e, h.1)
HasPointers-set (y ∷ is) (suc n) x h e = (h.0, HasPointers-set is n x h.1 e)

pub ensure_block-HasBlock :
    (limit capacity inum i : ℕ) (a : Ufs)
    → inum < length a.inodes
    → i < 30
    → HasPointers a.inodes
    → MetadataBelow a.s limit
    → limit ≤ a.s.data_region_addr * 4096
    → (a.s.data_region_addr + a.s.num_data) * 4096 ≤ capacity
    → capacity < 2 ^ 32
    → CanHold limit capacity inum i a
    → (b : Ufs) × (p : ℕ) × HasBlock limit capacity inum i a b p
unfolding ensure_block take_block
ensure_block-HasBlock limit capacity inum i a inside few full m low high small (inl (there, fits)) =
    let t : not (get_or (inode_at a inum).direct i 0 == minus_one) ≡ true = ground (arith, there) in
    (
      a,
      get_or (inode_at a inum).direct i 0,
      record {
        runs = rw (t, ensure_block) refl;
        pointer = refl;
        in_data = fits;
        super_same = refl;
        inode_bp_same = refl;
        length_inodes = refl;
        pointers = full;
        size_same = refl;
        type_same = refl;
      },
    )
ensure_block-HasBlock limit capacity inum i a inside few full m low high small
      (inr (none, b, below, clear)) =
    let t : not (get_or (inode_at a inum).direct i 0 == minus_one) ≡ false = ground (arith, none) in
    let r : rounds a.s.num_data ≡ a.s.num_data = ground (arith, m.few_data) in
    let block = find_empty a.data_bp (rounds a.s.num_data) in
    let first =
      find_empty-IsLeastClear a.data_bp (rounds a.s.num_data) (omega (arith, r, m.few_data)) in
    let found : block < a.s.num_data = elim first.in_range [
      | inl absent ↦
          absurd (
            omega (arith, first.none_clear absent b (omega arith) (omega (arith, r, below)), clear))
      | inr range ↦ omega (arith, range, r)
    ] in
    let u : (block == minus_one) ≡ false = ground (arith, found, m.few_data) in
    let x : Inode = record (inode_at a inum) {
      direct = set (inode_at a inum).direct i (add32 block a.s.data_region_addr);
    } in
    let e : inode_at (take_block a inum i block) inum ≡ x =
      get_or-set_self a.inodes inum x blank_inode inside in
    let len = length-inode_at a inum full in
    let sum : add32 block a.s.data_region_addr ≡ block + a.s.data_region_addr =
      omega (arith, found, high, small) in
    (
      take_block a inum i block,
      block + a.s.data_region_addr,
      record {
        runs = rw (t, ensure_block) (rw u refl);
        pointer =
            ap (λ (y : Inode). get_or y.direct i 0) e
            ∙ get_or-set_self (inode_at a inum).direct i _ 0 (omega (arith, len, few))
            ∙ sum;
        in_data = (omega (arith, low), omega (arith, found, high));
        super_same = refl;
        inode_bp_same = refl;
        length_inodes = length-set a.inodes inum x;
        pointers =
            HasPointers-set a.inodes inum x full (length-set (inode_at a inum).direct i _ ∙ len);
        size_same = ap (λ (y : Inode). y.size) e;
        type_same = ap (λ (y : Inode). y.type) e;
      },
    )

module _ {D : Type 0} (disk : DiskDriver D) (inum : ℕ) (buf : List ℕ) (nbytes : ℕ) where
  -- With all bytes written the loop ends.
  write_blocks-end :
      (left i offset : ℕ) (nfs : Ufs) (d : D)
      → write_blocks disk inum buf nbytes left i nbytes offset nfs d ≡ done (written nbytes, nfs, d)
  unfolding write_blocks
  write_blocks-end zero i offset nfs d = refl
  write_blocks-end (suc left) i offset nfs d =
      let t : not (ltb nbytes nbytes) ≡ true = ground arith in rw (t, write_blocks) refl

  -- A round that writes all of the bytes.
  pub write_blocks-once :
      (left i offset : ℕ) (nfs nfs1 : Ufs) (d d1 : D)
      → 0 < nbytes
      → offset + nbytes ≤ 4096
      → ensure_block nfs inum i ≡ (0, nfs1)
      → disk_write disk
          (add32 (mul32 (get_or (inode_at nfs1 inum).direct i 0) 4096) offset)
          (take nbytes buf)
          d
        ≡ done (0, d1)
      → write_blocks disk inum buf nbytes (suc left) i 0 offset nfs d
        ≡ done (written nbytes, grow nfs1 inum nbytes, d1)
  unfolding write_blocks
  write_blocks-once left i offset nfs nfs1 d d1 pos one e w =
      let t : not (ltb 0 nbytes) ≡ false = ground arith in
      let whole : piece nbytes 0 offset ≡ nbytes = ground arith in
      let at = λ (b : Ufs). add32 (mul32 (get_or (inode_at b inum).direct i 0) 4096) offset in
      let after = λ (b : Ufs) (sz : ℕ) (q : ℕ × D).
        if q.0 == minus_one
        then aborted
        else write_blocks disk inum buf nbytes left (i + 1) (0 + sz) 0 (grow b inum sz) q.1 in
      let bytes = piece nbytes 0 offset in
      rw (t, write_blocks)
        (ap
            (λ (r : ℕ × Ufs).
              if r.0 == minus_one
              then done (no_block, r.1, d)
              else (disk_write disk (at r.1) (take bytes buf) d >>= after r.1 bytes))
            e
          ∙ ap (λ sz. disk_write disk (at nfs1) (take sz buf) d >>= after nfs1 sz) whole
          ∙ ap (λ o. o >>= after nfs1 nbytes) w
          ∙ ap
              (λ cur.
                write_blocks disk inum buf nbytes left (i + 1) cur 0 (grow nfs1 inum nbytes) d1)
              {x = 0 + nbytes} {y = nbytes} (omega arith)
          ∙ write_blocks-end left (i + 1) 0 (grow nfs1 inum nbytes) d1)
