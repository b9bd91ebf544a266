-- ===== src/Ufs/Init/Formatted.antt =====
-- `ufs_init` on a device with an image of `mkfs`.
use mathlib.Core.Path.{sym}
use mathlib.Core.List.{append-nil}
use icix.Prelude.{
  ℕ, zero, suc, ◌+◌, ◌*◌, ◌/◌, ◌≤◌, ◌<◌, ◌==◌, if◌then◌else◌, not, List, [], ◌∷◌, ◌++◌, ◌≡◌, ◌∙◌,
  refl, ap, arith, length, get_or, mul32,
}
use icix.Outcome.{Outcome, done, aborted, ◌>>=◌}
use icix.Bitmap.{get_bitmap_sz}
use icix.Disk.{DiskDriver}
use icix.Disk.Device.{bytes_at-add, ReadableDevice, bytes_at}
use icix.Mkfs.{layout, super_bytes, Pwrite, mkfs}
use icix.Mkfs.Laws.{IsLayout, layout-IsLayout, super_of-super_bytes}
use icix.Ufs.Layout.{Super, Inode, DirEnt, super_of, inodes_of, inode_of, inode_bytes}
use icix.Ufs.Layout.Codec.{AreWords, inode_of-inode_bytes}
use icix.Ufs.State.{Ufs, inode_at, blank_inode}
use icix.Ufs.Init.{read_region, mount, ufs_init}
use icix.Ufs.Init.Image.{
  written, IsFormatted, one_allocated, root_inode, words_of-first_allocated, AreWords-minus_one,
  mkfs-IsFormatted,
}

-- Only a few numbers of words are negative or wrap around.
pub get_bitmap_sz_lem : (n : ℕ) → n ≤ 32768 → get_bitmap_sz n ≡ (n + 31) / 32
unfolding get_bitmap_sz
get_bitmap_sz_lem n h = ground (arith, h)

inodes_of-root :
    (content : ℕ → ℕ) (a n : ℕ) (root : Inode)
    → 0 < n
    → bytes_at content a 128 ≡ inode_bytes root
    → length root.direct ≡ 30
    → AreWords (root.type ∷ root.size ∷ root.direct)
    → get_or (inodes_of n (bytes_at content a (n * 128))) 0 blank_inode ≡ root
unfolding inodes_of
inodes_of-root content a zero root pos e full words = absurd (omega arith)
inodes_of-root content a (suc n) root pos e full words =
    ap inode_of (
      ap (bytes_at content a) {x = suc n * 128} {y = 128 + n * 128} (omega arith)
      ∙ bytes_at-add content a 128 (n * 128)
      ∙ ap (λ t. t ++ bytes_at content (a + 128) (n * 128)) e)
    ∙ inode_of-inode_bytes root (bytes_at content (a + 128) (n * 128)) full words

-- A successful mount with this superblock and root directory, nothing else allocated.
abbrev pub IsMounted : Super → Inode → Ufs → Type 0
IsMounted s root nfs =
    (nfs.s ≡ s)
    × (nfs.inode_bp ≡ one_allocated ((s.num_inodes + 31) / 32))
    × (nfs.data_bp ≡ one_allocated ((s.num_data + 31) / 32))
    × (inode_at nfs 0 ≡ root)

abbrev pub Mounts : {D : Type 0} → Super → Inode → Outcome (Ufs × D) → Type 0
Mounts {D} s root o = (nfs : Ufs) × (d' : D) × (o ≡ done (nfs, d')) × IsMounted s root nfs

module _ {D : Type 0} (disk : DiskDriver D) (dev : ReadableDevice disk) where
  open dev use {capacity, Holds}

  read_region_lem :
      (block count k : ℕ) (d : D) (content : ℕ → ℕ)
      → Holds d content k
      → 0 < count
      → block * 4096 + count ≤ capacity
      → (d' : D) × (read_region disk block count d
          ≡ done (bytes_at content (block * 4096) count, d'))
        × Holds d' content (block * 4096 + count)
  unfolding read_region
  read_region_lem block count k d content h pos fits =
      let a : mul32 block 4096 ≡ block * 4096 = omega (arith, fits, dev.small) in
      let (d1, e1, h1) = dev.lseek_lem d content k (block * 4096) h (omega (arith, fits)) in
      let (d2, e2, h2) = dev.read_lem d1 content (block * 4096) count h1 pos fits in
      (d2, rw a (rw (e1, ◌>>=◌) (rw (e2, ◌>>=◌) (ground arith))), h2)

  mount-IsFormatted :
      (k : ℕ) (s : Super) (root : Inode) (fresh_inode_bp fresh_data_bp : List ℕ) (d : D)
      (content : ℕ → ℕ)
      → Holds d content k
      → IsLayout s.num_inodes s.num_data s
      → IsFormatted s root content
      → 0 < s.num_inodes
      → 0 < s.num_data
      → s.num_inodes ≤ 32768
      → s.num_data ≤ 32768
      → s.data_region_addr * 4096 ≤ capacity
      → length root.direct ≡ 30
      → AreWords (root.type ∷ root.size ∷ root.direct)
      → Mounts s root (mount disk fresh_inode_bp fresh_data_bp s d)
  unfolding mount
  mount-IsFormatted k s root fresh_inode_bp fresh_data_bp d content h l f pos pos_data few few_data
        fits full words =
      let n = (s.num_inodes + 31) / 32 in
      let m = (s.num_data + 31) / 32 in
      let sz = get_bitmap_sz_lem s.num_inodes few in
      let sz_data = get_bitmap_sz_lem s.num_data few_data in
      let a1 : mul32 n 4 ≡ n * 4 = omega (arith, few) in
      let a2 : mul32 m 4 ≡ m * 4 = omega (arith, few_data) in
      let a3 : mul32 128 s.num_inodes ≡ s.num_inodes * 128 = omega (arith, few) in
      let (d1, e1, h1) =
        read_region_lem s.inode_bitmap_addr (n * 4) k d content h (omega (arith, pos)) (
          omega (
            arith, few, l.after_inode_bitmap, l.after_data_bitmap, l.after_inodes, l.inode_bits,
            pos, l.data_bits, pos_data, fits,
          )) in
      let (d2, e2, h2) =
        read_region_lem s.data_bitmap_addr (m * 4) _ d1 content h1 (omega (arith, pos_data)) (
          omega
            (arith, few_data, l.after_data_bitmap, l.after_inodes, l.data_bits, pos_data, fits)) in
      let (d3, e3, h3) =
        read_region_lem s.inode_region_addr (s.num_inodes * 128) _ d2 content h2
          (omega (arith, pos)) (omega (arith, l.after_inodes, l.inode_room, fits)) in
      rw (sz, sz_data)
        (rw (a1, a2, a3)
          (rw e1 (
            rw e2 (
              rw e3 (
                _,
                d3,
                refl,
                (
                  refl,
                  words_of-first_allocated content (s.inode_bitmap_addr * 4096) 1023 n
                      (omega (arith, pos)) (omega (arith, few)) f.inode_bits,
                  words_of-first_allocated content (s.data_bitmap_addr * 4096) 1023 m
                      (omega (arith, pos_data)) (omega (arith, few_data)) f.data_bits,
                  inodes_of-root content (s.inode_region_addr * 4096) s.num_inodes root pos
                      f.root_inode full words,
                ),
              )))))

  mounted :
      (num_inodes num_data : ℕ) (fresh_inode_bp fresh_data_bp : List ℕ) (d : D) (content : ℕ → ℕ)
      → Holds d content 40
      → let s = layout num_inodes num_data in
        IsFormatted s (root_inode s.data_region_addr) content
        → 0 < num_inodes
        → 0 < num_data
        → num_inodes ≤ 32768
        → num_data ≤ 32768
        → (layout num_inodes num_data).data_region_addr * 4096 ≤ capacity
        → Mounts
            (layout num_inodes num_data)
            (root_inode (layout num_inodes num_data).data_region_addr)
            (mount disk fresh_inode_bp fresh_data_bp (layout num_inodes num_data) d)
  unfolding layout
  mounted num_inodes num_data fresh_inode_bp fresh_data_bp d content h f pos pos_data few few_data
        fits =
      let s = layout num_inodes num_data in
      mount-IsFormatted 40 s (root_inode s.data_region_addr) fresh_inode_bp fresh_data_bp d content
        h (layout-IsLayout num_inodes num_data (omega (arith, few)) (omega (arith, few_data))) f pos
        pos_data few few_data fits refl
        (omega arith, (omega arith, (omega (arith, fits, dev.small), AreWords-minus_one 29)))

  -- A device at its start that holds what `mkfs` writes over anything, at least as far as its data
  -- region, with one block for each bitmap:
  -- `ufs_init` succeeds, and has the superblock of that layout, the two bitmaps with their first bit set
  -- only, and as inode 0 the empty root directory in the first data block.
  pub ufs_init-mkfs :
      (strcpy : List ℕ → List ℕ → List ℕ) (num_inodes num_data : ℕ) (stack_inodes : List Inode)
      (stack_entries : List DirEnt) (writes : List Pwrite) (before : ℕ → ℕ)
      (fresh_inode_bp fresh_data_bp : List ℕ) (d : D)
      → mkfs strcpy num_inodes num_data stack_inodes stack_entries ≡ done writes
      → num_inodes ≤ 32768
      → num_data ≤ 32768
      → (layout num_inodes num_data).data_region_addr * 4096 ≤ capacity
      → Holds d (written before writes) 0
      → Mounts
          (layout num_inodes num_data)
          (root_inode (layout num_inodes num_data).data_region_addr)
          (ufs_init disk fresh_inode_bp fresh_data_bp d)
  unfolding ufs_init
  ufs_init-mkfs strcpy num_inodes num_data stack_inodes stack_entries writes before fresh_inode_bp
        fresh_data_bp d made few few_data fits h =
      let s = layout num_inodes num_data in
      let root = root_inode s.data_region_addr in
      let (large, large_data, f) =
        mkfs-IsFormatted strcpy num_inodes num_data stack_inodes stack_entries writes before made
          few few_data in
      let content = written before writes in
      let l = layout-IsLayout num_inodes num_data (omega (arith, few)) (omega (arith, few_data)) in
      let (d0, e0, h0) = dev.read_lem d content 0 40 h (omega arith) (
        omega (
          arith, fits, l.after_inode_bitmap, l.after_data_bitmap, l.after_inodes, l.after_super,
        )) in
      let read : super_of (bytes_at content 0 40) ≡ s =
        ap super_of (f.super_block ∙ sym (append-nil (super_bytes s)))
        ∙ super_of-super_bytes num_inodes num_data [] (omega (arith, few))
            (omega (arith, few_data)) in
      let (nfs, d', e, facts) =
        mounted num_inodes num_data fresh_inode_bp fresh_data_bp d0 content h0 f large large_data
          few few_data fits in
      (
        nfs,
        d',
        (ap
              (λ (o : Outcome (ℕ × List ℕ × D)). o >>= λ r.
                if not (r.0 == 40)
                then aborted
                else mount disk fresh_inode_bp fresh_data_bp (super_of r.1) r.2)
              e0
            ∙ ap (λ t. mount disk fresh_inode_bp fresh_data_bp t d0) read
            ∙ e),
        facts,
      )
