-- ===== src/Ufs/Create/Added.antt =====
-- `ufs_creat` of a file in a directory with room, step by step.
use mathlib.Core.Path.{sym}
use icix.Prelude.{
  ℕ, ◌*◌, ◌^◌, ◌≤◌, ◌<◌, ◌==◌, not, ◌||◌, ltb, if◌then◌else◌, List, ◌≡◌, ◌≢◌, ◌∙◌, refl, ap, arith,
  inl, inr, length, length-set, length-replicate, minus_one, add32, get_or-set_ne, Bool, true,
  false,
}
use icix.Outcome.{Outcome, done, ◌>>=◌}
use icix.Bitmap.{get_bitmap, set_bitmap}
use icix.Cstring.{strlen}
use icix.Disk.{DiskDriver}
use icix.Ufs.Layout.{Inode, DirEnt, ufs_directory, direct_ptrs}
use icix.Ufs.State.{Ufs, inode_at, put_inode, blank_inode, out_of_range, is_unallocated, rounds}
use icix.Ufs.Search.{find_empty, find_two}
use icix.Ufs.Search.Laws.{find_empty-IsLeastClear}
use icix.Ufs.Lookup.{ufs_lookup}
use icix.Ufs.Commit.{commit_and_sync}
use icix.Ufs.Commit.Device.{HasPointers, length-inode_at}
use icix.Ufs.Write.Block.{HasPointers-set}
use icix.Ufs.Create.{
  claim_inode, scan_full, fill_inode, insert_entry, update_parent, finish_parent, create_inode,
  ufs_creat,
}

-- The inode of the new file, with the marks for it and the parent.
abbrev pub with_file : Ufs → ℕ → ℕ → ℕ → Ufs
with_file nfs pinum type inum =
    let nfs1 = claim_inode nfs inum type in
    let nfs2 = put_inode nfs1 inum (record (inode_at nfs1 inum) { size = 0 }) in
    record nfs2 { dirty_inode_bp = set_bitmap nfs2.dirty_inode_bp pinum }

-- The parent is one entry longer.
abbrev pub lengthened : Ufs → ℕ → Ufs
lengthened nfs pinum =
    put_inode nfs pinum (record (inode_at nfs pinum) { size = add32 (inode_at nfs pinum).size 32 })

pub inode_at-claim_inode :
    (nfs : Ufs) (pinum type inum : ℕ)
    → inum ≢ pinum
    → inode_at (claim_inode nfs inum type) pinum ≡ inode_at nfs pinum
unfolding claim_inode
inode_at-claim_inode nfs pinum type inum ne = get_or-set_ne nfs.inodes inum pinum _ blank_inode ne

pub inode_at-with_file :
    (nfs : Ufs) (pinum type inum : ℕ)
    → inum ≢ pinum
    → inode_at (with_file nfs pinum type inum) pinum ≡ inode_at nfs pinum
inode_at-with_file nfs pinum type inum ne =
    get_or-set_ne (claim_inode nfs inum type).inodes inum pinum _ blank_inode ne
    ∙ inode_at-claim_inode nfs pinum type inum ne

pub length-with_file :
    (nfs : Ufs) (pinum type inum : ℕ)
    → length (with_file nfs pinum type inum).inodes ≡ length nfs.inodes
unfolding claim_inode
length-with_file nfs pinum type inum =
    length-set (claim_inode nfs inum type).inodes inum _ ∙ length-set nfs.inodes inum _

pub s-with_file : (nfs : Ufs) (pinum type inum : ℕ) → (with_file nfs pinum type inum).s ≡ nfs.s
unfolding claim_inode
s-with_file nfs pinum type inum = refl

pub inode_bp-with_file :
    (nfs : Ufs) (pinum type inum : ℕ)
    → (with_file nfs pinum type inum).inode_bp ≡ set_bitmap nfs.inode_bp inum
unfolding claim_inode
inode_bp-with_file nfs pinum type inum = refl

pub HasPointers-with_file :
    (nfs : Ufs) (pinum type inum : ℕ)
    → HasPointers nfs.inodes
    → HasPointers (with_file nfs pinum type inum).inodes
unfolding claim_inode
HasPointers-with_file nfs pinum type inum h =
    let nfs1 = claim_inode nfs inum type in
    let h1 : HasPointers nfs1.inodes =
      HasPointers-set nfs.inodes inum _ h (length-replicate 30 minus_one) in
    HasPointers-set nfs1.inodes inum _ h1 (length-inode_at nfs1 inum h1)

-- The inode the search gives is free, so it is none that is allocated.
pub free_inode :
    (nfs : Ufs) (pinum : ℕ)
    → nfs.s.num_inodes < 2 ^ 31
    → find_empty nfs.inode_bp (rounds nfs.s.num_inodes) ≢ minus_one
    → is_unallocated nfs pinum ≡ false
    → (find_empty nfs.inode_bp (rounds nfs.s.num_inodes) < nfs.s.num_inodes)
      × (find_empty nfs.inode_bp (rounds nfs.s.num_inodes) ≢ pinum)
free_inode nfs pinum small some alloc =
    let n : rounds nfs.s.num_inodes ≡ nfs.s.num_inodes = ground arith in
    let least =
      find_empty-IsLeastClear nfs.inode_bp (rounds nfs.s.num_inodes) (omega (arith, n, small)) in
    let lt : find_empty nfs.inode_bp (rounds nfs.s.num_inodes) < rounds nfs.s.num_inodes =
      elim least.in_range [ inl e ↦ absurd (some e) | inr p ↦ p.1 ] in
    (
      omega (arith, lt, n),
      λ e.
          let z : get_bitmap nfs.inode_bp pinum ≡ 0 =
            ap (get_bitmap nfs.inode_bp) (sym e) ∙ least.clear lt in
          ground (arith, z, alloc),
    )

module _ {D : Type 0} (disk : DiskDriver D) (strcpy : List ℕ → List ℕ → List ℕ)
    (stack_block : List DirEnt) (stack_entry : DirEnt) where
  fill_inode-file :
      (pinum type inum : ℕ) (full : Bool) (blocks : ℕ × ℕ) (nfs : Ufs) (d : D)
      → type ≢ ufs_directory
      → fill_inode disk strcpy stack_block stack_entry pinum type inum full blocks nfs d
        ≡ done (0, blocks.0, put_inode nfs inum (record (inode_at nfs inum) { size = 0 }), d)
  unfolding fill_inode
  fill_inode-file pinum type inum full (first, second) nfs d file =
      let t : not (type == 0) ≡ true = ground (arith, file) in rw t refl

  module _ {H : Type 0} (malloc : ℕ → H → Outcome (ℕ × H)) where
    update_parent-here :
        (pinum block : ℕ) (name : List ℕ) (inum : ℕ) (nfs : Ufs) (d d1 : D) (block_at : ℕ)
        (h h1 : H)
        → malloc 4096 h ≡ done (block_at, h1)
        → insert_entry disk strcpy stack_block stack_entry (inode_at nfs pinum).direct name inum d
          ≡ done d1
        → update_parent disk strcpy stack_block stack_entry malloc pinum block name inum false nfs d
            h
          ≡ done (0, nfs, d1, h1)
    unfolding update_parent
    update_parent-here pinum block name inum nfs d d1 block_at h h1 m e =
        rw (m, ◌>>=◌) (rw (e, ◌>>=◌) refl)

    create_inode-file :
        (pinum type : ℕ) (name : List ℕ) (inum : ℕ) (blocks : ℕ × ℕ) (nfs : Ufs) (d d1 d2 : D)
        (block_at : ℕ) (h h1 : H) (rc : ℕ) (nfs' : Ufs) (d' : D)
        → malloc 4096 h ≡ done (block_at, h1)
        → type ≢ ufs_directory
        → inum ≢ pinum
        → (inode_at nfs pinum).size ≢ direct_ptrs * 4096
        → scan_full disk strcpy stack_block stack_entry (inode_at nfs pinum).direct d
          ≡ done (false, d1)
        → insert_entry disk strcpy stack_block stack_entry (inode_at nfs pinum).direct name inum d1
          ≡ done d2
        → commit_and_sync disk (lengthened (with_file nfs pinum type inum) pinum) d2
          ≡ done (rc, nfs', d')
        → create_inode disk strcpy stack_block stack_entry malloc pinum type name inum blocks nfs d
            h
          ≡ done (rc, nfs', d', h1)
    unfolding create_inode finish_parent
    create_inode-file pinum type name inum blocks nfs d d1 d2 block_at h h1 rc nfs' d' m file ne
          size e1 e2 e3 =
        let nfs1 = claim_inode nfs inum type in
        let nfs2 = with_file nfs pinum type inum in
        let same = inode_at-claim_inode nfs pinum type inum ne in
        let t : ((inode_at nfs1 pinum).size == direct_ptrs * 4096) ≡ false =
          ground (arith, ap (λ (x : Inode). x.size) same, size) in
        let e1' =
          ap (λ (x : Inode). scan_full disk strcpy stack_block stack_entry x.direct d) same ∙ e1 in
        let e2' = update_parent-here pinum blocks.0 name inum nfs2 d1 d2 block_at h h1 m (
          ap (λ (x : Inode). insert_entry disk strcpy stack_block stack_entry x.direct name inum d1)
            (inode_at-with_file nfs pinum type inum ne)
          ∙ e2) in
        rw (t, e1', ◌>>=◌)
          (rw (fill_inode-file pinum type inum false blocks nfs1 d1 file, ◌>>=◌)
            (rw (e2', ◌>>=◌) (rw (e3, ◌>>=◌) refl)))

    -- What follows the lookup.
    abbrev after_lookup : Ufs → ℕ → ℕ → List ℕ → ℕ → H → ℕ × D → Outcome (ℕ × Ufs × D × H)
    after_lookup nfs pinum type name inum h (existing, d1) =
        if not (existing == minus_one) || inum == minus_one
        then done (minus_one, nfs, d1, h)
        else create_inode disk strcpy stack_block stack_entry malloc pinum type name inum
            (find_two nfs.data_bp (rounds nfs.s.num_data)) nfs d1 h

    -- The guards passed.
    ufs_creat-start :
        (nfs : Ufs) (pinum type : ℕ) (name : List ℕ) (d : D) (h : H)
        → out_of_range nfs pinum ≡ false
        → is_unallocated nfs pinum ≡ false
        → (inode_at nfs pinum).type ≡ ufs_directory
        → strlen name ≤ 27
        → ufs_creat disk strcpy stack_block stack_entry malloc nfs pinum type name d h ≡ (
            ufs_lookup disk nfs pinum name d
            >>= after_lookup nfs pinum type name
                (find_empty nfs.inode_bp (rounds nfs.s.num_inodes))
                h)
    unfolding ufs_creat
    ufs_creat-start nfs pinum type name d h range alloc dir short =
        let t : not ((inode_at nfs pinum).type == ufs_directory) ≡ false = ground (arith, dir) in
        let s : ltb 27 (strlen name) ≡ false = ground (arith, short) in rw (range, alloc, t, s) refl

    -- Up to the commit.
    pub ufs_creat-file :
        (nfs : Ufs) (pinum type : ℕ) (name : List ℕ) (inum : ℕ) (d d1 d2 d3 : D) (block_at : ℕ)
        (h h1 : H) (rc : ℕ) (nfs' : Ufs) (d' : D)
        → malloc 4096 h ≡ done (block_at, h1)
        → out_of_range nfs pinum ≡ false
        → is_unallocated nfs pinum ≡ false
        → (inode_at nfs pinum).type ≡ ufs_directory
        → strlen name ≤ 27
        → find_empty nfs.inode_bp (rounds nfs.s.num_inodes) ≡ inum
        → inum ≢ minus_one
        → inum ≢ pinum
        → type ≢ ufs_directory
        → (inode_at nfs pinum).size ≢ direct_ptrs * 4096
        → ufs_lookup disk nfs pinum name d ≡ done (minus_one, d1)
        → scan_full disk strcpy stack_block stack_entry (inode_at nfs pinum).direct d1
          ≡ done (false, d2)
        → insert_entry disk strcpy stack_block stack_entry (inode_at nfs pinum).direct name inum d2
          ≡ done d3
        → commit_and_sync disk (lengthened (with_file nfs pinum type inum) pinum) d3
          ≡ done (rc, nfs', d')
        → ufs_creat disk strcpy stack_block stack_entry malloc nfs pinum type name d h
          ≡ done (rc, nfs', d', h1)
    ufs_creat-file nfs pinum type name inum d d1 d2 d3 block_at h h1 rc nfs' d' m range alloc dir
          short find some ne file size l e1 e2 e3 =
        let u : (inum == minus_one) ≡ false = ground (arith, some) in
        ufs_creat-start nfs pinum type name d h range alloc dir short
        ∙ ap (λ i. ufs_lookup disk nfs pinum name d >>= after_lookup nfs pinum type name i h) find
        ∙ ap (λ o. o >>= after_lookup nfs pinum type name inum h) l
        ∙ ap
            (λ (t : Bool).
              if t
              then done (minus_one, nfs, d1, h)
              else create_inode disk strcpy stack_block stack_entry malloc pinum type name inum
                  (find_two nfs.data_bp (rounds nfs.s.num_data)) nfs d1 h)
            u
        ∙ create_inode-file pinum type name inum (find_two nfs.data_bp (rounds nfs.s.num_data)) nfs
            d1 d2 d3 block_at h h1 rc nfs' d' m file ne size e1 e2 e3
