-- ===== src/Ufs/Create/Run.antt =====
-- `ufs_creat` of a file on a device that can be written, and what lookups search after it.
use mathlib.Core.Path.{sym, subst}
use icix.Prelude.{
  ℕ, ◌+◌, ◌*◌, ◌/◌, ◌^◌, ◌≤◌, ◌<◌, not, ◌||◌, is_neg, slt, List, [], ◌∷◌, ◌++◌, ◌≡◌, ◌≢◌, ◌∙◌, refl,
  ap, arith, length, minus_one, add32, get_or, get_or-set_self, false,
}
use icix.Outcome.{Outcome, done}
use icix.Bitmap.{get_bitmap, set_bitmap}
use icix.Bitmap.Laws.{get_bitmap-set_bitmap}
use icix.Cstring.{strlen}
use icix.Disk.{DiskDriver}
use icix.Disk.Device.{WritableDevice, overwrite}
use icix.Ufs.Layout.{Super, Inode, DirEnt, ufs_directory, dir_ent_bytes}
use icix.Ufs.Layout.Codec.{IsEntry}
use icix.Ufs.State.{Ufs, inode_at, blank_inode, out_of_range, is_unallocated, rounds}
use icix.Ufs.Search.{find_empty}
use icix.Ufs.Lookup.{ufs_lookup}
use icix.Ufs.Lookup.Laws.{BlocksFit, code, listing, search_then, ufs_lookup-search}
use icix.Ufs.Lookup.Keeps.{ufs_lookup-runs}
use icix.Ufs.Commit.Device.{HasPointers, MetadataBelow, length-inode_at}
use icix.Ufs.Commit.Sync.{commit_and_sync-Commits}
use icix.Ufs.Write.Block.{InData, HasPointers-set}
use icix.Ufs.Create.{entry, ufs_creat}
use icix.Ufs.Create.Room.{
  HasRoom, HasRoom-bound, HasRoom-BlocksFit, HasRoom-listing, place_of, listing-overwrite,
}
use icix.Ufs.Create.Insert.{scan_full-runs, insert_entry-runs}
use icix.Ufs.Create.Added.{
  with_file, lengthened, inode_at-with_file, length-with_file, s-with_file, inode_bp-with_file,
  HasPointers-with_file, free_inode, ufs_creat-file,
}

-- An allocated directory of n entries without gaps, with room for one more in block b.
pub record IsRoomy (limit capacity : ℕ) (content : ℕ → ℕ) (nfs : Ufs) (pinum n b : ℕ) : Type 0 where
  pub range : out_of_range nfs pinum ≡ false
  pub allocated : is_unallocated nfs pinum ≡ false
  pub in_table : pinum < length nfs.inodes
  pub is_directory : (inode_at nfs pinum).type ≡ ufs_directory
  pub size : (inode_at nfs pinum).size ≡ n * 32
  pub room : HasRoom content (InData limit capacity) (inode_at nfs pinum).direct n b

-- The inode `ufs_creat` gives to a new file.
abbrev pub new_inode : Ufs → ℕ
new_inode nfs = find_empty nfs.inode_bp (rounds nfs.s.num_inodes)

module _ {D : Type 0} (disk : DiskDriver D) (dev : WritableDevice disk)
    (strcpy : List ℕ → List ℕ → List ℕ) (stack_block : List DirEnt) (stack_entry : DirEnt) where
  open dev.readable use {capacity, Holds}

  module _ {H : Type 0} (malloc : ℕ → H → Outcome (ℕ × H)) where
    -- What a creation leaves.
    record Created (limit pinum type n b : ℕ) (name : List ℕ) (nfs : Ufs) (content : ℕ → ℕ) (d : D)
        (h h1 : H) : Type 0 where
      after : Ufs
      device : D
      bytes : ℕ → ℕ
      cursor : ℕ
      runs :
          ufs_creat disk strcpy stack_block stack_entry malloc nfs pinum type name d h
          ≡ done (0, after, device, h1)
      holds : Holds device bytes cursor
      super_same : after.s ≡ nfs.s
      bits : after.inode_bp ≡ set_bitmap nfs.inode_bp (new_inode nfs)
      parent :
          inode_at after pinum
          ≡ record (inode_at nfs pinum) { size = add32 (inode_at nfs pinum).size 32 }
      list :
          listing bytes (inode_at nfs pinum).direct (n + 1)
          ≡ listing content (inode_at nfs pinum).direct n
            ++ entry strcpy stack_entry name (new_inode nfs) ∷ []

    ufs_creat-Created :
        (limit pinum type n b k : ℕ) (name : List ℕ) (nfs : Ufs) (d : D) (content : ℕ → ℕ)
        (heap heap1 : H) (block_at : ℕ)
        → Holds d content k
        → MetadataBelow nfs.s limit
        → HasPointers nfs.inodes
        → limit ≤ capacity
        → IsRoomy limit capacity content nfs pinum n b
        → type ≢ ufs_directory
        → strlen name ≤ 27
        → new_inode nfs ≢ minus_one
        → length (strcpy stack_entry.name name) ≡ 28
        → code (ufs_lookup disk nfs pinum name d) ≡ done minus_one
        → malloc 4096 heap ≡ done (block_at, heap1)
        → Created limit pinum type n b name nfs content d heap heap1
    unfolding entry
    ufs_creat-Created limit pinum type n b k name nfs d content heap heap1 block_at h meta full fits
          dir file short some copy missing allocates =
        let inum = new_inode nfs in
        let parent = inode_at nfs pinum in
        let e = entry strcpy stack_entry name inum in
        let few : n < 3840 = omega (
          arith,
          length-inode_at nfs pinum full,
          HasRoom-bound content (InData limit capacity) parent.direct n b dir.room,
        ) in
        let (lt, ne) = free_inode nfs pinum meta.few_inodes some dir.allocated in
        let isEntry : IsEntry e = (copy, omega (arith, lt, meta.few_inodes)) in
        let (d1, k1, e1, h1) =
          ufs_lookup-runs disk dev.readable name nfs pinum k minus_one d content h
            (omega (arith, dir.size, few))
            (HasRoom-BlocksFit limit capacity content parent.direct n (parent.size / 32) b dir.room
              (omega (arith, dir.size)))
            missing in
        let (d2, k2, e2, h2) =
          scan_full-runs disk dev strcpy stack_block stack_entry limit parent.direct n b k1 d1
            content h1 dir.room in
        let (d3, k3, e3, h3) =
          insert_entry-runs disk dev strcpy stack_block stack_entry limit parent.direct name inum n
            b k2 d2 content h2 dir.room isEntry in
        let nfs1 = with_file nfs pinum type inum in
        let full1 = HasPointers-with_file nfs pinum type inum full in
        let nfs2 = lengthened nfs1 pinum in
        let content1 = overwrite content (place_of b n) (dir_ent_bytes e) in
        let (nfs3, d4, content2, k4, e4, h4, s4, t4) =
          commit_and_sync-Commits disk dev limit k3 nfs2 d3 content1 h3
            (subst (λ s. MetadataBelow s limit) (sym (s-with_file nfs pinum type inum)) meta)
            (HasPointers-set nfs1.inodes pinum _ full1 (length-inode_at nfs1 pinum full1)) fits in
        record {
          after = nfs3;
          device = d4;
          bytes = content2;
          cursor = k4;
          runs =
              ufs_creat-file disk strcpy stack_block stack_entry malloc nfs pinum type name inum d
                d1 d2 d3 block_at heap heap1 0 nfs3 d4 allocates dir.range dir.allocated
                dir.is_directory short refl some ne file (λ z. omega (arith, z, dir.size, few)) e1
                e2 e3 e4;
          holds = h4;
          super_same = t4.0 ∙ s-with_file nfs pinum type inum;
          bits = t4.1 ∙ inode_bp-with_file nfs pinum type inum;
          parent =
              ap (λ t. get_or t pinum blank_inode) t4.3
              ∙ get_or-set_self nfs1.inodes pinum _ blank_inode
                  (omega (arith, length-with_file nfs pinum type inum, dir.in_table))
              ∙ ap (λ (x : Inode). record x { size = add32 x.size 32 })
                  (inode_at-with_file nfs pinum type inum ne);
          list =
              HasRoom-listing limit capacity content content1 content2 parent.direct n (n + 1) b
                dir.room (omega arith) s4
              ∙ listing-overwrite content (InData limit capacity) parent.direct n b e dir.room
                  isEntry;
        }

    -- The creation, and what the lookups before it and after it search.
    pub ufs_creat-search :
        (limit pinum type n b k : ℕ) (name : List ℕ) (nfs : Ufs) (d : D) (content : ℕ → ℕ)
        (heap heap1 : H) (block_at : ℕ)
        → Holds d content k
        → MetadataBelow nfs.s limit
        → HasPointers nfs.inodes
        → limit ≤ capacity
        → nfs.s.num_inodes ≤ 32 * length nfs.inode_bp
        → IsRoomy limit capacity content nfs pinum n b
        → type ≢ ufs_directory
        → strlen name ≤ 27
        → new_inode nfs ≢ minus_one
        → length (strcpy stack_entry.name name) ≡ 28
        → code (ufs_lookup disk nfs pinum name d) ≡ done minus_one
        → malloc 4096 heap ≡ done (block_at, heap1)
        → (nfs' : Ufs) × (d' : D) × (ufs_creat disk strcpy stack_block stack_entry malloc nfs pinum
              type name d heap
            ≡ done (0, nfs', d', heap1))
          × ((asked : List ℕ)
              → code (ufs_lookup disk nfs pinum asked d)
                ≡ search_then asked
                    (listing content (inode_at nfs pinum).direct n)
                    (done minus_one))
          × ((asked : List ℕ)
              → code (ufs_lookup disk nfs' pinum asked d')
                ≡ search_then asked
                    (listing content (inode_at nfs pinum).direct n
                      ++ entry strcpy stack_entry name (new_inode nfs) ∷ [])
                    (done minus_one))
    ufs_creat-search limit pinum type n b k name nfs d content heap heap1 block_at h meta full fits
          covers dir file short some copy missing allocates =
        let inum = new_inode nfs in
        let parent = inode_at nfs pinum in
        let few : n < 3840 = omega (
          arith,
          length-inode_at nfs pinum full,
          HasRoom-bound content (InData limit capacity) parent.direct n b dir.room,
        ) in
        let made =
          ufs_creat-Created limit pinum type n b k name nfs d content heap heap1 block_at h meta
            full fits dir file short some copy missing allocates in
        let (lt, ne) = free_inode nfs pinum meta.few_inodes some dir.allocated in
        let before = λ (asked : List ℕ).
          ufs_lookup-search disk dev.readable asked nfs pinum k d content h dir.range dir.allocated
            dir.is_directory (omega (arith, dir.size, few)) (omega (arith, dir.size))
            (HasRoom-BlocksFit limit capacity content parent.direct n (parent.size / 32) b dir.room
              (omega (arith, dir.size)))
          ∙ ap (λ c. search_then asked (listing content parent.direct c) (done minus_one))
              {x = parent.size / 32} {y = n} (omega (arith, dir.size)) in
        let size : (inode_at made.after pinum).size ≡ (n + 1) * 32 =
          ap (λ (x : Inode). x.size) made.parent ∙ omega (arith, dir.size, few) in
        let direct = ap (λ (x : Inode). x.direct) made.parent in
        let pin : pinum < 2 ^ 31 = ground (arith, dir.range) in
        let alloc : is_unallocated made.after pinum ≡ false = ground (
          arith,
          ap (λ bp. get_bitmap bp pinum) made.bits,
          get_bitmap-set_bitmap nfs.inode_bp inum pinum (omega (arith, lt, covers))
              (omega (arith, lt, meta.few_inodes)) pin,
          dir.allocated,
        ) in
        let later = λ (other : List ℕ).
          ufs_lookup-search disk dev.readable other made.after pinum made.cursor made.device
            made.bytes made.holds
            (ap (λ (s : Super). is_neg pinum || not (slt pinum s.num_inodes)) made.super_same
              ∙ dir.range)
            alloc (ap (λ (x : Inode). x.type) made.parent ∙ dir.is_directory)
            (omega (arith, size, few)) (omega (arith, size))
            (subst (λ ps. BlocksFit capacity ps ((inode_at made.after pinum).size / 32))
              (sym direct)
              (HasRoom-BlocksFit limit capacity content parent.direct n
                ((inode_at made.after pinum).size / 32) b dir.room (omega (arith, size))))
          ∙ ap
              (λ c.
                search_then other (listing made.bytes (inode_at made.after pinum).direct c)
                  (done minus_one))
              {x = (inode_at made.after pinum).size / 32} {y = n + 1} (omega (arith, size))
          ∙ ap (λ ps. search_then other (listing made.bytes ps (n + 1)) (done minus_one)) direct
          ∙ ap (λ es. search_then other es (done minus_one)) made.list in
        (made.after, made.device, made.runs, before, later)
