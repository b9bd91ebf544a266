-- ===== src/Ufs/Create/RoundTrip.antt =====
-- `ufs_creat` of a file, and the lookups after it.
use mathlib.Core.Path.{sym}
use icix.Prelude.{ℕ, ◌*◌, ◌≤◌, ◌==◌, if◌then◌else◌, List, ◌≡◌, ◌≢◌, ◌∙◌, ap, length, minus_one}
use icix.Outcome.{Outcome, done}
use icix.Cstring.{strlen, strcmp}
use icix.Cstring.Laws.{text, AreBytes}
use icix.Disk.{DiskDriver}
use icix.Disk.Device.{WritableDevice}
use icix.Ufs.Layout.{DirEnt, ufs_directory}
use icix.Ufs.State.{Ufs, inode_at}
use icix.Ufs.Lookup.{ufs_lookup}
use icix.Ufs.Lookup.Laws.{code, listing}
use icix.Ufs.Commit.Device.{HasPointers, MetadataBelow}
use icix.Ufs.Create.{entry, ufs_creat}
use icix.Ufs.Create.Found.{search_then-added}
use icix.Ufs.Create.Run.{IsRoomy, new_inode, ufs_creat-search}

-- A name field of 28 bytes that holds a name.
pub record HoldsName (field name : List ℕ) : Type 0 where
  pub length_field : length field ≡ 28
  pub bytes : AreBytes field
  pub same_text : text field ≡ text name

module _ {D : Type 0} (disk : DiskDriver D) (dev : WritableDevice disk)
    (strcpy : List ℕ → List ℕ → List ℕ) (stack_block : List DirEnt) (stack_entry : DirEnt) where
  open dev.readable use {capacity, Holds}

  module _ {H : Type 0} (malloc : ℕ → H → Outcome (ℕ × H)) where
    -- On a device that can be written, for a file under a name of at most 27 bytes that the directory
    -- does not have, where a block of the directory has room behind the entries, an inode is free and
    -- `strcpy` copies the name into its field, and the heap has a block of 4096 bytes left: `ufs_creat`
    -- returns 0 with the heap that is short of that block, and a later `ufs_lookup` gives the free
    -- inode for every string equal to the name, and for every other what it gave before.
    pub ufs_lookup-ufs_creat :
        (limit pinum type n b k : ℕ) (name other : List ℕ) (nfs : Ufs) (d : D) (content : ℕ → ℕ)
        (heap heap1 : H) (block_at : ℕ)
        → Holds d content k
        → MetadataBelow nfs.s limit
        → HasPointers nfs.inodes
        → limit ≤ capacity
        → nfs.s.num_inodes ≤ 32 * length nfs.inode_bp
        → IsRoomy limit capacity content nfs pinum n b
        → type ≢ ufs_directory
        → strlen name ≤ 27
        → AreBytes name
        → AreBytes other
        → new_inode nfs ≢ minus_one
        → HoldsName (strcpy stack_entry.name name) name
        → code (ufs_lookup disk nfs pinum name d) ≡ done minus_one
        → malloc 4096 heap ≡ done (block_at, heap1)
        → (nfs' : Ufs) × (d' : D) × (ufs_creat disk strcpy stack_block stack_entry malloc nfs pinum
              type name d heap
            ≡ done (0, nfs', d', heap1))
          × (code (ufs_lookup disk nfs' pinum other d') ≡ (
              if strcmp other name == 0
              then done (new_inode nfs)
              else code (ufs_lookup disk nfs pinum other d)))
    unfolding entry
    ufs_lookup-ufs_creat limit pinum type n b k name other nfs d content heap heap1 block_at h meta
          full fits covers dir file short named asked some copy missing allocates =
        let inum = new_inode nfs in
        let es = listing content (inode_at nfs pinum).direct n in
        let (nfs', d', runs, before, after) =
          ufs_creat-search disk dev strcpy stack_block stack_entry malloc limit pinum type n b k
            name nfs d content heap heap1 block_at h meta full fits covers dir file short some
            copy.length_field missing allocates in
        (
          nfs',
          d',
          runs,
          after other
              ∙ search_then-added es (entry strcpy stack_entry name inum) name other
                  (sym (before name) ∙ missing) some copy.length_field copy.bytes copy.same_text
                  short named asked
              ∙ ap (λ o. if strcmp other name == 0 then done inum else o) (sym (before other)),
        )
