-- ===== src/Ufs/Create/Names.antt =====
-- Under which name a new entry is found, with the host's `strcpy` and with the kernel's.
use icix.Prelude.{
  ℕ, zero, suc, ◌*◌, minus_one, ◌≢◌, if◌then◌else◌, not, ◌&&◌, true, length-append, ◌≤◌, ◌<◌, ◌==◌,
  List, [], ◌∷◌, ◌++◌, ◌≡◌, ◌↔◌, ◌∙◌, refl, sym, ap, arith, Bool-cases, inl, inr, drop, length,
}
use icix.Cstring.{strlen, strcmp, copy_string, bytes_of}
use icix.Cstring as Cstring
use mathlib.Core.List.{append_assoc}
use icix.Outcome.{Outcome, done}
use icix.Disk.{DiskDriver}
use icix.Disk.Device.{WritableDevice}
use icix.Ufs.Layout.{ufs_directory, word_bytes}
use icix.Ufs.State.{Ufs, inode_at}
use icix.Ufs.Lookup.{ufs_lookup, name_pointer}
use icix.Ufs.Lookup.Laws.{code, listing, search_then, search_then-append}
use icix.Ufs.Commit.Device.{HasPointers, MetadataBelow}
use icix.Ufs.Create.{ufs_creat}
use icix.Ufs.Create.Run.{IsRoomy, new_inode, ufs_creat-search}
use icix.Ufs.Create.Found.{search_then-miss, search_then-last}
use icix.Printf.Number.Shown.{length-bytes_of}
use icix.Cstring.Laws.{text, AreBytes, strcmp-eq-zero_iff, strlen-eq-length, text-copy_string}
use icix.Ufs.Layout.{DirEnt}
use icix.Ufs.Create.{entry}
use icix.Host as Host

AreBytes-drop : (n : ℕ) (s : List ℕ) → AreBytes s → AreBytes (drop n s)
AreBytes-drop zero s h = h
AreBytes-drop (suc n) [] h = tt
AreBytes-drop (suc n) (c ∷ s) h = AreBytes-drop n s h.1

AreBytes-copy_string :
    (dest src : List ℕ) → AreBytes dest → AreBytes src → AreBytes (copy_string dest src)
unfolding copy_string
AreBytes-copy_string dest [] h g = (omega arith, AreBytes-drop 1 dest h)
AreBytes-copy_string dest (c ∷ src) h g = elim (Bool-cases (c == 0)) [
  | inl e ↦ rw e (omega arith, AreBytes-drop 1 dest h)
  | inr e ↦ rw e (g.0, AreBytes-copy_string (drop 1 dest) src (AreBytes-drop 1 dest h) g.1)
]

length-copy_string :
    (dest src : List ℕ)
    → length (text src) < length dest
    → length (copy_string dest src) ≡ length dest
unfolding copy_string
length-copy_string [] src h = absurd (omega arith)
length-copy_string (x ∷ dest) [] h = refl
length-copy_string (x ∷ dest) (c ∷ src) h = elim (Bool-cases (c == 0)) [
  | inl e ↦ rw e refl
  | inr e ↦ rw e (ap suc (length-copy_string dest src (ground (arith, e, h))))
]

-- With the standard `strcpy`, for a name of at most 27 bytes in a field of 28: the copy stays in the
-- field, and a lookup finds the entry under exactly the names that have the same text.
pub entry-found :
    (e : DirEnt) (name other : List ℕ) (inum : ℕ)
    → length e.name ≡ 28
    → AreBytes e.name
    → AreBytes name
    → AreBytes other
    → strlen name ≤ 27
    → (length (entry Host.strcpy e name inum).name ≡ 28)
      × ((strcmp other (entry Host.strcpy e name inum).name ≡ 0) ↔ (text other ≡ text name))
unfolding entry Host.strcpy
entry-found e name other inum field h g o short = (
  length-copy_string e.name name (omega (arith, field, short, strlen-eq-length name)) ∙ field,
  rw (sym (text-copy_string e.name name))
      (strcmp-eq-zero_iff other (copy_string e.name name) o (AreBytes-copy_string e.name name h g)),
)

-- A string against one with the same first bytes.
strcmp-bytes_of :
    (n : ℕ) (s rest : List ℕ)
    → n ≤ length (text s)
    → strcmp s (bytes_of n s ++ rest) ≡ strcmp (drop n s) rest
unfolding strcmp bytes_of
strcmp-bytes_of zero s rest h = refl
strcmp-bytes_of (suc n) [] rest h = absurd (omega arith)
strcmp-bytes_of (suc n) (c ∷ s) rest h = elim (Bool-cases (c == 0)) [
  | inl e ↦ absurd (ground (arith, e, h))
  | inr e ↦
      let t : (not (c == 0) && (c == c)) ≡ true = ground (arith, e) in
      rw t (strcmp-bytes_of n s rest (ground (arith, e, h)))
]

length-strcpy : (dest src : List ℕ) → length dest ≡ 28 → length (Cstring.strcpy dest src) ≡ 28
unfolding Cstring.strcpy bytes_of
length-strcpy [] src h = absurd (omega arith)
length-strcpy (a ∷ []) src h = absurd (omega arith)
length-strcpy (a ∷ b ∷ []) src h = absurd (omega arith)
length-strcpy (a ∷ b ∷ c ∷ []) src h = absurd (omega arith)
length-strcpy (a ∷ b ∷ c ∷ d ∷ []) src h = absurd (omega arith)
length-strcpy (a ∷ b ∷ c ∷ d ∷ e ∷ dest) src h =
    omega (arith, h, length-append (bytes_of 5 src) dest, length-bytes_of 5 src)

-- What the search for the name itself comes to, when its entry has its first five bytes only.
search_then-cut :
    (es : List DirEnt) (e : DirEnt) (name : List ℕ) (inum : ℕ)
    → search_then name es (done minus_one) ≡ done minus_one
    → inum ≢ minus_one
    → 5 ≤ strlen name
    → search_then name (es ++ entry Cstring.strcpy e name inum ∷ []) (done minus_one) ≡ (
        if strcmp (drop 5 name) (drop 5 e.name ++ word_bytes inum) == 0
        then done inum
        else done minus_one)
unfolding entry Cstring.strcpy name_pointer
search_then-cut es e name inum miss used long =
    let made = entry Cstring.strcpy e name inum in
    let n : 5 ≤ length (text name) = omega (arith, long, strlen-eq-length name) in
    search_then-append name es (made ∷ []) (done minus_one)
    ∙ search_then-miss name es (search_then name (made ∷ []) (done minus_one)) miss
    ∙ search_then-last name made used
    ∙ ap (λ p. if strcmp name p == 0 then done inum else done minus_one)
        (append_assoc (bytes_of 5 name) (drop 5 e.name) (word_bytes inum))
    ∙ ap (λ c. if c == 0 then done inum else done minus_one)
        (strcmp-bytes_of 5 name (drop 5 e.name ++ word_bytes inum) n)

module _ {D H : Type 0} (disk : DiskDriver D) (dev : WritableDevice disk)
    (stack_block : List DirEnt) (stack_entry : DirEnt) (malloc : ℕ → H → Outcome (ℕ × H)) where
  open dev.readable use {capacity, Holds}

  -- With the kernel's `strcpy`, which copies five bytes, on a device that can be written, for a file
  -- under a name of 5 to 27 bytes that the directory does not have, where a block of the directory
  -- has room behind the entries, an inode is free and the heap has a block of 4096 bytes left:
  -- `ufs_creat` returns 0, and a later `ufs_lookup` of that name finds the file if what the stack
  -- held behind the fifth byte of the name field, with the inode number behind it, is equal to the
  -- rest of the name as a string, and returns -1 otherwise.
  pub ufs_lookup-ufs_creat_kernel :
      (limit pinum type n b k : ℕ) (name : List ℕ) (nfs : Ufs) (d : D) (content : ℕ → ℕ)
      (heap heap1 : H) (block_at : ℕ)
      → Holds d content k
      → MetadataBelow nfs.s limit
      → HasPointers nfs.inodes
      → limit ≤ capacity
      → nfs.s.num_inodes ≤ 32 * length nfs.inode_bp
      → IsRoomy limit capacity content nfs pinum n b
      → type ≢ ufs_directory
      → 5 ≤ strlen name
      → strlen name ≤ 27
      → new_inode nfs ≢ minus_one
      → length stack_entry.name ≡ 28
      → code (ufs_lookup disk nfs pinum name d) ≡ done minus_one
      → malloc 4096 heap ≡ done (block_at, heap1)
      → (nfs' : Ufs) × (d' : D) × (ufs_creat disk Cstring.strcpy stack_block stack_entry malloc nfs
            pinum type name d heap
          ≡ done (0, nfs', d', heap1))
        × (code (ufs_lookup disk nfs' pinum name d') ≡ (
            if strcmp (drop 5 name) (drop 5 stack_entry.name ++ word_bytes (new_inode nfs)) == 0
            then done (new_inode nfs)
            else done minus_one))
  ufs_lookup-ufs_creat_kernel limit pinum type n b k name nfs d content heap heap1 block_at h meta
        full fits covers dir file long short some field missing allocates =
      let (nfs', d', runs, before, after) =
        ufs_creat-search disk dev Cstring.strcpy stack_block stack_entry malloc limit pinum type n b
          k name nfs d content heap heap1 block_at h meta full fits covers dir file short some
          (length-strcpy stack_entry.name name field) missing allocates in
      (
        nfs',
        d',
        runs,
        after name
            ∙ search_then-cut (listing content (inode_at nfs pinum).direct n) stack_entry name
                (new_inode nfs) (sym (before name) ∙ missing) some long,
      )
