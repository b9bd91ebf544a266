-- ===== src/Ufs/Lookup/Laws.antt =====
-- `ufs_lookup` refines a search over the directory's list of entries.
use mathlib.Core.Path.{subst, sym}
use icix.Prelude.{
  ℕ, zero, suc, ◌+◌, ◌-◌, ◌*◌, ◌/◌, ◌%◌, ◌^◌, ◌≤◌, ◌<◌, ◌==◌, if◌then◌else◌, false, not,
}
use icix.Prelude.{List, [], ◌∷◌, ◌++◌, ◌≡◌, ◌∙◌, refl, ap, arith, minus_one, sub32, mul32, min}
use icix.Prelude.{Bool-cases, inl, inr}
use icix.Outcome.{Outcome, done, aborted, ◌>>=◌}
use icix.Cstring.{strcmp}
use icix.Disk.{DiskDriver}
use icix.Disk.Device.{ReadableDevice, bytes_at}
use icix.Ufs.Layout.{DirEnt, dir_ent_of, ufs_directory}
use icix.Ufs.State.{Ufs, inode_at, out_of_range, is_unallocated}
use icix.Ufs.Lookup.{
  Scan, found, remaining, name_pointer, lookup_entries, lookup_blocks, ufs_lookup,
}

-- The search over a list of entries: an unused entry on the way aborts, as the `assert` does.
unfoldable pub search_then : List ℕ → List DirEnt → Outcome ℕ → Outcome ℕ
search_then name [] rest = rest
search_then name (e ∷ es) rest =
    if e.inum == minus_one
    then aborted
    else if strcmp name (name_pointer e) == 0
    then done e.inum
    else search_then name es rest

-- n entries from address k on.
unfoldable pub entries_at : (ℕ → ℕ) → ℕ → ℕ → List DirEnt
entries_at content k zero = []
entries_at content k (suc n) = dir_ent_of (bytes_at content k 32) ∷ entries_at content (k + 32) n

-- The first `cnt` entries of a directory with these block pointers.
unfoldable pub listing : (ℕ → ℕ) → List ℕ → ℕ → List DirEnt
listing content [] cnt = []
listing content (p ∷ ps) cnt =
    entries_at content (p * 4096) (min cnt 128) ++ listing content ps (cnt - 128)

pub listing-zero : (content : ℕ → ℕ) (ps : List ℕ) (n : ℕ) → n ≡ 0 → listing content ps n ≡ []
unfolding listing entries_at
listing-zero content [] n e = refl
listing-zero content (p ∷ ps) n e =
    let m : min n 128 ≡ 0 = omega arith in rw m (listing-zero content ps (n - 128) (omega arith))

pub search_then-append :
    (name : List ℕ) (xs ys : List DirEnt) (rest : Outcome ℕ)
    → search_then name (xs ++ ys) rest ≡ search_then name xs (search_then name ys rest)
unfolding search_then
search_then-append name [] ys rest = refl
search_then-append name (x ∷ xs) ys rest = rw (search_then-append name xs ys rest)

-- The blocks that hold the first `cnt` entries lie on the device.
abbrev pub BlocksFit : ℕ → List ℕ → ℕ → Type 0
BlocksFit capacity [] cnt = Unit {0}
BlocksFit capacity (p ∷ ps) cnt =
    (0 < cnt → p * 4096 + 4096 ≤ capacity) × BlocksFit capacity ps (cnt - 128)

-- The result code of a call.
abbrev pub code : {D : Type 0} → Outcome (ℕ × D) → Outcome ℕ
code m = m >>= λ r. done r.0

module _ {D : Type 0} (disk : DiskDriver D) (dev : ReadableDevice disk) (name : List ℕ) where
  open dev use {capacity, Holds}

  -- The loop over the entries of a block, followed by anything that passes a found inode on.
  lookup_entries-search :
      (left cnt k : ℕ) (d : D) (content : ℕ → ℕ) (f : Scan × D → Outcome (ℕ × D)) (rest : Outcome ℕ)
      → Holds d content k
      → k + 32 * left ≤ capacity
      → 0 < cnt
      → cnt < 2 ^ 32
      → ((i : ℕ) (d' : D) → code (f (found i, d')) ≡ done i)
      → ((d' : D)
          → Holds d' content (k + 32 * min cnt left)
          → code (f (remaining (cnt - left), d')) ≡ rest)
      → code (lookup_entries disk name left cnt d >>= f)
        ≡ search_then name (entries_at content k (min cnt left)) rest
  unfolding lookup_entries search_then entries_at
  lookup_entries-search zero cnt k d content f rest h fits pos small hit miss =
      let e : min cnt 0 ≡ 0 = omega arith in
      let z : cnt - 0 ≡ cnt = omega arith in
      rw (e) (
        subst (λ n. code (f (remaining n, d)) ≡ rest) z
          (miss d (subst (Holds d content) (omega arith) h)))
  lookup_entries-search (suc left) cnt k d content f rest h fits pos small hit miss =
      let (d1, e1, h1) = dev.read_lem d content k 32 h (omega arith) (omega arith) in
      let c : sub32 cnt 1 ≡ cnt - 1 = omega arith in
      let m : min cnt (suc left) ≡ suc (min (cnt - 1) left) = omega arith in
      let ent = dir_ent_of (bytes_at content k 32) in
      let miss' : (d' : D)
          → Holds d' content (k + 32 + 32 * min (cnt - 1) left)
          → code (f (remaining (cnt - 1 - left), d')) ≡ rest =
        λ d' hd.
          subst (λ n. code (f (remaining n, d')) ≡ rest) (omega arith)
            (miss d' (subst (Holds d' content) (omega arith) hd)) in
      rw (m, e1, ◌>>=◌)
        (elim (Bool-cases (ent.inum == minus_one)) [
          | inl t ↦ rw t
          | inr t ↦ rw t (elim (Bool-cases (strcmp name (name_pointer ent) == 0)) [
            | inl s ↦ rw s (hit ent.inum d1)
            | inr s ↦ rw s (elim (Bool-cases (sub32 cnt 1 == 0)) [
              | inl z ↦
                  let e0 : min (cnt - 1) left ≡ 0 = ground (arith, c) in
                  let n0 : cnt - 1 - left ≡ sub32 cnt 1 = ground (arith, c) in
                  rw (z, e0)
                    (subst (λ n. code (f (remaining n, d1)) ≡ rest) n0
                      (miss' d1 (subst (Holds d1 content) (omega (arith, e0)) h1)))
              | inr z ↦ rw z (
                  subst
                    (λ n.
                      code (lookup_entries disk name left n d1 >>= f)
                      ≡ search_then name (entries_at content (k + 32) (min (cnt - 1) left)) rest)
                    (sym c)
                    (lookup_entries-search left (cnt - 1) (k + 32) d1 content f rest h1
                      (omega arith) (ground (arith, c)) (omega arith) hit miss'))
            ])
          ])
        ])

  lookup_blocks-search :
      (direct : List ℕ) (cnt k : ℕ) (d : D) (content : ℕ → ℕ)
      → Holds d content k
      → cnt < 2 ^ 32
      → BlocksFit capacity direct cnt
      → code (lookup_blocks disk name direct cnt d)
        ≡ search_then name (listing content direct cnt) (done minus_one)
  unfolding lookup_blocks listing search_then
  lookup_blocks-search [] cnt k d content h small fits = refl
  lookup_blocks-search (p ∷ ps) cnt k d content h small fits = elim (Bool-cases (cnt == 0)) [
    | inl t ↦
        let e : cnt ≡ 0 = ground arith in
        rw t (
          ap (λ l. search_then name l (done minus_one)) (sym (listing-zero content (p ∷ ps) cnt e)))
    | inr t ↦
        let pos : 0 < cnt = ground arith in
        let (d1, e1, h1) = dev.lseek_lem d content k (p * 4096) h (omega (arith, fits.0 pos)) in
        let m : mul32 p 4096 ≡ p * 4096 = omega (arith, fits.0 pos, dev.small) in
        rw (t, m, e1, ◌>>=◌)
          (lookup_entries-search 128 cnt (p * 4096) d1 content _ _ h1 (omega (arith, fits.0 pos))
              pos small (λ i d'. refl)
              (λ d' hd. lookup_blocks-search ps (cnt - 128) _ d' content hd (omega arith) fits.1)
            ∙ sym (
                search_then-append name (entries_at content (p * 4096) (min cnt 128))
                  (listing content ps (cnt - 128)) (done minus_one)))
  ]

  -- For an allocated directory whose size is a multiple of the entry size and whose blocks lie on
  -- the device, `ufs_lookup` returns what a search from the front of the directory's list of
  -- `size / 32` entries returns: the number of the first entry with the name, -1 if there is none,
  -- and an abort if an unused entry comes first.
  pub ufs_lookup-search :
      (nfs : Ufs) (pinum k : ℕ) (d : D) (content : ℕ → ℕ)
      → Holds d content k
      → out_of_range nfs pinum ≡ false
      → is_unallocated nfs pinum ≡ false
      → (inode_at nfs pinum).type ≡ ufs_directory
      → (inode_at nfs pinum).size < 2 ^ 32
      → (inode_at nfs pinum).size % 32 ≡ 0
      → BlocksFit capacity (inode_at nfs pinum).direct ((inode_at nfs pinum).size / 32)
      → code (ufs_lookup disk nfs pinum name d)
        ≡ search_then name
            (listing content (inode_at nfs pinum).direct ((inode_at nfs pinum).size / 32))
            (done minus_one)
  unfolding ufs_lookup
  ufs_lookup-search nfs pinum k d content h range alloc dir small whole fits =
      let t : not ((inode_at nfs pinum).type == 0) ≡ false = ground arith in
      let w : not ((inode_at nfs pinum).size % 32 == 0) ≡ false = ground arith in
      rw (range, alloc, t, w)
        (lookup_blocks-search (inode_at nfs pinum).direct ((inode_at nfs pinum).size / 32) k d
          content h (omega arith) fits)
