-- ===== src/Ufs/Lookup/Keeps.antt =====
-- `ufs_lookup` leaves the bytes of the device as they are.
use icix.Prelude.{
  ℕ, zero, suc, ◌+◌, ◌-◌, ◌*◌, ◌/◌, ◌%◌, ◌^◌, ◌≤◌, ◌<◌, ◌==◌, not, List, [], ◌∷◌, ◌≡◌, ◌∙◌, ap,
  arith, minus_one, mul32, sub32,
}
use icix.Outcome.{
  Outcome, done, aborted, ◌>>=◌, Post, returns, aborts, Post-if, Post-then, Post-weaken, Post-value,
  undefined, >>=-eq-done,
}
use icix.Disk.{DiskDriver}
use icix.Disk.Device.{ReadableDevice, bytes_at}
use icix.Cstring.{strcmp}
use icix.Ufs.Layout.{dir_ent_of, dir_ent_size, ufs_directory}
use icix.Ufs.State.{Ufs, inode_at, out_of_range, is_unallocated, minus_two, minus_three, minus_four}
use icix.Ufs.Lookup.{
  Scan, found, remaining, name_pointer, lookup_entries, lookup_blocks, ufs_lookup,
}
use icix.Ufs.Lookup.Laws.{BlocksFit, code}

module _ {D : Type 0} (disk : DiskDriver D) (dev : ReadableDevice disk) (name : List ℕ) where
  open dev use {capacity, Holds}

  -- The device still holds the same bytes.
  abbrev pub Keeps : (ℕ → ℕ) → D → Type 0
  Keeps content d = (k : ℕ) × Holds d content k

  -- What is left to count after a block, at most.
  abbrev Left : ℕ → Scan → Type 0
  Left n (found i) = Unit {0}
  Left n (remaining m) = m ≤ n

  lookup_entries-Keeps :
      (left cnt k : ℕ) (d : D) (content : ℕ → ℕ)
      → Holds d content k
      → k + 32 * left ≤ capacity
      → 0 < cnt
      → cnt < 2 ^ 32
      → Post (λ r. Keeps content r.1 × Left (cnt - left) r.0) (lookup_entries disk name left cnt d)
  unfolding lookup_entries
  lookup_entries-Keeps zero cnt k d content h fits pos small =
      returns {a = (remaining cnt, d)} ((k, h), omega arith)
  lookup_entries-Keeps (suc left) cnt k d content h fits pos small =
      let (d1, e1, h1) = dev.read_lem d content k 32 h (omega arith) (omega arith) in
      let ent = dir_ent_of (bytes_at content k 32) in
      rw (e1, ◌>>=◌)
        (Post-if (ent.inum == minus_one) _ _ (λ _. aborts)
          (λ _.
            Post-if (strcmp name (name_pointer ent) == 0) _ _
              (λ _. returns {a = (found ent.inum, d1)} ((k + 32, h1), tt))
              (λ _.
                Post-if (sub32 cnt 1 == 0) _ _
                  (λ t.
                    returns {a = (remaining (sub32 cnt 1), d1)} ((k + 32, h1), ground (arith, t)))
                  (λ t.
                    Post-weaken
                      (λ r q.
                        (q.0, less (sub32 cnt 1 - left) (cnt - suc left) r.0 (omega arith) q.1))
                      (lookup_entries-Keeps left (sub32 cnt 1) (k + 32) d1 content h1 (omega arith)
                        (ground (arith, t)) (omega arith))))))
    where
      less : (n m : ℕ) (s : Scan) → n ≤ m → Left n s → Left m s
      less n m (found i) le q = tt
      less n m (remaining x) le q = omega (arith, le, q)

  BlocksFit-le : (ps : List ℕ) (n m : ℕ) → m ≤ n → BlocksFit capacity ps n → BlocksFit capacity ps m
  BlocksFit-le [] n m le h = tt
  BlocksFit-le (p ∷ ps) n m le h = (
    λ pos. h.0 (omega (arith, le, pos)),
    BlocksFit-le ps (n - 128) (m - 128) (omega (arith, le)) h.1,
  )

  -- What follows the loop over a block.
  after_block-Keeps :
      (content : ℕ → ℕ) (m : ℕ) (next : ℕ → D → Outcome (ℕ × D)) (s : Scan) (d' : D)
      → ((n k' : ℕ) (d2 : D)
          → n ≤ m
          → Holds d2 content k'
          → Post (λ r. Keeps content r.1) (next n d2))
      → Keeps content d'
      → Left m s
      → Post
          (λ (r : ℕ × D). Keeps content r.1)
          (elim s [ found inum ↦ done (inum, d') | remaining n ↦ next n d' ])
  after_block-Keeps content m next (found inum) d' f (k', h') q = returns {a = (inum, d')} (k', h')
  after_block-Keeps content m next (remaining n) d' f (k', h') q = f n k' d' q h'

  lookup_blocks-Keeps :
      (direct : List ℕ) (cnt k : ℕ) (d : D) (content : ℕ → ℕ)
      → Holds d content k
      → cnt < 2 ^ 32
      → BlocksFit capacity direct cnt
      → Post (λ r. Keeps content r.1) (lookup_blocks disk name direct cnt d)
  unfolding lookup_blocks
  lookup_blocks-Keeps [] cnt k d content h small fits = returns {a = (minus_one, d)} (k, h)
  lookup_blocks-Keeps (p ∷ ps) cnt k d content h small fits =
      Post-if (cnt == 0) _ _ (λ _. returns {a = (minus_one, d)} (k, h))
        (λ t.
          let pos : 0 < cnt = ground (arith, t) in
          let (d1, e1, h1) = dev.lseek_lem d content k (p * 4096) h (omega (arith, fits.0 pos)) in
          let m : mul32 p 4096 ≡ p * 4096 = omega (arith, fits.0 pos, dev.small) in
          rw (m, e1, ◌>>=◌)
            (Post-then (lookup_entries disk name 128 cnt d1) _
              (lookup_entries-Keeps 128 cnt (p * 4096) d1 content h1 (omega (arith, fits.0 pos)) pos
                small)
              (λ r q.
                after_block-Keeps content (cnt - 128) (lookup_blocks disk name ps) r.0 r.1
                  (λ n k' d2 le h2.
                    lookup_blocks-Keeps ps n k' d2 content h2 (omega (arith, le, small))
                      (BlocksFit-le ps (cnt - 128) n le fits.1))
                  q.0 q.1)))

  -- A lookup that returns leaves the bytes of the device as they were.
  pub ufs_lookup-Keeps :
      (nfs : Ufs) (pinum k : ℕ) (d : D) (content : ℕ → ℕ)
      → Holds d content k
      → (inode_at nfs pinum).size < 2 ^ 32
      → BlocksFit capacity (inode_at nfs pinum).direct ((inode_at nfs pinum).size / 32)
      → Post (λ r. Keeps content r.1) (ufs_lookup disk nfs pinum name d)
  unfolding ufs_lookup
  ufs_lookup-Keeps nfs pinum k d content h small fits =
      Post-if (out_of_range nfs pinum) _ _ (λ _. refused minus_two)
        (λ _.
          Post-if (is_unallocated nfs pinum) _ _ (λ _. refused minus_three)
            (λ _.
              Post-if (not ((inode_at nfs pinum).type == ufs_directory)) _ _
                (λ _. refused minus_four)
                (λ _.
                  Post-if (not ((inode_at nfs pinum).size % dir_ent_size == 0)) _ _ (λ _. aborts)
                    (λ _.
                      lookup_blocks-Keeps (inode_at nfs pinum).direct
                        ((inode_at nfs pinum).size / 32) k d content h (omega arith) fits))))
    where
      refused : (c : ℕ) → Post (λ (r : ℕ × D). Keeps content r.1) (done (c, d))
      refused c = returns (k, h)

  -- A lookup that has a result runs to a device with the same bytes.
  pub ufs_lookup-runs :
      (nfs : Ufs) (pinum k i : ℕ) (d : D) (content : ℕ → ℕ)
      → Holds d content k
      → (inode_at nfs pinum).size < 2 ^ 32
      → BlocksFit capacity (inode_at nfs pinum).direct ((inode_at nfs pinum).size / 32)
      → code (ufs_lookup disk nfs pinum name d) ≡ done i
      → (d' : D) × (k' : ℕ) × (ufs_lookup disk nfs pinum name d ≡ done (i, d'))
        × Holds d' content k'
  ufs_lookup-runs nfs pinum k i d content h small fits e =
      let keeps = ufs_lookup-Keeps nfs pinum k d content h small fits in
      let (r, runs, same) = >>=-eq-done (ufs_lookup disk nfs pinum name d) (λ r. done r.0) e in
      let (k', h') = Post-value keeps runs in
      (r.1, k', runs ∙ ap (λ j. done (j, r.1)) (value same), h')
    where
      value : {a b : ℕ} → done a ≡ done b → a ≡ b
      value {a} e = ap (λ o. elim o [ done x ↦ x | aborted ↦ a | undefined ↦ a ]) e
