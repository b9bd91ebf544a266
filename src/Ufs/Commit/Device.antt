-- ===== src/Ufs/Commit/Device.antt =====
-- The writes of a commit on a device: each succeeds, and stays in the region of the metadata.
use icix.Prelude.{
  ℕ, zero, suc, ◌+◌, ◌*◌, ◌/◌, ◌^◌, ◌≤◌, ◌<◌, ◌==◌, if◌then◌else◌, List, [], ◌∷◌, ◌≡◌, ◌∙◌, refl,
  ap, arith, inr, length, get_or, minus_one,
}
use icix.Outcome.{Outcome, done, ◌>>=◌}
use icix.Disk.{DiskDriver, disk_write}
use icix.Disk.Device.{WritableDevice, overwrite, overwrite-outside, disk_write_lem}
use icix.Ufs.Layout.{Super, Inode, word_bytes, words_bytes, inode_bytes}
use icix.Ufs.State.{Ufs, blank_inode, inode_at}
use icix.Ufs.Commit.{commit_inode, commit_data}

-- The bitmaps and the inode table lie below `limit`.
pub record MetadataBelow (s : Super) (limit : ℕ) : Type 0 where
  pub inode_bitmap : s.inode_bitmap_addr * 4096 + s.num_inodes / 8 + 4 ≤ limit
  pub inode_region : s.inode_region_addr * 4096 + s.num_inodes * 128 ≤ limit
  pub data_bitmap : s.data_bitmap_addr * 4096 + s.num_data / 8 + 4 ≤ limit
  pub few_inodes : s.num_inodes < 2 ^ 31
  pub few_data : s.num_data < 2 ^ 31

-- Every inode has its 30 pointers.
abbrev pub HasPointers : List Inode → Type 0
HasPointers [] = Unit {0}
HasPointers (i ∷ is) = (length i.direct ≡ 30) × HasPointers is

pub length-words_bytes : (ws : List ℕ) → length (words_bytes ws) ≡ length ws * 4
unfolding words_bytes word_bytes
length-words_bytes [] = refl
length-words_bytes (w ∷ ws) = omega (arith, length-words_bytes ws)

pub length-inode_at :
    (nfs : Ufs) (i : ℕ) → HasPointers nfs.inodes → length (inode_at nfs i).direct ≡ 30
length-inode_at nfs i h = go nfs.inodes i h
  where
    go : (is : List Inode) (i : ℕ) → HasPointers is → length (get_or is i blank_inode).direct ≡ 30
    go [] i h = refl
    go (x ∷ is) zero h = h.0
    go (x ∷ is) (suc i) h = go is i h.1

pub length-inode_bytes : (i : Inode) → length i.direct ≡ 30 → length (inode_bytes i) ≡ 128
unfolding inode_bytes
length-inode_bytes i h = omega (arith, length-words_bytes (i.type ∷ i.size ∷ i.direct), h)

-- The bytes from `limit` on are the same.
abbrev pub AgreesFrom : ℕ → (ℕ → ℕ) → (ℕ → ℕ) → Type 0
AgreesFrom limit content content' = (x : ℕ) → limit ≤ x → content' x ≡ content x

module _ {D : Type 0} (disk : DiskDriver D) (dev : WritableDevice disk) where
  open dev.readable use {capacity, Holds}

  -- A step that writes below `limit` on the device.
  abbrev pub Writes : ℕ → (ℕ → ℕ) → Outcome (ℕ × D) → Type 0
  Writes limit content o =
      (d' : D) × (content' : ℕ → ℕ) × (k' : ℕ) × (o ≡ done (0, d'))
      × Holds d' content' k'
      × AgreesFrom limit content content'

  write_below :
      (limit k raw addr : ℕ) (buf : List ℕ) (d : D) (content : ℕ → ℕ)
      → Holds d content k
      → raw ≡ addr
      → addr + length buf ≤ limit
      → limit ≤ capacity
      → Writes limit content (disk_write disk raw buf d)
  write_below limit k raw addr buf d content h e below fits =
      let (d1, e1, h1) = disk_write_lem disk dev d content k raw buf h (omega (arith, e)) in
      (
        d1,
        overwrite content raw buf,
        raw + length buf,
        e1,
        h1,
        λ x le. overwrite-outside content raw buf x (inr (omega (arith, e))),
      )

  -- A second step, after the check of the first one's result.
  pub then_Writes :
      (limit : ℕ) (content : ℕ → ℕ) (o : Outcome (ℕ × D)) (f : D → Outcome (ℕ × D))
      → Writes limit content o
      → ((k : ℕ) (d : D) (content1 : ℕ → ℕ) → Holds d content1 k → Writes limit content1 (f d))
      → Writes limit content (o >>= λ r. if r.0 == minus_one then done (minus_one, r.1) else f r.1)
  then_Writes limit content o f (d1, content1, k1, e1, h1, s1) g =
      let (d2, content2, k2, e2, h2, s2) = g k1 d1 content1 h1 in
      (
        d2,
        content2,
        k2,
        (ap (λ t. t >>= λ (r : ℕ × D). if r.0 == minus_one then done (minus_one, r.1) else f r.1) e1
            ∙ e2),
        h2,
        λ x le. s2 x le ∙ s1 x le,
      )

  pub commit_inode-Writes :
      (limit i k : ℕ) (nfs : Ufs) (d : D) (content : ℕ → ℕ)
      → Holds d content k
      → MetadataBelow nfs.s limit
      → HasPointers nfs.inodes
      → limit ≤ capacity
      → i < nfs.s.num_inodes
      → Writes limit content (commit_inode disk i nfs d)
  unfolding commit_inode word_bytes
  commit_inode-Writes limit i k nfs d content h m full fits lt =
      let len = length-inode_bytes (inode_at nfs i) (length-inode_at nfs i full) in
      then_Writes limit content _ _
        (write_below limit k _ (nfs.s.inode_bitmap_addr * 4096 + i / 32 * 4)
          (word_bytes (get_or nfs.inode_bp (i / 32) 0)) d content h
          (omega (arith, m.inode_bitmap, fits, dev.readable.small, lt))
          (omega (arith, m.inode_bitmap, lt)) fits)
        (λ k1 d1 content1 h1.
          write_below limit k1 _ (nfs.s.inode_region_addr * 4096 + i * 128)
            (inode_bytes (inode_at nfs i)) d1 content1 h1
            (omega (arith, m.inode_region, fits, dev.readable.small, lt))
            (omega (arith, m.inode_region, lt, len)) fits)

  pub commit_data-Writes :
      (limit i k : ℕ) (nfs : Ufs) (d : D) (content : ℕ → ℕ)
      → Holds d content k
      → MetadataBelow nfs.s limit
      → limit ≤ capacity
      → i < nfs.s.num_data
      → Writes limit content (commit_data disk i nfs d)
  unfolding commit_data word_bytes
  commit_data-Writes limit i k nfs d content h m fits lt =
      write_below limit k _ (nfs.s.data_bitmap_addr * 4096 + i / 32 * 4)
        (word_bytes (get_or nfs.data_bp (i / 32) 0)) d content h
        (omega (arith, m.data_bitmap, fits, dev.readable.small, lt))
        (omega (arith, m.data_bitmap, lt)) fits
