-- ===== src/Ufs/Commit/Sync.antt =====
-- A commit on a device that can be written: it succeeds, and writes in the region of the metadata
-- only.
use icix.Prelude.{
  ℕ, zero, suc, ◌+◌, ◌≤◌, ◌==◌, if◌then◌else◌, ◌≡◌, ◌∙◌, refl, ap, arith, Bool-cases, inl, inr,
  minus_one,
}
use mathlib.Core.Path.{subst, sym}
use icix.Outcome.{Outcome, done, aborted, ◌>>=◌}
use icix.Bitmap.{get_bitmap, reset_bitmap}
use icix.Disk.{DiskDriver}
use icix.Disk.Device.{WritableDevice}
use icix.Ufs.State.{Ufs, rounds}
use icix.Ufs.Commit.{
  commit_inodes, commit_datas, commit_inode, commit_data, commit_dirty_to_disk, commit_and_sync,
}
use icix.Ufs.Commit.Laws.{SameTables, SameTables-trans}
use icix.Ufs.Commit.Device.{
  MetadataBelow, HasPointers, AgreesFrom, Writes, commit_inode-Writes, commit_data-Writes,
}

module _ {D : Type 0} (disk : DiskDriver D) (dev : WritableDevice disk) where
  open dev.readable use {capacity, Holds}

  -- A commit that succeeds, keeps the tables in memory and writes below `limit`.
  abbrev pub Commits : ℕ → (ℕ → ℕ) → Ufs → Outcome (ℕ × Ufs × D) → Type 0
  Commits limit content nfs o =
      (nfs' : Ufs) × (d' : D) × (content' : ℕ → ℕ) × (k' : ℕ) × (o ≡ done (0, nfs', d'))
      × Holds d' content' k'
      × AgreesFrom limit content content'
      × SameTables nfs nfs'

  -- One round for a dirty position, and the rounds after it.
  round-Commits :
      (limit : ℕ) (content : ℕ → ℕ) (nfs nfs1 : Ufs) (o : Outcome (ℕ × D))
      (f : D → Outcome (ℕ × Ufs × D))
      → SameTables nfs nfs1
      → Writes disk dev limit content o
      → ((k : ℕ) (d : D) (content1 : ℕ → ℕ)
          → Holds d content1 k
          → Commits limit content1 nfs1 (f d))
      → Commits limit content nfs
          (o >>= λ r. if r.0 == minus_one then done (minus_one, nfs1, r.1) else f r.1)
  round-Commits limit content nfs nfs1 o f same (d1, content1, k1, e1, h1, s1) g =
      let (nfs2, d2, content2, k2, e2, h2, s2, t2) = g k1 d1 content1 h1 in
      (
        nfs2,
        d2,
        content2,
        k2,
        (ap
              (λ t. t >>= λ (r : ℕ × D).
                if r.0 == minus_one then done (minus_one, nfs1, r.1) else f r.1)
              e1
            ∙ e2),
        h2,
        (λ x le. s2 x le ∙ s1 x le),
        SameTables-trans nfs nfs1 nfs2 same t2,
      )

  commit_inodes-Commits :
      (left limit i k : ℕ) (nfs : Ufs) (d : D) (content : ℕ → ℕ)
      → Holds d content k
      → MetadataBelow nfs.s limit
      → HasPointers nfs.inodes
      → limit ≤ capacity
      → i + left ≤ nfs.s.num_inodes
      → Commits limit content nfs (commit_inodes disk left i nfs d)
  unfolding commit_inodes
  commit_inodes-Commits zero limit i k nfs d content h m full fits le =
      (nfs, d, content, k, refl, h, (λ x p. refl), (refl, refl, refl, refl))
  commit_inodes-Commits (suc left) limit i k nfs d content h m full fits le =
      let nfs1 = record nfs { dirty_inode_bp = reset_bitmap nfs.dirty_inode_bp i } in
      elim (Bool-cases (get_bitmap nfs.dirty_inode_bp i == 0)) [
        | inl t ↦
            rw (t, commit_inodes)
              (commit_inodes-Commits left limit (i + 1) k nfs d content h m full fits (omega arith))
        | inr t ↦
            rw (t, commit_inodes)
              (round-Commits limit content nfs nfs1 (commit_inode disk i nfs1 d)
                (commit_inodes disk left (i + 1) nfs1) (refl, refl, refl, refl)
                (commit_inode-Writes disk dev limit i k nfs1 d content h m full fits (omega arith))
                (λ k1 d1 content1 h1.
                  commit_inodes-Commits left limit (i + 1) k1 nfs1 d1 content1 h1 m full fits
                    (omega arith)))
      ]

  commit_datas-Commits :
      (left limit i k : ℕ) (nfs : Ufs) (d : D) (content : ℕ → ℕ)
      → Holds d content k
      → MetadataBelow nfs.s limit
      → limit ≤ capacity
      → i + left ≤ nfs.s.num_data
      → Commits limit content nfs (commit_datas disk left i nfs d)
  unfolding commit_datas
  commit_datas-Commits zero limit i k nfs d content h m fits le =
      (nfs, d, content, k, refl, h, (λ x p. refl), (refl, refl, refl, refl))
  commit_datas-Commits (suc left) limit i k nfs d content h m fits le =
      let nfs1 = record nfs { dirty_data_bp = reset_bitmap nfs.dirty_data_bp i } in
      elim (Bool-cases (get_bitmap nfs.dirty_data_bp i == 0)) [
        | inl t ↦
            rw (t, commit_datas)
              (commit_datas-Commits left limit (i + 1) k nfs d content h m fits (omega arith))
        | inr t ↦
            rw (t, commit_datas)
              (round-Commits limit content nfs nfs1 (commit_data disk i nfs1 d)
                (commit_datas disk left (i + 1) nfs1) (refl, refl, refl, refl)
                (commit_data-Writes disk dev limit i k nfs1 d content h m fits (omega arith))
                (λ k1 d1 content1 h1.
                  commit_datas-Commits left limit (i + 1) k1 nfs1 d1 content1 h1 m fits
                    (omega arith)))
      ]

  commit_dirty_to_disk-Commits :
      (limit k : ℕ) (nfs : Ufs) (d : D) (content : ℕ → ℕ)
      → Holds d content k
      → MetadataBelow nfs.s limit
      → HasPointers nfs.inodes
      → limit ≤ capacity
      → Commits limit content nfs (commit_dirty_to_disk disk nfs d)
  unfolding commit_dirty_to_disk
  commit_dirty_to_disk-Commits limit k nfs d content h m full fits =
      let (nfs1, d1, content1, k1, e1, h1, s1, t1) =
        commit_inodes-Commits (rounds nfs.s.num_inodes) limit 0 k nfs d content h m full fits
          (ground arith) in
      let (nfs2, d2, content2, k2, e2, h2, s2, t2) =
        commit_datas-Commits (rounds nfs1.s.num_data) limit 0 k1 nfs1 d1 content1 h1
          (subst (λ s. MetadataBelow s limit) (sym t1.0) m) fits (ground arith) in
      (
        nfs2,
        d2,
        content2,
        k2,
        (ap
              (λ (t : Outcome (ℕ × Ufs × D)). t >>= λ r.
                if r.0 == minus_one
                then done (minus_one, r.1, r.2)
                else commit_datas disk (rounds r.1.s.num_data) 0 r.1 r.2)
              e1
            ∙ e2),
        h2,
        (λ x le. s2 x le ∙ s1 x le),
        SameTables-trans nfs nfs1 nfs2 t1 t2,
      )

  -- On a device that can be written, whose metadata lie below an address: the commit at the end of an
  -- operation succeeds, and the bytes from that address on are what they were.
  pub commit_and_sync-Commits :
      (limit k : ℕ) (nfs : Ufs) (d : D) (content : ℕ → ℕ)
      → Holds d content k
      → MetadataBelow nfs.s limit
      → HasPointers nfs.inodes
      → limit ≤ capacity
      → Commits limit content nfs (commit_and_sync disk nfs d)
  unfolding commit_and_sync
  commit_and_sync-Commits limit k nfs d content h m full fits =
      let (nfs1, d1, content1, k1, e1, h1, s1, t1) =
        commit_dirty_to_disk-Commits limit k nfs d content h m full fits in
      let (rc, d2, e2, h2) = dev.fsync_lem d1 content1 k1 h1 in
      (
        nfs1,
        d2,
        content1,
        k1,
        (ap
              (λ (t : Outcome (ℕ × Ufs × D)). t >>= λ r.
                if r.0 == minus_one
                then aborted
                else (disk.fsync r.2 >>= λ (q : ℕ × D). done (0, r.1, q.1)))
              e1
            ∙ ap (λ (t : Outcome (ℕ × D)). t >>= λ q. done (0, nfs1, q.1)) e2),
        h2,
        s1,
        t1,
      )
