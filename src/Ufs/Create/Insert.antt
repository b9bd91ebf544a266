-- ===== src/Ufs/Create/Insert.antt =====
-- The two loops of `ufs_creat` over the blocks of the parent, on a device.
use icix.Prelude.{
  ℕ, ◌+◌, ◌-◌, ◌*◌, ◌==◌, List, [], ◌∷◌, ◌≡◌, ◌≢◌, ◌∙◌, refl, ap, arith, inl, inr, minus_one, add32,
  mul32, false,
}
use mathlib.Core.Path.{subst}
use icix.Outcome.{done, ◌>>=◌}
use icix.Disk.{DiskDriver, disk_read, disk_write}
use icix.Disk.Device.{WritableDevice, bytes_at, disk_read_lem, disk_write_lem, overwrite}
use icix.Ufs.Layout.{DirEnt, dir_ent_bytes, dir_block_of}
use icix.Ufs.Layout.Codec.{IsEntry, length-dir_ent_bytes}
use icix.Ufs.Create.{free_entry_from, entry, scan_full, insert_entry}
use icix.Ufs.Create.Directory.{free_entry_from-full, free_entry_from-room}
use icix.Ufs.Create.Room.{HasRoom, place_of}
use icix.Ufs.Write.Block.{InData}

module _ {D : Type 0} (disk : DiskDriver D) (dev : WritableDevice disk)
    (strcpy : List ℕ → List ℕ → List ℕ) (stack_block : List DirEnt) (stack_entry : DirEnt) where
  open dev.readable use {capacity, Holds}

  -- Reading one of the blocks.
  block_read :
      (limit p k : ℕ) (d : D) (content : ℕ → ℕ)
      → Holds d content k
      → InData limit capacity p
      → (d' : D) × (k' : ℕ) × (disk_read disk (mul32 p 4096) 4096 d
          ≡ done (0, bytes_at content (p * 4096) 4096, d'))
        × Holds d' content k'
  block_read limit p k d content h i =
      let (d1, e1, h1) =
        disk_read_lem disk dev.readable d content k (p * 4096) 4096 h (omega arith)
          (omega (arith, i)) in
      let m : mul32 p 4096 ≡ p * 4096 = omega (arith, i, dev.readable.small) in
      (d1, p * 4096 + 4096, rw m e1, h1)

  -- The parent is found to have room.
  pub scan_full-runs :
      (limit : ℕ) (ps : List ℕ) (n b k : ℕ) (d : D) (content : ℕ → ℕ)
      → Holds d content k
      → HasRoom content (InData limit capacity) ps n b
      → (d' : D) × (k' : ℕ) × (scan_full disk strcpy stack_block stack_entry ps d
          ≡ done (false, d'))
        × Holds d' content k'
  unfolding scan_full
  scan_full-runs limit [] n b k d content h room = absurd room
  scan_full-runs limit (p ∷ ps) n b k d content h (i, r) =
      let (d1, k1, e1, h1) = block_read limit p k d content h i in
      let t : (p == minus_one) ≡ false = ground (arith, i, dev.readable.small) in
      elim r [
        | inl (same, small, used, free) ↦
            let f = free_entry_from-room content p n small used free in
            let u : (n == minus_one) ≡ false = ground (arith, small) in
            (d1, k1, rw (t, scan_full) (rw (e1, ◌>>=◌) (rw f (rw u refl))), h1)
        | inr (other, large, used, room) ↦
            let f = free_entry_from-full content p used in
            let (d2, k2, e2, h2) = scan_full-runs limit ps (n - 128) b k1 d1 content h1 room in
            (d2, k2, rw (t, scan_full) (rw (e1, ◌>>=◌) (rw f e2)), h2)
      ]

  insert_entry-here :
      (p : ℕ) (ps name : List ℕ) (inum j : ℕ) (block : List ℕ) (d d1 d2 : D)
      → disk_read disk (mul32 p 4096) 4096 d ≡ done (0, block, d1)
      → free_entry_from (dir_block_of 128 block) 0 ≡ j
      → j ≢ minus_one
      → disk_write disk
          (add32 (mul32 p 4096) (j * 32))
          (dir_ent_bytes (entry strcpy stack_entry name inum))
          d1
        ≡ done (0, d2)
      → insert_entry disk strcpy stack_block stack_entry (p ∷ ps) name inum d ≡ done d2
  unfolding insert_entry
  insert_entry-here p ps name inum j block d d1 d2 e1 f ne e2 =
      let u : (j == minus_one) ≡ false = ground (arith, ne) in
      rw (e1, ◌>>=◌) (rw f (rw u (rw (e2, ◌>>=◌) refl)))

  -- The entry is written at its place.
  pub insert_entry-runs :
      (limit : ℕ) (ps name : List ℕ) (inum n b k : ℕ) (d : D) (content : ℕ → ℕ)
      → Holds d content k
      → HasRoom content (InData limit capacity) ps n b
      → IsEntry (entry strcpy stack_entry name inum)
      → (d' : D) × (k' : ℕ) × (insert_entry disk strcpy stack_block stack_entry ps name inum d
          ≡ done d')
        × Holds d'
            (overwrite content (place_of b n) (dir_ent_bytes (entry strcpy stack_entry name inum)))
            k'
  unfolding insert_entry
  insert_entry-runs limit [] name inum n b k d content h room g = absurd room
  insert_entry-runs limit (p ∷ ps) name inum n b k d content h (i, r) g =
      let (d1, k1, e1, h1) = block_read limit p k d content h i in
      let bytes = dir_ent_bytes (entry strcpy stack_entry name inum) in
      elim r [
        | inl (same, small, used, free) ↦
            let f = free_entry_from-room content p n small used free in
            let a : add32 (mul32 p 4096) (n * 32) ≡ place_of b n =
              omega (arith, same, i, small, dev.readable.small) in
            let (d2, e2, h2) = disk_write_lem disk dev d1 content k1 (place_of b n) bytes h1 (
              omega (
                arith,
                same,
                i,
                small,
                length-dir_ent_bytes (entry strcpy stack_entry name inum) g,
              )) in
            (
              d2,
              _,
              insert_entry-here p ps name inum n _ d d1 d2 e1 f (λ z. omega (arith, z, small))
                  (ap (λ x. disk_write disk x bytes d1) a ∙ e2),
              h2,
            )
        | inr (other, large, used, room) ↦
            let f = free_entry_from-full content p used in
            let (d2, k2, e2, h2) =
              insert_entry-runs limit ps name inum (n - 128) b k1 d1 content h1 room g in
            let place : place_of b (n - 128) ≡ place_of b n = omega (arith, large) in
            (
              d2,
              k2,
              rw (e1, ◌>>=◌) (rw f e2),
              subst (λ a. Holds d2 (overwrite content a bytes) k2) place h2,
            )
      ]
