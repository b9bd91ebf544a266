-- ===== src/Disk/Device.antt =====
-- What the file system relies on in a disk driver: a device holds bytes and a cursor; a seek moves
-- the cursor, a read gives the bytes behind it, a write replaces them. An address is good up to
-- the capacity. `initrd.c` implements the first half (Initrd/Device).
use icix.Prelude.{
  ℕ, zero, suc, ◌+◌, ◌-◌, ◌^◌, ◌≤◌, ◌<◌, ltb, leb, if◌then◌else◌, ◌&&◌, List, [], ◌∷◌, ◌++◌, get_or,
}
use icix.Prelude.{◌≡◌, refl, arith, length, ap, ◌∙◌, ◌⊎◌}
use icix.Outcome.{done, ◌>>=◌}
use mathlib.Core.Path.{ap₂, sym}
use icix.Disk.{DiskDriver, disk_read, disk_write}

-- n bytes from address a on.
unfoldable pub bytes_at : (ℕ → ℕ) → ℕ → ℕ → List ℕ
bytes_at content a zero = []
bytes_at content a (suc n) = content a ∷ bytes_at content (a + 1) n

pub length-bytes_at : (content : ℕ → ℕ) (a n : ℕ) → length (bytes_at content a n) ≡ n
unfolding bytes_at
length-bytes_at content a zero = refl
length-bytes_at content a (suc n) = ap suc (length-bytes_at content (a + 1) n)

pub bytes_at-add :
    (content : ℕ → ℕ) (a n m : ℕ)
    → bytes_at content a (n + m) ≡ bytes_at content a n ++ bytes_at content (a + n) m
unfolding bytes_at
bytes_at-add content a zero m =
    rw ((let e : 0 + m ≡ m = omega arith in e)) (ap (λ b. bytes_at content b m) (omega arith))
bytes_at-add content a (suc n) m =
    let e : suc n + m ≡ suc (n + m) = omega arith in
    rw e (
      ap (λ t. content a ∷ t)
        (bytes_at-add content (a + 1) n m
          ∙ ap (λ b. bytes_at content (a + 1) n ++ bytes_at content b m) (omega arith)))

pub get_or-bytes_at :
    (content : ℕ → ℕ) (a n i : ℕ) → i < n → get_or (bytes_at content a n) i 0 ≡ content (a + i)
unfolding bytes_at
get_or-bytes_at content a zero i h = absurd (omega arith)
get_or-bytes_at content a (suc n) zero h = ap content (omega arith)
get_or-bytes_at content a (suc n) (suc i) h =
    get_or-bytes_at content (a + 1) n i (omega arith) ∙ ap content (omega arith)

-- The bytes of `buf` over those from address a on.
unfoldable pub overwrite : (ℕ → ℕ) → ℕ → List ℕ → ℕ → ℕ
overwrite content a buf x =
    if leb a x && ltb x (a + length buf) then get_or buf (x - a) 0 else content x

-- A device that can be read. `Holds d content k` says that d holds the bytes and its cursor is k.
pub record ReadableDevice {D : Type 0} (disk : DiskDriver D) : Type 1 where
  pub capacity : ℕ
  pub small : capacity < 2 ^ 32 - 1
  pub Holds : D → (ℕ → ℕ) → ℕ → Type 0
  pub lseek_lem :
      (d : D) (content : ℕ → ℕ) (k a : ℕ)
      → Holds d content k
      → a ≤ capacity
      → (d' : D) × (disk.lseek a d ≡ done (0, d')) × Holds d' content a
  pub read_lem :
      (d : D) (content : ℕ → ℕ) (k n : ℕ)
      → Holds d content k
      → 0 < n
      → k + n ≤ capacity
      → (d' : D) × (disk.read n d ≡ done (n, bytes_at content k n, d')) × Holds d' content (k + n)

-- A device that can be written too.
pub record WritableDevice {D : Type 0} (disk : DiskDriver D) : Type 1 where
  pub readable : ReadableDevice disk
  open readable use {capacity, Holds}
  pub write_lem :
      (d : D) (content : ℕ → ℕ) (k : ℕ) (buf : List ℕ)
      → Holds d content k
      → k + length buf ≤ capacity
      → (d' : D) × (disk.write buf d ≡ done (length buf, d'))
        × Holds d' (overwrite content k buf) (k + length buf)
  pub fsync_lem :
      (d : D) (content : ℕ → ℕ) (k : ℕ)
      → Holds d content k
      → (rc : ℕ) × (d' : D) × (disk.fsync d ≡ done (rc, d')) × Holds d' content k

module _ {D : Type 0} (disk : DiskDriver D) (dev : ReadableDevice disk) where
  open dev use {capacity, Holds}

  -- `Read` on such a device gives the bytes at the address.
  pub disk_read_lem :
      (d : D) (content : ℕ → ℕ) (k addr count : ℕ)
      → Holds d content k
      → 0 < count
      → addr + count ≤ capacity
      → (d' : D) × (disk_read disk addr count d ≡ done (0, bytes_at content addr count, d'))
        × Holds d' content (addr + count)
  unfolding disk_read
  disk_read_lem d content k addr count h pos fits =
      let (d1, e1, h1) = dev.lseek_lem d content k addr h (omega arith) in
      let (d2, e2, h2) = dev.read_lem d1 content addr count h1 pos fits in
      (d2, rw (e1, ◌>>=◌) (rw (e2, ◌>>=◌) (ground arith)), h2)

module _ {D : Type 0} (disk : DiskDriver D) (dev : WritableDevice disk) where
  open dev.readable use {capacity, Holds}

  -- `Write` on such a device replaces the bytes at the address.
  pub disk_write_lem :
      (d : D) (content : ℕ → ℕ) (k addr : ℕ) (buf : List ℕ)
      → Holds d content k
      → addr + length buf ≤ capacity
      → (d' : D) × (disk_write disk addr buf d ≡ done (0, d'))
        × Holds d' (overwrite content addr buf) (addr + length buf)
  unfolding disk_write
  disk_write_lem d content k addr buf h fits =
      let (d1, e1, h1) = dev.readable.lseek_lem d content k addr h (omega arith) in
      let (d2, e2, h2) = dev.write_lem d1 content addr buf h1 fits in
      (d2, rw (e1, ◌>>=◌) (rw (e2, ◌>>=◌) (ground arith)), h2)

-- Bytes outside the range are what they were.
pub overwrite-outside :
    (content : ℕ → ℕ) (addr : ℕ) (buf : List ℕ) (x : ℕ)
    → x < addr ⊎ addr + length buf ≤ x
    → overwrite content addr buf x ≡ content x
unfolding overwrite
overwrite-outside content addr buf x h = ground (arith, h)

overwrite-inside :
    (content : ℕ → ℕ) (addr : ℕ) (buf : List ℕ) (x : ℕ)
    → addr ≤ x
    → x < addr + length buf
    → overwrite content addr buf x ≡ get_or buf (x - addr) 0
unfolding overwrite
overwrite-inside content addr buf x h g = ground (arith, h, g)

pub bytes_at-ap :
    (content content' : ℕ → ℕ) (a n : ℕ)
    → ((x : ℕ) → a ≤ x → x < a + n → content' x ≡ content x)
    → bytes_at content' a n ≡ bytes_at content a n
unfolding bytes_at
bytes_at-ap content content' a zero h = refl
bytes_at-ap content content' a (suc n) h =
    ap₂ ◌∷◌ (h a (omega arith) (omega arith))
      (bytes_at-ap content content' (a + 1) n (λ x p q. h x (omega arith) (omega arith)))

-- What was written is read back.
pub bytes_at-overwrite :
    (content : ℕ → ℕ) (addr : ℕ) (buf : List ℕ)
    → bytes_at (overwrite content addr buf) addr (length buf) ≡ buf
unfolding bytes_at
bytes_at-overwrite content addr [] = refl
bytes_at-overwrite content addr (b ∷ buf) = ap₂ ◌∷◌ first (
    bytes_at-ap (overwrite content (addr + 1) buf) (overwrite content addr (b ∷ buf)) (addr + 1)
      (length buf) rest
    ∙ bytes_at-overwrite content (addr + 1) buf)
  where
    first : overwrite content addr (b ∷ buf) addr ≡ b
    first =
        overwrite-inside content addr (b ∷ buf) addr (omega arith) (omega arith)
        ∙ ap (λ i. get_or (b ∷ buf) i 0) {x = addr - addr} {y = 0} (omega arith)

    rest :
        (x : ℕ)
        → addr + 1 ≤ x
        → x < addr + 1 + length buf
        → overwrite content addr (b ∷ buf) x ≡ overwrite content (addr + 1) buf x
    rest x p q =
        overwrite-inside content addr (b ∷ buf) x (omega arith) (omega arith)
        ∙ ap (λ i. get_or (b ∷ buf) i 0) {x = x - addr} {y = suc (x - (addr + 1))} (omega arith)
        ∙ sym (overwrite-inside content (addr + 1) buf x (omega arith) (omega arith))
