-- ===== src/Ufs/Read/Laws.antt =====
-- `ufs_read` on a readable device gives the bytes of the file.
use mathlib.Core.Path.{subst, sym, ap₂}
use native.Mathlib.Decide.{dec_lt}
use mathlib.Core.List.{append_assoc, append-nil}
use icix.Prelude.{ℕ, zero, suc, ◌+◌, ◌-◌, ◌*◌, ◌/◌, ◌%◌, ◌≤◌, ◌<◌, ◌==◌, ltb, not, ◌||◌, ◌&&◌}
use icix.Prelude.{
  List, [], ◌∷◌, ◌++◌, ◌≡◌, ◌≢◌, ◌∙◌, refl, ap, arith, add32, mul32, get_or, slt, is_neg,
}
use icix.Prelude.{Bool-cases, inl, inr, ◌⊎◌, true, false}
use icix.Outcome.{done, ◌>>=◌}
use icix.Disk.{DiskDriver, disk_read}
use icix.Disk.Device.{ReadableDevice, bytes_at, disk_read_lem}
use icix.Ufs.State.{Ufs, inode_at, out_of_range, is_unallocated}
use icix.Ufs.Read.{piece, read_blocks, ufs_read}

-- n bytes of a file from position x on: byte x lies in block x / 4096 of its pointers.
unfoldable pub file_bytes : (ℕ → ℕ) → List ℕ → ℕ → ℕ → List ℕ
file_bytes content direct x zero = []
file_bytes content direct x (suc n) =
    content (get_or direct (x / 4096) 0 * 4096 + x % 4096) ∷ file_bytes content direct (x + 1) n

file_bytes-none :
    (content : ℕ → ℕ) (direct : List ℕ) (x y : ℕ)
    → file_bytes content direct x 0 ≡ file_bytes content direct y 0
unfolding file_bytes
file_bytes-none content direct x y = refl

-- Inside a block the bytes of the file are bytes of the device.
pub file_bytes-block :
    (content : ℕ → ℕ) (direct : List ℕ) (i offset n : ℕ)
    → offset + n ≤ 4096
    → file_bytes content direct (i * 4096 + offset) n
      ≡ bytes_at content (get_or direct i 0 * 4096 + offset) n
unfolding file_bytes bytes_at
file_bytes-block content direct i offset zero h = refl
file_bytes-block content direct i offset (suc n) h =
    let q : (i * 4096 + offset) / 4096 ≡ i = omega arith in
    let r : (i * 4096 + offset) % 4096 ≡ offset = omega arith in
    rw (q, r)
      (ap (λ t. content (get_or direct i 0 * 4096 + offset) ∷ t)
        (ap (λ x. file_bytes content direct x n) (omega arith)
          ∙ file_bytes-block content direct i (offset + 1) n (omega arith)
          ∙ ap (λ a. bytes_at content a n) (omega arith)))

file_bytes-add :
    (content : ℕ → ℕ) (direct : List ℕ) (x n m : ℕ)
    → file_bytes content direct x (n + m)
      ≡ file_bytes content direct x n ++ file_bytes content direct (x + n) m
unfolding file_bytes
file_bytes-add content direct x zero m =
    let e : 0 + m ≡ m = omega arith in let d : x + 0 ≡ x = omega arith in rw (e, d)
file_bytes-add content direct x (suc n) m =
    let e : suc n + m ≡ suc (n + m) = omega arith in
    let d : x + suc n ≡ x + 1 + n = omega arith in
    rw (e, d)
      (ap (λ t. content (get_or direct (x / 4096) 0 * 4096 + x % 4096) ∷ t)
        (file_bytes-add content direct (x + 1) n m))

-- The piece up to the end of the block, and the rest from the next block on.
file_bytes-piece :
    (content : ℕ → ℕ) (direct : List ℕ) (i offset n sz : ℕ)
    → offset + sz ≤ 4096
    → sz ≤ n
    → (sz < n → offset + sz ≡ 4096)
    → bytes_at content (get_or direct i 0 * 4096 + offset) sz
        ++ file_bytes content direct ((i + 1) * 4096 + 0) (n - sz)
      ≡ file_bytes content direct (i * 4096 + offset) n
file_bytes-piece content direct i offset n sz h le whole =
    let split : file_bytes content direct (i * 4096 + offset) (sz + (n - sz))
        ≡ file_bytes content direct (i * 4096 + offset) sz
          ++ file_bytes content direct (i * 4096 + offset + sz) (n - sz) =
      file_bytes-add content direct (i * 4096 + offset) sz (n - sz) in
    let e : sz + (n - sz) ≡ n = omega arith in
    ap₂ ◌++◌ (sym (file_bytes-block content direct i offset sz h)) (rest (dec_lt sz n))
    ∙ sym split
    ∙ ap (file_bytes content direct (i * 4096 + offset)) e
  where
    rest :
        Dec (sz < n)
        → file_bytes content direct ((i + 1) * 4096 + 0) (n - sz)
          ≡ file_bytes content direct (i * 4096 + offset + sz) (n - sz)
    rest (yes p) = ap (λ x. file_bytes content direct x (n - sz)) (omega (arith, whole p))
    rest (no p) =
        let z : n - sz ≡ 0 = omega arith in
        subst
          (λ m.
            file_bytes content direct ((i + 1) * 4096 + 0) m
            ≡ file_bytes content direct (i * 4096 + offset + sz) m)
          (sym z) (file_bytes-none content direct _ _)

-- The pointers that positions from x up to `stop` go through lead to blocks on the device.
abbrev pub PointersFit : ℕ → List ℕ → ℕ → ℕ → Type 0
PointersFit capacity direct x stop =
    (i : ℕ) → x < i * 4096 + 4096 → i * 4096 < stop → get_or direct i 0 * 4096 + 4096 ≤ capacity

module _ {D : Type 0} (disk : DiskDriver D) (dev : ReadableDevice disk) where
  open dev use {capacity, Holds}

  -- One round, with the read that it makes.
  read_blocks-step :
      (direct : List ℕ) (nbytes left i cur offset : ℕ) (out : List ℕ) (d d1 : D) (addr : ℕ)
      (bytes : List ℕ)
      → ltb cur nbytes ≡ true
      → add32 (mul32 (get_or direct i 0) 4096) offset ≡ addr
      → disk_read disk addr (piece nbytes cur offset) d ≡ done (0, bytes, d1)
      → read_blocks disk direct nbytes (suc left) i cur offset out d
        ≡ read_blocks disk direct nbytes left
            (i + 1)
            (cur + piece nbytes cur offset)
            0
            (out ++ bytes)
            d1
  unfolding read_blocks
  read_blocks-step direct nbytes left i cur offset out d d1 addr bytes t a e = rw (t, a, e, ◌>>=◌)

  -- The loop gives the rest of the range, whatever the buffer holds so far.
  read_blocks-file_bytes :
      (direct : List ℕ) (nbytes left i cur offset k : ℕ) (out : List ℕ) (d : D) (content : ℕ → ℕ)
      → Holds d content k
      → offset < 4096
      → cur ≤ nbytes
      → offset + (nbytes - cur) ≤ left * 4096
      → PointersFit capacity direct (i * 4096 + offset) (i * 4096 + offset + (nbytes - cur))
      → (d' : D) × (k' : ℕ) × (read_blocks disk direct nbytes left i cur offset out d
          ≡ done (nbytes, out ++ file_bytes content direct (i * 4096 + offset) (nbytes - cur), d'))
        × Holds d' content k'
  unfolding read_blocks file_bytes
  read_blocks-file_bytes direct nbytes zero i cur offset k out d content h o c room fits =
      let e : nbytes - cur ≡ 0 = omega arith in
      let f : cur ≡ nbytes = omega arith in (d, k, rw (e, f, append-nil), h)
  read_blocks-file_bytes direct nbytes (suc left) i cur offset k out d content h o c room fits =
      elim (Bool-cases (ltb cur nbytes)) [
        | inr t ↦
            let e : nbytes - cur ≡ 0 = ground arith in
            let f : cur ≡ nbytes = ground arith in
            let u : not (ltb cur nbytes) ≡ true = ap not t in (d, k, rw (u, e, f, append-nil), h)
        | inl t ↦
            let pos : cur < nbytes = ground arith in
            let sz = piece nbytes cur offset in
            let p = get_or direct i 0 in
            let s1 : 0 < sz = ground arith in
            let s2 : offset + sz ≤ 4096 = ground arith in
            let s3 : sz ≤ nbytes - cur = ground arith in
            let s4 : (offset + sz ≡ 4096) ⊎ (sz ≡ nbytes - cur) = ground arith in
            let fit : p * 4096 + 4096 ≤ capacity = fits i (omega arith) (omega arith) in
            let a : add32 (mul32 p 4096) offset ≡ p * 4096 + offset = omega (arith, dev.small) in
            let (d1, e1, h1) =
              disk_read_lem disk dev d content k (p * 4096 + offset) sz h s1 (omega arith) in
            let (d2, k2, e2, h2) =
              read_blocks-file_bytes direct nbytes left (i + 1) (cur + sz) 0
                (p * 4096 + offset + sz) (out ++ bytes_at content (p * 4096 + offset) sz) d1 content
                h1 (omega arith) (omega arith) (omega (arith, s1, s2, s3, s4))
                (λ j l u. fits j (omega arith) (omega (arith, s1, s2, s3, s4))) in
            let m : nbytes - (cur + sz) ≡ nbytes - cur - sz = omega arith in
            let joined : (out ++ bytes_at content (p * 4096 + offset) sz)
                  ++ file_bytes content direct ((i + 1) * 4096 + 0) (nbytes - (cur + sz))
                ≡ out ++ file_bytes content direct (i * 4096 + offset) (nbytes - cur) =
              append_assoc out _ _
              ∙ ap (λ r. out ++ (bytes_at content (p * 4096 + offset) sz ++ r))
                  (ap (file_bytes content direct ((i + 1) * 4096 + 0)) m)
              ∙ ap (λ r. out ++ r)
                  (file_bytes-piece content direct i offset (nbytes - cur) sz s2 s3
                    (λ q. omega (arith, s4))) in
            (
              d2,
              k2,
              read_blocks-step direct nbytes left i cur offset out d d1 _ _ t a e1
                  ∙ e2
                  ∙ ap (λ r. done (nbytes, r, d2)) joined,
              h2,
            )
      ]

  -- For an allocated file or directory and a range inside its size, at an entry boundary for a
  -- directory, with 30 pointers whose blocks in the range lie on the device: `ufs_read` returns 0 and
  -- puts exactly the bytes of the range into the buffer.
  pub ufs_read-file_bytes :
      (nfs : Ufs) (inum offset nbytes k : ℕ) (d : D) (content : ℕ → ℕ)
      → Holds d content k
      → out_of_range nfs inum ≡ false
      → is_unallocated nfs inum ≡ false
      → 0 < nbytes
      → offset + nbytes ≤ (inode_at nfs inum).size
      → (inode_at nfs inum).size ≤ 30 * 4096
      → (inode_at nfs inum).type ≢ 0 ⊎ (offset % 32 ≡ 0)
      → PointersFit capacity (inode_at nfs inum).direct offset (offset + nbytes)
      → (d' : D) × (k' : ℕ) × (ufs_read disk nfs inum offset nbytes d
          ≡ done (0, file_bytes content (inode_at nfs inum).direct offset nbytes, d'))
        × Holds d' content k'
  unfolding ufs_read
  ufs_read-file_bytes nfs inum offset nbytes k d content h range alloc pos inside small aligned
        fits =
      let inode = inode_at nfs inum in
      let n1 : is_neg offset ≡ false = ground arith in
      let n2 : (is_neg nbytes || nbytes == 0) ≡ false = ground arith in
      let n3 : slt inode.size (add32 offset nbytes) ≡ false = ground arith in
      let n4 : (inode.type == 0 && not (offset % 4096 % 32 == 0)) ≡ false = ground arith in
      let start : offset / 4096 * 4096 + offset % 4096 ≡ offset = omega arith in
      let (d', k', e, h') =
        read_blocks-file_bytes inode.direct nbytes (30 - offset / 4096) (offset / 4096) 0
          (offset % 4096) k [] d content h (omega arith) (omega arith) (omega arith)
          (λ i l u. fits i (omega arith) (omega arith)) in
      (
        d',
        k',
        rw (range, alloc, n1, n2, n3, n4, e, ◌>>=◌)
            (ap₂ (λ x n. done (0, file_bytes content inode.direct x n, d')) start (omega arith)),
        h',
      )
