-- ===== src/Memory/Laws.antt =====
-- What the block operations of libc/string leave at every address.
use icix.Prelude.{ℕ, zero, suc, ◌+◌, ◌-◌, ◌≤◌, ◌==◌, if◌then◌else◌, ltb, leb, ◌&&◌, u8}
use icix.Prelude.{◌≡◌, ap, arith, ◌⊎◌, inl, inr, Bool-cases}
use icix.Memory.{store, copy_up, copy_down, memmove, fill_from, memset}

-- The memory after `size` bytes from `src` are at `dst`, as they were before.
abbrev pub copied : (ℕ → ℕ) → ℕ → ℕ → ℕ → ℕ → ℕ
copied m dst src size x = if leb dst x && ltb x (dst + size) then m (src + (x - dst)) else m x

copy_up_lem :
    (m : ℕ → ℕ) (dst src left i x : ℕ)
    → dst ≤ src ⊎ src + (i + left) ≤ dst
    → copy_up m dst src left i x
      ≡ (if leb (dst + i) x && ltb x (dst + (i + left)) then m (src + (x - dst)) else m x)
unfolding copy_up
copy_up_lem m dst src zero i x h = ground arith
copy_up_lem m dst src (suc left) i x h =
    let m1 = store m (dst + i) (m (src + i)) in
    let rest = copy_up_lem m1 dst src left (i + 1) x (ground (arith, h)) in
    elim (Bool-cases (x == dst + i)) [
      | inl e ↦
          let at : x ≡ dst + i = ground (arith, e) in
          let back : m (src + i) ≡ m (src + (x - dst)) = ap m (omega (arith, at)) in
          ground (arith, rest, back, at)
      | inr e ↦ elim (Bool-cases (leb (dst + i) x && ltb x (dst + (i + suc left)))) [
        | inl f ↦
            let kept : m1 (src + (x - dst)) ≡ m (src + (x - dst)) = ground (arith, h) in
            ground (arith, rest, kept)
        | inr f ↦ ground (arith, rest)
      ]
    ]

copy_down_lem :
    (m : ℕ → ℕ) (dst src size x : ℕ)
    → src ≤ dst
    → copy_down m dst src size x ≡ copied m dst src size x
unfolding copy_down
copy_down_lem m dst src zero x h = ground arith
copy_down_lem m dst src (suc i) x h =
    let m1 = store m (dst + i) (m (src + i)) in
    let rest = copy_down_lem m1 dst src i x h in
    elim (Bool-cases (x == dst + i)) [
      | inl e ↦
          let at : x ≡ dst + i = ground (arith, e) in
          let back : m (src + i) ≡ m (src + (x - dst)) = ap m (omega (arith, at)) in
          ground (arith, rest, back, at)
      | inr e ↦ elim (Bool-cases (leb dst x && ltb x (dst + suc i))) [
        | inl f ↦
            let kept : m1 (src + (x - dst)) ≡ m (src + (x - dst)) = ground arith in
            ground (arith, rest, kept)
        | inr f ↦ ground (arith, rest)
      ]
    ]

-- `memmove` leaves the old bytes of the source at the destination, and every other byte as it was,
-- however the two overlap.
pub memmove-eq-copied :
    (m : ℕ → ℕ) (dst src size x : ℕ) → memmove m dst src size x ≡ copied m dst src size x
unfolding memmove
memmove-eq-copied m dst src size x = elim (Bool-cases (ltb dst src)) [
  | inl e ↦ rw e (ground (arith, copy_up_lem m dst src size 0 x (inl (ground arith))))
  | inr e ↦ rw e (copy_down_lem m dst src size x (ground arith))
]

fill_from_lem :
    (m : ℕ → ℕ) (buf value left i x : ℕ)
    → fill_from m buf value left i x
      ≡ (if leb (buf + i) x && ltb x (buf + (i + left)) then u8 value else m x)
unfolding fill_from
fill_from_lem m buf value zero i x = ground arith
fill_from_lem m buf value (suc left) i x =
    ground (arith, fill_from_lem (store m (buf + i) (u8 value)) buf value left (i + 1) x)

-- `memset` writes the low byte of the value to exactly the `size` bytes of the buffer.
pub memset_lem :
    (m : ℕ → ℕ) (buf value size x : ℕ)
    → memset m buf value size x ≡ (if leb buf x && ltb x (buf + size) then u8 value else m x)
unfolding memset
memset_lem m buf value size x = ground (arith, fill_from_lem m buf value size 0 x)
