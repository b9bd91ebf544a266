-- ===== src/Memory.antt =====
-- libc/string/memcpy.c, memmove.c and memset.c, over a memory that maps an address to its byte.
-- The pointer that they return is the first argument and is left out.
pub mod Laws
use icix.Prelude.{ℕ, zero, suc, ◌+◌, ◌==◌, if◌then◌else◌, ltb, u8}

-- A write of one byte.
abbrev pub store : (ℕ → ℕ) → ℕ → ℕ → ℕ → ℕ
store m a v x = if x == a then v else m x

-- `for (i = …; i < size; i++) dst[i] = src[i]`, with `left` rounds to go.
pub copy_up : (ℕ → ℕ) → ℕ → ℕ → ℕ → ℕ → ℕ → ℕ
copy_up m dst src zero i = m
copy_up m dst src (suc left) i = copy_up (store m (dst + i) (m (src + i))) dst src left (i + 1)

-- `for (i = size; i != 0; i--) dst[i-1] = src[i-1]`
pub copy_down : (ℕ → ℕ) → ℕ → ℕ → ℕ → ℕ → ℕ
copy_down m dst src zero = m
copy_down m dst src (suc i) = copy_down (store m (dst + i) (m (src + i))) dst src i

unfoldable pub memcpy : (ℕ → ℕ) → ℕ → ℕ → ℕ → ℕ → ℕ
unfolding copy_up
memcpy m dst src size = copy_up m dst src size 0

unfoldable pub memmove : (ℕ → ℕ) → ℕ → ℕ → ℕ → ℕ → ℕ
unfolding copy_up copy_down
memmove m dst src size = if ltb dst src then copy_up m dst src size 0 else copy_down m dst src size

pub fill_from : (ℕ → ℕ) → ℕ → ℕ → ℕ → ℕ → ℕ → ℕ
fill_from m buf value zero i = m
fill_from m buf value (suc left) i = fill_from (store m (buf + i) (u8 value)) buf value left (i + 1)

unfoldable pub memset : (ℕ → ℕ) → ℕ → ℕ → ℕ → ℕ → ℕ
unfolding fill_from
memset m buf value size = fill_from m buf value size 0
