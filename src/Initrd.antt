-- ===== src/Initrd.antt =====
-- The ramdisk driver of kernel/arch/i386/drivers/initrd.c: a window of memory from `start_addr`
-- to `end_addr` that GRUB loaded, with a cursor. Memory is a function from addresses to bytes.
pub mod Laws
pub mod Device
use icix.Prelude.{ℕ, zero, suc, ◌+◌, ◌==◌, if◌then◌else◌, leb, ltb, List, [], ◌∷◌}
use icix.Prelude.{add32, minus_one}
use icix.Outcome.{Outcome, done, aborted}
use icix.Disk.{DiskDriver}

-- `initrd_info_t`
pub record InitrdInfo : Type 0 where
  pub start_addr : ℕ
  pub cursor : ℕ
  pub end_addr : ℕ

-- `memcpy` out of memory: n bytes from `addr` on.
unfoldable pub bytes_from : (ℕ → ℕ) → ℕ → ℕ → List ℕ
bytes_from memory addr zero = []
bytes_from memory addr (suc n) = memory addr ∷ bytes_from memory (add32 addr 1) n

unfoldable pub initrd_init : InitrdInfo → Outcome (ℕ × InitrdInfo)
initrd_init s = done (0, record s { cursor = 0 })

-- The bound is tested with `>=`, so the last byte of the window is never read.
unfoldable pub initrd_read : (ℕ → ℕ) → ℕ → InitrdInfo → Outcome (ℕ × List ℕ × InitrdInfo)
unfolding bytes_from
initrd_read memory size s =
    if leb s.end_addr (add32 (add32 s.start_addr s.cursor) size)
    then done (0, [], s)
    else done (
      size,
      bytes_from memory (add32 s.start_addr s.cursor) size,
      record s { cursor = add32 s.cursor size },
    )

unfoldable pub initrd_write : List ℕ → InitrdInfo → Outcome (ℕ × InitrdInfo)
initrd_write buf s = aborted

unfoldable pub initrd_lseek : ℕ → InitrdInfo → Outcome (ℕ × InitrdInfo)
initrd_lseek offset s =
    if ltb s.end_addr (add32 s.start_addr offset)
    then done (minus_one, s)
    else done (0, record s { cursor = offset })

unfoldable pub initrd_clean : InitrdInfo → Outcome (ℕ × InitrdInfo)
initrd_clean s = done (0, s)

unfoldable pub initrd_fsync : InitrdInfo → Outcome (ℕ × InitrdInfo)
initrd_fsync s = done (0, s)

-- `get_initrd_driver`: the table of pointers.
unfoldable pub get_initrd_driver : (ℕ → ℕ) → DiskDriver InitrdInfo
unfolding initrd_init initrd_read initrd_write initrd_lseek initrd_clean initrd_fsync
get_initrd_driver memory = record {
  init = initrd_init;
  read = initrd_read memory;
  write = initrd_write;
  lseek = initrd_lseek;
  clean = initrd_clean;
  fsync = initrd_fsync;
}

-- The window that `get_initrd_driver` takes from the two words at `mods_addr`; the cursor is the
-- static zero until `initrd_init`, which nothing calls.
unfoldable pub initrd_instance : ℕ → ℕ → InitrdInfo
initrd_instance mod_start mod_end = record {
  start_addr = mod_start;
  cursor = 0;
  end_addr = mod_end;
}
