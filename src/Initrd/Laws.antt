-- ===== src/Initrd/Laws.antt =====
-- The ramdisk through the driver interface: where reads land, what is refused.
use mathlib.Core.Path.{subst}
use icix.Prelude.{ℕ, zero, suc, ◌+◌, ◌^◌, ◌≤◌, ◌<◌, if◌then◌else◌, [], get_or}
use icix.Prelude.{sym, ◌≡◌, ◌∙◌, ◌%◌, refl, arith, add32, minus_one, length, ap, ltb}
use icix.Outcome.{done}
use icix.Disk.{disk_read}
use icix.Initrd.{InitrdInfo, bytes_from, get_initrd_driver}

length-bytes_from : (memory : ℕ → ℕ) (addr n : ℕ) → length (bytes_from memory addr n) ≡ n
unfolding bytes_from
length-bytes_from memory addr zero = refl
length-bytes_from memory addr (suc n) = ap suc (length-bytes_from memory (add32 addr 1) n)

get_or-bytes_from :
    (memory : ℕ → ℕ) (addr n i : ℕ)
    → addr + n ≤ 2 ^ 32
    → i < n
    → get_or (bytes_from memory addr n) i 0 ≡ memory (addr + i)
unfolding bytes_from
get_or-bytes_from memory addr zero i h p = absurd (omega arith)
get_or-bytes_from memory addr (suc n) zero h p = ap memory (omega arith)
get_or-bytes_from memory addr (suc zero) (suc i) h p = absurd (omega arith)
get_or-bytes_from memory addr (suc (suc n)) (suc i) h p =
    let e : add32 addr 1 ≡ addr + 1 = omega arith in
    let ih : get_or (bytes_from memory (add32 addr 1) (suc n)) i 0 ≡ memory (addr + 1 + i) =
      subst (λ a. get_or (bytes_from memory a (suc n)) i 0 ≡ memory (addr + 1 + i)) (sym e)
        (get_or-bytes_from memory (addr + 1) (suc n) i (omega arith) (omega arith)) in
    ih ∙ ap memory (omega arith)

-- A read through the driver whose end does not pass 2 ^ 32: it succeeds exactly if it ends before
-- `end_addr`; then it gives the bytes of memory at that offset and leaves the cursor behind them.
-- Else it fails, with the cursor moved only if the seek was accepted.
pub disk_read-get_initrd_driver :
    (memory : ℕ → ℕ) (s : InitrdInfo) (addr count : ℕ)
    → s.end_addr < 2 ^ 32
    → 0 < count
    → s.start_addr + addr + count < 2 ^ 32
    → disk_read (get_initrd_driver memory) addr count s ≡ (
        if ltb (s.start_addr + addr + count) s.end_addr
        then done
            (0, bytes_from memory (s.start_addr + addr) count, record s { cursor = addr + count })
        else done (
          minus_one,
          [],
          if ltb s.end_addr (s.start_addr + addr) then s else record s { cursor = addr },
        ))
unfolding disk_read get_initrd_driver
disk_read-get_initrd_driver memory s addr count fits pos h =
    let e1 : (s.start_addr + addr) % 2 ^ 32 ≡ s.start_addr + addr = omega arith in
    let e2 : (s.start_addr + addr + count) % 2 ^ 32 ≡ s.start_addr + addr + count = omega arith in
    let e3 : (addr + count) % 2 ^ 32 ≡ addr + count = omega arith in
    rw e1 (ground (arith, e1, e2, e3))
