-- ===== src/Disk.antt =====
-- The disk driver interface of kernel/include/kernel/disk_driver.h, a record of function pointers
-- over a device state D, and `Read` and `Write` of kernel/kernel/filesystem.c, which seek first.
pub mod Device
use icix.Prelude.{ℕ, ◌==◌, if◌then◌else◌, List, [], ◌≡◌, refl, minus_one, length, arith}
use icix.Outcome.{Outcome, done, aborted, ◌>>=◌}

-- Each call returns the C result and the new device state. `read` also gives the bytes that it
-- stored from the start of the buffer.
pub record DiskDriver (D : Type 0) : Type 0 where
  pub init : D → Outcome (ℕ × D)
  pub read : ℕ → D → Outcome (ℕ × List ℕ × D)
  pub write : List ℕ → D → Outcome (ℕ × D)
  pub lseek : ℕ → D → Outcome (ℕ × D)
  pub clean : D → Outcome (ℕ × D)
  pub fsync : D → Outcome (ℕ × D)

module _ {D : Type 0} (disk : DiskDriver D) where
  -- The result code, the buffer after the call, and the device.
  unfoldable pub disk_read : ℕ → ℕ → D → Outcome (ℕ × List ℕ × D)
  disk_read addr count d = do
    (rc, d1) ← disk.lseek addr d
    if rc == minus_one then done (minus_one, [], d1) else (do
      (rc', buf, d2) ← disk.read count d1
      if rc' == count then done (0, buf, d2) else done (minus_one, buf, d2))

  unfoldable pub disk_write : ℕ → List ℕ → D → Outcome (ℕ × D)
  disk_write addr buf d = do
    (rc, d1) ← disk.lseek addr d
    if rc == minus_one then done (minus_one, d1) else (do
      (rc', d2) ← disk.write buf d1
      if rc' == length buf then done (0, d2) else done (minus_one, d2))
