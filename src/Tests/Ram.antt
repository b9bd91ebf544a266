-- ===== src/Tests/Ram.antt =====
-- A memory that can be written, and a volume on it.
use icix.Prelude.{
  ℕ, zero, suc, ◌+◌, ◌*◌, ◌^◌, [], ◌∷◌, ◌≡◌, refl, arith, false, length, replicate, minus_one,
  shl32,
}
use icix.Outcome.{done}
use icix.Bitmap.{get_bitmap}
use icix.Disk.{DiskDriver}
use icix.Disk.Device.{ReadableDevice, WritableDevice, bytes_at, overwrite}
use icix.Ufs.Layout.{Inode}
use icix.Ufs.State.{Ufs, is_unallocated}
use icix.Ufs.Commit.Device.{HasPointers}
use icix.Ufs.Write.RoundTrip.{IsVolume}

-- Bytes and a cursor.
abbrev pub Ram : Type 0
Ram = (ℕ → ℕ) × ℕ

abbrev pub ram_driver : DiskDriver Ram
ram_driver = record {
  init = λ d. done (0, d);
  read = λ n d. done (n, bytes_at d.0 d.1 n, (d.0, d.1 + n));
  write = λ buf d. done (length buf, (overwrite d.0 d.1 buf, d.1 + length buf));
  lseek = λ a d. done (0, (d.0, a));
  clean = λ d. done (0, d);
  fsync = λ d. done (0, d);
}

abbrev pub ram_readable : ReadableDevice ram_driver
ram_readable = record {
  capacity = 2 ^ 20;
  small = omega arith;
  Holds = λ d content k. d ≡ (content, k);
  lseek_lem = λ d content k a h fits. ((d.0, a), refl, λ i. ((h i).0, a));
  read_lem = λ d content k n h pos fits. (
    (d.0, d.1 + n),
    (λ i. done (n, bytes_at (h i).0 (h i).1 n, (d.0, d.1 + n))),
    λ i. ((h i).0, (h i).1 + n),
  );
}

abbrev pub ram : WritableDevice ram_driver
ram = record {
  readable = ram_readable;
  write_lem = λ d content k buf h fits. (
    (overwrite d.0 d.1 buf, d.1 + length buf),
    refl,
    λ i. (overwrite (h i).0 (h i).1 buf, (h i).1 + length buf),
  );
  fsync_lem = λ d content k h. (0, d, refl, h);
}

abbrev pub short_file : Inode
short_file = record { type = 1; size = 10; direct = replicate 30 minus_one }

abbrev pub ram_volume : Ufs
ram_volume = record {
  s = record {
    inode_bitmap_addr = 1;
    inode_bitmap_len = 1;
    data_bitmap_addr = 2;
    data_bitmap_len = 1;
    inode_region_addr = 3;
    inode_region_len = 1;
    data_region_addr = 4;
    data_region_len = 32;
    num_inodes = 32;
    num_data = 32;
  };
  inode_bp = (2 ^ 31 + 2 ^ 30) ∷ [];
  inode_bp_sz = 1;
  data_bp = 2 ^ 31 ∷ [];
  data_bp_sz = 1;
  inodes = replicate 32 short_file;
  dirty_inode_bp = 0 ∷ [];
  dirty_data_bp = 0 ∷ [];
}

pub HasPointers-replicate : (n : ℕ) → HasPointers (replicate n short_file)
HasPointers-replicate zero = tt
HasPointers-replicate (suc n) = (refl, HasPointers-replicate n)

pub ram_volume-IsVolume : IsVolume (4 * 4096) (2 ^ 20) ram_volume
ram_volume-IsVolume = record {
  metadata = record {
    inode_bitmap = omega arith;
    inode_region = omega arith;
    data_bitmap = omega arith;
    few_inodes = omega arith;
    few_data = omega arith;
  };
  pointers = HasPointers-replicate 32;
  low = omega arith;
  high = omega arith;
}

pub file_allocated : is_unallocated ram_volume 1 ≡ false
unfolding get_bitmap shl32
file_allocated = refl
