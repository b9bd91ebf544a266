-- ===== src/Tests/Files.antt =====
-- The file system on small volumes: an inode table of two inodes, 32 blocks, a ramdisk.
use icix.Prelude.{ℕ, ◌+◌, ◌-◌, ◌*◌, ◌^◌, ◌<◌, ◌==◌, if◌then◌else◌, List, [], ◌∷◌, ◌++◌}
use icix.Prelude.{◌≡◌, refl, arith, inl, inr, false, get_or, replicate, minus_one, shl32, zero, suc}
use icix.Outcome.{Outcome, done, aborted, undefined, Post}
use icix.Bitmap.{get_bitmap}
use icix.Cstring.{strcmp, strcpy}
use icix.Disk.{DiskDriver, disk_read}
use icix.Disk.Device.{ReadableDevice}
use icix.Initrd.{InitrdInfo, get_initrd_driver, bytes_from}
use icix.Initrd.Laws.{disk_read-get_initrd_driver}
use icix.Initrd.Device.{initrd_device, InWindow-Holds, capacity-initrd_device}
use icix.Ufs.Layout.{Super, Inode, DirEnt, inode_bytes, inode_of, dir_block_bytes, dir_block_of}
use icix.Ufs.Layout.Codec.{inode_of-inode_bytes, dir_block_of-dir_block_bytes}
use icix.Ufs.State.{Ufs, rounds, is_unallocated}
use icix.Ufs.Search.{find_empty, find_two}
use icix.Ufs.Search.Laws.{IsLeastClear, find_empty-IsLeastClear, find_two-eq-find_empty}
use icix.Ufs.Lookup.{ufs_lookup}
use icix.Ufs.Lookup.Laws.{BlocksFit, code, search_then, listing, ufs_lookup-search}
use icix.Ufs.Read.{ufs_read}
use icix.Ufs.Read.Laws.{file_bytes, PointersFit, ufs_read-file_bytes}
use icix.Ufs.Write.{ufs_write}
use icix.Ufs.Write.Laws.{Writes, ufs_write-Writes}
use icix.Ufs.Create.{ufs_creat}
use icix.Ufs.Create.Laws.{Creates, ufs_creat-Creates}
use icix.Ufs.Commit.{commit_dirty_to_disk}
use icix.Ufs.Commit.Laws.{SameTables, commit_dirty_to_disk-clean}
use icix.Ufs.Unlink.{release_blocks, ufs_unlink}
use icix.Ufs.Unlink.Laws.{is_pointer, get_bitmap-release_blocks, ufs_unlink_not_directory}

abbrev small_super : Super
small_super = record {
  inode_bitmap_addr = 1;
  inode_bitmap_len = 1;
  data_bitmap_addr = 2;
  data_bitmap_len = 1;
  inode_region_addr = 3;
  inode_region_len = 1;
  data_region_addr = 0;
  data_region_len = 32;
  num_inodes = 32;
  num_data = 32;
}

-- The root directory, with three entries in block 1, and a file of ten bytes there too.
abbrev root : Inode
root = record { type = 0; size = 96; direct = 1 ∷ replicate 29 minus_one }

abbrev file : Inode
file = record { type = 1; size = 10; direct = 1 ∷ replicate 29 minus_one }

abbrev volume : Ufs
volume = record {
  s = small_super;
  inode_bp = (2 ^ 31 + 2 ^ 30) ∷ [];
  inode_bp_sz = 1;
  data_bp = 2 ^ 30 ∷ [];
  data_bp_sz = 1;
  inodes = root ∷ file ∷ replicate 30 file;
  dirty_inode_bp = 0 ∷ [];
  dirty_data_bp = 0 ∷ [];
}

abbrev name_field : ℕ → List ℕ
name_field c = c ∷ replicate 27 0

abbrev entries : List DirEnt
entries =
    record { name = name_field b'.'; inum = 0 }
    ∷ record { name = b'.' ∷ b'.' ∷ replicate 26 0; inum = 0 }
    ∷ record { name = name_field b'a'; inum = 1 }
    ∷ []

-- The ramdisk that holds the entries in block 1, and its driver.
abbrev memory : ℕ → ℕ
memory a = get_or (dir_block_bytes entries) (a - 0x1000 - 4096) 0

abbrev ramdisk : DiskDriver InitrdInfo
ramdisk = get_initrd_driver memory

abbrev rewound : InitrdInfo
rewound = record { start_addr = 0x1000; cursor = 0; end_addr = 0x1000 + 3 * 4096 }

abbrev device : ReadableDevice ramdisk
device = initrd_device memory 0x1000 (0x1000 + 3 * 4096) (omega arith) (omega arith)

rewound-Holds : device.Holds rewound (λ x. memory (0x1000 + x)) 0
rewound-Holds =
    InWindow-Holds memory 0x1000 (0x1000 + 3 * 4096) (omega arith) (omega arith) rewound
      (λ x. memory (0x1000 + x)) 0 (refl, refl, refl, refl)

allocated : is_unallocated volume 1 ≡ false
unfolding get_bitmap shl32
allocated = refl

root_allocated : is_unallocated volume 0 ≡ false
unfolding get_bitmap shl32
root_allocated = refl

a_is_not_dot : (strcmp (b'a' ∷ 0 ∷ []) (b'.' ∷ 0 ∷ []) == 0) ≡ false
unfolding strcmp
a_is_not_dot = refl

a_is_not_dots : (strcmp (b'a' ∷ 0 ∷ []) (b'.' ∷ b'.' ∷ 0 ∷ []) == 0) ≡ false
unfolding strcmp
a_is_not_dots = refl

device_capacity : device.capacity ≡ 3 * 4096 - 1
device_capacity =
    capacity-initrd_device memory 0x1000 (0x1000 + 3 * 4096) (omega arith) (omega arith)

pointers_fit : PointersFit device.capacity file.direct 2 7
pointers_fit zero p q = omega (arith, device_capacity)
pointers_fit (suc i) p q = absurd (omega arith)

BlocksFit-zero : (capacity : ℕ) (direct : List ℕ) → BlocksFit capacity direct 0
BlocksFit-zero capacity [] = tt
BlocksFit-zero capacity (p ∷ ps) = (λ h. absurd (omega arith), BlocksFit-zero capacity ps)

ufs_write-Writes_example :
    Post
      (Writes ramdisk 1 (7 ∷ 8 ∷ 9 ∷ []) 3 volume)
      (ufs_write ramdisk 1 (7 ∷ 8 ∷ 9 ∷ []) 3 4 volume rewound)
ufs_write-Writes_example =
    ufs_write-Writes ramdisk 1 (7 ∷ 8 ∷ 9 ∷ []) 3 4 volume rewound
      (omega arith, omega arith, omega arith) (omega arith) (omega arith)

-- A heap of blocks that can still be given out.
abbrev budget : ℕ → ℕ → Outcome (ℕ × ℕ)
budget size zero = aborted
budget size (suc left) = done (0x1000, left)

ufs_creat-Creates_example :
    Post
      (Creates ramdisk strcpy []
        (record { name = []; inum = 0 })
        budget
        (b'b' ∷ 0 ∷ [])
        (find_empty volume.inode_bp (rounds 32))
        volume)
      (ufs_creat ramdisk strcpy []
        (record { name = []; inum = 0 })
        budget
        volume
        0
        1
        (b'b' ∷ 0 ∷ [])
        rewound
        100)
ufs_creat-Creates_example =
    ufs_creat-Creates ramdisk strcpy [] (record { name = []; inum = 0 }) budget volume 0 1
      (b'b' ∷ 0 ∷ []) rewound 100 (omega arith) (omega arith)

commit_dirty_to_disk-clean_example :
    Post
      (λ r.
        SameTables volume r.1
        × (r.0 ≡ 0
            → ((k : ℕ) → k < 32 → get_bitmap r.1.dirty_inode_bp k ≡ 0)
              × ((k : ℕ) → k < 32 → get_bitmap r.1.dirty_data_bp k ≡ 0)))
      (commit_dirty_to_disk ramdisk volume rewound)
commit_dirty_to_disk-clean_example =
    commit_dirty_to_disk-clean ramdisk volume rewound (omega arith) (omega arith) (omega arith)
      (omega arith)

get_bitmap-release_blocks_example :
    get_bitmap (release_blocks (1 ∷ minus_one ∷ []) volume).data_bp 1
    ≡ (if is_pointer 1 (1 ∷ minus_one ∷ []) then 0 else get_bitmap volume.data_bp 1)
get_bitmap-release_blocks_example =
    get_bitmap-release_blocks (1 ∷ minus_one ∷ []) volume 1 (inr (omega arith), (inl refl, tt))
      (omega arith) (omega arith)

ufs_unlink_not_directory_example :
    ufs_unlink ramdisk [] (b'a' ∷ 0 ∷ []) 1 volume rewound ≡ undefined
ufs_unlink_not_directory_example =
    ufs_unlink_not_directory ramdisk [] (b'a' ∷ 0 ∷ []) 1 volume rewound refl allocated
      (λ e. omega (arith, e)) a_is_not_dot a_is_not_dots (omega arith)

find_empty-IsLeastClear_example : IsLeastClear volume.inode_bp 0 32 (find_empty volume.inode_bp 32)
find_empty-IsLeastClear_example = find_empty-IsLeastClear volume.inode_bp 32 (omega arith)

find_two-eq-find_empty_example :
    ((find_two volume.data_bp 32).0 ≡ find_empty volume.data_bp 32)
    × IsLeastClear volume.data_bp
        (find_empty volume.data_bp 32 + 1)
        32
        (find_two volume.data_bp 32).1
find_two-eq-find_empty_example = find_two-eq-find_empty volume.data_bp 32 (omega arith)

inode_of-inode_bytes_example : inode_of (inode_bytes root ++ 1 ∷ []) ≡ root
inode_of-inode_bytes_example = inode_of-inode_bytes root (1 ∷ []) (omega arith) (ground arith)

dir_block_of-dir_block_bytes_example :
    dir_block_of 1 (dir_block_bytes (record { name = name_field b'a'; inum = 1 } ∷ []) ++ 5 ∷ [])
    ≡ record { name = name_field b'a'; inum = 1 } ∷ []
dir_block_of-dir_block_bytes_example =
    dir_block_of-dir_block_bytes (record { name = name_field b'a'; inum = 1 } ∷ []) (5 ∷ []) 1
      (omega arith) ((omega arith, omega arith), tt)

disk_read-get_initrd_driver_example :
    disk_read ramdisk 4096 2 rewound
    ≡ done (
      0,
      bytes_from memory 0x2000 2,
      record { start_addr = 0x1000; cursor = 4098; end_addr = 0x4000 },
    )
disk_read-get_initrd_driver_example =
    disk_read-get_initrd_driver memory rewound 4096 2 (omega arith) (omega arith) (omega arith)

ufs_lookup-search_example :
    code (ufs_lookup ramdisk volume 0 (b'a' ∷ 0 ∷ []) rewound)
    ≡ search_then
        (b'a' ∷ 0 ∷ [])
        (listing (λ x. memory (0x1000 + x)) root.direct 3)
        (done minus_one)
ufs_lookup-search_example =
    ufs_lookup-search ramdisk device (b'a' ∷ 0 ∷ []) volume 0 0 rewound (λ x. memory (0x1000 + x))
      rewound-Holds refl root_allocated refl (omega arith) (omega arith)
      (λ h. omega (arith, device_capacity), BlocksFit-zero device.capacity (replicate 29 minus_one))

ufs_read-file_bytes_example :
    (d' : InitrdInfo) × (k' : ℕ) × (ufs_read ramdisk volume 1 2 5 rewound
      ≡ done (0, file_bytes (λ x. memory (0x1000 + x)) file.direct 2 5, d'))
    × device.Holds d' (λ x. memory (0x1000 + x)) k'
ufs_read-file_bytes_example =
    ufs_read-file_bytes ramdisk device volume 1 2 5 0 rewound (λ x. memory (0x1000 + x))
      rewound-Holds refl allocated (omega arith) (omega arith) (omega arith)
      (inl (λ e. omega (arith, e))) pointers_fit
