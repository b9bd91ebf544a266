-- ===== src/Tests/Directories.antt =====
-- A directory of a file system in a memory, and a new file in it.
use icix.Prelude.{
  ℕ, zero, suc, ◌*◌, ◌^◌, ◌==◌, if◌then◌else◌, List, [], ◌∷◌, ◌≡◌, ◌≢◌, refl, arith, inl, replicate,
  minus_one, shl32, some, drop, ◌++◌,
}
use icix.Outcome.{Outcome, done, undefined}
use icix.Cstring.Laws.{text}
use icix.Printf.Directive.{Arg, Directive}
use icix.Printf.Format.{Printer}
use icix.Ufs.Lookup.{name_pointer}
use icix.Ufs.Read.Laws.{file_bytes, PointersFit}
use icix.Listing.{Machine, print_entries}
use icix.Listing.Shown.{shown}
use icix.Listing.Entries.{IsDirectory, entry_of, entry_lines, print_entries-entry_lines}
use icix.Ufs.Layout.{word_of, word_bytes}
use icix.Prelude.{◌-◌, ◌<◌, length}
use icix.Bitmap.{get_bitmap}
use icix.Cstring.{strlen, strcmp, strcpy}
use icix.Frames.{Page}
use icix.Paging.{blank_page}
use icix.Paging.Init.{Vm}
use icix.Paging.Heap.{malloc}
use icix.Cstring.Laws.{AreBytes}
use icix.Disk.Device.{bytes_at, overwrite}
use icix.Ufs.Layout.{Inode, DirEnt, dir_ent_bytes, dir_ent_of}
use icix.Ufs.State.{Ufs}
use icix.Ufs.Search.{find_empty}
use icix.Ufs.Lookup.{ufs_lookup}
use icix.Ufs.Lookup.Laws.{code, entries_at}
use icix.Ufs.Create.{ufs_creat}
use icix.Ufs.Create.RoundTrip.{HoldsName, ufs_lookup-ufs_creat}
use icix.Ufs.Create.Run.{IsRoomy, new_inode}
use icix.Ufs.Create.Names.{ufs_lookup-ufs_creat_kernel}
use icix.Tests.Ram.{
  Ram, ram_driver, ram_readable, ram, short_file, ram_volume, HasPointers-replicate,
  ram_volume-IsVolume, file_allocated,
}

abbrev dot : DirEnt
dot = record { name = b'.' ∷ replicate 27 0; inum = 1 }

-- One entry, and unused ones behind it.
abbrev one_entry : ℕ → ℕ
one_entry = overwrite (λ x. 255) 16384 (dir_ent_bytes dot)

abbrev directory : Inode
directory = record { type = 0; size = 32; direct = 4 ∷ replicate 29 minus_one }

abbrev with_directory : Ufs
with_directory = record ram_volume { inodes = short_file ∷ directory ∷ replicate 30 short_file }

abbrev stack_dent : DirEnt
stack_dent = record { name = replicate 28 9; inum = 0 }

abbrev file_name : List ℕ
file_name = b'a' ∷ 0 ∷ []

directory-IsRoomy : IsRoomy (4 * 4096) (2 ^ 20) one_entry with_directory 1 1 4
unfolding entries_at bytes_at overwrite dir_ent_bytes dir_ent_of
directory-IsRoomy = record {
  range = refl;
  allocated = file_allocated;
  in_table = omega arith;
  is_directory = refl;
  size = refl;
  room = ((omega arith, omega arith), inl (refl, omega arith, (λ e. omega (arith, e), tt), refl));
}

AreBytes-replicate : (n : ℕ) → AreBytes (replicate n 9)
AreBytes-replicate zero = tt
AreBytes-replicate (suc n) = (omega arith, AreBytes-replicate n)

file_name-HoldsName : HoldsName (strcpy stack_dent.name file_name) file_name
unfolding strcpy
file_name-HoldsName = record {
  length_field = refl;
  bytes = (
    omega arith,
    (omega arith, (omega arith, (omega arith, (omega arith, AreBytes-replicate 23)))),
  );
  same_text = refl;
}

file_name_missing :
    code (ufs_lookup ram_driver with_directory 1 file_name (one_entry, 0)) ≡ done minus_one
unfolding ufs_lookup bytes_at overwrite dir_ent_bytes dir_ent_of strcmp get_bitmap shl32
file_name_missing = refl

inode_free : new_inode with_directory ≢ minus_one
unfolding find_empty shl32
inode_free e = omega (arith, e)

-- A heap whose next page has no frame yet.
abbrev heap : Vm
heap = record {
  free_addr = 0x1000;
  dir = record { tables = some (blank_page ∷ blank_page ∷ []) ∷ []; phys_tables = 7 ∷ [] };
  frames = 1 ∷ [];
  nframes = 32;
}

abbrev shorter_heap : Vm
shorter_heap = record {
  free_addr = 0x2000;
  dir = record { tables = some (blank_page ∷ backed ∷ []) ∷ []; phys_tables = 7 ∷ [] };
  frames = 3 ∷ [];
  nframes = 32;
}
  where
    backed : Page
    backed = record blank_page { present = 1; rw_flag = 0; user = 1; frame = 1 }

heap_has_block : malloc 4096 heap ≡ done (0x1000, shorter_heap)
unfolding malloc
heap_has_block = refl

ufs_lookup-ufs_creat_example :
    (nfs' : Ufs) × (d' : Ram) × (ufs_creat ram_driver strcpy [] stack_dent malloc with_directory 1 1
        file_name
        (one_entry, 0)
        heap
      ≡ done (0, nfs', d', shorter_heap))
    × (code (ufs_lookup ram_driver nfs' 1 file_name d') ≡ (
        if strcmp file_name file_name == 0
        then done (new_inode with_directory)
        else code (ufs_lookup ram_driver with_directory 1 file_name (one_entry, 0))))
unfolding strlen
ufs_lookup-ufs_creat_example =
    ufs_lookup-ufs_creat ram_driver ram strcpy [] stack_dent malloc (4 * 4096) 1 1 1 4 0 file_name
      file_name with_directory (one_entry, 0) one_entry heap shorter_heap 0x1000 refl
      ram_volume-IsVolume.metadata (refl, (refl, HasPointers-replicate 30)) (omega arith)
      (omega arith) directory-IsRoomy (λ e. omega (arith, e)) (omega arith)
      (omega arith, (omega arith, tt)) (omega arith, (omega arith, tt)) inode_free
      file_name-HoldsName file_name_missing heap_has_block

abbrev long_name : List ℕ
long_name = b'f' ∷ b'i' ∷ b'l' ∷ b'e' ∷ b'1' ∷ b'.' ∷ b't' ∷ b'x' ∷ b't' ∷ 0 ∷ []

long_name_missing :
    code (ufs_lookup ram_driver with_directory 1 long_name (one_entry, 0)) ≡ done minus_one
unfolding ufs_lookup bytes_at overwrite dir_ent_bytes dir_ent_of strcmp get_bitmap shl32
long_name_missing = refl

-- The stack holds no rest of the name: the new file is not found.
ufs_lookup-ufs_creat_kernel_example :
    (nfs' : Ufs) × (d' : Ram) × (ufs_creat ram_driver strcpy [] stack_dent malloc with_directory 1 1
        long_name
        (one_entry, 0)
        heap
      ≡ done (0, nfs', d', shorter_heap))
    × (code (ufs_lookup ram_driver nfs' 1 long_name d') ≡ (
        if strcmp
            (drop 5 long_name)
            (drop 5 stack_dent.name ++ word_bytes (new_inode with_directory))
          == 0
        then done (new_inode with_directory)
        else done minus_one))
unfolding strlen
ufs_lookup-ufs_creat_kernel_example =
    ufs_lookup-ufs_creat_kernel ram_driver ram [] stack_dent malloc (4 * 4096) 1 1 1 4 0 long_name
      with_directory (one_entry, 0) one_entry heap shorter_heap 0x1000 refl
      ram_volume-IsVolume.metadata (refl, (refl, HasPointers-replicate 30)) (omega arith)
      (omega arith) directory-IsRoomy (λ e. omega (arith, e)) (omega arith) (omega arith) inode_free
      refl long_name_missing heap_has_block

entry_number : (j : ℕ) → j < 1 → (entry_of one_entry directory.direct j).inum < 2 ^ 31
unfolding file_bytes dir_ent_of overwrite dir_ent_bytes word_of word_bytes
entry_number zero h = omega arith
entry_number (suc j) h = absurd (omega (arith, h))

entry_name :
    (j : ℕ)
    → j < 1
    → let name = name_pointer (entry_of one_entry directory.direct j) in
      length (text name) < length name
unfolding file_bytes dir_ent_of overwrite dir_ent_bytes name_pointer word_of word_bytes
entry_name zero h = omega arith
entry_name (suc j) h = absurd (omega (arith, h))

block_fits : PointersFit (2 ^ 20) directory.direct 0 (1 * 32)
block_fits zero p q = omega arith
block_fits (suc i) p q = absurd (omega (arith, q))

one_entry-IsDirectory : IsDirectory (2 ^ 20) one_entry with_directory 1 1
one_entry-IsDirectory = record {
  range = refl;
  allocated = file_allocated;
  size = refl;
  small = omega arith;
  fits = block_fits;
  numbers = entry_number;
  names = entry_name;
}

-- A console that keeps the characters, the last one first.
abbrev log : ℕ → List ℕ → List ℕ
log c cs = c ∷ cs

abbrev no_double : Directive → Printer (List ℕ) → List Arg → Outcome (Printer (List ℕ) × List Arg)
no_double s p args = undefined

abbrev machine : Machine (List ℕ) Ram
machine = record {
  console = [];
  device = (one_entry, 0);
  vm = record {
    free_addr = 0x200000;
    dir = record { tables = []; phys_tables = [] };
    frames = [];
    nframes = 0;
  };
}

print_entries-entry_lines_example :
    (d' : Ram) × (k' : ℕ) × (print_entries log no_double ram_driver with_directory 1 2
        (0 * 32)
        machine
      ≡ done (record machine {
        console = shown log (entry_lines one_entry directory.direct 0 (1 - 0)) [];
        device = d';
      }))
    × ram_readable.Holds d' one_entry k'
print_entries-entry_lines_example =
    print_entries-entry_lines log no_double ram_driver ram_readable with_directory 2 1 1 0 0 machine
      one_entry refl one_entry-IsDirectory (omega arith) (omega arith)
