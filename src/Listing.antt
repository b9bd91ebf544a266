-- ===== src/Listing.antt =====
-- `print_file` and `print_fs_contents` of kernel/kernel/kernel.c: the listing of the mounted volume on
-- the console. The heap grows by each `malloc`, whose block is never freed.
pub mod Laws
pub mod Shown
pub mod Entries
pub mod Files
use icix.Prelude.{
  ℕ, zero, suc, ◌+◌, ◌-◌, ◌*◌, ◌/◌, ◌^◌, ◌==◌, leb, if◌then◌else◌, not, ◌||◌, true, false, List, [],
  ◌∷◌, minus_one, add32, get_or,
}
use icix.Outcome.{Outcome, done, aborted, ◌>>=◌}
use icix.Cstring.{strcmp}
use icix.Disk.{DiskDriver}
use icix.Paging.Init.{Vm}
use icix.Paging.Heap.{malloc}
use icix.Printf.Directive.{Arg, int_arg, string_arg, Directive}
use icix.Printf.Format.{Printer, sign_extend, printf}
use icix.Ufs.Layout.{dir_ent_of, dir_ent_size}
use icix.Ufs.Lookup.{name_pointer}
use icix.Ufs.Read.{ufs_read}
use icix.Ufs.State.{Ufs, inode_at}

-- What a listing changes.
pub record Machine (S D : Type 0) : Type 0 where
  pub console : S
  pub device : D
  pub vm : Vm

-- The formats.
abbrev pub newline : List ℕ
newline = 10 ∷ 0 ∷ []

abbrev pub file_heading : List ℕ
file_heading =
    b'c' ∷ b'o' ∷ b'n' ∷ b't' ∷ b'e' ∷ b'n' ∷ b't' ∷ b's' ∷ b' ' ∷ b'o' ∷ b'f' ∷ b' ' ∷ b'f' ∷ b'i'
    ∷ b'l' ∷ b'e' ∷ b' ' ∷ b'(' ∷ b'i' ∷ b'n' ∷ b'o' ∷ b'd' ∷ b'e' ∷ b' ' ∷ b'n' ∷ b'o' ∷ b'.'
    ∷ b' ' ∷ b'%' ∷ b'd' ∷ b')' ∷ b':' ∷ b' ' ∷ 10 ∷ b' ' ∷ b' ' ∷ b' ' ∷ b' ' ∷ 0 ∷ []

abbrev pub directory_heading : List ℕ
directory_heading =
    b'c' ∷ b'o' ∷ b'n' ∷ b't' ∷ b'e' ∷ b'n' ∷ b't' ∷ b's' ∷ b' ' ∷ b'o' ∷ b'f' ∷ b' ' ∷ b'd' ∷ b'i'
    ∷ b'r' ∷ b'e' ∷ b'c' ∷ b't' ∷ b'o' ∷ b'r' ∷ b'y' ∷ b' ' ∷ b'(' ∷ b'i' ∷ b'n' ∷ b'o' ∷ b'd'
    ∷ b'e' ∷ b' ' ∷ b'n' ∷ b'o' ∷ b'.' ∷ b' ' ∷ b'%' ∷ b'd' ∷ b')' ∷ b' ' ∷ b'[' ∷ b'f' ∷ b'm'
    ∷ b't' ∷ b':' ∷ b' ' ∷ b'(' ∷ b'i' ∷ b'n' ∷ b'o' ∷ b'd' ∷ b'e' ∷ b' ' ∷ b'n' ∷ b'o' ∷ b'.'
    ∷ b',' ∷ b' ' ∷ b'n' ∷ b'a' ∷ b'm' ∷ b'e' ∷ b')' ∷ b']' ∷ b':' ∷ b' ' ∷ 10 ∷ b' ' ∷ b' ' ∷ b' '
    ∷ b' ' ∷ 0 ∷ []

abbrev pub entry_format : List ℕ
entry_format = b'(' ∷ b'%' ∷ b'd' ∷ b',' ∷ b' ' ∷ b'%' ∷ b's' ∷ b')' ∷ b',' ∷ b' ' ∷ b' ' ∷ 0 ∷ []

abbrev pub character_format : List ℕ
character_format = b'%' ∷ b'c' ∷ 0 ∷ []

module _ {S D : Type 0} (putchar : ℕ → S → S)
    (put_double : Directive → Printer S → List Arg → Outcome (Printer S × List Arg))
    (disk : DiskDriver D) (nfs : Ufs) where
  -- A call of `printf` whose result is not used.
  abbrev pub say : List ℕ → List Arg → Machine S D → Outcome (Machine S D)
  say format args m = do
    (console, _) ← printf putchar put_double format args m.console
    done (record m { console = console })

  -- `while (ufs_read(fs, inode_num, c, offset++, 1) == 0) printf("%c", *c);`
  unfoldable pub print_bytes : ℕ → ℕ → ℕ → Machine S D → Outcome (Machine S D)
  unfolding ufs_read printf
  print_bytes inode_num zero offset m = aborted
  print_bytes inode_num (suc fuel) offset m = do
    (rc, buf, d1) ← ufs_read disk nfs inode_num offset 1 m.device
    let m1 = record m { device = d1 }
    elim (rc == 0) [
      | true ↦ do
        m2 ← say character_format (int_arg (sign_extend (2 ^ 7) (get_or buf 0 0)) ∷ []) m1
        print_bytes inode_num fuel (add32 offset 1) m2
      | false ↦ done m1
    ]

  -- A byte is read only below the size of the file, so there are no more rounds than that and one.
  unfoldable pub print_file : ℕ → Machine S D → Outcome (Machine S D)
  unfolding print_bytes malloc
  print_file inode_num m = do
    m1 ← say newline [] m
    m2 ← say file_heading (int_arg inode_num ∷ []) m1
    (_, vm) ← malloc 1 m2.vm
    m3 ← print_bytes inode_num ((inode_at nfs inode_num).size + 1) 0 (record m2 { vm = vm })
    say newline [] m3

  -- The first loop over the entries.
  unfoldable pub print_entries : ℕ → ℕ → ℕ → Machine S D → Outcome (Machine S D)
  unfolding ufs_read printf
  print_entries inode_num zero offset m = aborted
  print_entries inode_num (suc fuel) offset m = do
    (rc, buf, d1) ← ufs_read disk nfs inode_num offset dir_ent_size m.device
    let m1 = record m { device = d1 }
    let et = dir_ent_of buf
    elim (not (rc == 0) || et.inum == minus_one) [
      | true ↦ done m1
      | false ↦ do
        m2 ← say entry_format (int_arg et.inum ∷ string_arg (name_pointer et) ∷ []) m1
        print_entries inode_num fuel (add32 offset dir_ent_size) m2
    ]

  -- The second loop, with `list` for the call of `print_fs_contents` on an entry.
  unfoldable pub visit_entries :
      (ℕ → Machine S D → Outcome (Machine S D)) → ℕ → ℕ → ℕ → Machine S D → Outcome (Machine S D)
  unfolding ufs_read print_file
  visit_entries list inode_num zero offset m = aborted
  visit_entries list inode_num (suc fuel) offset m = do
    (rc, buf, d1) ← ufs_read disk nfs inode_num offset dir_ent_size m.device
    let m1 = record m { device = d1 }
    let et = dir_ent_of buf
    elim (not (rc == 0) || et.inum == minus_one) [
      | true ↦ done m1
      | false ↦ do
        m2 ←
            (if get_or et.name 0 0 == b'd'
              then list et.inum m1
              else if strcmp (name_pointer et) (b'.' ∷ 0 ∷ []) == 0
                  || strcmp (name_pointer et) (b'.' ∷ b'.' ∷ 0 ∷ []) == 0
              then done m1
              else print_file et.inum m1)
        visit_entries list inode_num fuel (add32 offset dir_ent_size) m2
    ]

  -- `depth` bounds the calls in one another: a directory below itself whose name begins with d would
  -- be listed without end.
  unfoldable pub print_fs_contents : ℕ → ℕ → Machine S D → Outcome (Machine S D)
  unfolding print_entries visit_entries
  print_fs_contents zero inode_num m = aborted
  print_fs_contents (suc depth) inode_num m = do
    let fuel = (inode_at nfs inode_num).size / dir_ent_size + 1
    m1 ← say newline [] m
    m2 ← say directory_heading (int_arg inode_num ∷ []) m1
    m3 ← print_entries inode_num fuel 0 m2
    m4 ← say newline [] m3
    visit_entries (print_fs_contents depth) inode_num fuel 0 m4
