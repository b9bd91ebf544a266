-- ===== src/Host.antt =====
-- fs/ufs.c, the file system as a host program runs it, over a file descriptor. Its operations are
-- those of kernel/kernel/filesystem.c line for line, with `lseek`, `read`, `write` and `fsync` of the
-- system where the kernel calls its disk driver, `exit(1)` where the kernel aborts, and the C
-- library's `strcpy`, `malloc` and `free`. The system's calls and the heap are parameters. What
-- `ufs_init` prints and allocates is left out.
use icix.Prelude.{ℕ, ◌==◌, if◌then◌else◌, List, [], ◌∷◌, minus_one, Option, none, some}
use icix.Outcome.{Outcome, done, aborted, ◌>>=◌}
use icix.Cstring.{copy_string, strlen}
use icix.Disk.{DiskDriver}
use icix.Ufs.Layout.{DirEnt, ufs_directory, ufs_regular_file}
use icix.Ufs.State.{Ufs}
use icix.Ufs.Init as Init
use icix.Ufs.Lookup as Lookup
use icix.Ufs.Create as Create
use icix.Ufs.Write as Write
use icix.Ufs.Read as Read
use icix.Ufs.Unlink as Unlink

-- The system's calls on files, over its state S. Each takes a descriptor, but `open` a name.
pub record Files (S : Type 0) : Type 0 where
  pub open_file : List ℕ → S → Outcome (ℕ × S)
  pub read : ℕ → ℕ → S → Outcome (ℕ × List ℕ × S)
  pub write : ℕ → List ℕ → S → Outcome (ℕ × S)
  pub lseek : ℕ → ℕ → S → Outcome (ℕ × S)
  pub fsync : ℕ → S → Outcome (ℕ × S)
  pub close : ℕ → S → Outcome (ℕ × S)

-- The C library's heap, over its state H; `malloc` gives 0 if it has no block.
pub record Heap (H : Type 0) : Type 0 where
  pub malloc : ℕ → H → Outcome (ℕ × H)
  pub free : ℕ → H → Outcome H

-- The block that `ufs_creat` reads into. Nothing else happens to the heap before it is freed, and the
-- first read fails, and with it the program, if there is none.
abbrev pub borrowed : {H : Type 0} → Heap H → ℕ → H → Outcome (ℕ × H)
borrowed heap size h = do
  (block, h1) ← heap.malloc size h
  if block == 0 then aborted else (do h2 ← heap.free block h1; done (block, h2))

-- `strcpy` as the C standard has it: the bytes to the NUL, with the NUL.
unfoldable pub strcpy : List ℕ → List ℕ → List ℕ
unfolding copy_string
strcpy dest src = copy_string dest src

-- The names that `main` uses.
abbrev pub disk_name : List ℕ
disk_name = b'i' ∷ b'c' ∷ b'i' ∷ b'x' ∷ b'.' ∷ b'i' ∷ b'n' ∷ b'i' ∷ b't' ∷ b'r' ∷ b'd' ∷ 0 ∷ []

abbrev pub dir : List ℕ
dir = b'd' ∷ b'i' ∷ b'r' ∷ 0 ∷ []

abbrev pub file1 : List ℕ
file1 = b'f' ∷ b'i' ∷ b'l' ∷ b'e' ∷ b'1' ∷ b'.' ∷ b't' ∷ b'x' ∷ b't' ∷ 0 ∷ []

abbrev pub file2 : List ℕ
file2 = b'f' ∷ b'i' ∷ b'l' ∷ b'e' ∷ b'2' ∷ b'.' ∷ b't' ∷ b'x' ∷ b't' ∷ 0 ∷ []

module _ {S : Type 0} (files : Files S) where
  -- The calls on one descriptor, as `Read` and `Write` make them.
  abbrev pub descriptor : ℕ → DiskDriver S
  descriptor fd = record {
    init = λ s. done (0, s);
    read = files.read fd;
    write = files.write fd;
    lseek = files.lseek fd;
    clean = files.close fd;
    fsync = files.fsync fd;
  }

  -- The mounted file system and its descriptor. A new descriptor stands at the start of the file.
  unfoldable pub ufs_init : List ℕ → List ℕ → List ℕ → S → Outcome (ℕ × Ufs × S)
  unfolding Init.ufs_init
  ufs_init fresh_inode_bp fresh_data_bp fname s = do
    (fd, s1) ← files.open_file fname s
    if fd == minus_one then aborted else (do
      (nfs, s2) ← Init.ufs_init (descriptor fd) fresh_inode_bp fresh_data_bp s1
      done (fd, nfs, s2))

  unfoldable pub ufs_clean : ℕ → S → Outcome S
  ufs_clean fd s = do (_, s1) ← files.close fd s; done s1

  unfoldable pub ufs_lookup : ℕ → Ufs → ℕ → List ℕ → S → Outcome (ℕ × S)
  unfolding Lookup.ufs_lookup
  ufs_lookup fd nfs pinum name s = Lookup.ufs_lookup (descriptor fd) nfs pinum name s

  -- After `fsync` the function ends without a `return`: there is no value, none, where the kernel's
  -- copy returns 0, which it does nowhere else.
  unfoldable pub ufs_creat :
      {H : Type 0}
      → Heap H
      → List DirEnt
      → DirEnt
      → ℕ
      → Ufs
      → ℕ
      → ℕ
      → List ℕ
      → S
      → H
      → Outcome (Option ℕ × Ufs × S × H)
  unfolding Create.ufs_creat strcpy
  ufs_creat heap stack_block stack_entry fd nfs pinum type name s h = do
    (rc, nfs1, s1, h1) ←
        Create.ufs_creat (descriptor fd) strcpy stack_block stack_entry (borrowed heap) nfs pinum
          type name s h
    done (if rc == 0 then none else some rc, nfs1, s1, h1)

  unfoldable pub ufs_write : ℕ → Ufs → ℕ → List ℕ → ℕ → ℕ → S → Outcome (ℕ × Ufs × S)
  unfolding Write.ufs_write
  ufs_write fd nfs inum buf offset nbytes s =
      Write.ufs_write (descriptor fd) inum buf nbytes offset nfs s

  unfoldable pub ufs_read : ℕ → Ufs → ℕ → ℕ → ℕ → S → Outcome (ℕ × List ℕ × S)
  unfolding Read.ufs_read
  ufs_read fd nfs inum offset nbytes s = Read.ufs_read (descriptor fd) nfs inum offset nbytes s

  unfoldable pub ufs_unlink : List ℕ → ℕ → Ufs → ℕ → List ℕ → S → Outcome (ℕ × Ufs × S)
  unfolding Unlink.ufs_unlink
  ufs_unlink stack_name fd nfs pinum name s =
      Unlink.ufs_unlink (descriptor fd) stack_name name pinum nfs s

  -- What `main` puts on the volume, with what the stack held at each `ufs_creat`. No result of a
  -- call is looked at.
  unfoldable pub main :
      {H : Type 0}
      → Heap H
      → List ℕ
      → List ℕ
      → (ℕ → List DirEnt × DirEnt)
      → List ℕ
      → List ℕ
      → S
      → H
      → Outcome (ℕ × S × H)
  unfolding ufs_init ufs_creat ufs_write
  main heap fresh_inode_bp fresh_data_bp stack t1 t2 s h = do
    (fd, nfs, s0) ← ufs_init fresh_inode_bp fresh_data_bp disk_name s
    (_, nfs1, s1, h1) ← ufs_creat heap (stack 0).0 (stack 0).1 fd nfs 0 ufs_directory dir s0 h
    (_, nfs2, s2, h2) ←
        ufs_creat heap (stack 1).0 (stack 1).1 fd nfs1 0 ufs_regular_file file1 s1 h1
    (_, nfs3, s3, h3) ←
        ufs_creat heap (stack 2).0 (stack 2).1 fd nfs2 1 ufs_regular_file file2 s2 h2
    (_, nfs4, s4) ← ufs_write fd nfs3 2 t1 0 (strlen t1) s3
    (_, nfs5, s5) ← ufs_write fd nfs4 3 t2 0 (strlen t2) s4
    done (0, s5, h3)
