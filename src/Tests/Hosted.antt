-- ===== src/Tests/Hosted.antt =====
-- The host program on a file of the system that is a list of bytes with a position.
use icix.Mkfs.Main.{mkfs_main, usage}
use icix.Prelude.{ℕ, ◌+◌, List, [], ◌∷◌, ◌++◌, ◌≡◌, refl, length, take, drop, minus_one, replicate}
use icix.Outcome.{done, aborted}
use icix.Ufs.Layout.{DirEnt}
use icix.Host.{Files, ufs_creat}
use icix.Host as Host

abbrev File : Type 0
File = List ℕ × ℕ

-- One file, under descriptor 3.
abbrev one_file : Files File
one_file = record {
  open_file = λ name s. done (3, s);
  read = λ fd n s.
      let bytes = take n (drop s.1 s.0) in done (length bytes, bytes, (s.0, s.1 + length bytes));
  write = λ fd bytes s. done (
    length bytes,
    ((take s.1 s.0 ++ bytes) ++ drop (s.1 + length bytes) s.0, s.1 + length bytes),
  );
  lseek = λ fd addr s. done (addr, (s.0, addr));
  fsync = λ fd s. done (0, s);
  close = λ fd s. done (0, s);
}

abbrev no_file : Files File
no_file = record one_file { open_file = λ name s. done (minus_one, s) }

abbrev unset : DirEnt
unset = record { name = replicate 28 7; inum = 9 }

-- `perror` and `exit(1)` when the volume cannot be opened.
open_fails : Host.ufs_init no_file [] [] Host.disk_name ([], 0) ≡ aborted
unfolding Host.ufs_init
open_fails = refl

-- An unknown letter, and a run without -f, end in the usage message.
unknown_letter :
    mkfs_main (λ a b. a) [] [] (λ s. 40) ((b'f', b'd' ∷ []) ∷ (b'x', []) ∷ []) ≡ done usage
unfolding mkfs_main
unknown_letter = refl

no_image_file : mkfs_main (λ a b. a) [] [] (λ s. 40) ((b'i', b'4' ∷ []) ∷ []) ≡ done usage
unfolding mkfs_main
no_image_file = refl

-- The number of inodes from -i is too small for the assertion.
too_few : mkfs_main (λ a b. a) [] [] (λ s. 4) ((b'f', b'd' ∷ []) ∷ (b'i', b'4' ∷ []) ∷ []) ≡ aborted
unfolding mkfs_main
too_few = refl
