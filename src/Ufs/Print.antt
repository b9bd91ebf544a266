-- ===== src/Ufs/Print.antt =====
-- The debug output of kernel/kernel/filesystem.c: `print_superblock`, `print_bitmaps` and
-- `print_inodes`, on any console, and `puts` of libc/stdio/puts.c.
use icix.Prelude.{
  ℕ, zero, suc, ◌+◌, ◌==◌, ltb, true, false, List, [], ◌∷◌, ◌++◌, length, mul32, get_or,
}
use icix.Outcome.{Outcome, done, undefined, ◌>>=◌}
use icix.Bitmap.{get_bitmap}
use icix.Printf.Directive.{Arg, int_arg, string_arg, Directive}
use icix.Printf.Format.{Printer, printf}
use icix.Ufs.Layout.{Super, direct_ptrs}
use icix.Ufs.State.{Ufs, inode_at, rounds}

-- The formats.
abbrev pub line : List ℕ
line =
    b'=' ∷ b'=' ∷ b'=' ∷ b'=' ∷ b'=' ∷ b'=' ∷ b'=' ∷ b'=' ∷ b'=' ∷ b'=' ∷ b'=' ∷ b'=' ∷ b'=' ∷ b'='
    ∷ b'=' ∷ b'=' ∷ b'=' ∷ b'=' ∷ b'=' ∷ b'=' ∷ b'=' ∷ b'=' ∷ b'=' ∷ 10 ∷ 0 ∷ []

abbrev pub super_title : List ℕ
super_title =
    b's' ∷ b'u' ∷ b'p' ∷ b'e' ∷ b'r' ∷ b'b' ∷ b'l' ∷ b'o' ∷ b'c' ∷ b'k' ∷ b' ' ∷ b'p' ∷ b'r' ∷ b'i'
    ∷ b'n' ∷ b't' ∷ 10 ∷ 0 ∷ []

abbrev pub inode_bitmap_title : List ℕ
inode_bitmap_title =
    b'i' ∷ b'n' ∷ b'o' ∷ b'd' ∷ b'e' ∷ b' ' ∷ b'b' ∷ b'i' ∷ b't' ∷ b'm' ∷ b'a' ∷ b'p' ∷ b':' ∷ b' '
    ∷ 0 ∷ []

abbrev pub data_bitmap_title : List ℕ
data_bitmap_title =
    10 ∷ b'd' ∷ b'a' ∷ b't' ∷ b'a' ∷ b' ' ∷ b'b' ∷ b'i' ∷ b't' ∷ b'm' ∷ b'a' ∷ b'p' ∷ b':' ∷ b' '
    ∷ 0 ∷ []

abbrev pub bit_format : List ℕ
bit_format = b'%' ∷ b'd' ∷ 0 ∷ []

abbrev pub inodes_title : List ℕ
inodes_title =
    b'P' ∷ b'r' ∷ b'i' ∷ b'n' ∷ b't' ∷ b'i' ∷ b'n' ∷ b'g' ∷ b' ' ∷ b'a' ∷ b'l' ∷ b'l' ∷ b' ' ∷ b'i'
    ∷ b'n' ∷ b'o' ∷ b'd' ∷ b'e' ∷ b's' ∷ b'.' ∷ b'.' ∷ b'.' ∷ 10 ∷ 0 ∷ []

abbrev pub inode_title : List ℕ
inode_title =
    b'-' ∷ b'-' ∷ b'-' ∷ b'-' ∷ b'-' ∷ b'F' ∷ b'o' ∷ b'u' ∷ b'n' ∷ b'd' ∷ b' ' ∷ b'i' ∷ b'n' ∷ b'o'
    ∷ b'd' ∷ b'e' ∷ b' ' ∷ b'%' ∷ b'd' ∷ b'-' ∷ b'-' ∷ b'-' ∷ b'-' ∷ b'-' ∷ 10 ∷ 0 ∷ []

abbrev pub type_format : List ℕ
type_format = b't' ∷ b'y' ∷ b'p' ∷ b'e' ∷ b' ' ∷ b'%' ∷ b'd' ∷ 10 ∷ 0 ∷ []

abbrev pub size_format : List ℕ
size_format = b's' ∷ b'i' ∷ b'z' ∷ b'e' ∷ b' ' ∷ b'%' ∷ b'd' ∷ 10 ∷ 0 ∷ []

abbrev pub pointer_format : List ℕ
pointer_format =
    b'd' ∷ b'p' ∷ b't' ∷ b'r' ∷ b' ' ∷ b'%' ∷ b'd' ∷ b':' ∷ b' ' ∷ b'%' ∷ b'u' ∷ 10 ∷ 0 ∷ []

abbrev pub puts_format : List ℕ
puts_format = b'%' ∷ b's' ∷ 10 ∷ 0 ∷ []

-- The name of a field in front of ` %d` and a newline.
abbrev field_format : List ℕ → List ℕ
field_format name = name ++ b' ' ∷ b'%' ∷ b'd' ∷ 10 ∷ 0 ∷ []

module _ {S : Type 0} (putchar : ℕ → S → S)
    (put_double : Directive → Printer S → List Arg → Outcome (Printer S × List Arg)) where
  abbrev pub shown : List ℕ → List Arg → S → Outcome S
  shown format args s = do (s1, _) ← printf putchar put_double format args s; done s1

  unfoldable pub puts : List ℕ → S → Outcome (S × ℕ)
  unfolding printf
  puts string s = printf putchar put_double puts_format (string_arg string ∷ []) s

  unfoldable pub print_superblock : Super → S → Outcome S
  unfolding printf
  print_superblock s c0 = do
    c1 ← shown line [] c0
    c2 ← shown super_title [] c1
    c3 ←
        shown
          (field_format (
            b'i' ∷ b'n' ∷ b'o' ∷ b'd' ∷ b'e' ∷ b'_' ∷ b'b' ∷ b'i' ∷ b't' ∷ b'm' ∷ b'a' ∷ b'p' ∷ b'_'
            ∷ b'a' ∷ b'd' ∷ b'd' ∷ b'r' ∷ []))
          (int_arg s.inode_bitmap_addr ∷ []) c2
    c4 ←
        shown
          (field_format (
            b'i' ∷ b'n' ∷ b'o' ∷ b'd' ∷ b'e' ∷ b'_' ∷ b'b' ∷ b'i' ∷ b't' ∷ b'm' ∷ b'a' ∷ b'p' ∷ b'_'
            ∷ b'l' ∷ b'e' ∷ b'n' ∷ []))
          (int_arg s.inode_bitmap_len ∷ []) c3
    c5 ←
        shown
          (field_format (
            b'd' ∷ b'a' ∷ b't' ∷ b'a' ∷ b'_' ∷ b'b' ∷ b'i' ∷ b't' ∷ b'm' ∷ b'a' ∷ b'p' ∷ b'_' ∷ b'a'
            ∷ b'd' ∷ b'd' ∷ b'r' ∷ []))
          (int_arg s.data_bitmap_addr ∷ []) c4
    c6 ←
        shown
          (field_format (
            b'd' ∷ b'a' ∷ b't' ∷ b'a' ∷ b'_' ∷ b'b' ∷ b'i' ∷ b't' ∷ b'm' ∷ b'a' ∷ b'p' ∷ b'_' ∷ b'l'
            ∷ b'e' ∷ b'n' ∷ []))
          (int_arg s.data_bitmap_len ∷ []) c5
    c7 ←
        shown
          (field_format (
            b'i' ∷ b'n' ∷ b'o' ∷ b'd' ∷ b'e' ∷ b'_' ∷ b'r' ∷ b'e' ∷ b'g' ∷ b'i' ∷ b'o' ∷ b'n' ∷ b'_'
            ∷ b'a' ∷ b'd' ∷ b'd' ∷ b'r' ∷ []))
          (int_arg s.inode_region_addr ∷ []) c6
    c8 ←
        shown
          (field_format (
            b'i' ∷ b'n' ∷ b'o' ∷ b'd' ∷ b'e' ∷ b'_' ∷ b'r' ∷ b'e' ∷ b'g' ∷ b'i' ∷ b'o' ∷ b'n' ∷ b'_'
            ∷ b'l' ∷ b'e' ∷ b'n' ∷ []))
          (int_arg s.inode_region_len ∷ []) c7
    c9 ←
        shown
          (field_format (
            b'd' ∷ b'a' ∷ b't' ∷ b'a' ∷ b'_' ∷ b'r' ∷ b'e' ∷ b'g' ∷ b'i' ∷ b'o' ∷ b'n' ∷ b'_' ∷ b'a'
            ∷ b'd' ∷ b'd' ∷ b'r' ∷ []))
          (int_arg s.data_region_addr ∷ []) c8
    c10 ←
        shown
          (field_format (
            b'd' ∷ b'a' ∷ b't' ∷ b'a' ∷ b'_' ∷ b'r' ∷ b'e' ∷ b'g' ∷ b'i' ∷ b'o' ∷ b'n' ∷ b'_' ∷ b'l'
            ∷ b'e' ∷ b'n' ∷ []))
          (int_arg s.data_region_len ∷ []) c9
    c11 ←
        shown
          (field_format (b'n' ∷ b'u' ∷ b'm' ∷ b'_' ∷ b'i' ∷ b'n' ∷ b'o' ∷ b'd' ∷ b'e' ∷ b's' ∷ []))
          (int_arg s.num_inodes ∷ []) c10
    c12 ←
        shown (field_format (b'n' ∷ b'u' ∷ b'm' ∷ b'_' ∷ b'd' ∷ b'a' ∷ b't' ∷ b'a' ∷ []))
          (int_arg s.num_data ∷ []) c11
    shown line [] c12

  -- The bits of a bitmap from i on, with `left` to go.
  unfoldable pub print_bits : List ℕ → ℕ → ℕ → S → Outcome S
  unfolding printf get_bitmap
  print_bits b zero i s = done s
  print_bits b (suc left) i s = do
    s1 ← shown bit_format (int_arg (get_bitmap b i) ∷ []) s
    print_bits b left (i + 1) s1

  unfoldable pub print_bitmaps : Ufs → S → Outcome S
  unfolding printf print_bits puts
  print_bitmaps nfs s0 = do
    s1 ← shown line [] s0
    s2 ← shown inode_bitmap_title [] s1
    s3 ← print_bits nfs.inode_bp (rounds (mul32 nfs.inode_bp_sz 32)) 0 s2
    s4 ← shown data_bitmap_title [] s3
    s5 ← print_bits nfs.data_bp (rounds (mul32 nfs.data_bp_sz 32)) 0 s4
    (s6, _) ← puts (0 ∷ []) s5
    shown line [] s6

  unfoldable pub print_pointers : List ℕ → ℕ → ℕ → S → Outcome S
  unfolding printf
  print_pointers direct zero j s = done s
  print_pointers direct (suc left) j s = do
    s1 ← shown pointer_format (int_arg j ∷ int_arg (get_or direct j 0) ∷ []) s
    print_pointers direct left (j + 1) s1

  -- The loop goes over all bits of the bitmap; behind the table an inode is out of bounds.
  unfoldable pub print_found : Ufs → ℕ → ℕ → S → Outcome S
  unfolding printf get_bitmap print_pointers
  print_found nfs zero i s = done s
  print_found nfs (suc left) i s = elim (get_bitmap nfs.inode_bp i == 0) [
    | true ↦ print_found nfs left (i + 1) s
    | false ↦ elim (ltb i (length nfs.inodes)) [
      | false ↦ undefined
      | true ↦ do
        s1 ← shown inode_title (int_arg i ∷ []) s
        s2 ← shown type_format (int_arg (inode_at nfs i).type ∷ []) s1
        s3 ← shown size_format (int_arg (inode_at nfs i).size ∷ []) s2
        s4 ← print_pointers (inode_at nfs i).direct direct_ptrs 0 s3
        print_found nfs left (i + 1) s4
    ]
  ]

  unfoldable pub print_inodes : Ufs → S → Outcome S
  unfolding printf print_found
  print_inodes nfs s0 = do
    s1 ← shown line [] s0
    s2 ← shown inodes_title [] s1
    s3 ← print_found nfs (rounds (mul32 nfs.inode_bp_sz 32)) 0 s2
    shown line [] s3
