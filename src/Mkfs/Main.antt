-- ===== src/Mkfs/Main.antt =====
-- The options of fs/mkfs.c, the file that they lead to, and the picture of its layout. `getopt` gives
-- the letters with their arguments, and `atoi` reads a number; both are the host's.
use icix.Prelude.{
  ℕ, ◌+◌, ◌^◌, ◌<◌, ◌==◌, if◌then◌else◌, ◌||◌, is_neg, List, [], ◌∷◌, ◌++◌, ◌≡◌, arith, Bool, true,
  false, length, length-append, length-replicate, replicate, Option, none, some,
}
use icix.Outcome.{Outcome, done, aborted, ◌>>=◌}
use icix.Ufs.Layout.{Super, Inode, DirEnt}
use icix.Ufs.State.{rounds}
use icix.Mkfs.{Pwrite, layout, total_blocks, mkfs}

pub record Options : Type 0 where
  pub image_file : Option (List ℕ)
  pub num_inodes : ℕ
  pub num_data : ℕ
  pub visual : Bool

abbrev pub default_options : Options
default_options = record { image_file = none; num_inodes = 32; num_data = 32; visual = false }

-- One letter with its argument; none if it ends in `usage`.
abbrev pub read_option : (List ℕ → ℕ) → ℕ → List ℕ → Options → Option Options
read_option atoi ch optarg o =
    if ch == b'i'
    then some (record o { num_inodes = atoi optarg })
    else if ch == b'd'
    then some (record o { num_data = atoi optarg })
    else if ch == b'f'
    then some (record o { image_file = some optarg })
    else if ch == b'v'
    then some (record o { visual = true })
    else none

abbrev pub unless_usage : Option Options → (Options → Option Options) → Option Options
unless_usage none f = none
unless_usage (some o) f = f o

-- The loop over the letters.
unfoldable pub read_options : (List ℕ → ℕ) → List (ℕ × List ℕ) → Options → Option Options
read_options atoi [] o = some o
read_options atoi ((ch, optarg) ∷ rest) o =
    unless_usage (read_option atoi ch optarg o) (λ next. read_options atoi rest next)

-- The letters of the picture, one for each block.
unfoldable pub picture : Super → List ℕ
picture s =
    b'S'
    ∷ (replicate {A = ℕ} (rounds s.inode_bitmap_len) b'i'
        ++ (replicate {A = ℕ} (rounds s.data_bitmap_len) b'd'
            ++ (replicate {A = ℕ} (rounds s.inode_region_len) b'I'
                ++ replicate {A = ℕ} (rounds s.data_region_len) b'D')))

-- What a run comes to: the usage, or the file, its contents and the picture if it is asked for.
pub data Run : Type 0 where
  usage : Run
  built : List ℕ → List Pwrite → Option (List ℕ) → Run

abbrev pub picture_for : Bool → Super → Option (List ℕ)
picture_for true s = some (picture s)
picture_for false s = none

-- `mkfs` takes numbers; a size that is negative as an `int` fails the assertions at its start too.
abbrev pub not_negative : Options → Outcome Options
not_negative o = if is_neg o.num_inodes || is_neg o.num_data then aborted else done o

module _ (strcpy : List ℕ → List ℕ → List ℕ) (stack_inodes : List Inode)
    (stack_entries : List DirEnt) where
  abbrev pub build : Option (List ℕ) → Options → Outcome Run
  build none options = done usage
  build (some image_file) options = do
    o ← not_negative options
    writes ← mkfs strcpy o.num_inodes o.num_data stack_inodes stack_entries
    done (built image_file writes (picture_for o.visual (layout o.num_inodes o.num_data)))

  abbrev pub run_options : Option Options → Outcome Run
  run_options none = done usage
  run_options (some o) = build o.image_file o

  unfoldable pub mkfs_main : (List ℕ → ℕ) → List (ℕ × List ℕ) → Outcome Run
  unfolding read_options mkfs picture
  mkfs_main atoi letters = run_options (read_options atoi letters default_options)

-- For numbers that are not negative as an `int`, the picture has a letter for each block.
pub length-picture :
    (s : Super)
    → s.inode_bitmap_len < 2 ^ 31
    → s.data_bitmap_len < 2 ^ 31
    → s.inode_region_len < 2 ^ 31
    → s.data_region_len < 2 ^ 31
    → 1 + s.inode_bitmap_len + s.data_bitmap_len + s.inode_region_len + s.data_region_len < 2 ^ 32
    → length (picture s) ≡ total_blocks s
unfolding picture
length-picture s h1 h2 h3 h4 h5 =
    let a = replicate {A = ℕ} (rounds s.inode_bitmap_len) b'i' in
    let b = replicate {A = ℕ} (rounds s.data_bitmap_len) b'd' in
    let c = replicate {A = ℕ} (rounds s.inode_region_len) b'I' in
    let d = replicate {A = ℕ} (rounds s.data_region_len) b'D' in
    let r1 : rounds s.inode_bitmap_len ≡ s.inode_bitmap_len = in_range s.inode_bitmap_len h1 in
    let r2 : rounds s.data_bitmap_len ≡ s.data_bitmap_len = in_range s.data_bitmap_len h2 in
    let r3 : rounds s.inode_region_len ≡ s.inode_region_len = in_range s.inode_region_len h3 in
    let r4 : rounds s.data_region_len ≡ s.data_region_len = in_range s.data_region_len h4 in
    omega (
      arith,
      length-append a (b ++ (c ++ d)),
      length-append b (c ++ d),
      length-append c d,
      length-replicate {A = ℕ} (rounds s.inode_bitmap_len) b'i',
      length-replicate {A = ℕ} (rounds s.data_bitmap_len) b'd',
      length-replicate {A = ℕ} (rounds s.inode_region_len) b'I',
      length-replicate {A = ℕ} (rounds s.data_region_len) b'D',
      r1,
      r2,
      r3,
      r4,
      h5,
    )
  where
    in_range : (n : ℕ) → n < 2 ^ 31 → rounds n ≡ n
    in_range n h = ground (arith, h)
