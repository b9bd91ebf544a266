-- ===== src/Ufs/Init/Image.antt =====
-- The image that `mkfs` writes, region by region.
use mathlib.Core.Path.{sym, subst}
use mathlib.Core.List.{append-nil}
use icix.Prelude.{
  ℕ, zero, suc, ◌+◌, ◌-◌, ◌*◌, ◌^◌, ◌≤◌, ◌<◌, if◌then◌else◌, ltb, ◌||◌, List, [], ◌∷◌, ◌++◌, ◌≡◌,
  ◌∙◌, refl, ap, arith, inl, length, length-append, length-replicate, take, drop, take-append,
  replicate, minus_one, true, false, mul32,
}
use icix.Outcome.{Outcome, done, aborted, undefined}
use icix.Disk.Device.{
  bytes_at-add, bytes_at, length-bytes_at, overwrite, overwrite-outside, bytes_at-ap,
  bytes_at-overwrite,
}
use icix.Mkfs.{
  layout, super_bytes, total_blocks, Pwrite, zero_blocks, first_allocated, table_bytes,
  root_directory, mkfs,
}
use icix.Mkfs.Laws.{IsLayout, layout-IsLayout}
use icix.Ufs.Layout.{
  Super, Inode, DirEnt, words_of, word_bytes, words_bytes, inode_bytes, dir_block_bytes,
}
use icix.Ufs.Layout.Codec.{AreWords, words_of-words_bytes}
use icix.Prelude.{Bool}
use icix.Ufs.State.{rounds}
use icix.Ufs.Commit.Device.{length-words_bytes, length-inode_bytes}

-- The bytes that a sequence of `pwrite` calls leaves.
abbrev pub written : (ℕ → ℕ) → List Pwrite → ℕ → ℕ
written content [] = content
written content ((buf, at) ∷ ws) = written (overwrite content at buf) ws

written-append :
    (content : ℕ → ℕ) (us ws : List Pwrite)
    → written content (us ++ ws) ≡ written (written content us) ws
written-append content [] ws = refl
written-append content ((buf, at) ∷ us) ws = written-append (overwrite content at buf) us ws

written-zero_blocks :
    (left i : ℕ) (content : ℕ → ℕ) (x : ℕ)
    → x < i * 4096
    → (i + left) * 4096 ≤ 2 ^ 32
    → written content (zero_blocks left i) x ≡ content x
unfolding zero_blocks
written-zero_blocks zero i content x h fits = refl
written-zero_blocks (suc left) i content x h fits =
    written-zero_blocks left (i + 1) _ x (omega (arith, h)) (omega (arith, fits))
    ∙ overwrite-outside content (mul32 i 4096) _ x (inl (omega (arith, h, fits)))

-- Bytes in front of a write are what they were.
bytes_at-before :
    (content : ℕ → ℕ) (at : ℕ) (buf : List ℕ) (a n : ℕ)
    → a + n ≤ at
    → bytes_at (overwrite content at buf) a n ≡ bytes_at content a n
bytes_at-before content at buf a n h =
    bytes_at-ap content (overwrite content at buf) a n
      (λ x p q. overwrite-outside content at buf x (inl (omega arith)))

-- The front of a text that was written.
bytes_at-front :
    (content : ℕ → ℕ) (a : ℕ) (front back : List ℕ)
    → bytes_at content a (length (front ++ back)) ≡ front ++ back
    → bytes_at content a (length front) ≡ front
bytes_at-front content a front back e =
    let n = length front in
    let parts : bytes_at content a n ++ bytes_at content (a + n) (length back) ≡ front ++ back =
      sym (bytes_at-add content a n (length back))
      ∙ ap (bytes_at content a) (sym (length-append front back))
      ∙ e in
    sym (
      take-append (bytes_at content a n) (bytes_at content (a + n) (length back)) n
        (length-bytes_at content a n))
    ∙ ap (take n) parts
    ∙ take-append front back n refl

words_bytes-append : (us ws : List ℕ) → words_bytes (us ++ ws) ≡ words_bytes us ++ words_bytes ws
unfolding words_bytes word_bytes
words_bytes-append [] ws = refl
words_bytes-append (u ∷ us) ws = ap (λ t. word_bytes u ++ t) (words_bytes-append us ws)

AreWords-replicate : (n : ℕ) → AreWords (replicate n 0)
AreWords-replicate zero = tt
AreWords-replicate (suc n) = (omega arith, AreWords-replicate n)

AreWords-first : (n : ℕ) → AreWords (2 ^ 31 ∷ replicate n 0)
AreWords-first n = (omega arith, AreWords-replicate n)

abbrev zeros : ℕ → List ℕ
zeros n = replicate n 0

replicate-add : (n m : ℕ) → zeros (n + m) ≡ zeros n ++ zeros m
replicate-add zero m = ap (λ k. zeros k) (omega arith)
replicate-add (suc n) m =
    ap (λ k. zeros k) {x = suc n + m} {y = suc (n + m)} (omega arith)
    ∙ ap (λ t. 0 ∷ t) (replicate-add n m)

-- A bitmap of n words with the first position allocated.
abbrev pub one_allocated : ℕ → List ℕ
one_allocated n = 2 ^ 31 ∷ zeros (n - 1)

-- The first n words of the bitmap that `mkfs` writes.
pub words_of-first_allocated :
    (content : ℕ → ℕ) (a m n : ℕ)
    → 0 < n
    → n ≤ suc m
    → bytes_at content a (length (words_bytes (2 ^ 31 ∷ zeros m))) ≡ words_bytes (2 ^ 31 ∷ zeros m)
    → words_of n (bytes_at content a (n * 4)) ≡ one_allocated n
words_of-first_allocated content a m n pos le e =
    let front = words_bytes (one_allocated n) in
    let back = words_bytes (zeros (suc m - n)) in
    let whole : words_bytes (2 ^ 31 ∷ zeros m) ≡ front ++ back =
      ap (λ k. words_bytes (2 ^ 31 ∷ zeros k)) {x = m} {y = n - 1 + (suc m - n)} (omega arith)
      ∙ ap (λ t. words_bytes (2 ^ 31 ∷ t)) (replicate-add (n - 1) (suc m - n))
      ∙ words_bytes-append (one_allocated n) (zeros (suc m - n)) in
    let count : length (one_allocated n) ≡ n = omega (arith, length-replicate {A = ℕ} (n - 1) 0) in
    let size : length front ≡ n * 4 = omega (arith, length-words_bytes (one_allocated n), count) in
    let read : bytes_at content a (n * 4) ≡ front =
      ap (bytes_at content a) (sym size)
      ∙ bytes_at-front content a front back
          (subst (λ t. bytes_at content a (length t) ≡ t) whole e) in
    ap (words_of n) (read ∙ sym (append-nil front))
    ∙ words_of-words_bytes (one_allocated n) [] n count (AreWords-first (n - 1))

-- What `ufs_init` reads of an image.
pub record IsFormatted (s : Super) (root : Inode) (content : ℕ → ℕ) : Type 0 where
  pub super_block : bytes_at content 0 40 ≡ super_bytes s
  pub inode_bits :
      bytes_at content (s.inode_bitmap_addr * 4096) (length (words_bytes first_allocated))
      ≡ words_bytes first_allocated
  pub data_bits :
      bytes_at content (s.data_bitmap_addr * 4096) (length (words_bytes first_allocated))
      ≡ words_bytes first_allocated
  pub root_inode : bytes_at content (s.inode_region_addr * 4096) 128 ≡ inode_bytes root

length-super_bytes : (s : Super) → length (super_bytes s) ≡ 40
unfolding super_bytes
length-super_bytes s = refl

length-first_allocated : length (words_bytes first_allocated) ≡ 4096
length-first_allocated =
    omega (arith, length-words_bytes first_allocated, length-replicate {A = ℕ} 1023 0)

-- The five writes behind the zeroed blocks.
image-IsFormatted :
    (num_inodes num_data : ℕ) (s : Super) (root : Inode) (rest dir : List ℕ) (content : ℕ → ℕ)
    → IsLayout num_inodes num_data s
    → 0 < num_inodes
    → 0 < num_data
    → length root.direct ≡ 30
    → s.data_region_addr + num_data < 2 ^ 19
    → IsFormatted s root (
        written content (
          (super_bytes s, 0) ∷ zero_blocks (rounds (total_blocks s) - 1) 1
          ++ (words_bytes first_allocated, s.inode_bitmap_addr * 4096)
            ∷ (words_bytes first_allocated, s.data_bitmap_addr * 4096)
            ∷ (inode_bytes root ++ rest, s.inode_region_addr * 4096)
            ∷ (dir, s.data_region_addr * 4096)
            ∷ []))
image-IsFormatted num_inodes num_data s root rest dir content l some_inodes some_data full fits =
    let b = words_bytes first_allocated in
    let c1 = overwrite content 0 (super_bytes s) in
    let count : rounds (total_blocks s) ≡ s.data_region_addr + num_data =
      ground (arith, l.is_total, fits) in
    let zeroed = zero_blocks (rounds (total_blocks s) - 1) 1 in
    let cz = written c1 zeroed in
    let c2 = overwrite cz (s.inode_bitmap_addr * 4096) b in
    let c3 = overwrite c2 (s.data_bitmap_addr * 4096) b in
    let c4 = overwrite c3 (s.inode_region_addr * 4096) (inode_bytes root ++ rest) in
    let c5 = overwrite c4 (s.data_region_addr * 4096) dir in
    let table = inode_bytes root ++ rest in
    let one : 0 < s.inode_bitmap_len = omega (arith, l.inode_bits, some_inodes) in
    let two : 0 < s.data_bitmap_len = omega (arith, l.data_bits, some_data) in
    let three : 0 < s.inode_region_len = omega (arith, l.inode_room, some_inodes) in
    let last = λ (a n : ℕ) (h : a + n ≤ s.data_region_addr * 4096).
      bytes_at-before c4 (s.data_region_addr * 4096) dir a n h in
    let fourth = λ (a n : ℕ) (h : a + n ≤ s.inode_region_addr * 4096).
      last a n (omega (arith, h, l.after_inodes))
      ∙ bytes_at-before c3 (s.inode_region_addr * 4096) table a n h in
    let third = λ (a n : ℕ) (h : a + n ≤ s.data_bitmap_addr * 4096).
      fourth a n (omega (arith, h, l.after_data_bitmap))
      ∙ bytes_at-before c2 (s.data_bitmap_addr * 4096) b a n h in
    let size = length-first_allocated in
    let made : IsFormatted s root c5 = record {
      super_block =
          third 0 40 (omega (arith, l.after_inode_bitmap, l.after_super))
          ∙ bytes_at-before cz (s.inode_bitmap_addr * 4096) b 0 40 (omega (arith, l.after_super))
          ∙ bytes_at-ap c1 cz 0 40 (λ x p q.
            written-zero_blocks (rounds (total_blocks s) - 1) 1 c1 x (omega (arith, q))
              (omega (arith, count, fits)))
          ∙ ap (bytes_at c1 0) (sym (length-super_bytes s))
          ∙ bytes_at-overwrite content 0 (super_bytes s);
      inode_bits =
          third (s.inode_bitmap_addr * 4096) (length b)
            (omega (arith, size, l.after_inode_bitmap, one))
          ∙ bytes_at-overwrite cz (s.inode_bitmap_addr * 4096) b;
      data_bits =
          fourth (s.data_bitmap_addr * 4096) (length b)
            (omega (arith, size, l.after_data_bitmap, two))
          ∙ bytes_at-overwrite c2 (s.data_bitmap_addr * 4096) b;
      root_inode =
          let len = length-inode_bytes root full in
          ap (bytes_at c5 (s.inode_region_addr * 4096)) (sym len)
          ∙ last (s.inode_region_addr * 4096) (length (inode_bytes root))
              (omega (arith, len, l.after_inodes, three))
          ∙ bytes_at-front c4 (s.inode_region_addr * 4096) (inode_bytes root) rest
              (bytes_at-overwrite c3 (s.inode_region_addr * 4096) table);
    } in
    subst (IsFormatted s root) (sym (written-append c1 zeroed _)) made

-- The root directory's inode, with its first block.
abbrev pub root_inode : ℕ → Inode
root_inode block = record { type = 0; size = 64; direct = block ∷ replicate 29 minus_one }

pub AreWords-minus_one : (n : ℕ) → AreWords (replicate n minus_one)
AreWords-minus_one zero = tt
AreWords-minus_one (suc n) = (omega arith, AreWords-minus_one n)

-- What follows a check that was passed.
passed :
    {A : Type 0} (failed : Bool) (a b : A)
    → (if failed then aborted else done a) ≡ done b
    → (failed ≡ false) × (a ≡ b)
passed true a b e = cc
passed false a b e = (refl, ap (value a) e)
  where
    value : {A : Type 0} → A → Outcome A → A
    value a (done x) = x
    value a aborted = a
    value a undefined = a

-- An assertion fails for fewer than 32 inodes or blocks.
pub mkfs-IsFormatted :
    (strcpy : List ℕ → List ℕ → List ℕ) (num_inodes num_data : ℕ) (stack_inodes : List Inode)
    (stack_entries : List DirEnt) (writes : List Pwrite) (before : ℕ → ℕ)
    → mkfs strcpy num_inodes num_data stack_inodes stack_entries ≡ done writes
    → num_inodes ≤ 32768
    → num_data ≤ 32768
    → (0 < num_inodes)
      × (0 < num_data)
      × IsFormatted
          (layout num_inodes num_data)
          (root_inode (layout num_inodes num_data).data_region_addr)
          (written before writes)
unfolding mkfs
mkfs-IsFormatted strcpy num_inodes num_data stack_inodes stack_entries writes before made few
      few_data =
    let s = layout num_inodes num_data in
    let (t, same) = passed (ltb num_inodes 32 || ltb num_data 32) _ writes made in
    let l = layout-IsLayout num_inodes num_data (omega (arith, few)) (omega (arith, few_data)) in
    let fits : s.data_region_addr + num_data < 2 ^ 19 = omega (
      arith, few, few_data, l.after_super, l.after_inode_bitmap, l.after_data_bitmap,
      l.after_inodes, l.inode_bits_tight, l.data_bits_tight, l.inode_room_tight,
    ) in
    let pos : 0 < num_inodes = ground (arith, t) in
    let pos_data : 0 < num_data = ground (arith, t) in
    (
      pos,
      pos_data,
      subst (λ ws. IsFormatted s (root_inode s.data_region_addr) (written before ws)) same
          (rw
            (
              in_int s.inode_bitmap_addr
                  (omega (arith, fits, l.after_inode_bitmap, l.after_data_bitmap, l.after_inodes)),
              in_int s.data_bitmap_addr (omega (arith, fits, l.after_data_bitmap, l.after_inodes)),
              in_int s.inode_region_addr (omega (arith, fits, l.after_inodes)),
              in_int s.data_region_addr (omega (arith, fits)),
            )
            (image-IsFormatted num_inodes num_data s (root_inode s.data_region_addr)
              (table_bytes strcpy (drop 1 stack_inodes))
              (dir_block_bytes (root_directory strcpy stack_entries)) before l pos pos_data refl
              fits)),
    )
  where
    in_int : (a : ℕ) → a < 2 ^ 19 → mul32 a 4096 ≡ a * 4096
    in_int a h = omega (arith, h)
