-- ===== src/Ufs/Create/Directory.antt =====
-- The blocks of a directory as lists of entries.
use mathlib.Core.Path.{ap₂}
use icix.Prelude.{
  ℕ, zero, suc, ◌+◌, ◌-◌, ◌*◌, ◌≤◌, ◌<◌, ◌==◌, List, [], ◌∷◌, ◌++◌, ◌≡◌, ◌≢◌, ◌∙◌, refl, ap, arith,
  length, drop, drop-append, minus_one, true, false,
}
use icix.Disk.Device.{bytes_at, bytes_at-add, bytes_at-ap, length-bytes_at}
use icix.Ufs.Layout.{DirEnt, dir_ent_of, dir_block_of}
use icix.Ufs.Create.{free_entry_from}
use icix.Ufs.Lookup.Laws.{entries_at}

-- Only the first 32 bytes matter to an entry.
dir_ent_of-front :
    (content : ℕ → ℕ) (a : ℕ) (ys : List ℕ)
    → dir_ent_of (bytes_at content a 32 ++ ys) ≡ dir_ent_of (bytes_at content a 32)
unfolding dir_ent_of bytes_at
dir_ent_of-front content a ys = refl

dir_block_of-bytes_at :
    (n : ℕ) (content : ℕ → ℕ) (a : ℕ)
    → dir_block_of n (bytes_at content a (n * 32)) ≡ entries_at content a n
unfolding dir_block_of entries_at
dir_block_of-bytes_at zero content a = refl
dir_block_of-bytes_at (suc n) content a =
    let parts : bytes_at content a (suc n * 32)
        ≡ bytes_at content a 32 ++ bytes_at content (a + 32) (n * 32) =
      ap (bytes_at content a) {x = suc n * 32} {y = 32 + n * 32} (omega arith)
      ∙ bytes_at-add content a 32 (n * 32) in
    let len = length-bytes_at content a 32 in
    ap₂ ◌∷◌ (ap dir_ent_of parts ∙ dir_ent_of-front content a _) (
      ap (dir_block_of n) (ap (drop 32) parts ∙ drop-append (bytes_at content a 32) _ 32 len)
      ∙ dir_block_of-bytes_at n content (a + 32))

pub entries_at-add :
    (content : ℕ → ℕ) (a n m : ℕ)
    → entries_at content a (n + m) ≡ entries_at content a n ++ entries_at content (a + n * 32) m
unfolding entries_at
entries_at-add content a zero m =
    ap (entries_at content a) {x = 0 + m} {y = m} (omega arith)
    ∙ ap (λ b. entries_at content b m) (omega arith)
entries_at-add content a (suc n) m =
    ap (entries_at content a) {x = suc n + m} {y = suc (n + m)} (omega arith)
    ∙ ap (λ t. dir_ent_of (bytes_at content a 32) ∷ t)
        (entries_at-add content (a + 32) n m
          ∙ ap (λ b. entries_at content (a + 32) n ++ entries_at content b m) (omega arith))

pub entries_at-ap :
    (content content' : ℕ → ℕ) (a n : ℕ)
    → ((x : ℕ) → a ≤ x → x < a + n * 32 → content' x ≡ content x)
    → entries_at content' a n ≡ entries_at content a n
unfolding entries_at
entries_at-ap content content' a zero h = refl
entries_at-ap content content' a (suc n) h =
    ap₂ ◌∷◌ (ap dir_ent_of (bytes_at-ap content content' a 32 (λ x p q. h x p (omega arith))))
      (entries_at-ap content content' (a + 32) n (λ x p q. h x (omega arith) (omega arith)))

length-entries_at : (content : ℕ → ℕ) (a n : ℕ) → length (entries_at content a n) ≡ n
unfolding entries_at
length-entries_at content a zero = refl
length-entries_at content a (suc n) = ap suc (length-entries_at content (a + 32) n)

abbrev pub AreUsed : List DirEnt → Type 0
AreUsed [] = Unit {0}
AreUsed (e ∷ es) = (e.inum ≢ minus_one) × AreUsed es

free_entry_from-none : (es : List DirEnt) (j : ℕ) → AreUsed es → free_entry_from es j ≡ minus_one
unfolding free_entry_from
free_entry_from-none [] j h = refl
free_entry_from-none (e ∷ es) j h =
    let t : (e.inum == minus_one) ≡ false = ground (arith, h.0) in
    rw t (free_entry_from-none es (j + 1) h.1)

free_entry_from-first :
    (us es : List DirEnt) (e : DirEnt) (j : ℕ)
    → AreUsed us
    → e.inum ≡ minus_one
    → free_entry_from (us ++ e ∷ es) j ≡ j + length us
unfolding free_entry_from
free_entry_from-first [] es e j h u =
    let t : (e.inum == minus_one) ≡ true = ground (arith, u) in rw t (omega arith)
free_entry_from-first (x ∷ us) es e j h u =
    let t : (x.inum == minus_one) ≡ false = ground (arith, h.0) in
    rw t (free_entry_from-first us es e (j + 1) h.1 u ∙ omega arith)

-- The entry j of a block.
abbrev pub entry_in : (ℕ → ℕ) → ℕ → ℕ → DirEnt
entry_in content p j = dir_ent_of (bytes_at content (p * 4096 + j * 32) 32)

-- A whole block as `ufs_creat` reads it.
pub free_entry_from-full :
    (content : ℕ → ℕ) (p : ℕ)
    → AreUsed (entries_at content (p * 4096) 128)
    → free_entry_from (dir_block_of 128 (bytes_at content (p * 4096) 4096)) 0 ≡ minus_one
free_entry_from-full content p h =
    ap (λ es. free_entry_from es 0) (dir_block_of-bytes_at 128 content (p * 4096))
    ∙ free_entry_from-none (entries_at content (p * 4096) 128) 0 h

pub free_entry_from-room :
    (content : ℕ → ℕ) (p n : ℕ)
    → n < 128
    → AreUsed (entries_at content (p * 4096) n)
    → (entry_in content p n).inum ≡ minus_one
    → free_entry_from (dir_block_of 128 (bytes_at content (p * 4096) 4096)) 0 ≡ n
unfolding entries_at
free_entry_from-room content p n small h u =
    ap (λ es. free_entry_from es 0)
      (dir_block_of-bytes_at 128 content (p * 4096)
        ∙ ap (entries_at content (p * 4096)) {x = 128} {y = n + suc (127 - n)} (omega arith)
        ∙ entries_at-add content (p * 4096) n (suc (127 - n)))
    ∙ free_entry_from-first (entries_at content (p * 4096) n) _ (entry_in content p n) 0 h u
    ∙ omega (arith, length-entries_at content (p * 4096) n)
