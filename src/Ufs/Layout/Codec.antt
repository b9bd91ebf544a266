-- ===== src/Ufs/Layout/Codec.antt =====
-- Reading back what was written, structure by structure.
use icix.Prelude.{ℕ, zero, suc, ◌^◌, ◌<◌, List, [], ◌∷◌, ◌++◌, drop, get_or}
use icix.Prelude.{◌≡◌, refl, ap, arith, length, take-append, drop-append}
use mathlib.Core.Path.{ap₂}
use mathlib.Core.List.{append_assoc}
use icix.Prelude.{length-append}
use icix.Ufs.Layout.{
  Inode, DirEnt, word_bytes, word_of, words_bytes, words_of, inode_bytes, inode_of,
}
use icix.Ufs.Layout.{dir_ent_bytes, dir_ent_of, dir_block_bytes, dir_block_of}

-- Every element is a 32-bit word.
abbrev pub AreWords : List ℕ → Type 0
AreWords [] = Unit {0}
AreWords (w ∷ ws) = (w < 2 ^ 32) × AreWords ws

word_of-word_bytes : (w : ℕ) (rest : List ℕ) → w < 2 ^ 32 → word_of (word_bytes w ++ rest) ≡ w
unfolding word_of word_bytes
word_of-word_bytes w rest h = omega arith

pub words_of-words_bytes :
    (ws rest : List ℕ) (n : ℕ)
    → length ws ≡ n
    → AreWords ws
    → words_of n (words_bytes ws ++ rest) ≡ ws
unfolding words_of words_bytes
words_of-words_bytes [] rest zero e h = refl
words_of-words_bytes [] rest (suc n) e h = absurd (omega arith)
words_of-words_bytes (w ∷ ws) rest zero e h = absurd (omega arith)
words_of-words_bytes (w ∷ ws) rest (suc n) e h =
    ap₂ ◌∷◌ (omega (arith, h.0)) (words_of-words_bytes ws rest n (omega arith) h.1)

-- An inode of 32-bit fields with its 30 pointers is read back from the bytes written for it,
-- whatever follows them.
pub inode_of-inode_bytes :
    (i : Inode) (rest : List ℕ)
    → length i.direct ≡ 30
    → AreWords (i.type ∷ i.size ∷ i.direct)
    → inode_of (inode_bytes i ++ rest) ≡ i
unfolding inode_of inode_bytes
inode_of-inode_bytes i rest e h =
    ap (λ ws. record { type = get_or ws 0 0; size = get_or ws 1 0; direct = drop 2 ws })
      (words_of-words_bytes (i.type ∷ i.size ∷ i.direct) rest 32 (omega arith) h)

-- A directory entry with a name field of 28 bytes is read back.
abbrev pub IsEntry : DirEnt → Type 0
IsEntry e = (length e.name ≡ 28) × (e.inum < 2 ^ 32)

dir_ent_of-append :
    (name bytes rest : List ℕ) (w : ℕ)
    → length name ≡ 28
    → word_of (bytes ++ rest) ≡ w
    → dir_ent_of ((name ++ bytes) ++ rest) ≡ record { name = name; inum = w }
unfolding dir_ent_of
dir_ent_of-append name bytes rest w e h =
    rw
      (
        append_assoc name bytes rest,
        take-append name (bytes ++ rest) 28 e,
        drop-append name (bytes ++ rest) 28 e,
      )
      (ap (λ v. record { name = name; inum = v }) h)

pub dir_ent_of-dir_ent_bytes :
    (e : DirEnt) (rest : List ℕ) → IsEntry e → dir_ent_of (dir_ent_bytes e ++ rest) ≡ e
unfolding dir_ent_bytes
dir_ent_of-dir_ent_bytes e rest h =
    dir_ent_of-append e.name (word_bytes e.inum) rest e.inum h.0
      (word_of-word_bytes e.inum rest h.1)

pub length-dir_ent_bytes : (e : DirEnt) → IsEntry e → length (dir_ent_bytes e) ≡ 32
unfolding dir_ent_bytes word_bytes
length-dir_ent_bytes e h = omega (arith, length-append e.name (word_bytes e.inum), h.0)

abbrev pub AreEntries : List DirEnt → Type 0
AreEntries [] = Unit {0}
AreEntries (e ∷ es) = IsEntry e × AreEntries es

-- A block of directory entries is read back from the bytes written for it, whatever follows.
pub dir_block_of-dir_block_bytes :
    (es : List DirEnt) (rest : List ℕ) (n : ℕ)
    → length es ≡ n
    → AreEntries es
    → dir_block_of n (dir_block_bytes es ++ rest) ≡ es
unfolding dir_block_of dir_block_bytes
dir_block_of-dir_block_bytes [] rest zero e h = refl
dir_block_of-dir_block_bytes [] rest (suc n) e h = absurd (omega arith)
dir_block_of-dir_block_bytes (x ∷ es) rest zero e h = absurd (omega arith)
dir_block_of-dir_block_bytes (x ∷ es) rest (suc n) e h =
    rw (append_assoc (dir_ent_bytes x) (dir_block_bytes es) rest) (
      ap₂ ◌∷◌ (dir_ent_of-dir_ent_bytes x (dir_block_bytes es ++ rest) h.0) (
        rw
          (drop-append (dir_ent_bytes x) (dir_block_bytes es ++ rest) 32
            (length-dir_ent_bytes x h.0))
          (dir_block_of-dir_block_bytes es rest n (omega arith) h.1)))
