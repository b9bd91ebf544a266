-- ===== src/Ufs/Create/Room.antt =====
-- A directory with room for one more entry: the block that gets it, and the list of entries then.
use mathlib.Core.Path.{sym, subst, ap₂}
use mathlib.Core.List.{append_assoc, append-nil}
use native.Mathlib.Decide.{dec_lt}
use icix.Prelude.{
  ℕ, ◌+◌, ◌-◌, ◌*◌, ◌%◌, ◌≤◌, ◌<◌, List, [], ◌∷◌, ◌++◌, ◌≡◌, ◌≢◌, ◌∙◌, ap, arith, inl, inr, ◌⊎◌,
  length, minus_one, min,
}
use icix.Disk.Device.{bytes_at, overwrite, overwrite-outside, bytes_at-overwrite}
use icix.Ufs.Layout.{DirEnt, dir_ent_of, dir_ent_bytes}
use icix.Ufs.Layout.Codec.{IsEntry, length-dir_ent_bytes, dir_ent_of-dir_ent_bytes}
use icix.Ufs.Lookup.Laws.{entries_at, listing, listing-zero}
use icix.Ufs.Commit.Device.{AgreesFrom}
use icix.Ufs.Write.Block.{InData}
use icix.Ufs.Lookup.Laws.{BlocksFit}
use icix.Ufs.Create.Directory.{AreUsed, entry_in, entries_at-ap, entries_at-add}

-- A directory of n entries, all used and without gaps, with room for one more in block b: its entry
-- n is unused, and b is none of the blocks in front.
abbrev pub HasRoom : (ℕ → ℕ) → (ℕ → Type 0) → List ℕ → ℕ → ℕ → Type 0
HasRoom content InData [] n b = ⊥
HasRoom content InData (p ∷ ps) n b =
    InData p
    × (((p ≡ b)
          × (n < 128)
          × AreUsed (entries_at content (p * 4096) n)
          × ((entry_in content p n).inum ≡ minus_one))
        ⊎ ((p ≢ b)
            × (128 ≤ n)
            × AreUsed (entries_at content (p * 4096) 128)
            × HasRoom content InData ps (n - 128) b))

pub HasRoom-bound :
    (content : ℕ → ℕ) (InData : ℕ → Type 0) (ps : List ℕ) (n b : ℕ)
    → HasRoom content InData ps n b
    → n < length ps * 128
HasRoom-bound content InData [] n b h = absurd h
HasRoom-bound content InData (p ∷ ps) n b (i, inl h) = omega (arith, h.1)
HasRoom-bound content InData (p ∷ ps) n b (i, inr h) =
    omega (arith, h.1, HasRoom-bound content InData ps (n - 128) b h.3)

pub HasRoom-in_data :
    (content : ℕ → ℕ) (InData : ℕ → Type 0) (ps : List ℕ) (n b : ℕ)
    → HasRoom content InData ps n b
    → InData b
HasRoom-in_data content InData [] n b h = absurd h
HasRoom-in_data content InData (p ∷ ps) n b (i, inl h) = subst InData h.0 i
HasRoom-in_data content InData (p ∷ ps) n b (i, inr h) =
    HasRoom-in_data content InData ps (n - 128) b h.3

-- Where the new entry goes.
abbrev pub place_of : ℕ → ℕ → ℕ
place_of b n = b * 4096 + n % 128 * 32

-- An entry written there is the last of the list, and the ones in front are as they were.
pub listing-overwrite :
    (content : ℕ → ℕ) (InData : ℕ → Type 0) (ps : List ℕ) (n b : ℕ) (e : DirEnt)
    → HasRoom content InData ps n b
    → IsEntry e
    → listing (overwrite content (place_of b n) (dir_ent_bytes e)) ps (n + 1)
      ≡ listing content ps n ++ e ∷ []
unfolding listing entries_at
listing-overwrite content InData [] n b e h g = absurd h
listing-overwrite content InData (p ∷ ps) n b e (i, inl (same, small, used, free)) h =
    let bytes = dir_ent_bytes e in
    let after = overwrite content (place_of b n) bytes in
    let len = length-dir_ent_bytes e h in
    let n1 : min (n + 1) 128 ≡ n + 1 = omega (arith, small) in
    let n0 : min n 128 ≡ n = omega (arith, small) in
    let front : entries_at after (p * 4096) n ≡ entries_at content (p * 4096) n =
      entries_at-ap content after (p * 4096) n (λ x q r.
        overwrite-outside content (place_of b n) bytes x
          (inl (omega (arith, q, r, same, small)))) in
    let last : entries_at after (p * 4096 + n * 32) 1 ≡ e ∷ [] =
      ap (λ t. dir_ent_of t ∷ [])
        (ap (λ a. bytes_at after a 32) {x = p * 4096 + n * 32} {y = place_of b n}
            (omega (arith, same, small))
          ∙ ap (bytes_at after (place_of b n)) (sym len)
          ∙ bytes_at-overwrite content (place_of b n) bytes
          ∙ sym (append-nil bytes))
      ∙ ap (λ t. t ∷ []) (dir_ent_of-dir_ent_bytes e [] h) in
    ap₂ ◌++◌
      (ap (entries_at after (p * 4096)) n1
        ∙ entries_at-add after (p * 4096) n 1
        ∙ ap₂ ◌++◌ front last)
      (listing-zero after ps (n + 1 - 128) (omega (arith, small)))
    ∙ append-nil (entries_at content (p * 4096) n ++ e ∷ [])
    ∙ ap (λ t. t ++ e ∷ [])
        (sym (
          ap₂ ◌++◌ (ap (entries_at content (p * 4096)) n0)
            (listing-zero content ps (n - 128) (omega (arith, small)))
          ∙ append-nil (entries_at content (p * 4096) n)))
listing-overwrite content InData (p ∷ ps) n b e (i, inr (other, large, used, room)) h =
    let bytes = dir_ent_bytes e in
    let after = overwrite content (place_of b n) bytes in
    let len = length-dir_ent_bytes e h in
    let n1 : min (n + 1) 128 ≡ 128 = omega (arith, large) in
    let n0 : min n 128 ≡ 128 = omega (arith, large) in
    let place : place_of b n ≡ place_of b (n - 128) = omega (arith, large) in
    let front : entries_at after (p * 4096) 128 ≡ entries_at content (p * 4096) 128 =
      entries_at-ap content after (p * 4096) 128
        (λ x q r. overwrite-outside content (place_of b n) bytes x (apart other q r len)) in
    ap₂ ◌++◌ (ap (entries_at after (p * 4096)) n1 ∙ front) (
      ap (listing after ps) {x = n + 1 - 128} {y = n - 128 + 1} (omega (arith, large))
      ∙ ap (λ a. listing (overwrite content a bytes) ps (n - 128 + 1)) place
      ∙ listing-overwrite content InData ps (n - 128) b e room h)
    ∙ sym (append_assoc (entries_at content (p * 4096) 128) (listing content ps (n - 128)) (e ∷ []))
    ∙ ap (λ t. (t ++ listing content ps (n - 128)) ++ e ∷ [])
        (sym (ap (entries_at content (p * 4096)) n0))
  where
    apart :
        p ≢ b
        → {x : ℕ} → p * 4096 ≤ x
        → x < p * 4096 + 128 * 32
        → length (dir_ent_bytes e) ≡ 32
        → x < place_of b n ⊎ place_of b n + length (dir_ent_bytes e) ≤ x
    apart ne {x} q r len = elim (dec_lt p b) [
      | yes lt ↦ inl (omega (arith, lt, q, r))
      | no ge ↦ inr (omega (arith, ge, ne, q, r, len))
    ]

BlocksFit-zero : (capacity : ℕ) (ps : List ℕ) (m : ℕ) → m ≡ 0 → BlocksFit capacity ps m
BlocksFit-zero capacity [] m e = tt
BlocksFit-zero capacity (p ∷ ps) m e =
    (λ pos. absurd (omega (arith, e, pos)), BlocksFit-zero capacity ps (m - 128) (omega (arith, e)))

-- The blocks of the entries, the new one included, lie on the device.
pub HasRoom-BlocksFit :
    (limit capacity : ℕ) (content : ℕ → ℕ) (ps : List ℕ) (n m b : ℕ)
    → HasRoom content (InData limit capacity) ps n b
    → m ≤ n + 1
    → BlocksFit capacity ps m
HasRoom-BlocksFit limit capacity content [] n m b h le = absurd h
HasRoom-BlocksFit limit capacity content (p ∷ ps) n m b (i, inl h) le =
    (λ _. i.1, BlocksFit-zero capacity ps (m - 128) (omega (arith, le, h.1)))
HasRoom-BlocksFit limit capacity content (p ∷ ps) n m b (i, inr h) le = (
  λ _. i.1,
  HasRoom-BlocksFit limit capacity content ps (n - 128) (m - 128) b h.3 (omega (arith, le, h.1)),
)

-- The entries are the same on every device that has the same bytes from the data region on.
pub HasRoom-listing :
    (limit capacity : ℕ) (old content content' : ℕ → ℕ) (ps : List ℕ) (n m b : ℕ)
    → HasRoom old (InData limit capacity) ps n b
    → m ≤ n + 1
    → AgreesFrom limit content content'
    → listing content' ps m ≡ listing content ps m
unfolding listing
HasRoom-listing limit capacity old content content' [] n m b h le agrees = absurd h
HasRoom-listing limit capacity old content content' (p ∷ ps) n m b (i, r) le agrees =
    ap₂ ◌++◌
      (entries_at-ap content content' (p * 4096) (min m 128)
        (λ x q _. agrees x (omega (arith, i, q))))
      (elim r [
        | inl h ↦
            let z : m - 128 ≡ 0 = omega (arith, le, h.1) in
            listing-zero content' ps (m - 128) z ∙ sym (listing-zero content ps (m - 128) z)
        | inr h ↦
            HasRoom-listing limit capacity old content content' ps (n - 128) (m - 128) b h.3
              (omega (arith, le, h.1)) agrees
      ])
