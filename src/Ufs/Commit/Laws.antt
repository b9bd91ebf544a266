-- ===== src/Ufs/Commit/Laws.antt =====
-- What `commit_dirty_to_disk` does to the file system in memory, with any driver.
use mathlib.Core.Path.{subst, sym}
use icix.Ufs.Layout.{Super}
use icix.Prelude.{ℕ, zero, suc, ◌+◌, ◌*◌, ◌^◌, ◌<◌, ◌≤◌, ◌==◌, List, minus_one}
use icix.Prelude.{ap, ◌≡◌, ◌≢◌, ◌∙◌, refl, arith, ==_iff, length}
use native.Mathlib.Decide.{ℕ_discrete}
use icix.Outcome.{Post, returns, Post-elim, Post-if, Post-bind, Post-weaken, Post-then}
use icix.Bitmap.{get_bitmap, reset_bitmap}
use icix.Bitmap.Laws.{get_bitmap-reset_bitmap, length-reset_bitmap}
use icix.Disk.{DiskDriver}
use icix.Ufs.State.{Ufs, rounds}
use icix.Ufs.Commit.{commit_inodes, commit_datas, commit_inode, commit_data, commit_dirty_to_disk}

-- Everything but the dirty bitmaps is as it was.
abbrev pub SameTables : Ufs → Ufs → Type 0
SameTables a b =
    (b.s ≡ a.s) × (b.inode_bp ≡ a.inode_bp) × (b.data_bp ≡ a.data_bp) × (b.inodes ≡ a.inodes)

-- Positions from lo up to hi are clean, the others as before.
pub record IsClean (before after : List ℕ) (lo hi : ℕ) : Type 0 where
  pub same_length : length after ≡ length before
  pub inside : (k : ℕ) → lo ≤ k → k < hi → get_bitmap after k ≡ 0
  pub outside : (k : ℕ) → k < lo → get_bitmap after k ≡ get_bitmap before k

pub SameTables-trans : (a b c : Ufs) → SameTables a b → SameTables b c → SameTables a c
SameTables-trans a b c p q = (q.0 ∙ p.0, q.1 ∙ p.1, q.2 ∙ p.2, q.3 ∙ p.3)

IsClean-empty : (b : List ℕ) (lo hi : ℕ) → hi ≤ lo → IsClean b b lo hi
IsClean-empty b lo hi h = record {
  same_length = refl;
  inside = λ k p q. absurd (omega arith);
  outside = λ k p. refl;
}

-- A position that is cleared, or clear, in front of a clean range.
IsClean-step :
    (b after : List ℕ) (i hi : ℕ)
    → i < hi
    → hi < 2 ^ 31
    → hi ≤ 32 * length b
    → IsClean (reset_bitmap b i) after (i + 1) hi
    → IsClean b after i hi
IsClean-step b after i hi p h fits c = record {
  same_length = c.same_length ∙ length-reset_bitmap b i;
  inside = λ k q r. elim (ℕ_discrete i k) [
    | yes s ↦
        c.outside k (omega arith)
        ∙ get_bitmap-reset_bitmap b i k (omega arith) (omega arith) (omega arith)
        ∙ ground arith
    | no s ↦ c.inside k (omega arith) r
  ];
  outside = λ k q.
      c.outside k (omega arith)
      ∙ get_bitmap-reset_bitmap b i k (omega arith) (omega arith) (omega arith)
      ∙ ground arith;
}

IsClean-skip :
    (b after : List ℕ) (i hi : ℕ)
    → get_bitmap b i ≡ 0
    → IsClean b after (i + 1) hi
    → IsClean b after i hi
IsClean-skip b after i hi z c = record {
  same_length = c.same_length;
  inside = λ k q r. elim (ℕ_discrete i k) [
    | yes s ↦ c.outside k (omega arith) ∙ ap (get_bitmap b) (sym s) ∙ z
    | no s ↦ c.inside k (omega arith) r
  ];
  outside = λ k q. c.outside k (omega arith);
}

module _ {D : Type 0} (disk : DiskDriver D) where
  -- What a loop over one of the dirty bitmaps comes to, from position lo up to hi: the tables are as
  -- before, the other dirty bitmap too, and unless it returns -1 it returns 0 with the range clean.
  abbrev Commits : (Ufs → List ℕ) → (Ufs → List ℕ) → Ufs → ℕ → ℕ → ℕ × Ufs × D → Type 0
  Commits dirty other nfs lo hi (rc, nfs', d) =
      SameTables nfs nfs'
      × (other nfs' ≡ other nfs)
      × (rc ≢ minus_one → (rc ≡ 0) × IsClean (dirty nfs) (dirty nfs') lo hi)

  commit_inodes-Commits :
      (left i hi : ℕ) (nfs : Ufs) (d : D)
      → i + left ≡ hi
      → hi < 2 ^ 31
      → hi ≤ 32 * length nfs.dirty_inode_bp
      → Post
          (Commits (λ u. u.dirty_inode_bp) (λ u. u.dirty_data_bp) nfs i hi)
          (commit_inodes disk left i nfs d)
  unfolding commit_inodes
  commit_inodes-Commits zero i hi nfs d e h fits = returns (
    (refl, refl, refl, refl),
    refl,
    λ _. (refl, IsClean-empty nfs.dirty_inode_bp i hi (omega arith)),
  )
  commit_inodes-Commits (suc left) i hi nfs d e h fits =
      let nfs1 = record nfs { dirty_inode_bp = reset_bitmap nfs.dirty_inode_bp i } in
      Post-elim (get_bitmap nfs.dirty_inode_bp i == 0) _ _
        (λ t.
          Post-weaken
            (λ r c. (
              c.0,
              c.1,
              λ z. (
                (c.2 z).0,
                IsClean-skip nfs.dirty_inode_bp r.1.dirty_inode_bp i hi ((==_iff _ 0).0 t)
                    (c.2 z).1,
              ),
            ))
            (commit_inodes-Commits left (i + 1) hi nfs d (omega arith) h fits))
        (λ t. Post-bind (commit_inode disk i nfs1 d) _ (λ r _.
          Post-if (r.0 == minus_one) _ _
            (λ f. returns ((refl, refl, refl, refl), refl, λ z. absurd (z refl)))
            (λ f.
              Post-weaken
                (λ r' c. (
                  c.0,
                  c.1,
                  λ z. (
                    (c.2 z).0,
                    IsClean-step nfs.dirty_inode_bp r'.1.dirty_inode_bp i hi (omega arith) h fits
                        (c.2 z).1,
                  ),
                ))
                (commit_inodes-Commits left (i + 1) hi nfs1 r.1 (omega arith) h
                  (omega (arith, fits, length-reset_bitmap nfs.dirty_inode_bp i))))))

  commit_datas-Commits :
      (left i hi : ℕ) (nfs : Ufs) (d : D)
      → i + left ≡ hi
      → hi < 2 ^ 31
      → hi ≤ 32 * length nfs.dirty_data_bp
      → Post
          (Commits (λ u. u.dirty_data_bp) (λ u. u.dirty_inode_bp) nfs i hi)
          (commit_datas disk left i nfs d)
  unfolding commit_datas
  commit_datas-Commits zero i hi nfs d e h fits = returns (
    (refl, refl, refl, refl),
    refl,
    λ _. (refl, IsClean-empty nfs.dirty_data_bp i hi (omega arith)),
  )
  commit_datas-Commits (suc left) i hi nfs d e h fits =
      let nfs1 = record nfs { dirty_data_bp = reset_bitmap nfs.dirty_data_bp i } in
      Post-elim (get_bitmap nfs.dirty_data_bp i == 0) _ _
        (λ t.
          Post-weaken
            (λ r c. (
              c.0,
              c.1,
              λ z. (
                (c.2 z).0,
                IsClean-skip nfs.dirty_data_bp r.1.dirty_data_bp i hi ((==_iff _ 0).0 t) (c.2 z).1,
              ),
            ))
            (commit_datas-Commits left (i + 1) hi nfs d (omega arith) h fits))
        (λ t. Post-bind (commit_data disk i nfs1 d) _ (λ r _.
          Post-if (r.0 == minus_one) _ _
            (λ f. returns ((refl, refl, refl, refl), refl, λ z. absurd (z refl)))
            (λ f.
              Post-weaken
                (λ r' c. (
                  c.0,
                  c.1,
                  λ z. (
                    (c.2 z).0,
                    IsClean-step nfs.dirty_data_bp r'.1.dirty_data_bp i hi (omega arith) h fits
                        (c.2 z).1,
                  ),
                ))
                (commit_datas-Commits left (i + 1) hi nfs1 r.1 (omega arith) h
                  (omega (arith, fits, length-reset_bitmap nfs.dirty_data_bp i))))))

  -- For any driver, when `commit_dirty_to_disk` returns, the tables in memory are as before; and if
  -- it returns 0, no inode and no data block that the superblock counts is dirty any more. The
  -- counts are those of a file system below 2 ^ 31, whose dirty bitmaps cover them.
  pub commit_dirty_to_disk-clean :
      (nfs : Ufs) (d : D)
      → nfs.s.num_inodes < 2 ^ 31
      → nfs.s.num_data < 2 ^ 31
      → nfs.s.num_inodes ≤ 32 * length nfs.dirty_inode_bp
      → nfs.s.num_data ≤ 32 * length nfs.dirty_data_bp
      → Post
          (λ r.
            SameTables nfs r.1
            × (r.0 ≡ 0
                → ((k : ℕ) → k < nfs.s.num_inodes → get_bitmap r.1.dirty_inode_bp k ≡ 0)
                  × ((k : ℕ) → k < nfs.s.num_data → get_bitmap r.1.dirty_data_bp k ≡ 0)))
          (commit_dirty_to_disk disk nfs d)
  unfolding commit_dirty_to_disk
  commit_dirty_to_disk-clean nfs d hi hd fi fd =
      let ri : rounds nfs.s.num_inodes ≡ nfs.s.num_inodes = ground arith in
      Post-then (commit_inodes disk (rounds nfs.s.num_inodes) 0 nfs d) _
        (commit_inodes-Commits (rounds nfs.s.num_inodes) 0 nfs.s.num_inodes nfs d
          (omega (arith, ri)) hi fi)
        (λ r c.
          Post-if (r.0 == minus_one) _ _ (λ t. returns (c.0, λ z. absurd (omega arith)))
            (λ t. second r c.0 c.1 (c.2 (ground arith)).1))
    where
      second :
          (r : ℕ × Ufs × D)
          → SameTables nfs r.1
          → r.1.dirty_data_bp ≡ nfs.dirty_data_bp
          → IsClean nfs.dirty_inode_bp r.1.dirty_inode_bp 0 nfs.s.num_inodes
          → Post
              (λ r'.
                SameTables nfs r'.1
                × (r'.0 ≡ 0
                    → ((k : ℕ) → k < nfs.s.num_inodes → get_bitmap r'.1.dirty_inode_bp k ≡ 0)
                      × ((k : ℕ) → k < nfs.s.num_data → get_bitmap r'.1.dirty_data_bp k ≡ 0)))
              (commit_datas disk (rounds r.1.s.num_data) 0 r.1 r.2)
      second r same data_same clean =
          let n : r.1.s.num_data ≡ nfs.s.num_data = ap (λ (s : Super). s.num_data) same.0 in
          let rd : rounds r.1.s.num_data ≡ nfs.s.num_data = ground arith in
          Post-weaken
            (λ r' c. (
              SameTables-trans nfs r.1 r'.1 same c.0,
              λ z. (
                λ k p. ap (λ b. get_bitmap b k) c.1 ∙ clean.inside k (omega arith) p,
                λ k p. (c.2 (λ m. absurd (omega arith))).1.inside k (omega arith) p,
              ),
            ))
            (commit_datas-Commits (rounds r.1.s.num_data) 0 nfs.s.num_data r.1 r.2
              (omega (arith, rd)) hd
              (subst (λ b. nfs.s.num_data ≤ 32 * length b) (sym data_same) fd))
