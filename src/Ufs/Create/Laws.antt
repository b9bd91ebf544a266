-- ===== src/Ufs/Create/Laws.antt =====
-- The inode bitmap and the result of `ufs_creat`, with any driver and heap.
use icix.Prelude.{ℕ, ◌*◌, ◌^◌, ◌≤◌, ◌<◌, ◌==◌, ltb, if◌then◌else◌, not, ◌||◌, ◌&&◌}
use icix.Prelude.{List, ◌≡◌, ◌≢◌, ◌∙◌, refl, ap, arith, minus_one, inl, inr, ◌⊎◌}
use icix.Prelude.{true, false, Bool, length, add32}
use icix.Outcome.{Outcome, done, Post, returns, aborts, Post-if, Post-bind, Post-then}
use icix.Outcome.{Post-weaken}
use icix.Bitmap.{get_bitmap, set_bitmap}
use icix.Bitmap.Laws.{get_bitmap-set_bitmap}
use icix.Cstring.{strlen}
use icix.Disk.{DiskDriver, disk_write}
use icix.Ufs.Layout.{DirEnt, ufs_directory, ufs_block_size, direct_ptrs, dir_ent_size}
use icix.Ufs.State.{Ufs, inode_at, put_inode, out_of_range, is_unallocated, rounds}
use icix.Ufs.Search.{find_empty}
use icix.Ufs.Search.Laws.{find_empty-IsLeastClear}
use icix.Ufs.Lookup.{ufs_lookup}
use icix.Ufs.Commit.{commit_and_sync}
use icix.Ufs.Commit.Frame.{commit_and_sync-SameTables}
use icix.Ufs.Create.{claim_inode, mark_data, scan_full, fill_inode, insert_entry, extend_parent}
use icix.Ufs.Create.{update_parent, finish_parent, create_inode, ufs_creat}

module _ {D : Type 0} (disk : DiskDriver D) (strcpy : List ℕ → List ℕ → List ℕ)
    (stack_block : List DirEnt) (stack_entry : DirEnt) where
  -- The later steps leave the inode bitmap alone.
  abbrev Kept : Ufs → Ufs → Type 0
  Kept a b = b.inode_bp ≡ a.inode_bp

  fill_inode-inode_bp :
      (pinum type inum : ℕ) (full : Bool) (blocks : ℕ × ℕ) (nfs : Ufs) (d : D)
      → Post
          (λ r. Kept nfs r.2)
          (fill_inode disk strcpy stack_block stack_entry pinum type inum full blocks nfs d)
  unfolding fill_inode mark_data
  fill_inode-inode_bp pinum type inum full (first, second) nfs d =
      Post-if (not (type == ufs_directory)) _ _
        (λ _.
          returns {a = (0, first, put_inode nfs inum (record (inode_at nfs inum) { size = 0 }), d)}
            refl)
        (λ _.
          Post-if (first == minus_one || full && second == minus_one) _ _
            (λ _. returns {a = (minus_one, first, nfs, d)} refl)
            (λ _.
              Post-bind (disk_write disk _ _ d) _
                (λ r _. Post-if (r.0 == minus_one) _ _ (λ _. aborts) (λ _. returns refl))))

  extend_parent-inode_bp :
      (pinum block : ℕ) (name : List ℕ) (inum : ℕ) (nfs : Ufs) (d : D)
      → Post
          (λ r. Kept nfs r.1)
          (extend_parent disk strcpy stack_block stack_entry pinum block name inum nfs d)
  unfolding extend_parent mark_data
  extend_parent-inode_bp pinum block name inum nfs d =
      Post-if (block == minus_one || (inode_at nfs pinum).size == direct_ptrs * ufs_block_size) _ _
        (λ _. returns {a = (minus_one, nfs, d)} refl)
        (λ _.
          Post-bind (disk_write disk _ _ d) _
            (λ r _. Post-if (r.0 == minus_one) _ _ (λ _. aborts) (λ _. returns refl)))

  module _ {H : Type 0} (malloc : ℕ → H → Outcome (ℕ × H)) where
    update_parent-inode_bp :
        (pinum block : ℕ) (name : List ℕ) (inum : ℕ) (full : Bool) (nfs : Ufs) (d : D) (h : H)
        → Post
            (λ r. Kept nfs r.1)
            (update_parent disk strcpy stack_block stack_entry malloc pinum block name inum full nfs
              d h)
    unfolding update_parent
    update_parent-inode_bp pinum block name inum true nfs d h =
        Post-then (extend_parent disk strcpy stack_block stack_entry pinum block name inum nfs d) _
          (extend_parent-inode_bp pinum block name inum nfs d)
          (λ r e. returns {a = (r.0, r.1, r.2, h)} e)
    update_parent-inode_bp pinum block name inum false nfs d h = Post-bind (malloc 4096 h) _ (λ b _.
        Post-bind (insert_entry disk strcpy stack_block stack_entry _ name inum d) _
          (λ r _. returns {a = (0, nfs, r, b.1)} refl))

    finish_parent-inode_bp :
        (pinum : ℕ) (rc : ℕ) (nfs : Ufs) (d : D) (h : H)
        → Post
            (λ r. (r.0 ≡ 0 ⊎ r.0 ≡ minus_one) × (r.1.inode_bp ≡ nfs.inode_bp))
            (finish_parent disk strcpy stack_block stack_entry malloc pinum (rc, nfs, d, h))
    unfolding finish_parent
    finish_parent-inode_bp pinum rc nfs d h =
        let grown =
          put_inode nfs pinum
            (record (inode_at nfs pinum) { size = add32 (inode_at nfs pinum).size dir_ent_size }) in
        Post-if (rc == minus_one) _ _ (λ _. returns {a = (minus_one, nfs, d, h)} (inr refl, refl))
          (λ _.
            Post-then (commit_and_sync disk grown d) _ (commit_and_sync-SameTables disk grown d)
              (λ v g. returns {a = (v.0, v.1, v.2, h)} (inl g.1, g.0.1)))

    -- Once the inode is claimed, every return leaves its bit set, on failure too.
    create_inode-inode_bp :
        (pinum type : ℕ) (name : List ℕ) (inum : ℕ) (blocks : ℕ × ℕ) (nfs : Ufs) (d : D) (h : H)
        → Post
            (λ r. (r.0 ≡ 0 ⊎ r.0 ≡ minus_one) × (r.1.inode_bp ≡ set_bitmap nfs.inode_bp inum))
            (create_inode disk strcpy stack_block stack_entry malloc pinum type name inum blocks nfs
              d h)
    unfolding create_inode claim_inode
    create_inode-inode_bp pinum type name inum blocks nfs d h =
        let nfs1 = claim_inode nfs inum type in
        Post-if ((inode_at nfs1 pinum).size == direct_ptrs * ufs_block_size) _ _
          (λ _. returns {a = (minus_one, nfs1, d, h)} (inr refl, refl))
          (λ _.
            Post-bind (scan_full disk strcpy stack_block stack_entry (inode_at nfs1 pinum).direct d)
              _
              (λ s _.
                Post-then
                  (fill_inode disk strcpy stack_block stack_entry pinum type inum s.0 blocks nfs1
                    s.1)
                  _ (fill_inode-inode_bp pinum type inum s.0 blocks nfs1 s.1)
                  (λ r e.
                    let marked = record r.2 {
                      dirty_inode_bp = set_bitmap r.2.dirty_inode_bp pinum;
                    } in
                    Post-if (r.0 == minus_one) _ _
                      (λ _. returns {a = (minus_one, r.2, r.3, h)} (inr refl, e))
                      (λ _.
                        Post-then
                          (update_parent disk strcpy stack_block stack_entry malloc pinum r.1 name
                            inum s.0 marked r.3 h)
                          _ (update_parent-inode_bp pinum r.1 name inum s.0 marked r.3 h)
                          (λ u f.
                            Post-weaken (λ v g. (g.0, g.1 ∙ f ∙ e))
                              (finish_parent-inode_bp pinum u.0 u.1 u.2 u.3))))))

    -- What a return of `ufs_creat` means for the inode bitmap.
    abbrev pub Creates : List ℕ → ℕ → Ufs → ℕ × Ufs × D × H → Type 0
    Creates name inum nfs (rc, nfs', d, h) =
        (rc ≡ 0 ⊎ rc ≡ minus_one)
        × ((k : ℕ)
            → k < 2 ^ 31
            → get_bitmap nfs'.inode_bp k ≡ get_bitmap nfs.inode_bp k
              ⊎ (k ≡ inum × (get_bitmap nfs.inode_bp k ≡ 0) × (get_bitmap nfs'.inode_bp k ≡ 1)))
        × (rc ≡ 0
            → (strlen name ≤ 27)
              × (inum < nfs.s.num_inodes)
              × (get_bitmap nfs.inode_bp inum ≡ 0)
              × (get_bitmap nfs'.inode_bp inum ≡ 1))

    -- With any driver and heap, and an inode bitmap that covers the inodes: whenever `ufs_creat` returns, the
    -- code is 0 or -1, and no inode bit changed, but that of the least free inode may have been set; on
    -- 0 it was clear before and is set, and the name is at most 27 bytes long.
    pub ufs_creat-Creates :
        (nfs : Ufs) (pinum type : ℕ) (name : List ℕ) (d : D) (h : H)
        → nfs.s.num_inodes < 2 ^ 31
        → nfs.s.num_inodes ≤ 32 * length nfs.inode_bp
        → Post
            (Creates name (find_empty nfs.inode_bp (rounds nfs.s.num_inodes)) nfs)
            (ufs_creat disk strcpy stack_block stack_entry malloc nfs pinum type name d h)
    unfolding ufs_creat
    ufs_creat-Creates nfs pinum type name d h small covers =
        Post-if (out_of_range nfs pinum) _ _ (λ _. refused d)
          (λ _.
            Post-if (is_unallocated nfs pinum) _ _ (λ _. refused d)
              (λ _.
                Post-if (not ((inode_at nfs pinum).type == ufs_directory)) _ _ (λ _. refused d)
                  (λ _.
                    Post-if (ltb 27 (strlen name)) _ _ (λ _. refused d)
                      (λ short. Post-bind (ufs_lookup disk nfs pinum name d) _ (λ l _.
                        Post-if (not (l.0 == minus_one) || inum == minus_one) _ _ (λ _. refused l.1)
                          (λ t.
                            Post-weaken
                              (λ r e. claimed (ground arith) (ground arith) r.0 r.1 r.2 r.3 e.0 e.1)
                              (create_inode-inode_bp pinum type name inum _ nfs l.1 h)))))))
      where
        inum : ℕ
        inum = find_empty nfs.inode_bp (rounds nfs.s.num_inodes)

        refused : (d1 : D) → Post (Creates name inum nfs) (done (minus_one, nfs, d1, h))
        refused d1 = returns (inr refl, λ k p. inl refl, λ e. absurd (omega arith))

        claimed :
            strlen name ≤ 27
            → inum ≢ minus_one
            → (rc : ℕ) (b : Ufs) (d1 : D) (h1 : H) → rc ≡ 0 ⊎ rc ≡ minus_one
            → b.inode_bp ≡ set_bitmap nfs.inode_bp inum
            → Creates name inum nfs (rc, b, d1, h1)
        claimed short there rc b d1 h1 code e =
            let r : rounds nfs.s.num_inodes ≡ nfs.s.num_inodes = ground arith in
            let first =
              find_empty-IsLeastClear nfs.inode_bp (rounds nfs.s.num_inodes) (omega (arith, r)) in
            let below : inum < nfs.s.num_inodes = ground (arith, first.in_range, r) in
            let was : get_bitmap nfs.inode_bp inum ≡ 0 = first.clear (omega (arith, below, r)) in
            let now : (k : ℕ)
                → k < 2 ^ 31
                → get_bitmap b.inode_bp k ≡ (if inum == k then 1 else get_bitmap nfs.inode_bp k) =
              λ k p.
                ap (λ t. get_bitmap t k) e
                ∙ get_bitmap-set_bitmap nfs.inode_bp inum k (omega (arith, below))
                    (omega (arith, below)) p in
            (
              code,
              λ k p. ground (arith, now k p, was, ap (get_bitmap nfs.inode_bp)),
              λ z. (short, below, was, now inum (omega (arith, below)) ∙ ground arith),
            )
