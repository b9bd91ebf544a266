-- ===== src/Ufs/Write/RoundTrip.antt =====
-- `ufs_write` on a device that can be written, and a read of what it wrote.
use mathlib.Core.Path.{sym, subst}
use icix.Prelude.{
  ℕ, suc, ◌+◌, ◌-◌, ◌*◌, ◌/◌, ◌%◌, ◌^◌, ◌≤◌, ◌<◌, ◌==◌, not, ◌||◌, slt, is_neg, List, [], ◌∷◌, ◌∷◌,
  ◌∷◌, ◌≡◌, ◌∙◌, refl, ap, arith, inl, length, get_or, get_or-set_self, minus_one, add32, mul32,
  false, take,
}
use icix.Outcome.{Outcome, done, ◌>>=◌}
use icix.Bitmap.{get_bitmap, set_bitmap}
use icix.Disk.{DiskDriver, disk_write}
use icix.Disk.Device.{
  WritableDevice, bytes_at, overwrite, disk_write_lem, bytes_at-ap, bytes_at-overwrite,
}
use icix.Ufs.Layout.{Super, Inode}
use icix.Ufs.State.{Ufs, inode_at, blank_inode, out_of_range, is_unallocated}
use icix.Ufs.Write.{grow, Progress, no_block, written, write_blocks, ufs_write}
use icix.Ufs.Write.Block.{
  InData, CanHold, ensure_block-HasBlock, HasPointers-set, write_blocks-once,
}
use icix.Ufs.Commit.{commit_and_sync}
use icix.Ufs.Commit.Sync.{commit_and_sync-Commits}
use icix.Ufs.Commit.Device.{HasPointers, MetadataBelow, length-inode_at}
use icix.Ufs.Read.{ufs_read}
use icix.Ufs.Read.Laws.{file_bytes, file_bytes-block, ufs_read-file_bytes}

-- A volume whose metadata lie below `limit`, with the data region behind it on the device.
pub record IsVolume (limit capacity : ℕ) (nfs : Ufs) : Type 0 where
  pub metadata : MetadataBelow nfs.s limit
  pub pointers : HasPointers nfs.inodes
  pub low : limit ≤ nfs.s.data_region_addr * 4096
  pub high : (nfs.s.data_region_addr + nfs.s.num_data) * 4096 ≤ capacity

-- A range of n bytes that `ufs_write` takes for a file.
pub record IsWritable (nfs : Ufs) (inum offset n : ℕ) : Type 0 where
  pub range : out_of_range nfs inum ≡ false
  pub allocated : is_unallocated nfs inum ≡ false
  pub in_table : inum < length nfs.inodes
  pub is_file : (inode_at nfs inum).type ≡ 1
  pub some_bytes : 0 < n
  pub one_block : offset % 4096 + n ≤ 4096
  pub no_gap : offset ≤ (inode_at nfs inum).size
  pub fits : (inode_at nfs inum).size + n ≤ 30 * 4096

take-all : (buf : List ℕ) → take (length buf) buf ≡ buf
take-all [] = refl
take-all (b ∷ buf) = ap (λ t. b ∷ t) (take-all buf)

module _ {D : Type 0} (disk : DiskDriver D) (dev : WritableDevice disk) where
  open dev.readable use {capacity, Holds}

  -- What a write of `buf` leaves.
  record Stored (limit inum offset : ℕ) (buf : List ℕ) (nfs : Ufs) (o : Outcome (ℕ × Ufs × D))
      : Type 0 where
    after : Ufs
    device : D
    content : ℕ → ℕ
    cursor : ℕ
    block : ℕ
    runs : o ≡ done (0, after, device)
    holds : Holds device content cursor
    bytes : bytes_at content (block * 4096 + offset % 4096) (length buf) ≡ buf
    pointer : get_or (inode_at after inum).direct (offset / 4096) 0 ≡ block
    in_data : InData limit capacity block
    super_same : after.s ≡ nfs.s
    inode_bp_same : after.inode_bp ≡ nfs.inode_bp
    size : (inode_at after inum).size ≡ (inode_at nfs inum).size + length buf
    type_same : (inode_at after inum).type ≡ (inode_at nfs inum).type

  -- The loop and the commit, from the marked inode on.
  write_blocks-Stored :
      (limit inum offset left k : ℕ) (buf : List ℕ) (nfs : Ufs) (d : D) (content : ℕ → ℕ)
      → Holds d content k
      → offset / 4096 < 30
      → IsVolume limit capacity nfs
      → limit ≤ capacity
      → inum < length nfs.inodes
      → 0 < length buf
      → offset % 4096 + length buf ≤ 4096
      → (inode_at nfs inum).size + length buf < 2 ^ 32
      → CanHold limit capacity inum (offset / 4096) nfs
      → Stored limit inum offset buf nfs (
          write_blocks disk inum buf (length buf) (suc left) (offset / 4096) 0 (offset % 4096) nfs d
          >>= λ r. elim r.0 as (λ _. Outcome (ℕ × Ufs × D)) [
            | no_block ↦ done (minus_one, r.1, r.2)
            | written cur ↦ commit_and_sync disk r.1 r.2
          ])
  unfolding grow
  write_blocks-Stored limit inum offset left k buf nfs d content h few volume fits inside pos one
        small room =
      let n = length buf in
      let (nfs1, p, b) =
        ensure_block-HasBlock limit capacity inum (offset / 4096) nfs inside few volume.pointers
          volume.metadata volume.low volume.high (omega (arith, dev.readable.small)) room in
      let addr =
        add32 (mul32 (get_or (inode_at nfs1 inum).direct (offset / 4096) 0) 4096) (offset % 4096) in
      let place : addr ≡ p * 4096 + offset % 4096 =
        omega (arith, b.pointer, b.in_data, dev.readable.small) in
      let (d1, e1, h1) =
        disk_write_lem disk dev d content k addr buf h (omega (arith, place, b.in_data, one)) in
      let once =
        write_blocks-once disk inum buf n left (offset / 4096) (offset % 4096) nfs nfs1 d d1 pos one
          b.runs (ap (λ t. disk_write disk addr t d) (take-all buf) ∙ e1) in
      let nfs2 = grow nfs1 inum n in
      let x : Inode = record (inode_at nfs1 inum) { size = add32 (inode_at nfs1 inum).size n } in
      let at2 : inode_at nfs2 inum ≡ x =
        get_or-set_self nfs1.inodes inum x blank_inode (omega (arith, inside, b.length_inodes)) in
      let full2 =
        HasPointers-set nfs1.inodes inum x b.pointers (length-inode_at nfs1 inum b.pointers) in
      let (nfs3, d2, content2, k2, e2, h2, s2, t2) =
        commit_and_sync-Commits disk dev limit (addr + n) nfs2 d1 (overwrite content addr buf) h1
          (subst (λ t. MetadataBelow t limit) (sym b.super_same) volume.metadata) full2 fits in
      let at3 : inode_at nfs3 inum ≡ x = ap (λ t. get_or t inum blank_inode) t2.3 ∙ at2 in
      record {
        after = nfs3;
        device = d2;
        content = content2;
        cursor = k2;
        block = p;
        runs =
            ap
              (λ (o : Outcome (Progress × Ufs × D)). o >>= λ r.
                elim r.0 as (λ _. Outcome (ℕ × Ufs × D)) [
                  | no_block ↦ done (minus_one, r.1, r.2)
                  | written cur ↦ commit_and_sync disk r.1 r.2
                ])
              once
            ∙ e2;
        holds = h2;
        bytes =
            bytes_at-ap (overwrite content addr buf) content2 (p * 4096 + offset % 4096) n
              (λ a le lt. s2 a (omega (arith, b.in_data, le)))
            ∙ ap (λ a. bytes_at (overwrite content addr buf) a n) (sym place)
            ∙ bytes_at-overwrite content addr buf;
        pointer = ap (λ (y : Inode). get_or y.direct (offset / 4096) 0) at3 ∙ b.pointer;
        in_data = b.in_data;
        super_same = t2.0 ∙ b.super_same;
        inode_bp_same = t2.1 ∙ b.inode_bp_same;
        size = ap (λ (y : Inode). y.size) at3 ∙ omega (arith, b.size_same, small);
        type_same = ap (λ (y : Inode). y.type) at3 ∙ b.type_same;
      }

  -- For a file with room and a range that lies in one of its blocks, on a device that can be written:
  -- `ufs_write` returns 0, and a later `ufs_read` of the range gives the bytes written.
  pub ufs_read-ufs_write :
      (limit inum offset k : ℕ) (buf : List ℕ) (nfs : Ufs) (d : D) (content : ℕ → ℕ)
      → Holds d content k
      → IsVolume limit capacity nfs
      → limit ≤ capacity
      → IsWritable nfs inum offset (length buf)
      → CanHold limit capacity inum (offset / 4096) nfs
      → (nfs' : Ufs) × (d' : D) × (d'' : D) × (ufs_write disk inum buf (length buf) offset nfs d
          ≡ done (0, nfs', d'))
        × (ufs_read disk nfs' inum offset (length buf) d' ≡ done (0, buf, d''))
  unfolding ufs_write
  ufs_read-ufs_write limit inum offset k buf nfs d content h volume fits w room =
      let n = length buf in
      let i = offset / 4096 in
      let inode = inode_at nfs inum in
      let dirty = record nfs { dirty_inode_bp = set_bitmap nfs.dirty_inode_bp inum } in
      let c : (slt 4096 n
            || slt inode.size offset
            || not (inode.type == 1)
            || is_neg offset
            || is_neg n
            || n == 0)
          ≡ false =
        ground (arith, w.is_file, w.some_bytes, w.one_block, w.no_gap, w.fits) in
      let few : i < 30 = omega (arith, w.no_gap, w.fits, w.some_bytes) in
      let stored =
        write_blocks-Stored limit inum offset (29 - i) k buf dirty d content h few
          (record {
            metadata = volume.metadata;
            pointers = volume.pointers;
            low = volume.low;
            high = volume.high;
          })
          fits w.in_table w.some_bytes w.one_block (omega (arith, w.fits)) room in
      let left : 30 - i ≡ suc (29 - i) = omega (arith, few) in
      let same_block : (j : ℕ) → offset < j * 4096 + 4096 → j * 4096 < offset + n → i ≡ j =
        λ j le lt. omega (arith, le, lt, w.one_block) in
      let (d'', k'', reads, _) =
        ufs_read-file_bytes disk dev.readable stored.after inum offset n stored.cursor stored.device
          stored.content stored.holds
          (ap (λ (s : Super). is_neg inum || not (slt inum s.num_inodes)) stored.super_same
            ∙ w.range)
          (ap (λ bp. get_bitmap bp inum == 0) stored.inode_bp_same ∙ w.allocated) w.some_bytes
          (omega (arith, stored.size, w.no_gap)) (omega (arith, stored.size, w.fits))
          (inl (λ z. omega (arith, z, stored.type_same, w.is_file)))
          (λ j le lt.
            subst
              (λ (m : ℕ). get_or (inode_at stored.after inum).direct m 0 * 4096 + 4096 ≤ capacity)
              (same_block j le lt) (omega (arith, stored.pointer, stored.in_data))) in
      let direct = (inode_at stored.after inum).direct in
      let back : file_bytes stored.content direct offset n ≡ buf =
        ap (λ x. file_bytes stored.content direct x n) {x = offset} {y = i * 4096 + offset % 4096}
          (omega arith)
        ∙ file_bytes-block stored.content direct i (offset % 4096) n w.one_block
        ∙ ap (λ p. bytes_at stored.content (p * 4096 + offset % 4096) n) stored.pointer
        ∙ stored.bytes in
      (
        stored.after,
        stored.device,
        d'',
        rw (w.range, w.allocated, c)
            (ap
                (λ l.
                  write_blocks disk inum buf n l i 0 (offset % 4096) dirty d
                  >>= λ (r : Progress × Ufs × D). elim r.0 as (λ _. Outcome (ℕ × Ufs × D)) [
                    | no_block ↦ done (minus_one, r.1, r.2)
                    | written cur ↦ commit_and_sync disk r.1 r.2
                  ])
                left
              ∙ stored.runs),
        reads ∙ ap (λ bytes. done (0, bytes, d'')) back,
      )
