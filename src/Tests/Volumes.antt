-- ===== src/Tests/Volumes.antt =====
-- A file system in a memory that can be written, and a file of it.
use icix.Prelude.{List, ◌≤◌}
use icix.Prelude.{
  ℕ, zero, suc, ◌*◌, ◌^◌, [], ◌∷◌, ◌≡◌, refl, arith, inr, replicate, minus_one, shl32,
}
use icix.Outcome.{done}
use icix.Bitmap.{get_bitmap}
use icix.Ufs.Layout.{Inode}
use icix.Ufs.State.{Ufs}
use icix.Outcome.{Outcome, undefined}
use icix.Printf.Directive.{Arg, Directive}
use icix.Printf.Format.{Printer}
use icix.Ufs.Read.Laws.{PointersFit}
use icix.Listing.{Machine}
use icix.Paging.Init.{Vm}
use icix.Paging.Init.Identity.{IsBacked}
use icix.Tests.Printing.{paged}
use icix.Listing.{print_file}
use icix.Listing.Files.{file_shown, print_file-file_shown}
use icix.Listing.Laws.{IsFile}
use icix.Outcome.{aborted}
use icix.Host as Host
use icix.Mkfs.{Pwrite, layout, mkfs}
use icix.Ufs.Init.{ufs_init}
use icix.Ufs.Init.Image.{written, root_inode}
use icix.Ufs.Init.Formatted.{Mounts, ufs_init-mkfs}
use icix.Ufs.Write.{ufs_write}
use icix.Ufs.Read.{ufs_read}
use icix.Ufs.Commit.{commit_and_sync}
use icix.Ufs.Commit.Sync.{Commits, commit_and_sync-Commits}
use icix.Ufs.Write.RoundTrip.{IsWritable, ufs_read-ufs_write}
use icix.Tests.Ram.{
  Ram, ram_driver, ram_readable, ram, short_file, ram_volume, HasPointers-replicate,
  ram_volume-IsVolume, file_allocated,
}

second_block_free : get_bitmap ram_volume.data_bp 1 ≡ 0
unfolding get_bitmap shl32
second_block_free = refl

three_bytes-IsWritable : IsWritable ram_volume 1 10 3
three_bytes-IsWritable = record {
  range = refl;
  allocated = file_allocated;
  in_table = omega arith;
  is_file = refl;
  some_bytes = omega arith;
  one_block = omega arith;
  no_gap = omega arith;
  fits = omega arith;
}

ufs_read-ufs_write_example :
    (nfs' : Ufs) × (d' : Ram) × (d'' : Ram) × (ufs_write ram_driver 1
        (7 ∷ 8 ∷ 9 ∷ [])
        3
        10
        ram_volume
        (λ x. 0, 0)
      ≡ done (0, nfs', d'))
    × (ufs_read ram_driver nfs' 1 10 3 d' ≡ done (0, 7 ∷ 8 ∷ 9 ∷ [], d''))
ufs_read-ufs_write_example =
    ufs_read-ufs_write ram_driver ram (4 * 4096) 1 10 0 (7 ∷ 8 ∷ 9 ∷ []) ram_volume (λ x. 0, 0)
      (λ x. 0) refl ram_volume-IsVolume (omega arith) three_bytes-IsWritable
      (inr (refl, 1, omega arith, second_block_free))

commit_and_sync-Commits_example :
    Commits ram_driver ram
      (4 * 4096)
      (λ x. 0)
      (record ram_volume { dirty_inode_bp = 2 ^ 30 ∷ [] })
      (commit_and_sync ram_driver (record ram_volume { dirty_inode_bp = 2 ^ 30 ∷ [] }) (λ x. 0, 0))
commit_and_sync-Commits_example =
    commit_and_sync-Commits ram_driver ram (4 * 4096) 0
      (record ram_volume { dirty_inode_bp = 2 ^ 30 ∷ [] }) (λ x. 0, 0) (λ x. 0) refl
      ram_volume-IsVolume.metadata (HasPointers-replicate 32) (omega arith)

abbrev listed_file : Inode
listed_file = record { type = 1; size = 10; direct = 4 ∷ replicate 29 minus_one }

abbrev listed_volume : Ufs
listed_volume = record ram_volume { inodes = short_file ∷ listed_file ∷ replicate 30 short_file }

listed_fits : PointersFit (2 ^ 20) listed_file.direct 0 10
listed_fits zero p q = omega arith
listed_fits (suc i) p q = absurd (omega arith)

listed-IsFile : IsFile (2 ^ 20) (λ x. 65) listed_volume 1
listed-IsFile = record {
  range = refl;
  allocated = file_allocated;
  not_directory = λ e. omega (arith, e);
  small = omega arith;
  fits = listed_fits;
  bytes = λ x. omega arith;
}

abbrev log : ℕ → List ℕ → List ℕ
log c shown = c ∷ shown

abbrev no_double : Directive → Printer (List ℕ) → List Arg → Outcome (Printer (List ℕ) × List Arg)
no_double s p args = undefined

abbrev machine : Machine (List ℕ) Ram
machine = record { console = []; device = (λ x. 65, 0); vm = paged.0 }

print_file-file_shown_example :
    (d' : Ram) × (k' : ℕ) × (vm' : Vm) × (print_file log no_double ram_driver listed_volume 1
        machine
      ≡ done (record {
        console = file_shown log no_double ram_driver ram_readable listed_volume (λ x. 65) 1 [];
        device = d';
        vm = vm';
      }))
    × ram_readable.Holds d' (λ x. 65) k'
    × IsBacked vm'
print_file-file_shown_example =
    print_file-file_shown log no_double ram_driver ram_readable listed_volume 1 0 machine (λ x. 65)
      refl listed-IsFile (omega arith) paged.4 (omega (arith, paged.3))

abbrev pub image_of : Outcome (List Pwrite) → List Pwrite
image_of (done ws) = ws
image_of aborted = []
image_of undefined = []

abbrev pub image : List Pwrite
image = image_of (mkfs Host.strcpy 32 32 [] [])

pub formatted : mkfs Host.strcpy 32 32 [] [] ≡ done image
unfolding mkfs
formatted = refl

layout_fits : (layout 32 32).data_region_addr * 4096 ≤ 2 ^ 20
unfolding layout
layout_fits = omega arith

ufs_init-mkfs_example :
    Mounts
      (layout 32 32)
      (root_inode (layout 32 32).data_region_addr)
      (ufs_init ram_driver (0 ∷ []) (0 ∷ []) (written (λ x. 0) image, 0))
ufs_init-mkfs_example =
    ufs_init-mkfs ram_driver ram_readable Host.strcpy 32 32 [] [] image (λ x. 0) (0 ∷ []) (0 ∷ [])
      (written (λ x. 0) image, 0) formatted (omega arith) (omega arith) layout_fits refl
