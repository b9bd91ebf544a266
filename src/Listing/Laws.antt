-- ===== src/Listing/Laws.antt =====
-- What `print_file` shows of a file.
use mathlib.Core.Path.{sym}
use icix.Prelude.{
  ℕ, zero, suc, ◌+◌, ◌-◌, ◌*◌, ◌/◌, ◌%◌, ◌^◌, ◌≤◌, ◌<◌, ◌==◌, ◌||◌, is_neg, slt, List, [], ◌∷◌, ◌≡◌,
  ◌≢◌, ◌∙◌, refl, ap, arith, inl, minus_one, add32, u8, get_or, true, false,
}
use native.Mathlib.Decide.{dec_lt}
use icix.Outcome.{Outcome, done, ◌>>=◌}
use icix.Disk.{DiskDriver}
use icix.Disk.Device.{ReadableDevice}
use icix.Printf.Directive.{Arg, int_arg, Directive}
use icix.Printf.Format.{Printer, sign_extend, printf}
use icix.Ufs.State.{Ufs, inode_at, out_of_range, is_unallocated}
use icix.Ufs.Read.{ufs_read}
use icix.Ufs.Read.Laws.{file_bytes, PointersFit, ufs_read-file_bytes}
use icix.Listing.{Machine, character_format, say, print_bytes}

-- One character after the other on the console.
abbrev pub shows : {S : Type 0} → (ℕ → S → S) → List ℕ → S → S
shows putchar [] s = s
shows putchar (c ∷ cs) s = shows putchar cs (putchar c s)

-- `%c` shows its character.
printf_character :
    {S : Type 0} (putchar : ℕ → S → S)
    (put_double : Directive → Printer S → List Arg → Outcome (Printer S × List Arg)) (n : ℕ) (s : S)
    → printf putchar put_double character_format (int_arg n ∷ []) s ≡ done (putchar (u8 n) s, 1)
unfolding printf
printf_character putchar put_double n s = refl

-- At the end of the file the read fails.
ufs_read-past_end :
    {D : Type 0} (disk : DiskDriver D) (nfs : Ufs) (inum offset : ℕ) (d : D)
    → out_of_range nfs inum ≡ false
    → is_unallocated nfs inum ≡ false
    → offset ≡ (inode_at nfs inum).size
    → offset ≤ 30 * 4096
    → ufs_read disk nfs inum offset 1 d ≡ done (minus_one, [], d)
unfolding ufs_read
ufs_read-past_end disk nfs inum offset d range allocated at small =
    let t : (is_neg offset || (is_neg 1 || 1 == 0) || slt (inode_at nfs inum).size (add32 offset 1))
        ≡ true =
      ground (arith, at) in
    rw (range, allocated, t) refl

-- A file of bytes whose blocks lie on the device.
pub record IsFile (capacity : ℕ) (content : ℕ → ℕ) (nfs : Ufs) (inum : ℕ) : Type 0 where
  pub range : out_of_range nfs inum ≡ false
  pub allocated : is_unallocated nfs inum ≡ false
  pub not_directory : (inode_at nfs inum).type ≢ 0
  pub small : (inode_at nfs inum).size ≤ 30 * 4096
  pub fits : PointersFit capacity (inode_at nfs inum).direct 0 (inode_at nfs inum).size
  pub bytes : (x : ℕ) → content x < 2 ^ 8

module _ {S D : Type 0} (putchar : ℕ → S → S)
    (put_double : Directive → Printer S → List Arg → Outcome (Printer S × List Arg))
    (disk : DiskDriver D) (dev : ReadableDevice disk) (nfs : Ufs) where
  open dev use {capacity, Holds}

  -- The body of the loop after its read.
  abbrev after_read : ℕ → ℕ → ℕ → Machine S D → Outcome (ℕ × List ℕ × D) → Outcome (Machine S D)
  after_read inum fuel offset m o = o >>= λ (rc, buf, d1).
      let m1 = record m { device = d1 } in
      elim (rc == 0) as (λ _. Outcome (Machine S D)) [
        | true ↦
            say putchar put_double disk nfs character_format
              (int_arg (sign_extend (2 ^ 7) (get_or buf 0 0)) ∷ []) m1
            >>= λ m2. print_bytes putchar put_double disk nfs inum fuel (add32 offset 1) m2
        | false ↦ done m1
      ]

  -- On a device that can be read, with fuel for the rest of a file: the loop of `print_file` ends,
  -- and puts exactly the bytes of the file from the offset on, in order, on the console.
  pub print_bytes-file_bytes :
      (fuel inum offset k : ℕ) (m : Machine S D) (content : ℕ → ℕ)
      → Holds m.device content k
      → IsFile capacity content nfs inum
      → offset ≤ (inode_at nfs inum).size
      → (inode_at nfs inum).size - offset < fuel
      → (d' : D) × (k' : ℕ) × (print_bytes putchar put_double disk nfs inum fuel offset m
          ≡ done (record m {
            console =
                shows putchar
                  (file_bytes content
                    (inode_at nfs inum).direct
                    offset
                    ((inode_at nfs inum).size - offset))
                  m.console;
            device = d';
          }))
        × Holds d' content k'
  unfolding print_bytes file_bytes
  print_bytes-file_bytes zero inum offset k m content h file le enough = absurd (omega arith)
  print_bytes-file_bytes (suc fuel) inum offset k m content h file le enough =
      let size = (inode_at nfs inum).size in
      let direct = (inode_at nfs inum).direct in
      elim (dec_lt offset size) [
        | no end ↦
            let at : offset ≡ size = omega (arith, le, end) in
            let none : size - offset ≡ 0 = omega (arith, at) in
            (
              m.device,
              k,
              ap (after_read inum fuel offset m) (
                    ufs_read-past_end disk nfs inum offset m.device file.range file.allocated at
                      (omega (arith, le, file.small)))
                  ∙ ap
                      (λ n. done (record m {
                        console = shows putchar (file_bytes content direct offset n) m.console;
                      }))
                      (sym none),
              h,
            )
        | yes more ↦
            let (d1, k1, e1, h1) =
              ufs_read-file_bytes disk dev nfs inum offset 1 k m.device content h file.range
                file.allocated (omega arith) (omega (arith, more)) file.small
                (inl file.not_directory)
                (λ i p q. file.fits i (omega arith) (omega (arith, q, more))) in
            let c = content (get_or direct (offset / 4096) 0 * 4096 + offset % 4096) in
            let byte : u8 (sign_extend (2 ^ 7) c) ≡ c =
              ground (arith, file.bytes (get_or direct (offset / 4096) 0 * 4096 + offset % 4096)) in
            let m1 : Machine S D = record m { console = putchar c m.console; device = d1 } in
            let (d2, k2, e2, h2) =
              print_bytes-file_bytes fuel inum (offset + 1) k1 m1 content h1 file (omega arith)
                (omega (arith, enough, more)) in
            let next : add32 offset 1 ≡ offset + 1 = omega (arith, more, file.small) in
            let count : suc (size - (offset + 1)) ≡ size - offset = omega (arith, more) in
            let loop = print_bytes putchar put_double disk nfs inum fuel in
            (
              d2,
              k2,
              ap (after_read inum fuel offset m) e1
                  ∙ ap
                      (λ (o : Outcome (S × ℕ)).
                        (o >>= λ q. done (record m { console = q.0; device = d1 })) >>= λ m2.
                        loop (add32 offset 1) m2)
                      (printf_character putchar put_double (sign_extend (2 ^ 7) c) m.console)
                  ∙ ap
                      (λ b.
                        loop (add32 offset 1)
                          (record m { console = putchar b m.console; device = d1 }))
                      byte
                  ∙ ap (λ o. loop o m1) next
                  ∙ e2
                  ∙ ap
                      (λ n. done (record m {
                        console = shows putchar (file_bytes content direct offset n) m.console;
                        device = d2;
                      }))
                      count,
              h2,
            )
      ]
