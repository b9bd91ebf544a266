-- ===== src/Listing/Entries.antt =====
-- What `print_fs_contents` shows of the entries of a directory.
use mathlib.Core.Path.{sym}
use icix.Prelude.{
  ℕ, zero, suc, ◌+◌, ◌-◌, ◌*◌, ◌^◌, ◌≤◌, ◌<◌, ◌==◌, ◌||◌, not, is_neg, slt, List, [], ◌∷◌, ◌++◌,
  ◌≡◌, ◌∙◌, refl, ap, arith, inr, minus_one, add32, length, true, false,
}
use native.Mathlib.Decide.{dec_lt}
use icix.Outcome.{Outcome, done, ◌>>=◌}
use icix.Cstring.Laws.{text}
use icix.Disk.{DiskDriver}
use icix.Disk.Device.{ReadableDevice}
use icix.Printf.Directive.{Arg, int_arg, string_arg, Directive}
use icix.Printf.Number.Decimal.{decimal}
use icix.Printf.Number.Shown.{up_to_five}
use icix.Printf.Format.{Printer, printf}
use icix.Printf.Format.Laws.{displayed, vprintf-displayed}
use icix.Printf.Format.Arguments.{is_plain-IsPlain, vprintf-text, vprintf-decimal, vprintf-string}
use icix.Ufs.Layout.{DirEnt, dir_ent_of}
use icix.Ufs.Lookup.{name_pointer}
use icix.Ufs.State.{Ufs, inode_at, out_of_range, is_unallocated}
use icix.Ufs.Read.{ufs_read}
use icix.Ufs.Read.Laws.{file_bytes, PointersFit, ufs_read-file_bytes}
use icix.Listing.{Machine, entry_format, say, print_entries}
use icix.Listing.Shown.{shown, shown-append, displayed-append, console-displayed}

-- The line of an entry: its number up to the first digit from 5 on, and its name.
abbrev pub entry_line : DirEnt → List ℕ
entry_line e =
    (b'(' ∷ [])
    ++ (up_to_five (decimal 31 e.inum)
        ++ ((b',' ∷ b' ' ∷ []) ++ (text (name_pointer e) ++ (b')' ∷ b',' ∷ b' ' ∷ b' ' ∷ []))))

-- The entry j of a directory, and n of them from there on.
abbrev pub entry_of : (ℕ → ℕ) → List ℕ → ℕ → DirEnt
entry_of content direct j = dir_ent_of (file_bytes content direct (j * 32) 32)

abbrev pub entry_lines : (ℕ → ℕ) → List ℕ → ℕ → ℕ → List ℕ
entry_lines content direct j zero = []
entry_lines content direct j (suc n) =
    entry_line (entry_of content direct j) ++ entry_lines content direct (j + 1) n

-- A directory of n entries, all in use, whose blocks lie on the device.
pub record IsDirectory (capacity : ℕ) (content : ℕ → ℕ) (nfs : Ufs) (inum n : ℕ) : Type 0 where
  pub range : out_of_range nfs inum ≡ false
  pub allocated : is_unallocated nfs inum ≡ false
  pub size : (inode_at nfs inum).size ≡ n * 32
  pub small : n ≤ 3840
  pub fits : PointersFit capacity (inode_at nfs inum).direct 0 (n * 32)
  pub numbers : (j : ℕ) → j < n → (entry_of content (inode_at nfs inum).direct j).inum < 2 ^ 31
  pub names :
      (j : ℕ)
      → j < n
      → let name = name_pointer (entry_of content (inode_at nfs inum).direct j) in
        length (text name) < length name

-- Behind the last entry the read fails.
ufs_read-past_entries :
    {D : Type 0} (disk : DiskDriver D) (nfs : Ufs) (inum offset : ℕ) (d : D)
    → out_of_range nfs inum ≡ false
    → is_unallocated nfs inum ≡ false
    → offset ≡ (inode_at nfs inum).size
    → offset ≤ 30 * 4096
    → ufs_read disk nfs inum offset 32 d ≡ done (minus_one, [], d)
unfolding ufs_read
ufs_read-past_entries disk nfs inum offset d range allocated at small =
    let t : (is_neg offset
          || (is_neg 32 || 32 == 0)
          || slt (inode_at nfs inum).size (add32 offset 32))
        ≡ true =
      ground (arith, at) in
    rw (range, allocated, t) refl

module _ {S : Type 0} (putchar : ℕ → S → S)
    (put_double : Directive → Printer S → List Arg → Outcome (Printer S × List Arg)) where
  -- One entry on the console.
  printf-entry :
      (e : DirEnt) (s : S)
      → e.inum < 2 ^ 31
      → length (text (name_pointer e)) < length (name_pointer e)
      → (n : ℕ) × (printf putchar put_double entry_format
            (int_arg e.inum ∷ string_arg (name_pointer e) ∷ [])
            s
          ≡ done (shown putchar (entry_line e) s, n))
  unfolding printf
  printf-entry e s few ends =
      let p : Printer S = record { console = s; chars = 0; stores = [] } in
      let name = name_pointer e in
      let number = up_to_five (decimal 31 e.inum) in
      let close = b')' ∷ b',' ∷ b' ' ∷ b' ' ∷ [] in
      let p1 = displayed putchar (b'(' ∷ []) p in
      let p2 = displayed putchar number p1 in
      let p3 = displayed putchar (b',' ∷ b' ' ∷ []) p2 in
      let p4 = displayed putchar (text name) p3 in
      let p5 = displayed putchar close p4 in
      let line : p5 ≡ displayed putchar (entry_line e) p = sym (
        displayed-append putchar number ((b',' ∷ b' ' ∷ []) ++ (text name ++ close)) p1
        ∙ displayed-append putchar (text name) close p3) in
      (
        p5.chars,
        ap (λ (o : Outcome (Printer S)). o >>= λ q. done (q.console, q.chars))
              (vprintf-text putchar put_double (b'(' ∷ [])
                  (b'%' ∷ b'd' ∷ b',' ∷ b' ' ∷ b'%' ∷ b's' ∷ b')' ∷ b',' ∷ b' ' ∷ b' ' ∷ 0 ∷ [])
                  (int_arg e.inum ∷ string_arg name ∷ []) p (is_plain-IsPlain (b'(' ∷ []) refl)
                ∙ vprintf-decimal putchar put_double b','
                    (b' ' ∷ b'%' ∷ b's' ∷ b')' ∷ b',' ∷ b' ' ∷ b' ' ∷ 0 ∷ []) (string_arg name ∷ [])
                    e.inum p1 few
                ∙ vprintf-text putchar put_double (b',' ∷ b' ' ∷ [])
                    (b'%' ∷ b's' ∷ b')' ∷ b',' ∷ b' ' ∷ b' ' ∷ 0 ∷ []) (string_arg name ∷ []) p2
                    (is_plain-IsPlain (b',' ∷ b' ' ∷ []) refl)
                ∙ vprintf-string putchar put_double b')' (b',' ∷ b' ' ∷ b' ' ∷ 0 ∷ []) [] name p3
                    ends
                ∙ vprintf-displayed putchar put_double close [] [] p4 (is_plain-IsPlain close refl))
            ∙ ap (λ c. done (c, p5.chars))
                (ap (λ (q : Printer S). q.console) line
                  ∙ console-displayed putchar (entry_line e) p),
      )

  module _ {D : Type 0} (disk : DiskDriver D) (dev : ReadableDevice disk) (nfs : Ufs) where
    open dev use {capacity, Holds}

    -- The body of the loop after its read.
    abbrev after_read : ℕ → ℕ → ℕ → Machine S D → Outcome (ℕ × List ℕ × D) → Outcome (Machine S D)
    after_read inum fuel offset m o = o >>= λ (rc, buf, d1).
        let m1 = record m { device = d1 } in
        let et = dir_ent_of buf in
        elim (not (rc == 0) || et.inum == minus_one) as (λ _. Outcome (Machine S D)) [
          | true ↦ done m1
          | false ↦
              say putchar put_double disk nfs entry_format
                (int_arg et.inum ∷ string_arg (name_pointer et) ∷ []) m1
              >>= λ m2. print_entries putchar put_double disk nfs inum fuel (add32 offset 32) m2
        ]

    -- On a device that can be read, with fuel for the rest of a directory whose entries are all in use:
    -- the first loop of `print_fs_contents` ends, and puts exactly the lines of the entries from the
    -- offset on, in order, on the console.
    pub print_entries-entry_lines :
        (fuel inum n j k : ℕ) (m : Machine S D) (content : ℕ → ℕ)
        → Holds m.device content k
        → IsDirectory capacity content nfs inum n
        → j ≤ n
        → n - j < fuel
        → (d' : D) × (k' : ℕ) × (print_entries putchar put_double disk nfs inum fuel (j * 32) m
            ≡ done (record m {
              console =
                  shown putchar
                    (entry_lines content (inode_at nfs inum).direct j (n - j))
                    m.console;
              device = d';
            }))
          × Holds d' content k'
    unfolding print_entries
    print_entries-entry_lines zero inum n j k m content h dir le enough = absurd (omega arith)
    print_entries-entry_lines (suc fuel) inum n j k m content h dir le enough =
        let direct = (inode_at nfs inum).direct in
        elim (dec_lt j n) [
          | no end ↦
              let none : 0 ≡ n - j = omega (arith, le, end) in
              (
                m.device,
                k,
                ap (after_read inum fuel (j * 32) m) (
                      ufs_read-past_entries disk nfs inum (j * 32) m.device dir.range dir.allocated
                        (omega (arith, dir.size, le, end)) (omega (arith, le, dir.small)))
                    ∙ ap
                        (λ i. done (record m {
                          console = shown putchar (entry_lines content direct j i) m.console;
                        }))
                        none,
                h,
              )
          | yes more ↦
              let e = entry_of content direct j in
              let (d1, k1, e1, h1) =
                ufs_read-file_bytes disk dev nfs inum (j * 32) 32 k m.device content h dir.range
                  dir.allocated (omega arith) (omega (arith, more, dir.size))
                  (omega (arith, dir.size, dir.small)) (inr (omega arith))
                  (λ i p q. dir.fits i (omega arith) (omega (arith, q, more))) in
              let few = dir.numbers j more in
              let used : (e.inum == minus_one) ≡ false = ground (arith, few) in
              let (chars, e2) = printf-entry e m.console few (dir.names j more) in
              let m1 : Machine S D = record m { device = d1 } in
              let m2 : Machine S D = record m {
                console = shown putchar (entry_line e) m.console;
                device = d1;
              } in
              let (d2, k2, e3, h2) =
                print_entries-entry_lines fuel inum n (j + 1) k1 m2 content h1 dir
                  (omega (arith, more)) (omega (arith, enough, more)) in
              let next : add32 (j * 32) 32 ≡ (j + 1) * 32 = omega (arith, more, dir.small) in
              let loop = print_entries putchar put_double disk nfs inum fuel in
              let count : n - j ≡ suc (n - (j + 1)) = omega (arith, more) in
              (
                d2,
                k2,
                ap (after_read inum fuel (j * 32) m) e1
                    ∙ ap
                        (λ b. elim b as (λ _. Outcome (Machine S D)) [
                          | true ↦ done m1
                          | false ↦
                              say putchar put_double disk nfs entry_format
                                (int_arg e.inum ∷ string_arg (name_pointer e) ∷ []) m1
                              >>= λ m2. loop (add32 (j * 32) 32) m2
                        ])
                        used
                    ∙ ap
                        (λ (o : Outcome (S × ℕ)).
                          (o >>= λ q. done (record m { console = q.0; device = d1 })) >>= λ m2.
                          loop (add32 (j * 32) 32) m2)
                        e2
                    ∙ ap (λ o. loop o m2) next
                    ∙ e3
                    ∙ ap (λ s. done (record m { console = s; device = d2 }))
                        (sym (
                            shown-append putchar (entry_line e)
                              (entry_lines content direct (j + 1) (n - (j + 1))) m.console)
                          ∙ ap (λ i. shown putchar (entry_lines content direct j i) m.console)
                              (sym count)),
                h2,
              )
        ]
