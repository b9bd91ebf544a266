-- ===== src/Listing/Files.antt =====
-- What `print_file` shows, from its heading on, and the block that it takes from the heap.
use icix.Prelude.{
  ℕ, ◌+◌, ◌-◌, ◌^◌, ◌≤◌, ◌<◌, List, [], ◌∷◌, ◌++◌, ◌≡◌, ◌∙◌, refl, ap, arith, take, drop,
}
use mathlib.Core.Path.{sym}
use icix.Outcome.{Outcome, done, ◌>>=◌, >>=-done}
use icix.Disk.{DiskDriver}
use icix.Disk.Device.{ReadableDevice}
use icix.Paging.Init.{Vm}
use icix.Paging.Init.Identity.{IsBacked}
use icix.Paging.Heap.{malloc}
use icix.Paging.Heap.Backed.{malloc-Allocates}
use icix.Printf.Directive.{Arg, int_arg, Directive}
use icix.Printf.Number.Decimal.{decimal}
use icix.Printf.Number.Shown.{up_to_five}
use icix.Printf.Format.{Printer, printf}
use icix.Printf.Format.Laws.{displayed, vprintf-displayed}
use icix.Printf.Format.Arguments.{is_plain-IsPlain, vprintf-text, vprintf-decimal}
use icix.Ufs.State.{Ufs, inode_at}
use icix.Ufs.Read.Laws.{file_bytes}
use icix.Listing.{Machine, newline, file_heading, say, print_bytes, print_file}
use icix.Listing.Laws.{IsFile, shows, print_bytes-file_bytes}
use icix.Listing.Shown.{shown, displayed-append, console-displayed}

-- The heading of a file, with its number up to the first digit from 5 on.
abbrev pub heading : ℕ → List ℕ
heading inum =
    take 28 file_heading
    ++ (up_to_five (decimal 31 inum) ++ (b')' ∷ b':' ∷ b' ' ∷ 10 ∷ b' ' ∷ b' ' ∷ b' ' ∷ b' ' ∷ []))

module _ {S : Type 0} (putchar : ℕ → S → S)
    (put_double : Directive → Printer S → List Arg → Outcome (Printer S × List Arg)) where
  printf-newline : (s : S) → printf putchar put_double newline [] s ≡ done (putchar 10 s, 1)
  unfolding printf
  printf-newline s = refl

  printf-heading :
      (inum : ℕ) (s : S)
      → inum < 2 ^ 31
      → (n : ℕ) × (printf putchar put_double file_heading (int_arg inum ∷ []) s
          ≡ done (shown putchar (heading inum) s, n))
  unfolding printf
  printf-heading inum s few =
      let p : Printer S = record { console = s; chars = 0; stores = [] } in
      let front = take 28 file_heading in
      let number = up_to_five (decimal 31 inum) in
      let back = b')' ∷ b':' ∷ b' ' ∷ 10 ∷ b' ' ∷ b' ' ∷ b' ' ∷ b' ' ∷ [] in
      let p1 = displayed putchar front p in
      let p2 = displayed putchar number p1 in
      let p3 = displayed putchar back p2 in
      let line : p3 ≡ displayed putchar (heading inum) p = sym (
        displayed-append putchar front (number ++ back) p
        ∙ displayed-append putchar number back p1) in
      (
        p3.chars,
        ap (λ (o : Outcome (Printer S)). o >>= λ q. done (q.console, q.chars))
              (vprintf-text putchar put_double front (drop 28 file_heading) (int_arg inum ∷ []) p
                  (is_plain-IsPlain front refl)
                ∙ vprintf-decimal putchar put_double b')' (drop 31 file_heading) [] inum p1 few
                ∙ vprintf-displayed putchar put_double back [] [] p2 (is_plain-IsPlain back refl))
            ∙ ap (λ c. done (c, p3.chars))
                (ap (λ (q : Printer S). q.console) line
                  ∙ console-displayed putchar (heading inum) p),
      )

  module _ {D : Type 0} (disk : DiskDriver D) (dev : ReadableDevice disk) (nfs : Ufs) where
    open dev use {capacity, Holds}

    -- The console behind the listing of a file.
    abbrev pub file_shown : (ℕ → ℕ) → ℕ → S → S
    file_shown content inum s = putchar 10 (
        shows putchar
          (file_bytes content (inode_at nfs inum).direct 0 ((inode_at nfs inum).size - 0))
          (shown putchar (heading inum) (putchar 10 s)))

    -- A call of `printf` on the machine.
    say-runs :
        (format : List ℕ) (args : List Arg) (m : Machine S D) (s : S) (n : ℕ)
        → printf putchar put_double format args m.console ≡ done (s, n)
        → say putchar put_double disk nfs format args m ≡ done (record m { console = s })
    say-runs format args m s n e =
        ap (λ (o : Outcome (S × ℕ)). o >>= λ q. done (record m { console = q.0 })) e

    -- For a file on a device that can be read, with the memory in use mapped and room for a block below
    -- 4 MB: `print_file` ends, with its heading and then exactly the bytes of the file on the console,
    -- the device unchanged, and again all memory in use mapped.
    pub print_file-file_shown :
        (inum k : ℕ) (m : Machine S D) (content : ℕ → ℕ)
        → Holds m.device content k
        → IsFile capacity content nfs inum
        → inum < 2 ^ 31
        → IsBacked m.vm
        → m.vm.free_addr + 4097 ≤ 2 ^ 22
        → (d' : D) × (k' : ℕ) × (vm' : Vm) × (print_file putchar put_double disk nfs inum m
            ≡ done (record { console = file_shown content inum m.console; device = d'; vm = vm' }))
          × Holds d' content k'
          × IsBacked vm'
    unfolding print_file
    print_file-file_shown inum k m content h file few backed small =
        let s1 = putchar 10 m.console in
        let s2 = shown putchar (heading inum) s1 in
        let (n2, e2) = printf-heading inum s1 few in
        let m1 : Machine S D = record m { console = s1 } in
        let (_, vm', e3, _, _, _, _, backed', _) =
          malloc-Allocates 1 m.vm backed (omega (arith, small)) in
        let m3 : Machine S D = record { console = s2; device = m.device; vm = vm' } in
        let (d', k', e4, h') =
          print_bytes-file_bytes putchar put_double disk dev nfs ((inode_at nfs inum).size + 1) inum
            0 k m3 content h file (omega arith) (omega arith) in
        let m4 : Machine S D = record {
          console =
              shows putchar
                (file_bytes content (inode_at nfs inum).direct 0 ((inode_at nfs inum).size - 0)) s2;
          device = d';
          vm = vm';
        } in
        let last = λ (x : Machine S D). say putchar put_double disk nfs newline [] x in
        let bytes = λ (x : Machine S D) (r : ℕ × Vm).
          print_bytes putchar put_double disk nfs inum ((inode_at nfs inum).size + 1) 0
            (record x { vm = r.1 })
          >>= last in
        let block = λ (x : Machine S D). malloc 1 x.vm >>= bytes x in
        let title = λ (x : Machine S D).
          say putchar put_double disk nfs file_heading (int_arg inum ∷ []) x >>= block in
        (
          d',
          k',
          vm',
          >>=-done title (say-runs newline [] m s1 1 (printf-newline m.console)) (
              >>=-done block (say-runs file_heading (int_arg inum ∷ []) m1 s2 n2 e2) (
                >>=-done (bytes (record m { console = s2 })) e3 (
                  >>=-done last e4 (
                    say-runs newline [] m4 (putchar 10 m4.console) 1
                      (printf-newline m4.console))))),
          h',
          backed',
        )
