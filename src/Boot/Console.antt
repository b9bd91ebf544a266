-- ===== src/Boot/Console.antt =====
-- The messages of the boot reach the console.
use icix.Prelude.{ℕ, ◌^◌, ◌<◌, List, [], ◌∷◌, ◌++◌, ◌≡◌, ◌∙◌, refl, ap, length, drop, true}
use icix.Outcome.{Outcome, done, ◌>>=◌}
use icix.Cstring.Laws.{text}
use icix.Terminal.{Terminal, terminal_write}
use icix.Printf.Directive.{Arg, Directive, int_arg, string_arg}
use icix.Printf.Format.{Printer, printf, putchar}
use icix.Printf.Format.Laws.{displayed, vprintf-displayed, printf-plain}
use icix.Printf.Format.Arguments.{
  is_plain, is_plain-IsPlain, vprintf-text, vprintf-decimal, vprintf-string,
}
use icix.Printf.Number.Decimal.{decimal}
use icix.Printf.Number.Shown.{up_to_five}
use icix.Boot.{MultibootHeader, announce, greet}
use icix.Boot.Messages.{modules_text, booted_text}

module _
    (put_double : Directive
      → Printer Terminal
      → List Arg
      → Outcome (Printer Terminal × List Arg)) where
  pub announce-writes :
      (text : List ℕ) (t : Terminal)
      → is_plain text ≡ true
      → announce put_double text t ≡ done (terminal_write t text (length text))
  unfolding announce
  announce-writes text t h =
      ap (λ (o : Outcome (Terminal × ℕ)). o >>= λ r. done r.0)
        (printf-plain put_double text [] [] t (is_plain-IsPlain text h))

  pub greet-shows :
      (header : MultibootHeader) (t : Terminal)
      → header.mods_count < 2 ^ 31
      → length (text header.boot_loader_name) < length header.boot_loader_name
      → (t' : Terminal) × (greet put_double header t ≡ done t')
  unfolding greet printf
  greet-shows header t few ends =
      let p : Printer Terminal = record { console = t; chars = 0; stores = [] } in
      let name = header.boot_loader_name in
      let end = b'%' ∷ b's' ∷ 10 ∷ 0 ∷ [] in
      let p1 = displayed putchar modules_text p in
      let p2 = displayed putchar (up_to_five (decimal 31 header.mods_count)) p1 in
      let p3 = displayed putchar booted_text p2 in
      let p4 = displayed putchar (text name) p3 in
      let p5 = displayed putchar (10 ∷ []) p4 in
      (
        p5.console,
        ap
            (λ (o : Outcome (Printer Terminal)).
              (o >>= λ q. done (q.console, q.chars)) >>= λ (r : Terminal × ℕ). done r.0)
            (vprintf-text putchar put_double modules_text (b'%' ∷ b'd' ∷ (booted_text ++ end))
                (int_arg header.mods_count ∷ string_arg name ∷ []) p
                (is_plain-IsPlain modules_text refl)
              ∙ vprintf-decimal putchar put_double 10 (drop 1 booted_text ++ end)
                  (string_arg name ∷ []) header.mods_count p1 few
              ∙ vprintf-text putchar put_double booted_text end (string_arg name ∷ []) p2
                  (is_plain-IsPlain booted_text refl)
              ∙ vprintf-string putchar put_double 10 (0 ∷ []) [] name p3 ends
              ∙ vprintf-displayed putchar put_double (10 ∷ []) [] [] p4
                  (is_plain-IsPlain (10 ∷ []) refl)),
      )
