-- ===== src/Printf/Format/Laws.antt =====
-- What `vprintf` puts on the console for text, and which directives put nothing there.
use icix.Prelude.{
  ℕ, suc, ◌+◌, ◌%◌, ◌^◌, ◌<◌, ◌==◌, false, List, [], ◌∷◌, ◌++◌, ◌≡◌, ◌≢◌, ◌∙◌, refl, ap, arith,
  length, u8,
}
use icix.Outcome.{Outcome, done}
use icix.Terminal.{Terminal, terminal_write, terminal_putchar}
use icix.Printf.Directive.{Arg, Directive, read_directive}
use icix.Printf.Format.{
  Printer, display_character, put_directive, vprintf_from, vprintf, printf, putchar,
}
use icix.Printf.Format.Fuel.{vprintf_from-eq-vprintf}

-- Bytes of a text with no directive.
abbrev pub IsPlain : List ℕ → Type 0
IsPlain [] = Unit {0}
IsPlain (c ∷ t) = ((c ≢ 0) × (c ≢ b'%') × (c < 2 ^ 8)) × IsPlain t

-- The characters one after the other.
abbrev pub displayed : {S : Type 0} → (ℕ → S → S) → List ℕ → Printer S → Printer S
displayed put [] p = p
displayed put (c ∷ t) p = displayed put t (display_character put c p)

module _ {S : Type 0} (put : ℕ → S → S)
    (put_double : Directive → Printer S → List Arg → Outcome (Printer S × List Arg)) where
  pub vprintf-displayed :
      (t rest : List ℕ) (args : List Arg) (p : Printer S)
      → IsPlain t
      → vprintf put put_double (t ++ 0 ∷ rest) args p ≡ done (displayed put t p)
  unfolding vprintf vprintf_from
  vprintf-displayed [] rest args p h = refl
  vprintf-displayed (c ∷ t) rest args p h =
      let e : (c == 0) ≡ false = ground (arith, h.0.0) in
      let f : (c == b'%') ≡ false = ground (arith, h.0.1) in
      rw (e, vprintf_from)
        (rw (f, vprintf_from) (vprintf-displayed t rest args (display_character put c p) h.1))

  percent_round :
      (rest : List ℕ) (args : List Arg) (p : Printer S)
      → vprintf_from put put_double (suc (suc (length rest))) (b'%' ∷ b'%' ∷ rest) args p
        ≡ vprintf_from put put_double (suc (length rest)) rest args p
  unfolding vprintf_from put_directive read_directive
  percent_round [] args p = refl
  percent_round (c ∷ rest) args p = refl

  hh_round :
      (rest : List ℕ) (args : List Arg) (p : Printer S)
      → vprintf_from put put_double
          (suc (suc (suc (length rest))))
          (b'%' ∷ b'h' ∷ b'h' ∷ rest)
          args
          p
        ≡ vprintf_from put put_double (suc (suc (length rest))) rest args p
  unfolding vprintf_from put_directive read_directive
  hh_round rest args p = refl

  -- `%%` and `%hh` put nothing on the console and take no argument: what follows them is formatted
  -- as if they were not there, so that `%hhd` shows the letter `d`.
  pub vprintf-silent :
      (rest : List ℕ) (args : List Arg) (p : Printer S)
      → (vprintf put put_double (b'%' ∷ b'%' ∷ rest) args p ≡ vprintf put put_double rest args p)
        × (vprintf put put_double (b'%' ∷ b'h' ∷ b'h' ∷ rest) args p
            ≡ vprintf put put_double rest args p)
  unfolding vprintf
  vprintf-silent rest args p = (
    percent_round rest args p
        ∙ vprintf_from-eq-vprintf put put_double (suc (length rest)) rest args p (omega arith),
    hh_round rest args p
        ∙ vprintf_from-eq-vprintf put put_double (suc (suc (length rest))) rest args p
            (omega arith),
  )

displayed-putchar :
    (t : List ℕ) (p : Printer Terminal)
    → IsPlain t
    → p.chars < 2 ^ 32
    → ((displayed putchar t p).console ≡ terminal_write p.console t (length t))
      × ((displayed putchar t p).chars ≡ (p.chars + length t) % 2 ^ 32)
unfolding terminal_write putchar
displayed-putchar [] p h small = (refl, omega arith)
displayed-putchar (c ∷ t) p h small =
    let (console, count) = displayed-putchar t (display_character putchar c p) h.1 (omega arith) in
    let byte : u8 (u8 c) ≡ c = omega (arith, h.0) in
    (
      console ∙ ap (λ b. terminal_write (terminal_putchar p.console b) t (length t)) byte,
      omega (arith, count),
    )

-- `printf` of a text of bytes with no directive writes exactly this text to the terminal and returns
-- its length, modulo 2^32, whatever the arguments.
pub printf-plain :
    (put_double : Directive → Printer Terminal → List Arg → Outcome (Printer Terminal × List Arg))
    (t rest : List ℕ) (args : List Arg) (console : Terminal)
    → IsPlain t
    → printf putchar put_double (t ++ 0 ∷ rest) args console
      ≡ done (terminal_write console t (length t), length t % 2 ^ 32)
unfolding printf
printf-plain put_double t rest args console h =
    let p : Printer Terminal = record { console = console; chars = 0; stores = [] } in
    let (shown, count) = displayed-putchar t p h (omega arith) in
    let total : (displayed putchar t p).chars ≡ length t % 2 ^ 32 = omega (arith, count) in
    rw (vprintf-displayed putchar put_double t rest args p h) (λ i. done (shown i, total i))
