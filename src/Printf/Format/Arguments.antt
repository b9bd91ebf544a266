-- ===== src/Printf/Format/Arguments.antt =====
-- What `vprintf` puts on the console for `%d` and `%s`, and between them.
use icix.Prelude.{
  ℕ, suc, ◌^◌, ◌<◌, ◌==◌, true, false, List, [], ◌∷◌, ◌++◌, ◌≡◌, ◌∙◌, refl, ap, arith, Bool-cases,
  inl, inr, length, replicate, Bool, not, ◌&&◌, ltb,
}
use icix.Outcome.{Outcome, done, ◌>>=◌}
use icix.Cstring.Laws.{text}
use icix.Printf.Directive.{Arg, int_arg, string_arg, Directive, read_directive, read_number}
use icix.Printf.Number.{int_str}
use icix.Printf.Number.Decimal.{decimal, read_number-decimal}
use icix.Printf.Number.Shown.{up_to_five, int_str-decimal}
use icix.Printf.Format.{
  Printer, display_character, display_string, put_integer, integer, put_text, put_directive,
  vprintf_from, vprintf,
}
use icix.Printf.Format.Laws.{IsPlain, displayed}
use icix.Printf.Format.Fuel.{vprintf_from-eq-vprintf}

-- Whether a text has no directive and no NUL.
abbrev pub is_plain : List ℕ → Bool
is_plain [] = true
is_plain (c ∷ t) = not (c == 0) && not (c == b'%') && ltb c 256 && is_plain t

pub is_plain-IsPlain : (t : List ℕ) → is_plain t ≡ true → IsPlain t
is_plain-IsPlain [] h = tt
is_plain-IsPlain (c ∷ t) h = (
  (λ e. ground (arith, h, e), λ e. ground (arith, h, e), ground (arith, h)),
  is_plain-IsPlain t (ground (arith, h)),
)

-- Every digit is below 5.
abbrev pub AreSmall : List ℕ → Type 0
AreSmall [] = Unit {0}
AreSmall (c ∷ t) = (c < b'5') × AreSmall t

up_to_five-all : (t : List ℕ) → AreSmall t → up_to_five t ≡ t
up_to_five-all [] h = refl
up_to_five-all (c ∷ t) h =
    let e : ltb c b'5' ≡ true = ground (arith, h) in rw e (ap (λ u. c ∷ u) (up_to_five-all t h.1))

module _ {S : Type 0} (put : ℕ → S → S) where
  -- A string is displayed up to its NUL.
  pub display_string-displayed :
      (s : List ℕ) (p : Printer S)
      → length (text s) < length s
      → display_string put s p ≡ done (displayed put (text s) p)
  unfolding display_string
  display_string-displayed [] p h = absurd (omega (arith, h))
  display_string-displayed (c ∷ s) p h = elim (Bool-cases (c == 0)) [
    | inl e ↦ rw (e, display_string) refl
    | inr e ↦
        rw (e, display_string)
          (display_string-displayed s (display_character put c p) (ground (arith, e, h)))
  ]

  module _ (put_double : Directive → Printer S → List Arg → Outcome (Printer S × List Arg)) where
    -- Text in front of the rest of a format.
    pub vprintf-text :
        (t rest : List ℕ) (args : List Arg) (p : Printer S)
        → IsPlain t
        → vprintf put put_double (t ++ rest) args p
          ≡ vprintf put put_double rest args (displayed put t p)
    unfolding vprintf vprintf_from
    vprintf-text [] rest args p h = refl
    vprintf-text (c ∷ t) rest args p h =
        let e : (c == 0) ≡ false = ground (arith, h.0.0) in
        let f : (c == b'%') ≡ false = ground (arith, h.0.1) in
        rw (e, vprintf_from)
          (rw (f, vprintf_from) (vprintf-text t rest args (display_character put c p) h.1))

    decimal_round :
        (c : ℕ) (rest : List ℕ) (args : List Arg) (n : ℕ) (b : List ℕ) (p p1 : Printer S)
        → int_str n (replicate 256 0) 10 false false 0 false false ≡ done b
        → display_string put b p ≡ done p1
        → vprintf_from put put_double
            (suc (suc (suc (length rest))))
            (b'%' ∷ b'd' ∷ c ∷ rest)
            (int_arg n ∷ args)
            p
          ≡ vprintf_from put put_double (suc (suc (length rest))) (c ∷ rest) args p1
    unfolding vprintf_from put_directive read_directive put_integer integer
    decimal_round c rest args n b p p1 e e1 = rw (e, ◌>>=◌) (rw (e1, ◌>>=◌) refl)

    text_round :
        (c : ℕ) (rest : List ℕ) (args : List Arg) (s : List ℕ) (p p1 : Printer S)
        → display_string put s p ≡ done p1
        → vprintf_from put put_double
            (suc (suc (suc (length rest))))
            (b'%' ∷ b's' ∷ c ∷ rest)
            (string_arg s ∷ args)
            p
          ≡ vprintf_from put put_double (suc (suc (length rest))) (c ∷ rest) args p1
    unfolding vprintf_from put_directive read_directive put_text
    text_round c rest args s p p1 e1 = rw (e1, ◌>>=◌) refl

    -- `%d` in front of the rest of a format.
    pub vprintf-decimal :
        (c : ℕ) (rest : List ℕ) (args : List Arg) (n : ℕ) (p : Printer S)
        → n < 2 ^ 31
        → vprintf put put_double (b'%' ∷ b'd' ∷ c ∷ rest) (int_arg n ∷ args) p
          ≡ vprintf put put_double (c ∷ rest) args (displayed put (up_to_five (decimal 31 n)) p)
    unfolding vprintf
    vprintf-decimal c rest args n p h =
        let (b, e, shown, ends) = int_str-decimal n h in
        decimal_round c rest args n b p (displayed put (text b) p) e
          (display_string-displayed b p ends)
        ∙ vprintf_from-eq-vprintf put put_double (suc (suc (length rest))) (c ∷ rest) args _
            (omega arith)
        ∙ ap (λ t. vprintf put put_double (c ∷ rest) args (displayed put t p)) shown

    pub vprintf-string :
        (c : ℕ) (rest : List ℕ) (args : List Arg) (s : List ℕ) (p : Printer S)
        → length (text s) < length s
        → vprintf put put_double (b'%' ∷ b's' ∷ c ∷ rest) (string_arg s ∷ args) p
          ≡ vprintf put put_double (c ∷ rest) args (displayed put (text s) p)
    unfolding vprintf
    vprintf-string c rest args s p ends =
        text_round c rest args s p (displayed put (text s) p) (display_string-displayed s p ends)
        ∙ vprintf_from-eq-vprintf put put_double (suc (suc (length rest))) (c ∷ rest) args _
            (omega arith)

    -- `%d` in the middle of a format, for a number below 2^31: `vprintf` displays the decimal
    -- digits of the number up to the first one from 5 on, and goes on behind the directive; all of
    -- them, which the reader of the widths reads back as the number, if they are below 5.
    pub vprintf-read_number :
        (c : ℕ) (rest : List ℕ) (args : List Arg) (n : ℕ) (p : Printer S)
        → n < 2 ^ 31
        → (vprintf put put_double (b'%' ∷ b'd' ∷ c ∷ rest) (int_arg n ∷ args) p
            ≡ vprintf put put_double (c ∷ rest) args (displayed put (up_to_five (decimal 31 n)) p))
          × (AreSmall (decimal 31 n) → read_number 0 (up_to_five (decimal 31 n)) ≡ (n, []))
    vprintf-read_number c rest args n p h = (
      vprintf-decimal c rest args n p h,
      λ small_digits.
          ap (read_number 0) (up_to_five-all (decimal 31 n) small_digits)
          ∙ read_number-decimal 31 n (small n h) h,
    )
      where
        small : (n : ℕ) → n < 2 ^ 31 → n < 10 ^ 31
        small n h = omega (arith, h)
