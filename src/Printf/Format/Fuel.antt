-- ===== src/Printf/Format/Fuel.antt =====
-- The loop of `vprintf` ends: each round leaves less of the format, so its length is enough fuel.
use icix.Prelude.{
  ◌-◌, add32, mul32, ℕ, zero, suc, ◌≤◌, ◌<◌, ◌==◌, Bool, true, false, List, [], ◌∷◌, ◌≡◌, refl, ap,
  arith, length,
}
use icix.Outcome.{Outcome, done, aborted, undefined, ◌>>=◌, Post, returns, is_undefined, Post-elim}
use icix.Outcome.{Post-then, Post-if, Post-weaken, Post-value}
use icix.Printf.Directive.{
  Arg, int_arg, long_long_arg, string_arg, pointer_arg, Directive, no_directive, read_flags,
  read_number, read_star, read_precision, read_length, read_directive,
}
use icix.Printf.Format.{Printer, put_directive, vprintf_from, vprintf, display_character}

length-read_flags : (s : Directive) (f : List ℕ) → length (read_flags s f).1 ≤ length f
unfolding read_flags
length-read_flags s [] = omega arith
length-read_flags s (c ∷ f) = ground (
  arith,
  length-read_flags (record s { left_justify = true }) f,
  length-read_flags (record s { plus_sign = true }) f,
  length-read_flags (record s { alt_form = true }) f,
  length-read_flags (record s { space_no_sign = true }) f,
  length-read_flags (record s { zero_pad = true }) f,
)

length-read_number : (n : ℕ) (f : List ℕ) → length (read_number n f).1 ≤ length f
unfolding read_number
length-read_number n [] = omega arith
length-read_number n (c ∷ f) = ground (arith, length-read_number (add32 (mul32 n 10) (c - 48)) f)

read_star_length :
    (n : ℕ) (f : List ℕ) (args : List Arg) → Post (λ r. length r.1 ≤ length f) (read_star n f args)
unfolding read_star
read_star_length n [] args = returns {a = (n, [], args)} (omega arith)
read_star_length n (c ∷ f) args =
    Post-elim (c == b'*') _ _ (λ t. taken args) (λ t. returns {a = (n, c ∷ f, args)} (omega arith))
  where
    taken :
        (args : List Arg)
        → Post
            (λ (r : ℕ × List ℕ × List Arg). length r.1 ≤ suc (length f))
            (elim args [ int_arg m ∷ rest ↦ done (m, f, rest) | _ ↦ undefined ])
    taken [] = is_undefined
    taken (int_arg m ∷ rest) = returns {a = (m, f, rest)} (omega arith)
    taken (long_long_arg m ∷ rest) = is_undefined
    taken (string_arg m ∷ rest) = is_undefined
    taken (pointer_arg m ∷ rest) = is_undefined

read_precision_length :
    (f : List ℕ) (args : List Arg) → Post (λ r. length r.1 ≤ length f) (read_precision f args)
unfolding read_precision
read_precision_length [] args = returns {a = (6, [], args)} (omega arith)
read_precision_length (c ∷ f) args =
    Post-if (c == b'.') _ _
      (λ t.
        Post-weaken (λ r h. omega (arith, h, length-read_number 0 f))
          (read_star_length (read_number 0 f).0 (read_number 0 f).1 args))
      (λ t. returns {a = (6, c ∷ f, args)} (omega arith))

length-read_length : (f : List ℕ) → length (read_length f).1 ≤ length f
unfolding read_length
length-read_length [] = omega arith
length-read_length (c ∷ []) = ground arith
length-read_length (c ∷ c' ∷ f) = ground arith

-- A directive takes its specifier at least.
read_directive_length :
    (f : List ℕ) (args : List Arg) → Post (λ r. length r.1 < length f) (read_directive f args)
unfolding read_directive
read_directive_length f args =
    let flags = read_flags no_directive f in
    let width = read_number 0 flags.1 in
    Post-then (read_star width.0 width.1 args) _ (read_star_length width.0 width.1 args) (λ x hx.
      Post-then (read_precision x.1 x.2) _ (read_precision_length x.1 x.2) (λ y hy.
        specified flags.0 x.0 y.0 (read_length y.1).0 y.2 (read_length y.1).1 (
          omega (
            arith,
            hx,
            hy,
            length-read_length y.1,
            length-read_number 0 flags.1,
            length-read_flags no_directive f,
          ))))
  where
    specified :
        (s : Directive) (width prec size : ℕ) (args : List Arg) (f5 : List ℕ)
        → length f5 ≤ length f
        → Post
            (λ (r : Directive × List ℕ × List Arg). length r.1 < length f)
            (elim f5 [
              | [] ↦ undefined
              | c ∷ f6 ↦ done (
                record s { length_spec = width; prec_spec = prec; length = size; specifier = c },
                f6,
                args,
              )
            ])
    specified s width prec size args [] h = is_undefined
    specified s width prec size args (c ∷ f6) h =
        returns
          {a = (
            record s { length_spec = width; prec_spec = prec; length = size; specifier = c },
            f6,
            args,
          )}
          (omega (arith, h))

-- Two continuations that agree where the first step may end.
>>=-ap {ℓ κ μ} :
    {A : Type ℓ} {B : Type κ} {Q : A → Type μ} (m : Outcome A) (f g : A → Outcome B)
    → Post Q m
    → ((a : A) → Q a → f a ≡ g a)
    → (m >>= f) ≡ (m >>= g)
>>=-ap (done a) f g q h = h a (Post-value q refl)
>>=-ap aborted f g q h = refl
>>=-ap undefined f g q h = refl

module _ {S : Type 0} (putchar : ℕ → S → S)
    (put_double : Directive → Printer S → List Arg → Outcome (Printer S × List Arg)) where
  -- One round, followed by what agrees on a shorter format.
  round-ap :
      (k l : List ℕ → List Arg → Printer S → Outcome (Printer S)) (format : List ℕ)
      (args : List Arg) (p : Printer S) (c : ℕ) (ends directive : Bool)
      → ((rest : List ℕ) (args1 : List Arg) (p1 : Printer S)
          → length rest ≤ length format
          → k rest args1 p1 ≡ l rest args1 p1)
      → let round = λ (j : List ℕ → List Arg → Printer S → Outcome (Printer S)).
        elim ends as (λ _. Outcome (Printer S)) [
          | true ↦ done p
          | false ↦ elim directive as (λ _. Outcome (Printer S)) [
            | false ↦ j format args (display_character putchar c p)
            | true ↦ read_directive format args >>= λ r.
                put_directive putchar put_double r.0 p r.2 >>= λ q. j r.1 q.1 q.0
          ]
        ] in
        round k ≡ round l
  round-ap k l format args p c true directive h = refl
  round-ap k l format args p c false false h =
      h format args (display_character putchar c p) (omega arith)
  round-ap k l format args p c false true h =
      >>=-ap (read_directive format args) _ _ (read_directive_length format args) (λ r shorter.
        ap (λ j. put_directive putchar put_double r.0 p r.2 >>= j)
          (λ i q. h r.1 q.1 q.0 (omega (arith, shorter)) i))

  vprintf_from-fuel :
      (n m : ℕ) (format : List ℕ) (args : List Arg) (p : Printer S)
      → length format ≤ n
      → length format ≤ m
      → vprintf_from putchar put_double n format args p
        ≡ vprintf_from putchar put_double m format args p
  unfolding vprintf_from
  vprintf_from-fuel zero zero format args p h g = refl
  vprintf_from-fuel zero (suc m) [] args p h g = refl
  vprintf_from-fuel zero (suc m) (c ∷ format) args p h g = absurd (omega arith)
  vprintf_from-fuel (suc n) zero [] args p h g = refl
  vprintf_from-fuel (suc n) zero (c ∷ format) args p h g = absurd (omega arith)
  vprintf_from-fuel (suc n) (suc m) [] args p h g = refl
  vprintf_from-fuel (suc n) (suc m) (c ∷ format) args p h g =
      round-ap (vprintf_from putchar put_double n) (vprintf_from putchar put_double m) format args p
        c (c == 0) (c == b'%')
        (λ rest args1 p1 shorter.
          vprintf_from-fuel n m rest args1 p1 (omega (arith, shorter)) (omega (arith, shorter)))

  -- Any number of rounds from the length of the format on gives the result of `vprintf`: the loop
  -- ends by itself.
  pub vprintf_from-eq-vprintf :
      (fuel : ℕ) (format : List ℕ) (args : List Arg) (p : Printer S)
      → length format ≤ fuel
      → vprintf_from putchar put_double fuel format args p
        ≡ vprintf putchar put_double format args p
  unfolding vprintf
  vprintf_from-eq-vprintf fuel format args p h =
      vprintf_from-fuel fuel (length format) format args p h (omega arith)
