-- ===== src/Printf/Format.antt =====
-- `vprintf` and `printf` of libc/stdio/printf.c, over any console that takes characters; with the
-- terminal it is `putchar` of libc/stdio/putchar.c. The directives of
-- floating-point numbers are a parameter.
pub mod Laws
pub mod Fuel
pub mod Arguments
use icix.Prelude.{
  ℕ, zero, suc, ◌+◌, ◌-◌, ◌*◌, ◌^◌, ◌==◌, leb, not, ◌||◌, ◌&&◌, if◌then◌else◌, Bool, true, false,
  List, [], ◌∷◌, add32, u8, u16, u32, length, replicate, Option, none, some,
}
use icix.Outcome.{Outcome, done, undefined, ◌>>=◌}
use icix.Printf.Number.{int_str}
use icix.Printf.Directive.{
  Arg, int_arg, long_long_arg, string_arg, pointer_arg, Directive, read_directive,
}
use icix.Terminal.{Terminal, terminal_write}

-- What the call has done so far: the console, the count `chars`, and the stores of `%n`, each an
-- address and what is put there, the last one first.
pub record Printer (S : Type 0) : Type 0 where
  pub console : S
  pub chars : ℕ
  pub stores : List (ℕ × ℕ)

abbrev pub sign_extend : ℕ → ℕ → ℕ
sign_extend half w = if leb half w then w + (2 ^ 32 - 2 * half) else w

abbrev pub take_int : List Arg → Outcome (ℕ × List Arg)
take_int (int_arg n ∷ args) = done (n, args)
take_int args = undefined

-- `length` among the cases `0`, `l`, `j`, `z` and `t`, which take a 32-bit word.
abbrev pub is_word_length : ℕ → Bool
is_word_length length =
    length == 0 || length == b'l' || length == b'j' || length == b'z' || length == b't'

-- The argument of `%u` or `%d` by its length, as the `int` that `__int_str` gets; none for the others.
unfoldable pub integer : Bool → ℕ → List Arg → Outcome (Option ℕ × List Arg)
integer signed length args =
    if is_word_length length
    then (do (n, rest) ← take_int args; done (some n, rest))
    else if length == b'H'
    then (do
      (n, rest) ← take_int args
      done (some (if signed then sign_extend (2 ^ 7) (u8 n) else u8 n), rest))
    else if length == b'h'
    then (do
      (n, rest) ← take_int args
      done (some (if signed then sign_extend (2 ^ 15) (u16 n) else u16 n), rest))
    else if length == b'q'
    then elim args [ long_long_arg n ∷ rest ↦ done (some (u32 n), rest) | _ ↦ undefined ]
    else done (none, args)

-- What `%n` stores, by its length.
unfoldable pub store_count : ℕ → ℕ → Option ℕ
store_count length chars =
    if is_word_length length || length == b'q'
    then some chars
    else if length == b'H'
    then some (u8 chars)
    else if length == b'h'
    then some (u16 chars)
    else none

module _ {S : Type 0} (putchar : ℕ → S → S) where
  abbrev pub display_character : ℕ → Printer S → Printer S
  display_character c p = record p { console = putchar (u8 c) p.console; chars = add32 p.chars 1 }

  -- Without a NUL the loop leaves the text.
  unfoldable pub display_string : List ℕ → Printer S → Outcome (Printer S)
  display_string [] p = undefined
  display_string (c ∷ s) p = elim (c == 0) [
    | true ↦ done p
    | false ↦ display_string s (display_character c p)
  ]

  -- The body of a case of `u`, `d` and the specifiers that become `u`.
  unfoldable pub put_integer :
      Directive → Bool → ℕ → ℕ → Printer S → List Arg → Outcome (Printer S × List Arg)
  unfolding integer int_str display_string
  put_integer s signed base length p args = do
    (value, rest) ← integer signed length args
    elim value [
      | none ↦ done (p, rest)
      | some n ↦ do
        buffer ←
            int_str n (replicate 256 0) base s.plus_sign s.space_no_sign s.length_spec
              s.left_justify s.zero_pad
        p1 ← display_string buffer p
        done (p1, rest)
    ]

  unfoldable pub put_text : Printer S → List Arg → Outcome (Printer S × List Arg)
  unfolding display_string
  put_text p (string_arg text ∷ args) = do p1 ← display_string text p; done (p1, args)
  put_text p args = undefined

  unfoldable pub put_count : ℕ → Printer S → List Arg → Outcome (Printer S × List Arg)
  unfolding store_count
  put_count length p args = elim (store_count length p.chars) [
    | none ↦ done (p, args)
    | some n ↦ elim args [
      | pointer_arg a ∷ rest ↦ done (record p { stores = (a, n) ∷ p.stores }, rest)
      | _ ↦ undefined
    ]
  ]

  -- The mark of the alternative form.
  unfoldable pub put_prefix : Bool → List ℕ → Printer S → Outcome (Printer S)
  unfolding display_string
  put_prefix alt_form mark p = if alt_form then display_string mark p else done p

  module _ (put_double : Directive → Printer S → List Arg → Outcome (Printer S × List Arg)) where
    -- What the specifier asks for; nothing for one that is not known.
    unfoldable pub put_directive : Directive → Printer S → List Arg → Outcome (Printer S × List Arg)
    unfolding put_integer put_text put_count put_prefix
    put_directive s p args =
        let c = s.specifier in
        if c == b'o'
        then (do
          p1 ← put_prefix s.alt_form (b'0' ∷ 0 ∷ []) p
          put_integer s false 8 s.length p1 args)
        else if c == b'p'
        then put_integer s false 16 b'z' p args
        else if c == b'X'
        then (do
          p1 ← put_prefix s.alt_form (b'0' ∷ b'x' ∷ 0 ∷ []) p
          put_integer s false 16 s.length p1 args)
        else if c == b'x'
        then (do
          p1 ← put_prefix s.alt_form (b'0' ∷ b'x' ∷ 0 ∷ []) p
          put_integer s false 17 s.length p1 args)
        else if c == b'u'
        then put_integer s false 10 s.length p args
        else if c == b'd' || c == b'i'
        then put_integer s true 10 s.length p args
        else if c == b'c'
        then (do (n, rest) ← take_int args; done (display_character n p, rest))
        else if c == b's'
        then put_text p args
        else if c == b'n'
        then put_count s.length p args
        else if c == b'e' || c == b'E' || c == b'f' || c == b'F' || c == b'g' || c == b'G'
        then put_double s p args
        else done (p, args)

    -- The loop over the format, in at most `fuel` rounds.
    unfoldable pub vprintf_from : ℕ → List ℕ → List Arg → Printer S → Outcome (Printer S)
    unfolding read_directive put_directive
    vprintf_from zero format args p = undefined
    vprintf_from (suc fuel) [] args p = undefined
    vprintf_from (suc fuel) (c ∷ format) args p = elim (c == 0) [
      | true ↦ done p
      | false ↦ elim (c == b'%') [
        | false ↦ vprintf_from fuel format args (display_character c p)
        | true ↦ do
          (s, rest, args1) ← read_directive format args
          (p1, args2) ← put_directive s p args1
          vprintf_from fuel rest args2 p1
      ]
    ]

    -- A round takes a character at least, so there are no more than the format has.
    unfoldable pub vprintf : List ℕ → List Arg → Printer S → Outcome (Printer S)
    unfolding vprintf_from
    vprintf format args p = vprintf_from (length format) format args p

    -- The console and the result.
    unfoldable pub printf : List ℕ → List Arg → S → Outcome (S × ℕ)
    unfolding vprintf
    printf format args console = do
      p ← vprintf format args (record { console = console; chars = 0; stores = [] })
      done (p.console, p.chars)

-- `putchar`: one character on the terminal.
unfoldable pub putchar : ℕ → Terminal → Terminal
unfolding terminal_write
putchar ic t = terminal_write t (u8 ic ∷ []) 1
