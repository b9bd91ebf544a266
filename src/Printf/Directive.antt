-- ===== src/Printf/Directive.antt =====
-- The part of `vprintf` in libc/stdio/printf.c that reads a directive: flags, width, precision,
-- length and specifier. The format is the list of the bytes from its pointer on; what lies behind
-- the list is out of bounds.
use icix.Prelude.{
  ℕ, ◌-◌, ◌==◌, leb, ◌||◌, ◌&&◌, if◌then◌else◌, Bool, true, false, List, [], ◌∷◌, add32, mul32,
}
use icix.Outcome.{Outcome, done, undefined, ◌>>=◌}

-- An argument of the call, by the type that `va_arg` must name. A text is given by its bytes with the
-- NUL, a pointer to store into by its address.
pub data Arg : Type 0 where
  int_arg : ℕ → Arg
  long_long_arg : ℕ → Arg
  string_arg : List ℕ → Arg
  pointer_arg : ℕ → Arg

pub record Directive : Type 0 where
  pub left_justify : Bool
  pub zero_pad : Bool
  pub space_no_sign : Bool
  pub alt_form : Bool
  pub plus_sign : Bool
  pub length_spec : ℕ
  pub prec_spec : ℕ
  pub length : ℕ
  pub specifier : ℕ

abbrev pub no_directive : Directive
no_directive = record {
  left_justify = false;
  zero_pad = false;
  space_no_sign = false;
  alt_form = false;
  plus_sign = false;
  length_spec = 0;
  prec_spec = 0;
  length = 0;
  specifier = 0;
}

unfoldable pub isdigit : ℕ → Bool
isdigit c = leb b'0' c && leb c b'9'

-- The loop over the flags, and what is left of the format.
unfoldable pub read_flags : Directive → List ℕ → Directive × List ℕ
read_flags s [] = (s, [])
read_flags s (c ∷ format) =
    if c == b'-'
    then read_flags (record s { left_justify = true }) format
    else if c == b'+'
    then read_flags (record s { plus_sign = true }) format
    else if c == b'#'
    then read_flags (record s { alt_form = true }) format
    else if c == b' '
    then read_flags (record s { space_no_sign = true }) format
    else if c == b'0'
    then read_flags (record s { zero_pad = true }) format
    else (s, c ∷ format)

-- `while (isdigit(format[i])) { n *= 10; n += format[i] - 48; ++i; }`
unfoldable pub read_number : ℕ → List ℕ → ℕ × List ℕ
unfolding isdigit
read_number n [] = (n, [])
read_number n (c ∷ format) =
    if isdigit c then read_number (add32 (mul32 n 10) (c - 48)) format else (n, c ∷ format)

-- `if (format[i] == '*') { n = va_arg(list, int); ++i; }`
unfoldable pub read_star : ℕ → List ℕ → List Arg → Outcome (ℕ × List ℕ × List Arg)
read_star n [] args = done (n, [], args)
read_star n (c ∷ format) args = elim (c == b'*') [
  | false ↦ done (n, c ∷ format, args)
  | true ↦ elim args [ int_arg m ∷ rest ↦ done (m, format, rest) | _ ↦ undefined ]
]

-- The precision, 6 without a point.
unfoldable pub read_precision : List ℕ → List Arg → Outcome (ℕ × List ℕ × List Arg)
unfolding read_number read_star
read_precision [] args = done (6, [], args)
read_precision (c ∷ format) args =
    if c == b'.'
    then (let (n, rest) = read_number 0 format in read_star n rest args)
    else done (6, c ∷ format, args)

-- `hjlztL`
abbrev pub is_length : ℕ → Bool
is_length c = c == b'h' || c == b'l' || c == b'j' || c == b'z' || c == b't' || c == b'L'

-- The length; a second `h` is left in the format.
unfoldable pub read_length : List ℕ → ℕ × List ℕ
read_length [] = (0, [])
read_length (c ∷ []) = if is_length c then (c, []) else (0, c ∷ [])
read_length (c ∷ c' ∷ format) =
    if is_length c
    then (if c' == b'h'
        then (b'H', c' ∷ format)
        else if c' == b'l'
        then (b'q', format)
        else (c, c' ∷ format))
    else (0, c ∷ c' ∷ format)

-- From behind the `%` on; the specifier must be there.
unfoldable pub read_directive : List ℕ → List Arg → Outcome (Directive × List ℕ × List Arg)
unfolding read_flags read_number read_star read_precision read_length
read_directive format args = do
  let (s, f1) = read_flags no_directive format
  let (width, f2) = read_number 0 f1
  (width', f3, args1) ← read_star width f2 args
  (prec, f4, args2) ← read_precision f3 args1
  let (length, f5) = read_length f4
  elim f5 [
    | [] ↦ undefined
    | c ∷ f6 ↦ done (
      record s { length_spec = width'; prec_spec = prec; length = length; specifier = c },
      f6,
      args2,
    )
  ]
