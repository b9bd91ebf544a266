-- ===== src/Printf/Number.antt =====
-- `__int_str` of libc/stdio/printf.c: the digits of an `int` in a buffer, padded to a width. The
-- table of digits is copied with this library's `strcpy`.
pub mod Laws
pub mod Padding
pub mod Decimal
pub mod Shown
use icix.Prelude.{
  ℕ, zero, suc, ◌+◌, ◌-◌, ◌*◌, ◌/◌, ◌%◌, ◌^◌, ◌==◌, ltb, leb, not, ◌||◌, if◌then◌else◌, Bool, true,
  false, List, [], ◌∷◌, get_or, set, replicate, length, is_neg, sub32,
}
use icix.Outcome.{Outcome, done, undefined, ◌>>=◌}
use icix.Cstring.{strlen, strcpy, strcat}

abbrev pub decimal_digits : List ℕ
decimal_digits = b'0' ∷ b'1' ∷ b'2' ∷ b'3' ∷ b'4' ∷ b'5' ∷ b'6' ∷ b'7' ∷ b'8' ∷ b'9' ∷ 0 ∷ []

-- The table `digit` and the base that is left: 17 asks for lower case.
unfoldable pub digit_table : ℕ → List ℕ × ℕ
unfolding strcpy strcat
digit_table base =
    let digit = strcpy (replicate 32 0) decimal_digits in
    if base == 16
    then (strcat digit (b'A' ∷ b'B' ∷ b'C' ∷ b'D' ∷ b'E' ∷ b'F' ∷ 0 ∷ []), base)
    else if base == 17
    then (strcat digit (b'a' ∷ b'b' ∷ b'c' ∷ b'd' ∷ b'e' ∷ b'f' ∷ 0 ∷ []), 16)
    else (digit, base)

-- `do { ++p; shifter = shifter / base; } while (shifter)`: how far p moves, in at most `fuel`
-- rounds.
unfoldable pub count_digits : ℕ → ℕ → ℕ → ℕ
count_digits zero base shifter = 0
count_digits (suc fuel) base shifter =
    let rest = count_digits fuel base (shifter / base) in
    if shifter / base == 0 then 1 else rest + 1

-- `do { *--p = digit[i % base]; i = i / base; } while (i)`
unfoldable pub write_digits : List ℕ → ℕ → ℕ → ℕ → ℕ → List ℕ → List ℕ
write_digits digit base zero i p b = b
write_digits digit base (suc fuel) i p b =
    let b1 = set b (p - 1) (get_or digit (i % base) 0) in
    let rest = write_digits digit base fuel (i / base) (p - 1) b1 in
    if i / base == 0 then b1 else rest

-- The sign in front, and where the digits begin.
abbrev pub put_sign : Bool → Bool → Bool → List ℕ → List ℕ × ℕ
put_sign negative plus space b =
    if negative
    then (set b 0 b'-', 1)
    else if plus
    then (set b 0 b'+', 1)
    else if space
    then (set b 0 b' ', 1)
    else (b, 0)

-- A magnitude below 2 ^ 31 has at most 31 digits in any base from 2 on.
abbrev pub max_digits : ℕ
max_digits = 31

-- `*p = '\0'` and the digits in front of it.
unfoldable pub put_number : List ℕ → ℕ → ℕ → List ℕ × ℕ → List ℕ
unfolding count_digits write_digits
put_number digit base i (b, start) =
    let p = start + count_digits max_digits base i in
    write_digits digit base max_digits i p (set b p 0)

-- `while (padding--) b[strlen(b)] = …`; without a free byte the write is out of bounds.
unfoldable pub pad : ℕ → ℕ → List ℕ → Outcome (List ℕ)
unfolding strlen
pad zero c b = done b
pad (suc padding) c b = elim (ltb (strlen b) (length b)) [
  | true ↦ pad padding c (set b (strlen b) c)
  | false ↦ undefined
]

abbrev pub filler : Bool → ℕ
filler zero_pad = if zero_pad then b'0' else b' '

-- `if (justify) … else …`. The second buffer has 256 bytes.
unfoldable pub justified : ℕ → Bool → Bool → List ℕ → Outcome (List ℕ)
unfolding pad strcat strcpy strlen
justified padding true zero_pad b = pad padding (filler zero_pad) b
justified padding false zero_pad b = do
  a ← pad padding (filler zero_pad) (replicate 256 0)
  if leb 256 (strlen a + strlen b) then undefined else done (strcpy b (strcat a b))

-- `paddingNo - (int)strlen(b)`, at least 0.
unfoldable pub padding_for : ℕ → List ℕ → ℕ
unfolding strlen
padding_for padding_no b =
    let padding = sub32 padding_no (strlen b) in if is_neg padding then 0 else padding

-- The negation of the least `int` overflows.
unfoldable pub int_str : ℕ → List ℕ → ℕ → Bool → Bool → ℕ → Bool → Bool → Outcome (List ℕ)
unfolding digit_table put_number justified padding_for
int_str i b base plus space padding_no justify zero_pad =
    if i == 2 ^ 31
    then undefined
    else (let (digit, base1) = digit_table base in
        let b1 =
          put_number digit base1 (if is_neg i then sub32 0 i else i)
            (put_sign (is_neg i) plus space b) in
        justified (padding_for padding_no b1) justify zero_pad b1)
