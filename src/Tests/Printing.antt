-- ===== src/Tests/Printing.antt =====
-- The formatted output and the start of paging at concrete values.
use icix.Prelude.{
  ℕ, suc, ◌+◌, ◌-◌, ◌/◌, ◌%◌, ◌^◌, ◌≤◌, ◌<◌, List, [], ◌∷◌, ◌++◌, ◌≡◌, refl, arith, inr, true,
  false, get_or, replicate, length-replicate, get_or-replicate, none,
}
use icix.Outcome.{Outcome, done, undefined}
use icix.Terminal.{Terminal, terminal_write}
use icix.Interrupts.{register_int_handler}
use icix.Paging.Init.{Vm, init_paging}
use icix.Paging.Init.Identity.{Identity, init_paging-Identity}
use icix.Ufs.Print.{print_bits}
use icix.Paging.Heap.{back_pages}
use icix.Paging.Heap.Fuel.{back_pages-eq}
use icix.Printf.Number.{decimal_digits, put_number, justified}
use icix.Printf.Number.Laws.{HasDigits, put_number-Digits}
use icix.Cstring.Laws.{text}
use icix.Printf.Number.Padding.{justified-text}
use icix.Printf.Directive.{Arg, int_arg, string_arg, Directive}
use icix.Printf.Format.{Printer, vprintf_from, vprintf, printf, putchar}
use icix.Printf.Format.Fuel.{vprintf_from-eq-vprintf}
use icix.Printf.Number.Shown.{up_to_five}
use icix.Printf.Directive.{read_number}
use icix.Printf.Number.Decimal.{decimal}
use icix.Printf.Format.Arguments.{AreSmall, vprintf-read_number}
use icix.Paging.Init.Identity.{IsBacked, init_paging-IsBacked}
use icix.Paging.Heap.{malloc}
use icix.Paging.Heap.Backed.{Allocates, malloc-Allocates}
use icix.Printf.Format.Laws.{displayed, vprintf-silent, printf-plain}

-- A console that keeps the characters, the last one first.
abbrev log : ℕ → List ℕ → List ℕ
log c shown = c ∷ shown

-- No directive of a floating-point number in these formats.
abbrev no_double : {S : Type 0} → Directive → S → List Arg → Outcome (S × List Arg)
no_double s p args = undefined

abbrev shown : List ℕ → List Arg → Outcome (List ℕ × ℕ)
shown format args = printf log no_double format args []

printf_small :
    shown (b'%' ∷ b'd' ∷ b'!' ∷ 0 ∷ []) (int_arg 42 ∷ []) ≡ done (b'!' ∷ b'2' ∷ b'4' ∷ [], 3)
unfolding printf
printf_small = refl

-- The digits from 5 on are a NUL in the table, so the text ends there.
printf_cut : shown (b'%' ∷ b'd' ∷ 0 ∷ []) (int_arg 4096 ∷ []) ≡ done (b'0' ∷ b'4' ∷ [], 2)
unfolding printf
printf_cut = refl

printf_negative :
    shown (b'%' ∷ b'd' ∷ 0 ∷ []) (int_arg (2 ^ 32 - 21) ∷ []) ≡ done (b'1' ∷ b'2' ∷ b'-' ∷ [], 3)
unfolding printf
printf_negative = refl

-- `%u` of a number from 2 ^ 31 on is shown as a negative one.
printf_unsigned :
    shown (b'%' ∷ b'u' ∷ 0 ∷ []) (int_arg (2 ^ 32 - 21) ∷ []) ≡ done (b'1' ∷ b'2' ∷ b'-' ∷ [], 3)
unfolding printf
printf_unsigned = refl

printf_text :
    shown (b'%' ∷ b's' ∷ b'.' ∷ 0 ∷ []) (string_arg (b'o' ∷ b'k' ∷ 0 ∷ []) ∷ [])
    ≡ done (b'.' ∷ b'k' ∷ b'o' ∷ [], 3)
unfolding printf
printf_text = refl

put_number-Digits_example :
    (c : ℕ) × HasDigits 10 4021 c
    × (get_or (put_number decimal_digits 10 4021 (replicate 40 0, 1)) (1 + suc c) 0 ≡ 0)
    × ((k : ℕ)
        → k ≤ c
        → get_or (put_number decimal_digits 10 4021 (replicate 40 0, 1)) (1 + c - k) 0
          ≡ get_or decimal_digits (4021 / 10 ^ k % 10) 0)
put_number-Digits_example =
    put_number-Digits decimal_digits 10 4021 1 (replicate 40 0) (omega arith) (omega arith)
      (omega arith)

justified-text_example :
    (b : List ℕ) × (justified 2 false true ((b'4' ∷ b'2' ∷ []) ++ replicate 23 0) ≡ done b)
    × (text b ≡ b'0' ∷ b'0' ∷ b'4' ∷ b'2' ∷ [])
justified-text_example =
    justified-text 2 20 false true (b'4' ∷ b'2' ∷ [])
      (λ e. omega (arith, e), (λ e. omega (arith, e), tt)) (omega arith) (inr (omega arith))

abbrev blank : Printer (List ℕ)
blank = record { console = []; chars = 0; stores = [] }

abbrev greeting : List ℕ
greeting = b'%' ∷ b'c' ∷ b'!' ∷ 0 ∷ []

vprintf_from-eq-vprintf_example :
    vprintf_from log no_double 9 greeting (int_arg b'a' ∷ []) blank
    ≡ vprintf log no_double greeting (int_arg b'a' ∷ []) blank
vprintf_from-eq-vprintf_example =
    vprintf_from-eq-vprintf log no_double 9 greeting (int_arg b'a' ∷ []) blank (omega arith)

vprintf-silent_example :
    (vprintf log no_double (b'%' ∷ b'%' ∷ greeting) (int_arg b'a' ∷ []) blank
      ≡ vprintf log no_double greeting (int_arg b'a' ∷ []) blank)
    × (vprintf log no_double (b'%' ∷ b'h' ∷ b'h' ∷ greeting) (int_arg b'a' ∷ []) blank
        ≡ vprintf log no_double greeting (int_arg b'a' ∷ []) blank)
vprintf-silent_example = vprintf-silent log no_double greeting (int_arg b'a' ∷ []) blank

vprintf-read_number_example :
    (vprintf log no_double (b'%' ∷ b'd' ∷ b'!' ∷ 0 ∷ []) (int_arg 42 ∷ []) blank
      ≡ vprintf log no_double (b'!' ∷ 0 ∷ []) [] (displayed log (up_to_five (decimal 31 42)) blank))
    × (AreSmall (decimal 31 42) → read_number 0 (up_to_five (decimal 31 42)) ≡ (42, []))
vprintf-read_number_example =
    vprintf-read_number log no_double b'!' (0 ∷ []) [] 42 blank (omega arith)

abbrev screen : Terminal
screen = record { row = 0; column = 78; color = 7; buffer = λ k. 0 }

printf-plain_example :
    printf putchar no_double (b'O' ∷ b'K' ∷ 10 ∷ 0 ∷ []) [] screen
    ≡ done (terminal_write screen (b'O' ∷ b'K' ∷ 10 ∷ []) 3, 3 % 2 ^ 32)
printf-plain_example = printf-plain no_double (b'O' ∷ b'K' ∷ 10 ∷ []) [] [] screen (
  (λ e. omega (arith, e), λ e. omega (arith, e), omega arith),
  (
    (λ e. omega (arith, e), λ e. omega (arith, e), omega arith),
    ((λ e. omega (arith, e), λ e. omega (arith, e), omega arith), tt),
  ),
)

init_paging-Identity_example :
    (vm : Vm) × (init_paging {H = ℕ} 7 (replicate 256 none) 0x200000 (replicate 96 0)
      ≡ done (vm, register_int_handler (replicate 256 none) 14 7))
    × (0x200000 < vm.free_addr)
    × Identity vm
init_paging-Identity_example =
    init_paging-Identity {H = ℕ} 7 (replicate 256 none) 0x200000 (replicate 96 0)
      (length-replicate {A = ℕ} 96 0) (λ i. omega (arith, get_or-replicate {A = ℕ} 96 i 0))
      (omega arith) (omega arith)

abbrev pub paged :
    (vm : Vm) × (init_paging {H = ℕ} 7 (replicate 256 none) 0x200000 (replicate 96 0)
      ≡ done (vm, register_int_handler (replicate 256 none) 14 7))
    × (0x200000 < vm.free_addr)
    × (vm.free_addr ≤ 0x200000 + 20612)
    × IsBacked vm
paged =
    init_paging-IsBacked {H = ℕ} 7 (replicate 256 none) 0x200000 (replicate 96 0)
      (length-replicate {A = ℕ} 96 0) (λ i. omega (arith, get_or-replicate {A = ℕ} 96 i 0))
      (omega arith) (omega arith)

malloc-Allocates_example : Allocates 100 paged.0 (malloc 100 paged.0)
malloc-Allocates_example = malloc-Allocates 100 paged.0 paged.4 (omega (arith, paged.3))

abbrev small_vm : Vm
small_vm = record {
  free_addr = 0x200000;
  dir = record { tables = replicate 1024 none; phys_tables = replicate 1024 0 };
  frames = 0 ∷ 0 ∷ [];
  nframes = 64;
}

back_pages-eq_example :
    back_pages (suc 2) 0x200000 0x201800 small_vm ≡ back_pages (2 ^ 20) 0x200000 0x201800 small_vm
back_pages-eq_example = back_pages-eq 2 0x200000 0x201800 small_vm (omega arith) (omega arith)

print_bits_shown : print_bits log no_double (2 ^ 30 ∷ []) 3 0 [] ≡ done (b'0' ∷ b'1' ∷ b'0' ∷ [])
unfolding print_bits
print_bits_shown = refl
