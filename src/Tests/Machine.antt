-- ===== src/Tests/Machine.antt =====
-- The kernel's machine-level parts at concrete values.
use icix.Prelude.{ℕ, ◌+◌, ◌-◌, ◌*◌, ◌/◌, ◌%◌, ◌^◌, ◌==◌, if◌then◌else◌, List, [], ◌∷◌}
use icix.Prelude.{◌≡◌, refl, arith, get_or, replicate, length-replicate, zero, suc}
use icix.Prelude.{Option, none, some}
use icix.Frames.{Page, first_frame, pfa_alloc, pfa_free}
use icix.Frames.Laws.{used}
use icix.Frames.First.{IsWords, IsFirstFree, first_frame-IsFirstFree}
use icix.Frames.Alloc.{Allocates, pfa_alloc-Allocates, used-pfa_free}
use icix.Paging.{PageDir, get_page, blank_page}
use icix.Paging.Laws.{page_of, Maps, get_page-Maps}
use icix.Terminal.{Terminal, terminal_write}
use icix.Terminal.Laws.{Shows, terminal_write-Shows}
use icix.Memory.{memmove}
use icix.Memory.Laws.{copied, memmove-eq-copied}
use icix.Interrupts.{IdtEntry, CpuState, init_idt}
use icix.Interrupts.Laws.{target, init_idt_lem}
use icix.Gdt.{GdtEntry, gdt_set_gate}
use icix.Gdt.Laws.{base_of, limit_of, gdt_set_gate_lem}
use icix.Pic.{wrote, has_read, Ports}
use icix.Pic.Laws.{KeepsMasks, masked, masked-irq_set_mask, masked-irq_clear_mask}
use icix.Pic.{irq_set_mask, irq_clear_mask}
use icix.Timer.{init_timer}
use icix.Timer.Laws.{Programs, init_timer-Programs}

abbrev two_words : List ℕ
two_words = (2 ^ 32 - 1) ∷ 5 ∷ []

two_words-IsWords : IsWords two_words
two_words-IsWords zero = omega arith
two_words-IsWords (suc zero) = omega arith
two_words-IsWords (suc (suc i)) = omega arith

first_frame-IsFirstFree_example : IsFirstFree two_words 0 64 (first_frame two_words 64)
first_frame-IsFirstFree_example =
    first_frame-IsFirstFree two_words 64 two_words-IsWords (omega arith)

pfa_alloc-Allocates_example :
    Allocates two_words 64 blank_page 0 1 (pfa_alloc two_words 64 blank_page 0 1)
pfa_alloc-Allocates_example =
    pfa_alloc-Allocates two_words 64 blank_page 0 1 two_words-IsWords (omega arith) (omega arith)
      (λ e. omega (arith, e))

abbrev mapped : Page
mapped = record blank_page { present = 1; frame = 34 }

used-pfa_free_example :
    ((pfa_free two_words mapped).0.present ≡ 0)
    × (used (pfa_free two_words mapped).1 34 ≡ used two_words 34)
    × (used (pfa_free two_words mapped).1 0 ≡ 0)
used-pfa_free_example =
    used-pfa_free two_words mapped (λ e. omega (arith, e)) (omega arith) (omega arith) (omega arith)

abbrev empty_dir : PageDir
empty_dir = record { tables = replicate 1024 none; phys_tables = replicate 1024 0 }

get_page-Maps_example :
    ((get_page 0x403000 1 empty_dir 0x200000).0 ≡ some (page_of 0x403000))
    × Maps 0x403000 empty_dir (get_page 0x403000 1 empty_dir 0x200000).1
get_page-Maps_example =
    get_page-Maps 0x403000 1 0x200000 empty_dir
      (length-replicate {A = Option (List Page)} 1024 none) (omega arith) (λ e. omega (arith, e))
      (omega arith) (omega arith)

abbrev screen : Terminal
screen = record { row = 3; column = 79; color = 7; buffer = λ k. 0 }

terminal_write-Shows_example :
    Shows screen (terminal_write screen (b'h' ∷ b'i' ∷ []) 2) 2 (b'h' ∷ b'i' ∷ [])
terminal_write-Shows_example =
    terminal_write-Shows screen (b'h' ∷ b'i' ∷ []) (omega arith, omega arith)
      ((λ e. omega (arith, e)), ((λ e. omega (arith, e)), tt)) (omega arith)

abbrev squares : ℕ → ℕ
squares x = x * x % 256

memmove-eq-copied_example : memmove squares 12 10 4 13 ≡ copied squares 12 10 4 13
memmove-eq-copied_example = memmove-eq-copied squares 12 10 4 13

abbrev handler : ℕ
handler = 0x100040

abbrev trap : CpuState
trap = record {
  cr2 = 0;
  edi = 0;
  esi = 0;
  ebp = 0;
  esp = 0;
  ebx = 0;
  edx = 0;
  ecx = 0;
  eax = 0;
  int_no = 14;
  err_code = 0;
  eip = 0;
  cs = 8;
  eflags = 0;
  useresp = 0;
  ss = 16;
}

abbrev blank_descriptor : IdtEntry
blank_descriptor = record { isr_low = 0; kernel_cs = 0; reserved = 0; attributes = 0; isr_high = 0 }

init_idt_lem_example :
    let e =
      get_or
        (init_idt (λ v. 0x100000 + v * 16) 0 (replicate 256 blank_descriptor)).0
        14
        blank_descriptor in
    (target e ≡ 0x100000 + 14 * 16) × (e.kernel_cs ≡ 0x08) × (e.attributes ≡ 0x8E)
init_idt_lem_example =
    init_idt_lem (λ v. 0x100000 + v * 16) 0 (replicate 256 blank_descriptor) 14 blank_descriptor
      (length-replicate 256 blank_descriptor) (omega arith) (omega arith)

abbrev blank_gate : GdtEntry
blank_gate = record {
  limit_low = 0;
  base_low = 0;
  base_middle = 0;
  access = 0;
  granularity = 0;
  base_high = 0;
}

gdt_set_gate_lem_example :
    let e =
      get_or
        (gdt_set_gate (replicate 5 blank_gate) 3 0x12345678 0xFFFFFFFF 0xFA 0xCF)
        3
        blank_gate in
    (base_of e ≡ 0x12345678)
    × (limit_of e ≡ 0xFFFFF)
    × (e.granularity / 16 ≡ 0xC)
    × (e.access ≡ 0xFA)
gdt_set_gate_lem_example =
    gdt_set_gate_lem (replicate 5 blank_gate) 3 0x12345678 0xFFFFFFFF 0xFA 0xC 0xF blank_gate
      (omega arith) (omega arith) (omega arith) (omega arith)

-- Controllers that hold the last byte written, 0xFF at first.
abbrev last_byte : Ports → ℕ → ℕ
last_byte [] p = 0xFF
last_byte (wrote q v ∷ h) p = if q == p then v else last_byte h p
last_byte (has_read q ∷ h) p = last_byte h p

last_byte-KeepsMasks : KeepsMasks last_byte []
last_byte-KeepsMasks = record {
  is_byte = λ p. omega arith;
  reads_back = λ p v h. ground arith;
  leaves_second = λ v. refl;
  leaves_first = λ v. refl;
}

masked-irq_set_mask_example :
    masked last_byte (irq_set_mask last_byte 9 []) 9 ≡ (if 9 == 9 then 1 else masked last_byte [] 9)
masked-irq_set_mask_example =
    masked-irq_set_mask last_byte [] 9 9 last_byte-KeepsMasks (omega arith) (omega arith)

masked-irq_clear_mask_example :
    masked last_byte (irq_clear_mask last_byte 9 []) 9
    ≡ (if 9 == 9 then 0 else masked last_byte [] 9)
masked-irq_clear_mask_example =
    masked-irq_clear_mask last_byte [] 9 9 last_byte-KeepsMasks (omega arith) (omega arith)

init_timer-Programs_example : Programs 50 handler [] (init_timer 50 handler (replicate 256 none) [])
init_timer-Programs_example =
    init_timer-Programs 50 handler (replicate 256 none) [] (omega arith)
      (omega (arith, length-replicate {A = Option ℕ} 256 none))
