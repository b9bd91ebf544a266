-- ===== src/Interrupts.antt =====
-- Interrupt descriptors and handlers: kernel/arch/i386/isr.c and isr.h. A handler is a value of any
-- type; the stubs of interrupt.S are the parameter of `init_idt`, and `lidt` and `sti` are left out.
pub mod Laws
use icix.Prelude.{
  ℕ, zero, suc, ◌+◌, ◌-◌, ◌*◌, ◌/◌, ◌^◌, List, get_or, set, replicate, u16, u32, bit_and,
}
use icix.Prelude.{Option, none, some}

abbrev pub num_idt_entries : ℕ
num_idt_entries = 256

pub record IdtEntry : Type 0 where
  pub isr_low : ℕ
  pub kernel_cs : ℕ
  pub reserved : ℕ
  pub attributes : ℕ
  pub isr_high : ℕ

pub record IdtPtr : Type 0 where
  pub limit : ℕ
  pub base : ℕ

abbrev pub descriptor : ℕ → ℕ → IdtEntry
descriptor isr flags = record {
  isr_low = u16 (bit_and isr 0xFFFF);
  kernel_cs = 0x08;
  reserved = 0;
  attributes = flags;
  isr_high = u16 (isr / 2 ^ 16);
}

unfoldable pub idt_set_descriptor : List IdtEntry → ℕ → ℕ → ℕ → List IdtEntry
idt_set_descriptor idt vector isr flags = set idt vector (descriptor isr flags)

-- The loop of `init_idt`, with `left` vectors to go.
pub set_descriptors : (ℕ → ℕ) → List IdtEntry → ℕ → ℕ → List IdtEntry
unfolding idt_set_descriptor
set_descriptors isr_stub_table idt zero vector = idt
set_descriptors isr_stub_table idt (suc left) vector =
    set_descriptors isr_stub_table (idt_set_descriptor idt vector (isr_stub_table vector) 0x8E) left
      (vector + 1)

unfoldable pub init_idt : (ℕ → ℕ) → ℕ → List IdtEntry → List IdtEntry × IdtPtr
unfolding set_descriptors
init_idt isr_stub_table address idt = (
  set_descriptors isr_stub_table idt num_idt_entries 0,
  record { limit = u16 (8 * num_idt_entries - 1); base = u32 address },
)

-- `cpu_state_t`
pub record CpuState : Type 0 where
  pub cr2 : ℕ
  pub edi : ℕ
  pub esi : ℕ
  pub ebp : ℕ
  pub esp : ℕ
  pub ebx : ℕ
  pub edx : ℕ
  pub ecx : ℕ
  pub eax : ℕ
  pub int_no : ℕ
  pub err_code : ℕ
  pub eip : ℕ
  pub cs : ℕ
  pub eflags : ℕ
  pub useresp : ℕ
  pub ss : ℕ

-- What the handling of an interrupt comes to: a call of a handler with the state, or the message
-- with the number, and a halt with interrupts off.
pub data Handled {ℓ} (H : Type ℓ) : Type ℓ where
  calls : H → CpuState → Handled H
  hangs : ℕ → Handled H

module _ {ℓ} {H : Type ℓ} where
  -- The loop, with `left` rounds to go; a null pointer is `none`.
  pub clear_handlers : List (Option H) → ℕ → ℕ → List (Option H)
  clear_handlers handlers zero i = handlers
  clear_handlers handlers (suc left) i = clear_handlers (set handlers i none) left (i + 1)

  unfoldable pub pre_init_idt : List (Option H) → List (Option H)
  unfolding clear_handlers
  pre_init_idt handlers = clear_handlers handlers num_idt_entries 0

  unfoldable pub register_int_handler : List (Option H) → ℕ → H → List (Option H)
  register_int_handler handlers num handler = set handlers num (some handler)

  abbrev pub dispatch : Option H → CpuState → Handled H
  dispatch (some handler) state = calls handler state
  dispatch none state = hangs state.int_no

  unfoldable pub interrupt_handler : List (Option H) → CpuState → Handled H
  interrupt_handler handlers state = dispatch (get_or handlers state.int_no none) state
