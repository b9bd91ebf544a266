-- ===== src/Boot/Interrupts.antt =====
-- The interrupts that the kernel handles once it has booted.
use icix.Prelude.{
  ℕ, ◌^◌, ◌<◌, ◌==◌, if◌then◌else◌, List, ◌∷◌, ◌≡◌, ◌∙◌, refl, ap, arith, length, Option, u8,
  bit_and, not32, shl32,
}
use icix.Outcome.{done}
use icix.Interrupts.{
  CpuState, Handled, calls, hangs, pre_init_idt, register_int_handler, interrupt_handler,
}
use icix.Interrupts.Laws.{
  length-pre_init_idt, length-register_int_handler, interrupt_handler-register_int_handler,
  interrupt_handler-pre_init_idt,
}
use icix.Pic.{Ports, wrote, pic1_data, pic2_data, pic_remap, pic_disable, irq_clear_mask}
use icix.Pic.Laws.{written_to}
use icix.Timer.{init_timer}
use icix.Boot.{Handler, page_fault, timer_callback, start_timer}

-- The tables that the boot leaves.
abbrev pub registered : List (Option Handler) → List (Option Handler)
registered handlers =
    register_int_handler (register_int_handler (pre_init_idt handlers) 14 page_fault) 32
      timer_callback

-- What becomes of an interrupt.
abbrev pub handled : CpuState → Handled Handler
handled state =
    if 32 == state.int_no
    then calls timer_callback state
    else if 14 == state.int_no
    then calls page_fault state
    else hangs state.int_no

pub interrupt_handler-registered :
    (handlers : List (Option Handler)) (state : CpuState)
    → length handlers ≡ 256
    → state.int_no < 256
    → interrupt_handler (registered handlers) state ≡ handled state
interrupt_handler-registered handlers state size small =
    let h0 = pre_init_idt handlers in
    let size0 : length h0 ≡ 256 = length-pre_init_idt handlers ∙ size in
    let size1 : length (register_int_handler h0 14 page_fault) ≡ 256 =
      length-register_int_handler h0 14 page_fault ∙ size0 in
    interrupt_handler-register_int_handler (register_int_handler h0 14 page_fault) 32 timer_callback
      state (omega (arith, size1))
    ∙ ap (λ r. if 32 == state.int_no then calls timer_callback state else r)
        (interrupt_handler-register_int_handler h0 14 page_fault state (omega (arith, size0))
          ∙ ap (λ r. if 14 == state.int_no then calls page_fault state else r)
              (interrupt_handler-pre_init_idt handlers state small))

-- The documented behaviour of an initialised 8259A, after the masks are set and the timer is
-- programmed: a read of its data port gives the mask, the byte that was last written there.
abbrev pub ReadsMask : (Ports → ℕ → ℕ) → Type 0
ReadsMask device =
    (h : Ports) (a b c v w : ℕ)
    → w < 2 ^ 8
    → device
        (wrote 0x40 a ∷ wrote 0x40 b ∷ wrote 0x43 c ∷ wrote pic2_data v ∷ wrote pic1_data w ∷ h)
        pic1_data
      ≡ w

-- Of the 16 lines all but the timer's are masked.
pub start_timer-masks :
    (device : Ports → ℕ → ℕ) (handlers : List (Option Handler)) (ports : Ports)
    → ReadsMask device
    → (h : Ports) × (rest : List ℕ) × (rest' : List ℕ) × (start_timer device handlers ports
        ≡ done (register_int_handler handlers 32 timer_callback, h))
      × (written_to pic1_data h ≡ 0xFE ∷ rest)
      × (written_to pic2_data h ≡ 0xFF ∷ rest')
unfolding start_timer init_timer pic_disable irq_clear_mask shl32
start_timer-masks device handlers ports reads =
    let h0 = pic_remap device 0x20 0x28 ports in
    let old : device _ pic1_data ≡ 0xFF = reads h0 93 55 0x36 0xFF 0xFF (omega arith) in
    (
      _,
      0xFF ∷ written_to pic1_data h0,
      written_to pic2_data h0,
      refl,
      ap (λ o. u8 (u8 (bit_and (u8 o) (not32 (shl32 1 0)))) ∷ 0xFF ∷ written_to pic1_data h0) old,
      refl,
    )
