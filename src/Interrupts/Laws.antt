-- ===== src/Interrupts/Laws.antt =====
-- Which handler an interrupt reaches.
use icix.Prelude.{
  ℕ, zero, suc, ◌+◌, ◌*◌, ◌^◌, ◌≤◌, ◌<◌, ◌==◌, if◌then◌else◌, ltb, leb, ◌&&◌, List, [], ◌∷◌,
}
use icix.Prelude.{
  ◌≡◌, ◌∙◌, sym, refl, ap, arith, inl, inr, Bool-cases, length, get_or, set, bit_and_low,
}
use icix.Prelude.{Option, none, some, length-set, get_or-set_self, get_or-set_ne, ==_iff}
use icix.Interrupts.{IdtEntry, descriptor, idt_set_descriptor, set_descriptors, init_idt}
use icix.Interrupts.{CpuState, calls, hangs, clear_handlers, pre_init_idt}
use icix.Interrupts.{register_int_handler, dispatch, interrupt_handler}

-- The address that an interrupt gate jumps to, by the layout of the i386.
abbrev pub target : IdtEntry → ℕ
target e = e.isr_low + e.isr_high * 2 ^ 16

target-descriptor : (isr flags : ℕ) → isr < 2 ^ 32 → target (descriptor isr flags) ≡ isr
target-descriptor isr flags h = omega (arith, bit_and_low 16 isr)

set_descriptors_lem :
    (stubs : ℕ → ℕ) (idt : List IdtEntry) (left i vector : ℕ) (d : IdtEntry)
    → i + left ≤ length idt
    → get_or (set_descriptors stubs idt left i) vector d ≡ (
        if leb i vector && ltb vector (i + left)
        then descriptor (stubs vector) 0x8E
        else get_or idt vector d)
unfolding set_descriptors idt_set_descriptor
set_descriptors_lem stubs idt zero i vector d h = ground arith
set_descriptors_lem stubs idt (suc left) i vector d h =
    let idt1 = set idt i (descriptor (stubs i) 0x8E) in
    let rest =
      set_descriptors_lem stubs idt1 left (i + 1) vector d
        (omega (arith, length-set idt i (descriptor (stubs i) 0x8E))) in
    elim (Bool-cases (i == vector)) [
      | inl e ↦
          let same : i ≡ vector = (==_iff i vector).0 e in
          let now : get_or idt1 vector d ≡ descriptor (stubs vector) 0x8E =
            rw (← same) (get_or-set_self idt i (descriptor (stubs i) 0x8E) d (omega arith)) in
          ground (arith, rest, now, same)
      | inr e ↦
          ground
            (arith, rest, get_or-set_ne idt i vector (descriptor (stubs i) 0x8E) d (ground arith))
    ]

-- After `init_idt`, each of the 256 vectors of the table jumps to its stub, through the kernel's code
-- segment and as an interrupt gate.
pub init_idt_lem :
    (stubs : ℕ → ℕ) (address : ℕ) (idt : List IdtEntry) (vector : ℕ) (d : IdtEntry)
    → length idt ≡ 256
    → vector < 256
    → stubs vector < 2 ^ 32
    → let e = get_or (init_idt stubs address idt).0 vector d in
      (target e ≡ stubs vector) × (e.kernel_cs ≡ 0x08) × (e.attributes ≡ 0x8E)
unfolding init_idt
init_idt_lem stubs address idt vector d size inside small =
    let e : get_or (set_descriptors stubs idt 256 0) vector d ≡ descriptor (stubs vector) 0x8E =
      ground (arith, set_descriptors_lem stubs idt 256 0 vector d (omega (arith, size))) in
    rw e (target-descriptor (stubs vector) 0x8E small, refl, refl)

module _ {ℓ} {H : Type ℓ} where
  -- An interrupt after a registration for a number of the table: it reaches the new handler, with
  -- the state, if it has that number, and is handled as before otherwise.
  pub interrupt_handler-register_int_handler :
      (handlers : List (Option H)) (num : ℕ) (handler : H) (state : CpuState)
      → num < length handlers
      → interrupt_handler (register_int_handler handlers num handler) state
        ≡ (if num == state.int_no then calls handler state else interrupt_handler handlers state)
  unfolding interrupt_handler register_int_handler
  interrupt_handler-register_int_handler handlers num handler state h =
      elim (Bool-cases (num == state.int_no)) [
        | inl e ↦
            let same : num ≡ state.int_no = (==_iff num state.int_no).0 e in
            let found : get_or (set handlers num (some handler)) state.int_no none ≡ some handler =
              ap (λ n. get_or (set handlers num (some handler)) n none) (sym same)
              ∙ get_or-set_self handlers num (some handler) none h in
            rw e (ap (λ h. dispatch h state) found)
        | inr e ↦ rw e (
            ap (λ h. dispatch h state)
              (get_or-set_ne handlers num state.int_no (some handler) none (ground arith)))
      ]

  get_or-set_default : (xs : List (Option H)) (i : ℕ) (d : Option H) → get_or (set xs i d) i d ≡ d
  get_or-set_default [] i d = refl
  get_or-set_default (x ∷ xs) zero d = refl
  get_or-set_default (x ∷ xs) (suc i) d = get_or-set_default xs i d

  clear_handlers_lem :
      (handlers : List (Option H)) (left i k : ℕ)
      → get_or (clear_handlers handlers left i) k none
        ≡ (if leb i k && ltb k (i + left) then none else get_or handlers k none)
  unfolding clear_handlers
  clear_handlers_lem handlers zero i k = ground arith
  clear_handlers_lem handlers (suc left) i k =
      let rest = clear_handlers_lem (set handlers i none) left (i + 1) k in
      elim (Bool-cases (i == k)) [
        | inl e ↦
            let same : i ≡ k = (==_iff i k).0 e in
            let now : get_or (set handlers i none) k none ≡ none =
              ap (λ n. get_or (set handlers i none) n none) (sym same)
              ∙ get_or-set_default handlers i none in
            ground (arith, rest, now, same)
        | inr e ↦ ground (arith, rest, get_or-set_ne handlers i k none none (ground arith))
      ]

  length-clear_handlers :
      (handlers : List (Option H)) (left i : ℕ)
      → length (clear_handlers handlers left i) ≡ length handlers
  unfolding clear_handlers
  length-clear_handlers handlers zero i = refl
  length-clear_handlers handlers (suc left) i =
      length-clear_handlers (set handlers i none) left (i + 1) ∙ length-set handlers i none

  pub length-pre_init_idt :
      (handlers : List (Option H)) → length (pre_init_idt handlers) ≡ length handlers
  unfolding pre_init_idt
  length-pre_init_idt handlers = length-clear_handlers handlers 256 0

  pub length-register_int_handler :
      (handlers : List (Option H)) (num : ℕ) (handler : H)
      → length (register_int_handler handlers num handler) ≡ length handlers
  unfolding register_int_handler
  length-register_int_handler handlers num handler = length-set handlers num (some handler)

  -- After `pre_init_idt`, an interrupt with a number of the table hangs the machine, until a handler
  -- is registered.
  pub interrupt_handler-pre_init_idt :
      (handlers : List (Option H)) (state : CpuState)
      → state.int_no < 256
      → interrupt_handler (pre_init_idt handlers) state ≡ hangs state.int_no
  unfolding interrupt_handler pre_init_idt
  interrupt_handler-pre_init_idt handlers state h =
      let e : get_or (clear_handlers handlers 256 0) state.int_no none ≡ none =
        ground (arith, clear_handlers_lem handlers 256 0 state.int_no) in
      ap (λ h. dispatch h state) e
