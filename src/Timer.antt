-- ===== src/Timer.antt =====
-- The timer of kernel/kernel/kernel.c: `init_timer` and its handler.
pub mod Laws
use icix.Prelude.{
  ℕ, ◌+◌, ◌-◌, ◌*◌, ◌/◌, ◌%◌, ◌^◌, ◌==◌, if◌then◌else◌, List, Option, Bool, bit_and, u8, add32,
  sub32,
}
use icix.Outcome.{Outcome, done, undefined}
use icix.Pic.{Ports, outb, pic_send_eoi}
use icix.Interrupts.{CpuState, register_int_handler}

-- The divisor of the timer's clock is sent low byte first; a frequency of 0 divides by zero.
unfoldable pub init_timer {ℓ} :
    {H : Type ℓ} → ℕ → H → List (Option H) → Ports → Outcome (List (Option H) × Ports)
unfolding register_int_handler
init_timer frequency timer_callback handlers h =
    if frequency == 0
    then undefined
    else (let divisor = 1193180 / frequency in
        let l = u8 (bit_and divisor 0xFF) in
        let high = u8 (bit_and (divisor / 2 ^ 8) 0xFF) in
        done (
          register_int_handler handlers 32 timer_callback,
          outb 0x40 high (outb 0x40 l (outb 0x43 0x36 h)),
        ))

-- The tick count, the ports, and whether the address 0xFFFFFFFF is read, which faults.
unfoldable pub timer_callback : CpuState → ℕ → Ports → ℕ × Ports × Bool
unfolding pic_send_eoi
timer_callback regs tick h =
    let tick1 = add32 tick 1 in
    (tick1, pic_send_eoi (u8 (sub32 regs.int_no 32)) h, tick1 % 250 == 0)
