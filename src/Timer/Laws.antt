-- ===== src/Timer/Laws.antt =====
-- What the timer chip receives, and when the handler faults.
use native.Mathlib.Nat.{div-lt_iff_lt-mul}
use icix.Prelude.{
  ℕ, ◌+◌, ◌*◌, ◌/◌, ◌^◌, ◌<◌, ◌==◌, List, ◌∷◌, Option, ◌≡◌, refl, arith, bit_and_low, get_or, some,
}
use icix.Prelude.{false, length, none, get_or-set_self}
use icix.Outcome.{Outcome, done, aborted, undefined}
use icix.Pic.{Ports}
use icix.Pic.Laws.{written_to}
use icix.Interrupts.{register_int_handler}
use icix.Timer.{init_timer}

-- The handler is in place, and the two bytes of the data port, the last one first, make up the
-- divisor.
abbrev pub Programs : ℕ → ℕ → Ports → Outcome (List (Option ℕ) × Ports) → Type 0
Programs frequency handler h (done (handlers, h')) =
    (get_or handlers 32 none ≡ some handler)
    × ((low : ℕ) × (high : ℕ) × (written_to 0x40 h' ≡ high ∷ low ∷ written_to 0x40 h)
        × (low + 256 * high ≡ 1193180 / frequency))
Programs frequency handler h aborted = ⊥
Programs frequency handler h undefined = ⊥

-- For a frequency from 19 on, whose divisor fits in 16 bits, and a table of more than 32 handlers:
-- `init_timer` registers the handler for interrupt 32 and sends the timer exactly the divisor
-- 1193180 / frequency, low byte first.
pub init_timer-Programs :
    (frequency handler : ℕ) (handlers : List (Option ℕ)) (h : Ports)
    → 18 < frequency
    → 32 < length handlers
    → Programs frequency handler h (init_timer frequency handler handlers h)
unfolding init_timer register_int_handler
init_timer-Programs frequency handler handlers h fast room =
    let t : (frequency == 0) ≡ false = ground arith in
    let small : 1193180 / frequency < 2 ^ 16 = divisor_small frequency fast in
    rw t (
      get_or-set_self handlers 32 (some handler) none room,
      (
        _,
        _,
        refl,
        omega (
          arith,
          small,
          bit_and_low 8 (1193180 / frequency),
          bit_and_low 8 (1193180 / frequency / 2 ^ 8),
        ),
      ),
    )
  where
    divisor_small : (f : ℕ) → 18 < f → 1193180 / f < 2 ^ 16
    divisor_small f p = (div-lt_iff_lt-mul (omega arith)).1 (omega arith)
