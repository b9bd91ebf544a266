-- ===== src/Gdt/Laws.antt =====
-- What the processor reads from a descriptor.
use icix.Prelude.{
  ℕ, ◌+◌, ◌*◌, ◌/◌, ◌%◌, ◌^◌, ◌<◌, ◌≡◌, refl, arith, bit_or, bit_and, length, get_or,
}
use icix.Prelude.{
  List, zero, suc, ◌≤◌, bit_and_step, bit_or_step, get_or-set_self, bit_and_low, bit_or_sum,
}
use icix.Gdt.{GdtEntry, gate, gdt_set_gate}

-- The base and the limit that the descriptor gives, by the layout of the i386.
abbrev pub base_of : GdtEntry → ℕ
base_of e = e.base_low + e.base_middle * 2 ^ 16 + e.base_high * 2 ^ 24

abbrev pub limit_of : GdtEntry → ℕ
limit_of e = e.limit_low + e.granularity % 16 * 2 ^ 16

-- A flag byte with a zero low half is a multiple of 16.
abbrev flags_of : GdtEntry → ℕ
flags_of e = e.granularity / 16

bit_or_comm : (n a b : ℕ) → a ≤ n → b ≤ n → bit_or a b ≡ bit_or b a
bit_or_comm zero a b p q =
    let zero_a : a ≡ 0 = omega arith in let zero_b : b ≡ 0 = omega arith in rw (zero_a, zero_b) refl
bit_or_comm (suc n) a b p q = omega (
  arith,
  bit_or_step a b,
  bit_or_step b a,
  bit_or_comm n (a / 2) (b / 2) (omega arith) (omega arith),
)

-- The gate that `_gdt_set_gate` leaves in a slot of the table holds the whole base, the low 20 bits
-- of the limit, the high half of the flags and the access byte.
pub gdt_set_gate_lem :
    (entries : List GdtEntry) (num base limit access flags low : ℕ) (d : GdtEntry)
    → num < length entries
    → base < 2 ^ 32
    → flags < 16
    → low < 16
    → let e = get_or (gdt_set_gate entries num base limit access (flags * 16 + low)) num d in
      (base_of e ≡ base)
      × (limit_of e ≡ limit % 2 ^ 20)
      × (e.granularity / 16 ≡ flags)
      × (e.access ≡ access)
unfolding gdt_set_gate gate
gdt_set_gate_lem entries num base limit access flags low d inside small half low_half =
    rw (get_or-set_self entries num (gate base limit access (flags * 16 + low)) d inside) (
      omega (
        arith,
        bit_and_low 16 base,
        bit_and_low 8 (base / 2 ^ 16),
        bit_and_low 8 (base / 2 ^ 24),
      ),
      omega (arith, packed, bit_and_low 16 limit),
      omega (arith, packed),
      refl,
    )
  where
    high : bit_and (flags * 16 + low) 0xF0 ≡ flags * 16
    high =
        let x = flags * 16 + low in
        omega (
          arith,
          bit_and_step x 0xF0,
          bit_and_step (x / 2) 0x78,
          bit_and_step (x / 2 / 2) 0x3C,
          bit_and_step (x / 2 / 2 / 2) 0x1E,
          bit_and_low 4 (x / 2 / 2 / 2 / 2),
        )

    packed :
        bit_or (bit_and (limit / 2 ^ 16) 0x0F % 2 ^ 8) (bit_and (flags * 16 + low) 0xF0)
        ≡ limit / 2 ^ 16 % 16 + flags * 16
    packed =
        let r = limit / 2 ^ 16 % 16 in
        let low_part : bit_and (limit / 2 ^ 16) 0x0F % 2 ^ 8 ≡ r =
          omega (arith, bit_and_low 4 (limit / 2 ^ 16)) in
        rw (low_part, high)
          (omega (
            arith,
            bit_or_comm (r + flags * 16) r (flags * 16) (omega arith) (omega arith),
            bit_or_sum 4 flags r (omega arith),
          ))
