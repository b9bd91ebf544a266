-- ===== src/Gdt.antt =====
-- The global descriptor table: kernel/arch/i386/gdt.c and gdt.h. `_gdt_flush`, in assembly, loads
-- the pointer and is left out.
pub mod Laws
use icix.Prelude.{ℕ, ◌-◌, ◌*◌, ◌/◌, ◌^◌, List, set, replicate, u8, u16, u32, bit_and, bit_or}

pub record GdtEntry : Type 0 where
  pub limit_low : ℕ
  pub base_low : ℕ
  pub base_middle : ℕ
  pub access : ℕ
  pub granularity : ℕ
  pub base_high : ℕ

pub record GdtPtr : Type 0 where
  pub limit : ℕ
  pub base : ℕ

abbrev pub num_gdt_entries : ℕ
num_gdt_entries = 5

-- The entry that `_gdt_set_gate` fills in, every field of it.
unfoldable pub gate : ℕ → ℕ → ℕ → ℕ → GdtEntry
gate base limit access gran = record {
  limit_low = u16 (bit_and limit 0xFFFF);
  base_low = u16 (bit_and base 0xFFFF);
  base_middle = u8 (bit_and (base / 2 ^ 16) 0xFF);
  access = access;
  granularity = u8 (bit_or (u8 (bit_and (limit / 2 ^ 16) 0x0F)) (bit_and gran 0xF0));
  base_high = u8 (bit_and (base / 2 ^ 24) 0xFF);
}

unfoldable pub gdt_set_gate : List GdtEntry → ℕ → ℕ → ℕ → ℕ → ℕ → List GdtEntry
unfolding gate
gdt_set_gate entries num base limit access gran = set entries num (gate base limit access gran)

-- The table at `address` and the pointer to it that the processor is given; a global is zero first.
unfoldable pub init_gdt : ℕ → List GdtEntry × GdtPtr
unfolding gdt_set_gate
init_gdt address =
    let blank : GdtEntry = record {
      limit_low = 0;
      base_low = 0;
      base_middle = 0;
      access = 0;
      granularity = 0;
      base_high = 0;
    } in
    let e0 = gdt_set_gate (replicate num_gdt_entries blank) 0 0 0 0 0 in
    let e1 = gdt_set_gate e0 1 0 0xFFFF 0x9A 0xCF in
    let e2 = gdt_set_gate e1 2 0 0xFFFF 0x92 0xCF in
    let e3 = gdt_set_gate e2 3 0 0xFFFFFFFF 0xFA 0xCF in
    let e4 = gdt_set_gate e3 4 0 0xFFFFFFFF 0xF2 0xCF in
    (e4, record { limit = u16 (8 * num_gdt_entries - 1); base = u32 address })
