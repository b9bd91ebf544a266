-- ===== src/Pic.antt =====
-- The interrupt controllers: kernel/arch/i386/pic.c and pic.h, with `outb`, `inb` and `io_wait` of
-- utilities.h. The machine is the history of accesses to its ports, the last one first; what a read
-- of a port gives after a history is the parameter `device`.
pub mod Laws
use icix.Prelude.{
  ℕ, ◌+◌, ◌-◌, ◌*◌, ◌^◌, if◌then◌else◌, ltb, leb, List, ◌∷◌, bit_and, bit_or, u8, u16, shl32, not32,
}

pub data Access : Type 0 where
  wrote : ℕ → ℕ → Access
  has_read : ℕ → Access

abbrev pub Ports : Type 0
Ports = List Access

abbrev pub pic1_command : ℕ
pic1_command = 0x20

abbrev pub pic2_command : ℕ
pic2_command = 0xA0

abbrev pub pic1_data : ℕ
pic1_data = pic1_command + 1

abbrev pub pic2_data : ℕ
pic2_data = pic2_command + 1

abbrev pub icw1_icw4 : ℕ
icw1_icw4 = 0x01

abbrev pub icw1_init : ℕ
icw1_init = 0x10

abbrev pub icw4_8086 : ℕ
icw4_8086 = 0x01

abbrev pub pic_eoi : ℕ
pic_eoi = 0x20

abbrev pub pic_read_irr : ℕ
pic_read_irr = 0x0a

abbrev pub pic_read_isr : ℕ
pic_read_isr = 0x0b

abbrev pub outb : ℕ → ℕ → Ports → Ports
outb port val h = wrote port (u8 val) ∷ h

abbrev pub io_wait : Ports → Ports
io_wait h = outb 0x80 0 h

module _ (device : Ports → ℕ → ℕ) where
  abbrev pub inb : ℕ → Ports → ℕ × Ports
  inb port h = (u8 (device h port), has_read port ∷ h)

  unfoldable pub pic_remap : ℕ → ℕ → Ports → Ports
  pic_remap offset1 offset2 h =
      let (a1, h1) = inb pic1_data h in
      let (a2, h2) = inb pic2_data h1 in
      let h3 = io_wait (outb pic1_command (bit_or icw1_init icw1_icw4) h2) in
      let h4 = io_wait (outb pic2_command (bit_or icw1_init icw1_icw4) h3) in
      let h5 = io_wait (outb pic1_data offset1 h4) in
      let h6 = io_wait (outb pic2_data offset2 h5) in
      let h7 = io_wait (outb pic1_data 4 h6) in
      let h8 = io_wait (outb pic2_data 2 h7) in
      let h9 = io_wait (outb pic1_data icw4_8086 h8) in
      let h10 = io_wait (outb pic2_data icw4_8086 h9) in outb pic2_data a2 (outb pic1_data a1 h10)

  -- The port of the line's controller, and the line there.
  abbrev pub line_of : ℕ → ℕ × ℕ
  line_of irq = if ltb irq 8 then (pic1_data, irq) else (pic2_data, irq - 8)

  unfoldable pub irq_set_mask : ℕ → Ports → Ports
  unfolding shl32
  irq_set_mask irq h =
      let (port, line) = line_of irq in
      let (old, h1) = inb port h in outb port (u8 (bit_or old (shl32 1 line))) h1

  unfoldable pub irq_clear_mask : ℕ → Ports → Ports
  unfolding shl32
  irq_clear_mask irq h =
      let (port, line) = line_of irq in
      let (old, h1) = inb port h in outb port (u8 (bit_and old (not32 (shl32 1 line)))) h1

  unfoldable pub pic_get_irq_reg : ℕ → Ports → ℕ × Ports
  pic_get_irq_reg ocw3 h =
      let h1 = outb pic2_command ocw3 (outb pic1_command ocw3 h) in
      let (high, h2) = inb pic2_command h1 in
      let (low, h3) = inb pic1_command h2 in (u16 (bit_or (high * 2 ^ 8) low), h3)

  unfoldable pub pic_get_irr : Ports → ℕ × Ports
  unfolding pic_get_irq_reg
  pic_get_irr h = pic_get_irq_reg pic_read_irr h

  unfoldable pub pic_get_isr : Ports → ℕ × Ports
  unfolding pic_get_irq_reg
  pic_get_isr h = pic_get_irq_reg pic_read_isr h

unfoldable pub pic_disable : Ports → Ports
pic_disable h = outb pic2_data 0xff (outb pic1_data 0xff h)

unfoldable pub pic_send_eoi : ℕ → Ports → Ports
pic_send_eoi irq h =
    outb pic1_command pic_eoi (if leb 8 irq then outb pic2_command pic_eoi h else h)
