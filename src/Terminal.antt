-- ===== src/Terminal.antt =====
-- The text console: kernel/arch/i386/tty.c and vga.h. The cells of the screen are a map from the
-- index into `terminal_buffer`; an index past the screen is memory behind it.
pub mod Laws
use icix.Prelude.{ℕ, zero, suc, ◌+◌, ◌*◌, ◌^◌, ◌==◌, if◌then◌else◌, List, [], ◌∷◌, bit_or, u8, u16}
use icix.Cstring.{strlen}

abbrev pub vga_width : ℕ
vga_width = 80

abbrev pub vga_height : ℕ
vga_height = 25

pub data VgaColor : Type 0 where
  black blue green cyan red magenta brown light_grey dark_grey light_blue light_green : VgaColor
  light_cyan light_red light_magenta light_brown white : VgaColor

-- The numbers of `enum vga_color`.
abbrev pub vga_color : VgaColor → ℕ
vga_color black = 0
vga_color blue = 1
vga_color green = 2
vga_color cyan = 3
vga_color red = 4
vga_color magenta = 5
vga_color brown = 6
vga_color light_grey = 7
vga_color dark_grey = 8
vga_color light_blue = 9
vga_color light_green = 10
vga_color light_cyan = 11
vga_color light_red = 12
vga_color light_magenta = 13
vga_color light_brown = 14
vga_color white = 15

unfoldable pub vga_entry_color : VgaColor → VgaColor → ℕ
vga_entry_color fg bg = u8 (bit_or (vga_color fg) (vga_color bg * 2 ^ 4))

unfoldable pub vga_entry : ℕ → ℕ → ℕ
vga_entry uc color = u16 (bit_or uc (color * 2 ^ 8))

pub record Terminal : Type 0 where
  pub row : ℕ
  pub column : ℕ
  pub color : ℕ
  pub buffer : ℕ → ℕ

-- The loop over x, with `left` columns to go.
pub clear_row : ℕ → ℕ → ℕ → ℕ → (ℕ → ℕ) → ℕ → ℕ
clear_row color y zero x cells = cells
clear_row color y (suc left) x cells =
    clear_row color y left (x + 1)
      (λ k. if k == y * vga_width + x then vga_entry b' ' color else cells k)

-- The loop over y, with `left` rows to go.
pub clear_rows : ℕ → ℕ → ℕ → (ℕ → ℕ) → ℕ → ℕ
clear_rows color zero y cells = cells
clear_rows color (suc left) y cells =
    clear_rows color left (y + 1) (clear_row color y vga_width 0 cells)

unfoldable pub terminal_clear : Terminal → Terminal
unfolding clear_rows
terminal_clear t = record t { buffer = clear_rows t.color vga_height 0 t.buffer }

-- `terminal_buffer = VGA_MEMORY`: what the screen holds at boot is the argument.
unfoldable pub terminal_initialize : (ℕ → ℕ) → Terminal
unfolding clear_rows
terminal_initialize cells =
    let color = vga_entry_color light_grey black in
    record { row = 0; column = 0; color = color; buffer = clear_rows color vga_height 0 cells }

unfoldable pub terminal_setcolor : Terminal → ℕ → Terminal
terminal_setcolor t color = record t { color = color }

unfoldable pub terminal_putentryat : Terminal → ℕ → ℕ → ℕ → ℕ → Terminal
terminal_putentryat t c color x y = record t {
  buffer = λ k. if k == y * vga_width + x then vga_entry c color else t.buffer k;
}

-- `terminal_column = 0; if (++terminal_row == VGA_HEIGHT) …`
unfoldable pub next_row : Terminal → Terminal
unfolding terminal_clear
next_row t =
    if t.row + 1 == vga_height
    then terminal_clear (record t { column = 0; row = 0 })
    else record t { column = 0; row = t.row + 1 }

unfoldable pub terminal_putchar : Terminal → ℕ → Terminal
unfolding terminal_putentryat next_row
terminal_putchar t c =
    if c == b'\n'
    then next_row t
    else (let t1 = terminal_putentryat t (u8 c) t.color t.column t.row in
        if t.column + 1 == vga_width then next_row t1 else record t1 { column = t.column + 1 })

-- With `size` characters to go, read off `data`; 0 behind its end.
unfoldable pub terminal_write : Terminal → List ℕ → ℕ → Terminal
unfolding terminal_putchar
terminal_write t text zero = t
terminal_write t [] (suc size) = terminal_write (terminal_putchar t 0) [] size
terminal_write t (c ∷ text) (suc size) = terminal_write (terminal_putchar t c) text size

unfoldable pub terminal_writestring : Terminal → List ℕ → Terminal
unfolding terminal_write
terminal_writestring t text = terminal_write t text (strlen text)
