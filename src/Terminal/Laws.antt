-- ===== src/Terminal/Laws.antt =====
-- The cursor stays on the screen, and what a string leaves there.
use mathlib.Core.Path.{subst}
use icix.Prelude.{ℕ, zero, suc, ◌+◌, ◌-◌, ◌*◌, ◌%◌, ◌≤◌, ◌<◌, ◌==◌, if◌then◌else◌, ltb, leb, ◌&&◌}
use icix.Prelude.{
  List, [], ◌∷◌, ◌≡◌, ◌≢◌, refl, arith, inl, inr, Bool-cases, false, ◌∙◌, u8, length, get_or,
}
use icix.Terminal.{Terminal, vga_entry, vga_width, clear_row, clear_rows, terminal_clear}
use icix.Terminal.{terminal_putentryat, next_row, terminal_putchar, terminal_write}

-- The cursor is on the screen.
abbrev pub OnScreen : Terminal → Type 0
OnScreen t = (t.row < 25) × (t.column < 80)

-- The cell that the cursor is on.
abbrev pub cursor : Terminal → ℕ
cursor t = t.row * 80 + t.column

clear_row_lem :
    (color y left x : ℕ) (cells : ℕ → ℕ) (k : ℕ)
    → clear_row color y left x cells k ≡ (
        if leb (y * 80 + x) k && ltb k (y * 80 + (x + left)) then vga_entry b' ' color else cells k)
unfolding clear_row
clear_row_lem color y zero x cells k = ground arith
clear_row_lem color y (suc left) x cells k = ground (
  arith,
  clear_row_lem color y left (x + 1)
      (λ j. if j == y * vga_width + x then vga_entry b' ' color else cells j) k,
)

clear_rows_lem :
    (color left y : ℕ) (cells : ℕ → ℕ) (k : ℕ)
    → clear_rows color left y cells k
      ≡ (if leb (y * 80) k && ltb k ((y + left) * 80) then vga_entry b' ' color else cells k)
unfolding clear_rows
clear_rows_lem color zero y cells k = ground arith
clear_rows_lem color (suc left) y cells k = ground (
  arith,
  clear_rows_lem color left (y + 1) (clear_row color y vga_width 0 cells) k,
  clear_row_lem color y 80 0 cells k,
)

-- `terminal_clear` writes a blank in the current colour to each of the 2000 cells, nothing else.
pub buffer-terminal_clear :
    (t : Terminal) (k : ℕ)
    → (terminal_clear t).buffer k ≡ (if ltb k 2000 then vga_entry b' ' t.color else t.buffer k)
unfolding terminal_clear
buffer-terminal_clear t k = ground (arith, clear_rows_lem t.color 25 0 t.buffer k)

next_row_lem :
    (t : Terminal)
    → t.row < 25
    → ((next_row t).row ≡ (t.row + 1) % 25)
      × ((next_row t).column ≡ 0)
      × ((k : ℕ) → 2000 ≤ k → (next_row t).buffer k ≡ t.buffer k)
unfolding next_row terminal_clear
next_row_lem t h = elim (Bool-cases (t.row + 1 == 25)) [
  | inl e ↦ rw e (ground arith, refl, λ k p. ground (arith, clear_rows_lem t.color 25 0 t.buffer k))
  | inr e ↦ rw e (ground arith, refl, λ k p. refl)
]

-- What holds of one step: the cursor stays on the screen, moves to the next cell or line modulo the
-- screen, and no cell past the screen changes.
abbrev pub Advances : ℕ → Terminal → Terminal → Type 0
Advances c t t' =
    OnScreen t'
    × (cursor t' ≡ (if c == b'\n' then (t.row + 1) % 25 * 80 else (cursor t + 1) % 2000))
    × ((k : ℕ) → 2000 ≤ k → t'.buffer k ≡ t.buffer k)

-- With the cursor on the screen, `terminal_putchar` keeps it there, moves it to the start of the
-- next line on a newline and to the next cell otherwise, wrapping around at the end of the screen,
-- and changes no cell past the 2000 of the screen.
pub terminal_putchar-Advances :
    (t : Terminal) (c : ℕ) → OnScreen t → Advances c t (terminal_putchar t c)
unfolding terminal_putchar terminal_putentryat
terminal_putchar-Advances t c (rows, columns) =
    let t1 = terminal_putentryat t (u8 c) t.color t.column t.row in
    let (r, z, keep) = next_row_lem t rows in
    let (r1, z1, keep1) = next_row_lem t1 rows in
    elim (Bool-cases (c == b'\n')) [
      | inl e ↦ rw e ((omega (arith, r), omega (arith, z)), omega (arith, r, z), keep)
      | inr e ↦ elim (Bool-cases (t.column + 1 == 80)) [
        | inl f ↦
            let last : t.column + 1 ≡ 80 = ground (arith, f) in
            rw (e, f)
              (
                (omega (arith, r1), omega (arith, z1)),
                omega (arith, r1, z1, last),
                λ k p. ground (arith, keep1 k p),
              )
        | inr f ↦ rw (e, f) ((rows, ground arith), ground arith, λ k p. ground arith)
      ]
    ]

-- With the cursor on the screen, `terminal_write` of any data keeps it there and changes no cell
-- past the 2000 of the screen.
pub terminal_write-OnScreen :
    (t : Terminal) (text : List ℕ) (size : ℕ)
    → OnScreen t
    → OnScreen (terminal_write t text size)
      × ((k : ℕ) → 2000 ≤ k → (terminal_write t text size).buffer k ≡ t.buffer k)
unfolding terminal_write
terminal_write-OnScreen t text zero h = (h, λ k p. refl)
terminal_write-OnScreen t [] (suc size) h =
    let (on, _, keep) = terminal_putchar-Advances t 0 h in
    let (on', keep') = terminal_write-OnScreen (terminal_putchar t 0) [] size on in
    (on', λ k p. omega (arith, keep k p, keep' k p))
terminal_write-OnScreen t (c ∷ text) (suc size) h =
    let (on, _, keep) = terminal_putchar-Advances t c h in
    let (on', keep') = terminal_write-OnScreen (terminal_putchar t c) text size on in
    (on', λ k p. omega (arith, keep k p, keep' k p))

-- A character that is neither a newline nor the last of the screen goes to the cursor's cell, and
-- no other cell changes.
abbrev pub Shows : Terminal → Terminal → ℕ → List ℕ → Type 0
Shows t t' size text =
    (cursor t' ≡ cursor t + size)
    × (t'.color ≡ t.color)
    × ((k : ℕ)
        → t'.buffer k ≡ (
            if leb (cursor t) k && ltb k (cursor t + size)
            then vga_entry (u8 (get_or text (k - cursor t) 0)) t.color
            else t.buffer k))

terminal_putchar-Shows :
    (t : Terminal) (c : ℕ)
    → OnScreen t
    → c ≢ b'\n'
    → cursor t + 1 < 2000
    → Shows t (terminal_putchar t c) 1 (c ∷ [])
unfolding terminal_putchar terminal_putentryat next_row
terminal_putchar-Shows t c (rows, columns) ne room =
    let e : (c == b'\n') ≡ false = ground arith in
    elim (Bool-cases (t.column + 1 == 80)) [
      | inl f ↦
          let g : (t.row + 1 == 25) ≡ false = ground (arith, f) in
          rw (e, f, g) (ground (arith, f), refl, λ k. cell k)
      | inr f ↦ rw (e, f) (ground arith, refl, λ k. cell k)
    ]
  where
    cell :
        (k : ℕ)
        → (if k == t.row * 80 + t.column then vga_entry (u8 c) t.color else t.buffer k) ≡ (
            if leb (cursor t) k && ltb k (cursor t + 1)
            then vga_entry (u8 (get_or (c ∷ []) (k - cursor t) 0)) t.color
            else t.buffer k)
    cell k = elim (Bool-cases (k == t.row * 80 + t.column)) [
      | inl f ↦
          let zero_offset : k - cursor t ≡ 0 = ground (arith, f) in
          rw zero_offset (ground (arith, f))
      | inr f ↦ ground (arith, f)
    ]

-- No newline in a text.
abbrev pub IsOneLine : List ℕ → Type 0
IsOneLine [] = Unit {0}
IsOneLine (c ∷ text) = (c ≢ b'\n') × IsOneLine text

Shows-trans :
    (t t1 t2 : Terminal) (c size : ℕ) (text : List ℕ)
    → Shows t t1 1 (c ∷ [])
    → Shows t1 t2 size text
    → Shows t t2 (suc size) (c ∷ text)
Shows-trans t t1 t2 c size text (at, tint, cells) (at', tint', cells') =
    (omega (arith, at, at'), tint' ∙ tint, λ k. cell k)
  where
    cell :
        (k : ℕ)
        → t2.buffer k ≡ (
            if leb (cursor t) k && ltb k (cursor t + suc size)
            then vga_entry (u8 (get_or (c ∷ text) (k - cursor t) 0)) t.color
            else t.buffer k)
    cell k = elim (Bool-cases (leb (cursor t1) k)) [
      | inl f ↦
          let next : k - cursor t ≡ suc (k - cursor t1) = ground (arith, f, at) in
          let here : t1.buffer k ≡ t.buffer k = ground (arith, cells k, f, at) in
          rw next (ground (arith, cells' k, here, tint, f, at))
      | inr f ↦
          let outside : t2.buffer k ≡ t1.buffer k = ground (arith, cells' k, f) in
          elim (Bool-cases (k == cursor t)) [
            | inl g ↦
                let zero_offset : k - cursor t ≡ 0 = ground (arith, g) in
                let here : t1.buffer k ≡ vga_entry (u8 c) t.color =
                  subst
                    (λ (j : ℕ). t1.buffer k ≡ (
                      if leb (cursor t) k && ltb k (cursor t + 1)
                      then vga_entry (u8 (get_or (c ∷ []) j 0)) t.color
                      else t.buffer k))
                    zero_offset (cells k)
                  ∙ ground (arith, g) in
                rw zero_offset (ground (arith, outside, here, g))
            | inr g ↦ ground (arith, outside, cells k, f, g, at)
          ]
    ]

-- A text with no newline that ends before the last cell of the screen is shown from the cursor on,
-- in the current colour; no other cell changes, and the cursor is behind it.
pub terminal_write-Shows :
    (t : Terminal) (text : List ℕ)
    → OnScreen t
    → IsOneLine text
    → cursor t + length text < 2000
    → Shows t (terminal_write t text (length text)) (length text) text
unfolding terminal_write
terminal_write-Shows t [] on line room = (ground arith, refl, λ k. ground arith)
terminal_write-Shows t (c ∷ text) on (ne, line) room =
    let t1 = terminal_putchar t c in
    let (at, tint, cells) = terminal_putchar-Shows t c on ne (omega arith) in
    let step = terminal_putchar-Advances t c on in
    Shows-trans t t1 (terminal_write t1 text (length text)) c (length text) text (at, tint, cells)
      (terminal_write-Shows t1 text step.0 line (omega (arith, at)))
