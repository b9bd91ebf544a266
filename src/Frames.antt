-- ===== src/Frames.antt =====
-- The page frame allocator of kernel/arch/i386/vmm.c: `set_frame`, `clear_frame`, `test_frame`,
-- `first_frame`, `pfa_alloc`, `pfa_free`. A frame's bit is counted from the low end of its word.
-- The global `frames` is passed in and returned; a page entry is a record of its bit-fields.
pub mod Laws
pub mod First
pub mod Alloc
use icix.Prelude.{ℕ, zero, suc, ◌+◌, ◌*◌, ◌/◌, ◌%◌, ◌^◌, ◌==◌, if◌then◌else◌, List, bit_and, bit_or}
use icix.Prelude.{Option, none, some, true, false, u32, shl32, not32, minus_one, get_or, set}
use icix.Outcome.{Outcome, done, aborted}

-- INDEX_FROM_BIT and OFFSET_FROM_BIT
abbrev pub index_from_bit : ℕ → ℕ
index_from_bit a = a / 32

abbrev pub offset_from_bit : ℕ → ℕ
offset_from_bit a = a % 32

unfoldable pub set_frame : List ℕ → ℕ → List ℕ
unfolding shl32
set_frame frames addr =
    let frame = addr / 0x1000 in
    let idx = index_from_bit frame in
    set frames idx (bit_or (get_or frames idx 0) (shl32 1 (offset_from_bit frame)))

unfoldable pub clear_frame : List ℕ → ℕ → List ℕ
unfolding shl32
clear_frame frames addr =
    let frame = addr / 0x1000 in
    let idx = index_from_bit frame in
    set frames idx (bit_and (get_or frames idx 0) (not32 (shl32 1 (offset_from_bit frame))))

unfoldable pub test_frame : List ℕ → ℕ → ℕ
unfolding shl32
test_frame frames addr =
    let frame = addr / 0x1000 in
    bit_and (get_or frames (index_from_bit frame) 0) (shl32 1 (offset_from_bit frame))

-- The loop over j of `first_frame`, with `left` rounds to go.
pub first_clear : ℕ → ℕ → ℕ → Option ℕ
first_clear w zero j = none
first_clear w (suc left) j = elim (bit_and w (shl32 1 j) == 0) [
  | true ↦ some j
  | false ↦ first_clear w left (j + 1)
]

-- The loop over i of `first_frame`.
pub first_frame_from : List ℕ → ℕ → ℕ → ℕ
first_frame_from frames zero i = minus_one
first_frame_from frames (suc left) i =
    let rest = first_frame_from frames left (i + 1) in
    if get_or frames i 0 == 0xFFFFFFFF
    then rest
    else elim (first_clear (get_or frames i 0) 32 0) [ some j ↦ u32 (i * 4 * 8 + j) | none ↦ rest ]

unfoldable pub first_frame : List ℕ → ℕ → ℕ
unfolding first_frame_from first_clear shl32
first_frame frames nframes = first_frame_from frames (index_from_bit nframes) 0

-- `page_t`; `frame` has 20 bits, `unused` 7, the others one each.
pub record Page : Type 0 where
  pub present : ℕ
  pub rw_flag : ℕ
  pub user : ℕ
  pub accessed : ℕ
  pub dirty : ℕ
  pub unused : ℕ
  pub frame : ℕ

unfoldable pub pfa_alloc : List ℕ → ℕ → Page → ℕ → ℕ → Outcome (Page × List ℕ)
unfolding set_frame first_frame
pfa_alloc frames nframes page is_kernel is_writeable =
    if page.present == 1
    then done (page, frames)
    else (let idx = first_frame frames nframes in
        if idx == minus_one
        then aborted
        else done (
          record page {
            present = 1;
            rw_flag = is_writeable % 2;
            user = if is_kernel == 0 then 1 else 0;
            frame = idx % 2 ^ 20;
          },
          set_frame frames (u32 (idx * 0x1000)),
        ))

unfoldable pub pfa_free : List ℕ → Page → Page × List ℕ
unfolding clear_frame
pfa_free frames page =
    if page.present == 0
    then (page, frames)
    else (record page { present = 0 }, clear_frame frames page.frame)
