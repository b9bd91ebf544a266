-- ===== src/Paging.antt =====
-- `kmalloc` of kernel/arch/i386/pmm.c and `get_page` of kernel/arch/i386/vmm.c. The global
-- `free_addr` is passed in and returned. A page directory holds its tables themselves, null as
-- `none`; a pointer to a page is the index of its table and its index there.
pub mod Laws
pub mod Init
pub mod Heap
use icix.Prelude.{
  ℕ, ◌/◌, ◌%◌, ◌==◌, if◌then◌else◌, not, ◌&&◌, List, get_or, set, replicate, bit_and, bit_or,
}
use icix.Prelude.{Option, none, some, u32, add32}
use icix.Frames.{Page}

-- What `*physical` gets, which is also what is returned, and the new `free_addr`.
unfoldable pub kmalloc : ℕ → ℕ → ℕ → ℕ × ℕ
kmalloc free_addr size align =
    if align == 1 && not (bit_and free_addr 0x00000FFF == 0)
    then (let ret = add32 (bit_and free_addr 0xFFFFF000) 0x1000 in (ret, add32 ret size))
    else (free_addr, add32 free_addr size)

-- `page_dir_t`; `phys_addr` is never used.
pub record PageDir : Type 0 where
  pub tables : List (Option (List Page))
  pub phys_tables : List ℕ

abbrev pub blank_page : Page
blank_page = record {
  present = 0;
  rw_flag = 0;
  user = 0;
  accessed = 0;
  dirty = 0;
  unused = 0;
  frame = 0;
}

-- A new table at an address. At 0 the pointer to it is null, so that no later call finds the table.
abbrev pub table_at : ℕ → Option (List Page)
table_at phys = if phys == 0 then none else some (replicate 1024 blank_page)

-- `if (dir->tables[table_idx]) … else if (make) …`
abbrev pub page_in : Option (List Page) → ℕ → ℕ → ℕ → PageDir → ℕ → Option (ℕ × ℕ) × PageDir × ℕ
page_in (some table) table_idx page_idx make dir free_addr =
    (some (table_idx, page_idx), dir, free_addr)
page_in none table_idx page_idx make dir free_addr =
    if make == 0
    then (none, dir, free_addr)
    else (let (phys, free_addr1) = kmalloc free_addr 4096 1 in
        (
          some (table_idx, page_idx),
          record {
            tables = set dir.tables table_idx (table_at phys);
            phys_tables = set dir.phys_tables table_idx (bit_or phys 0x7);
          },
          free_addr1,
        ))

unfoldable pub get_page : ℕ → ℕ → PageDir → ℕ → Option (ℕ × ℕ) × PageDir × ℕ
unfolding kmalloc
get_page addr make dir free_addr =
    let page = addr / 0x1000 in
    let table_idx = page / 1024 in
    page_in (get_or dir.tables table_idx none) table_idx (page % 1024) make dir free_addr
