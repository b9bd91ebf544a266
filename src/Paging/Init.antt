-- ===== src/Paging/Init.antt =====
-- `init_paging` of kernel/arch/i386/vmm.c. The globals `free_addr`, `kernel_dir`, `frames` and
-- `nframes` are a record that is passed in and returned. `load_page_dir` and `enable_paging`, in
-- assembly, are left out.
pub mod Round
pub mod Identity
use icix.Prelude.{
  ℕ, zero, suc, ◌+◌, ◌*◌, ◌/◌, ◌^◌, ◌==◌, ltb, if◌then◌else◌, true, false, List, [], ◌++◌, get_or,
  set, replicate, add32, Option, none, some,
}
use icix.Outcome.{Outcome, done, aborted, undefined, ◌>>=◌}
use icix.Frames.{Page, pfa_alloc, index_from_bit}
use icix.Interrupts.{register_int_handler}
use icix.Paging.{kmalloc, PageDir, blank_page, get_page}

pub record Vm : Type 0 where
  pub free_addr : ℕ
  pub dir : PageDir
  pub frames : List ℕ
  pub nframes : ℕ

abbrev pub mem_size : ℕ
mem_size = 0x1000000

abbrev pub page_size : ℕ
page_size = 0x1000

-- `*page`, behind a pointer from `get_page`.
abbrev pub in_table : Option (List Page) → ℕ → Page
in_table (some table) i = get_or table i blank_page
in_table none i = blank_page

abbrev pub page_at : PageDir → ℕ × ℕ → Page
page_at dir (t, i) = in_table (get_or dir.tables t none) i

abbrev pub set_in : Option (List Page) → ℕ → Page → Option (List Page)
set_in (some table) i page = some (set table i page)
set_in none i page = none

abbrev pub put_page : PageDir → ℕ × ℕ → Page → PageDir
put_page dir (t, i) page = record dir {
  tables = set dir.tables t (set_in (get_or dir.tables t none) i page);
}

-- `pfa_alloc(page, 0, 0)` for a page of the directory.
unfoldable pub alloc_at : Vm → ℕ × ℕ → Outcome Vm
unfolding pfa_alloc
alloc_at vm at = do
  (page, frames) ← pfa_alloc vm.frames vm.nframes (page_at vm.dir at) 0 0
  done (record vm { dir = put_page vm.dir at page; frames = frames })

-- `get_page(addr, 1, kernel_dir)`, which may allocate a table.
unfoldable pub find_page : Vm → ℕ → Option (ℕ × ℕ) × Vm
unfolding get_page
find_page vm addr =
    let (page, dir, free_addr) = get_page addr 1 vm.dir vm.free_addr in
    (page, record vm { dir = dir; free_addr = free_addr })

-- The body of the loop; a null pointer would be dereferenced.
unfoldable pub map_page : Vm → ℕ → Outcome Vm
unfolding find_page alloc_at
map_page vm addr =
    let (page, vm1) = find_page vm addr in
    elim page [ some at ↦ alloc_at vm1 at | none ↦ undefined ]

-- `for (i = …; i < free_addr; i += 0x1000)`: a loop of more than 2 ^ 20 rounds has gone through all
-- addresses and never ends.
unfoldable pub map_region : ℕ → ℕ → Vm → Outcome Vm
unfolding map_page
map_region zero i vm = aborted
map_region (suc fuel) i vm = elim (ltb i vm.free_addr) [
  | false ↦ done vm
  | true ↦ do vm1 ← map_page vm i; map_region fuel (add32 i 0x1000) vm1
]

-- `memset(frames, 0, …)` clears INDEX_FROM_BIT(nframes) bytes, a quarter of the words that are used;
-- what memory holds behind them is the argument `rest`, as a part of its own: a page directory that
-- begins less than 512 bytes behind the frame words shares them with it, which is left out. A page
-- directory has 8196 bytes.
unfoldable pub init_vm : ℕ → List ℕ → Vm
unfolding kmalloc
init_vm free_addr rest =
    let nframes = mem_size / page_size in
    let (_, free_addr1) = kmalloc free_addr (index_from_bit nframes) 0 in
    let (_, free_addr2) = kmalloc free_addr1 8196 1 in
    record {
      free_addr = free_addr2;
      dir = record { tables = replicate 1024 none; phys_tables = replicate 1024 0 };
      frames = replicate (index_from_bit nframes / 4) 0 ++ rest;
      nframes = nframes;
    }

unfoldable pub init_paging {ℓ} :
    {H : Type ℓ} → H → List (Option H) → ℕ → List ℕ → Outcome (Vm × List (Option H))
init_paging page_fault handlers free_addr rest = do
  vm ← map_region (2 ^ 20) 0 (init_vm free_addr rest)
  done (vm, register_int_handler handlers 14 page_fault)
