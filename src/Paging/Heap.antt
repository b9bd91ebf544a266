-- ===== src/Paging/Heap.antt =====
-- `malloc` of kernel/arch/i386/pmm.c: a block on a page boundary whose pages are all mapped.
pub mod Fuel
pub mod Backed
use icix.Prelude.{ℕ, zero, suc, ◌^◌, ◌==◌, ltb, if◌then◌else◌, true, false, add32, none, some}
use icix.Outcome.{Outcome, done, aborted, ◌>>=◌}
use icix.Paging.{kmalloc}
use icix.Paging.Init.{Vm, page_size, page_at, find_page, alloc_at}

-- The body of the loop: `assert(page != NULL)`, and a frame for a page without one.
unfoldable pub back_page : Vm → ℕ → Outcome Vm
unfolding find_page alloc_at
back_page vm addr =
    let (page, vm1) = find_page vm addr in
    elim page [
      | none ↦ aborted
      | some at ↦ if (page_at vm1.dir at).present == 0 then alloc_at vm1 at else done vm1
    ]

-- `for (j = …; j < end; j += PAGE_SIZE)`; a loop of more than 2 ^ 20 rounds never ends.
unfoldable pub back_pages : ℕ → ℕ → ℕ → Vm → Outcome Vm
unfolding back_page
back_pages zero j end vm = aborted
back_pages (suc fuel) j end vm = elim (ltb j end) [
  | false ↦ done vm
  | true ↦ do vm1 ← back_page vm j; back_pages fuel (add32 j page_size) end vm1
]

unfoldable pub malloc : ℕ → Vm → Outcome (ℕ × Vm)
unfolding kmalloc back_pages
malloc size vm = do
  let (ret, free_addr) = kmalloc vm.free_addr size 1
  vm1 ← back_pages (2 ^ 20) ret (add32 size ret) (record vm { free_addr = free_addr })
  done (ret, vm1)
