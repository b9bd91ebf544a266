-- ===== src/Paging/Heap/Backed.antt =====
-- The blocks of `malloc`: fresh, on a page boundary and mapped to themselves.
use mathlib.Core.Path.{sym}
use icix.Prelude.{
  ℕ, zero, suc, ◌+◌, ◌-◌, ◌*◌, ◌/◌, ◌%◌, ◌^◌, ◌≤◌, ◌<◌, ◌==◌, ltb, if◌then◌else◌, List, ◌≡◌, ◌∙◌,
  refl, ap, arith, inl, inr, Bool, Bool-cases, true, false, get_or, set, add32, Option, none, some,
}
use native.Mathlib.Decide.{dec_lt}
use icix.Outcome.{Outcome, done, aborted, ◌>>=◌}
use icix.Frames.{Page}
use icix.Paging.{kmalloc, blank_page}
use icix.Paging.Laws.{kmalloc_lem}
use icix.Paging.Init.{Vm, page_at, in_table, alloc_at}
use icix.Paging.Init.Round.{Mapped, taken, stepped, Mapped-stepped, alloc_at_next, find_page_next}
use mathlib.Core.Path.{subst}
use icix.Paging.Init.Identity.{IsBacked, Identity, Mapped-Identity}
use icix.Paging.Heap.{back_page, back_pages, malloc}

-- The round for a page that is there, or not.
abbrev use_page : Option (ℕ × ℕ) × Vm → Outcome Vm
use_page r = elim r.0 as (λ _. Outcome Vm) [
  | none ↦ aborted
  | some at ↦ if (page_at r.1.dir at).present == 0 then alloc_at r.1 at else done r.1
]

back_page_old :
    (j n : ℕ) (vm : Vm) (table : List Page)
    → j < n
    → n ≤ 1024
    → Mapped n vm table
    → back_page vm (j * 4096) ≡ done vm
unfolding back_page
back_page_old j n vm table lt le m =
    let here : (page_at vm.dir (0, j)).present ≡ 1 =
      ap (λ t. (in_table t j).present) m.has_table ∙ m.present j lt in
    let t : ((page_at vm.dir (0, j)).present == 0) ≡ false = ground (arith, here) in
    ap use_page (find_page_next j vm table (omega (arith, lt, le)) m.has_table)
    ∙ ap (λ (b : Bool). if b then alloc_at vm (0, j) else done vm) t

back_page_new :
    (n : ℕ) (vm : Vm) (table : List Page)
    → n < 1024
    → Mapped n vm table
    → back_page vm (n * 4096) ≡ done (stepped n vm table)
unfolding back_page
back_page_new n vm table lt m =
    let here : (page_at vm.dir (0, n)).present ≡ 0 =
      ap (λ t. (in_table t n).present) m.has_table ∙ m.absent n (omega arith) lt in
    let t : ((page_at vm.dir (0, n)).present == 0) ≡ true = ground (arith, here) in
    ap use_page (find_page_next n vm table lt m.has_table)
    ∙ ap (λ (b : Bool). if b then alloc_at vm (0, n) else done vm) t
    ∙ alloc_at_next n vm table lt m

-- Pages up to `end` are mapped.
abbrev Backs : ℕ → Vm → Outcome Vm → Type 0
Backs end vm o =
    (vm' : Vm) × (table' : List Page) × (n' : ℕ) × (o ≡ done vm')
    × Mapped n' vm' table'
    × (end ≤ n' * 4096)
    × (n' ≤ 1024)
    × (vm'.free_addr ≡ vm.free_addr)

back_pages-Backs :
    (fuel j n end : ℕ) (vm : Vm) (table : List Page)
    → Mapped n vm table
    → j ≤ n
    → n ≤ 1024
    → end ≤ 2 ^ 22
    → 1024 - j < fuel
    → Backs end vm (back_pages fuel (j * 4096) end vm)
unfolding back_pages
back_pages-Backs zero j n end vm table m le few small enough = absurd (omega (arith, enough))
back_pages-Backs (suc fuel) j n end vm table m le few small enough =
    elim (Bool-cases (ltb (j * 4096) end)) [
      | inr t ↦ (vm, table, n, rw (t, back_pages) refl, m, ground (arith, t, le), few, refl)
      | inl t ↦
          let below : j < 1024 = ground (arith, t, small) in
          let next : add32 (j * 4096) 0x1000 ≡ (j + 1) * 4096 = omega (arith, below) in
          elim (dec_lt j n) [
            | yes old ↦
                let (vm', table', n', runs, m', past', few', same') =
                  back_pages-Backs fuel (j + 1) n end vm table m (omega (arith, old)) few small
                    (omega (arith, enough)) in
                (
                  vm',
                  table',
                  n',
                  rw (t, back_pages)
                      (ap (λ o. o >>= back_pages fuel (add32 (j * 4096) 0x1000) end)
                          (back_page_old j n vm table old few m)
                        ∙ ap (λ a. back_pages fuel a end vm) next
                        ∙ runs),
                  m',
                  past',
                  few',
                  same',
                )
            | no new ↦
                let same : n ≡ j = omega (arith, new, le) in
                let vm1 = stepped n vm table in
                let (vm', table', n', runs, m', past', few', same') =
                  back_pages-Backs fuel (j + 1) (n + 1) end vm1
                    (set table n (taken (get_or table n blank_page) n))
                    (Mapped-stepped n vm table (omega (arith, same, below)) m) (omega (arith, same))
                    (omega (arith, same, below)) small (omega (arith, enough)) in
                (
                  vm',
                  table',
                  n',
                  rw (t, back_pages)
                      (ap (λ o. o >>= back_pages fuel (add32 (j * 4096) 0x1000) end)
                          (ap (λ i. back_page vm (i * 4096)) (sym same)
                            ∙ back_page_new n vm table (omega (arith, same, below)) m)
                        ∙ ap (λ a. back_pages fuel a end vm1) next
                        ∙ runs),
                  m',
                  past',
                  few',
                  same',
                )
          ]
    ]

-- `malloc` with any fuel.
abbrev malloc_fuel : ℕ → ℕ → Vm → Outcome (ℕ × Vm)
malloc_fuel fuel size vm =
    let (ret, free_addr) = kmalloc vm.free_addr size 1 in
    back_pages fuel ret (add32 size ret) (record vm { free_addr = free_addr }) >>= λ v.
    done (ret, v)

malloc-eq : (size : ℕ) (vm : Vm) → malloc size vm ≡ malloc_fuel (2 ^ 20) size vm
unfolding malloc
malloc-eq size vm = refl

Mapped-moved :
    (n : ℕ) (vm : Vm) (table : List Page) (a : ℕ)
    → Mapped n vm table
    → Mapped n (record vm { free_addr = a }) table
Mapped-moved n vm table a m = record {
  has_table = m.has_table;
  length_tables = m.length_tables;
  length_table = m.length_table;
  present = m.present;
  frame = m.frame;
  absent = m.absent;
  words = m.words;
  length_frames = m.length_frames;
  count = m.count;
  in_use = m.in_use;
  unused = m.unused;
}

-- A fresh block on a page boundary, and all memory in use mapped to itself.
abbrev pub Allocates : ℕ → Vm → Outcome (ℕ × Vm) → Type 0
Allocates size vm o =
    (ret : ℕ) × (vm' : Vm) × (o ≡ done (ret, vm'))
    × (ret % 4096 ≡ 0)
    × (vm.free_addr ≤ ret)
    × (ret < vm.free_addr + 4096)
    × (vm'.free_addr ≡ ret + size)
    × IsBacked vm'
    × Identity vm'

malloc_fuel-Allocates :
    (fuel size : ℕ) (vm : Vm)
    → 1024 < fuel
    → IsBacked vm
    → vm.free_addr + 4096 + size ≤ 2 ^ 22
    → Allocates size vm (malloc_fuel fuel size vm)
malloc_fuel-Allocates fuel size vm enough (n, table, m, past, few) small =
    let (low, near, next, aligned) = kmalloc_lem vm.free_addr size 1 (omega (arith, small)) in
    let ret = (kmalloc vm.free_addr size 1).0 in
    let free_addr = (kmalloc vm.free_addr size 1).1 in
    let at = aligned refl in
    let j : ret ≡ ret / 4096 * 4096 = omega (arith, at) in
    let end : add32 size ret ≡ free_addr = omega (arith, next, small, near) in
    let vm0 = record vm { free_addr = free_addr } in
    let (vm', table', n', runs, m', past', few', same) =
      back_pages-Backs fuel (ret / 4096) n free_addr vm0 table (Mapped-moved n vm table free_addr m)
        (omega (arith, past, near)) few (omega (arith, next, near, small))
        (omega (arith, enough)) in
    let past_free : vm'.free_addr ≤ n' * 4096 = omega (arith, same, past') in
    (
      ret,
      vm',
      ap (λ (o : Outcome Vm). o >>= λ v. done (ret, v))
          (ap (λ e. back_pages fuel ret e vm0) end
            ∙ ap (λ a. back_pages fuel a free_addr vm0) j
            ∙ runs),
      at,
      low,
      near,
      same ∙ next,
      (n', table', m', past_free, few'),
      Mapped-Identity n' vm' table' m' few' past_free,
    )

-- `malloc` with memory in use that ends below 4 MB, where the block fits too: it succeeds, the block is
-- on a page boundary behind all memory in use, `free_addr` moves to its end, and again the memory in
-- use, the block included, is mapped to itself, with each page in a frame of its own.
pub malloc-Allocates :
    (size : ℕ) (vm : Vm)
    → IsBacked vm
    → vm.free_addr + 4096 + size ≤ 2 ^ 22
    → Allocates size vm (malloc size vm)
malloc-Allocates size vm backed small =
    subst (Allocates size vm) (sym (malloc-eq size vm))
      (malloc_fuel-Allocates (2 ^ 20) size vm (omega arith) backed small)
