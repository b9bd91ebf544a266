-- ===== src/Paging/Init/Identity.antt =====
-- After `init_paging` the kernel's region is mapped to itself.
use icix.Prelude.{
  ℕ, zero, suc, ◌+◌, ◌*◌, ◌/◌, ◌%◌, ◌^◌, ◌≤◌, ◌<◌, ltb, List, ◌++◌, ◌≡◌, ◌∙◌, refl, sym, ap, arith,
  true, length, get_or, replicate, add32, Option, none, some, length-replicate, get_or-replicate,
  get_or-append_left, length-append, bit, bit-zero,
}
use icix.Outcome.{Outcome, done, undefined, ◌>>=◌}
use icix.Frames.{Page}
use icix.Frames.Laws.{used}
use icix.Frames.First.{IsWords}
use icix.Paging.{blank_page, get_page}
use icix.Paging.Laws.{table_at_lem, page_of}
use icix.Paging.Init.{
  Vm, page_at, in_table, alloc_at, find_page, map_page, map_region, init_vm, init_paging,
}
use icix.Paging.Init.Round.{Mapped, find_page_next, map_region_rest}
use icix.Paging.{kmalloc}
use icix.Paging.Laws.{table_at_lem, kmalloc_lem}
use icix.Interrupts.{register_int_handler}

-- The region of the kernel, from address 0 on, is mapped to itself with frames in use.
abbrev pub Identity : Vm → Type 0
Identity vm =
    (addr : ℕ)
    → addr < vm.free_addr
    → ((page_at vm.dir (page_of addr)).present ≡ 1)
      × ((page_at vm.dir (page_of addr)).frame ≡ addr / 4096)
      × (used vm.frames (addr / 4096) ≡ 1)

pub Mapped-Identity :
    (n : ℕ) (vm : Vm) (table : List Page)
    → Mapped n vm table
    → n ≤ 1024
    → vm.free_addr ≤ n * 4096
    → Identity vm
Mapped-Identity n vm table m le past addr below =
    let idx : addr / 0x1000 / 1024 ≡ 0 = omega (arith, le, past, below) in
    let off : addr / 0x1000 % 1024 ≡ addr / 4096 = omega (arith, le, past, below) in
    let k : addr / 4096 < n = omega (arith, le, past, below) in
    let here : page_at vm.dir (page_of addr) ≡ get_or table (addr / 4096) blank_page =
      (λ i. page_at vm.dir (idx i, off i)) ∙ ap (λ t. in_table t (addr / 4096)) m.has_table in
    (
      ap (λ (p : Page). p.present) here ∙ m.present (addr / 4096) k,
      ap (λ (p : Page). p.frame) here ∙ m.frame (addr / 4096) k,
      m.in_use (addr / 4096) k,
    )

-- The memory in use ends below 4 MB, and its pages are mapped to themselves, each in its own frame,
-- with no page or frame in use behind them.
abbrev pub IsBacked : Vm → Type 0
IsBacked vm =
    (n : ℕ) × (table : List Page) × Mapped n vm table × (vm.free_addr ≤ n * 4096) × (n ≤ 1024)

-- A first round that makes the table runs as if the table had been there.
map_region_found :
    (fuel addr : ℕ) (vm vm1 : Vm) (at : ℕ × ℕ)
    → find_page vm addr ≡ (some at, vm1)
    → find_page vm1 addr ≡ (some at, vm1)
    → addr < vm.free_addr
    → addr < vm1.free_addr
    → map_region (suc fuel) addr vm ≡ map_region (suc fuel) addr vm1
unfolding map_region map_page
map_region_found fuel addr vm vm1 at e f p q =
    let t : ltb addr vm.free_addr ≡ true = ground arith in
    let u : ltb addr vm1.free_addr ≡ true = ground arith in
    let round = λ (r : Option (ℕ × ℕ) × Vm). elim r.0 as (λ _. Outcome Vm) [
      | some at ↦ alloc_at r.1 at
      | none ↦ undefined
    ] in
    rw (t, map_region)
      (rw (u, map_region) (ap (λ r. round r >>= map_region fuel (add32 addr 0x1000)) (e ∙ sym f)))

-- The frames that `init_vm` leaves: 32 words of zeros, then what was in memory.
frames-clear : (rest : List ℕ) → (k : ℕ) → k < 1024 → used (replicate 32 0 ++ rest) k ≡ 0
frames-clear rest k below =
    let inside : k / 32 < length (replicate {A = ℕ} 32 0) =
      omega (arith, length-replicate {A = ℕ} 32 0) in
    ap (λ w. bit w (k % 32))
      (get_or-append_left (replicate 32 0) rest (k / 32) 0 inside ∙ get_or-replicate 32 (k / 32) 0)
    ∙ bit-zero (k % 32)

IsWords-frames : (rest : List ℕ) → IsWords rest → IsWords (replicate 32 0 ++ rest)
IsWords-frames rest h = go 32
  where
    go : (n : ℕ) → IsWords (replicate n 0 ++ rest)
    go zero i = h i
    go (suc n) zero = omega arith
    go (suc n) (suc i) = go n i

-- What `init_vm` leaves once the first page has a table.
abbrev started : ℕ → List ℕ → Vm
started free_addr rest = (find_page (init_vm free_addr rest) 0).1

Mapped-started :
    (free_addr : ℕ) (rest : List ℕ)
    → length rest ≡ 96
    → IsWords rest
    → 0 < (init_vm free_addr rest).free_addr
    → (init_vm free_addr rest).free_addr ≤ 2 ^ 22
    → Mapped 0 (started free_addr rest) (replicate 1024 blank_page)
unfolding find_page get_page init_vm
Mapped-started free_addr rest size h pos small = record {
  has_table = table_at_lem (init_vm free_addr rest).free_addr pos (omega (arith, small));
  length_tables = refl;
  length_table = length-replicate 1024 blank_page;
  present = λ k p. absurd (omega (arith, p));
  frame = λ k p. absurd (omega (arith, p));
  absent = λ k p q. ap (λ (r : Page). r.present) (get_or-replicate 1024 k blank_page);
  words = IsWords-frames rest h;
  length_frames = length-append (replicate 32 0) rest ∙ omega (arith, size);
  count = refl;
  in_use = λ k p. absurd (omega (arith, p));
  unused = λ k p q. frames-clear rest k q;
}

started-bounds :
    (free_addr : ℕ) (rest : List ℕ)
    → free_addr + 20612 ≤ 2 ^ 22
    → (free_addr < (init_vm free_addr rest).free_addr)
      × ((init_vm free_addr rest).free_addr ≤ (started free_addr rest).free_addr)
      × ((started free_addr rest).free_addr ≤ free_addr + 20612)
unfolding find_page get_page init_vm
started-bounds free_addr rest small =
    let k1 = kmalloc_lem free_addr 128 0 (omega (arith, small)) in
    let free_addr1 = (kmalloc free_addr 128 0).1 in
    let k2 = kmalloc_lem free_addr1 8196 1 (omega (arith, small, k1)) in
    let free_addr2 = (kmalloc free_addr1 8196 1).1 in
    let k3 = kmalloc_lem free_addr2 4096 1 (omega (arith, small, k1, k2)) in
    (omega (arith, k1, k2), omega (arith, k3), omega (arith, small, k1, k2, k3))

find_page_first :
    (free_addr : ℕ) (rest : List ℕ)
    → find_page (init_vm free_addr rest) 0 ≡ (some (0, 0), started free_addr rest)
unfolding find_page init_vm
find_page_first free_addr rest = refl

-- The first round makes the table.
first_round :
    (fuel free_addr : ℕ) (rest : List ℕ)
    → length rest ≡ 96
    → IsWords rest
    → 0 < (init_vm free_addr rest).free_addr
    → 0 < (started free_addr rest).free_addr
    → (init_vm free_addr rest).free_addr ≤ 2 ^ 22
    → map_region (suc fuel) 0 (init_vm free_addr rest)
      ≡ map_region (suc fuel) 0 (started free_addr rest)
first_round fuel free_addr rest size h p q small =
    map_region_found fuel 0 (init_vm free_addr rest) (started free_addr rest) (0, 0)
      (find_page_first free_addr rest)
      (find_page_next 0 (started free_addr rest) (replicate 1024 blank_page) (omega arith)
        (Mapped-started free_addr rest size h p small).has_table)
      p q

region :
    (fuel free_addr : ℕ) (rest : List ℕ)
    → length rest ≡ 96
    → IsWords rest
    → 0 < free_addr
    → free_addr + 20612 ≤ 2 ^ 22
    → 1024 < fuel
    → (vm : Vm) × (map_region fuel 0 (init_vm free_addr rest) ≡ done vm)
      × (free_addr < vm.free_addr)
      × (vm.free_addr ≤ free_addr + 20612)
      × IsBacked vm
region zero free_addr rest size h pos small enough = absurd (omega (arith, enough))
region (suc fuel) free_addr rest size h pos small enough =
    let (grown, low, high) = started-bounds free_addr rest small in
    let (vm, table, n, runs, mapped, past, few, same) =
      map_region_rest (suc fuel) 0 (started free_addr rest) (replicate 1024 blank_page)
        (Mapped-started free_addr rest size h (omega (arith, grown))
          (omega (arith, low, high, small)))
        (omega (arith, high, small)) (omega arith) (omega (arith, enough)) in
    (
      vm,
      first_round fuel free_addr rest size h (omega (arith, grown)) (omega (arith, grown, low))
            (omega (arith, low, high, small))
          ∙ runs,
      omega (arith, same, low, grown),
      omega (arith, same, high),
      (n, table, mapped, past, few),
    )

-- The memory in use after `init_paging`.
pub init_paging-IsBacked :
    {H : Type 0} (page_fault : H) (handlers : List (Option H)) (free_addr : ℕ) (rest : List ℕ)
    → length rest ≡ 96
    → IsWords rest
    → 0 < free_addr
    → free_addr + 20612 ≤ 2 ^ 22
    → (vm : Vm) × (init_paging page_fault handlers free_addr rest
        ≡ done (vm, register_int_handler handlers 14 page_fault))
      × (free_addr < vm.free_addr)
      × (vm.free_addr ≤ free_addr + 20612)
      × IsBacked vm
unfolding init_paging
init_paging-IsBacked page_fault handlers free_addr rest size h pos small =
    let (vm, runs, grown, bound, backed) =
      region (2 ^ 20) free_addr rest size h pos small (omega arith) in
    (
      vm,
      ap (λ (o : Outcome Vm). o >>= λ v. done (v, register_int_handler handlers 14 page_fault))
          runs,
      grown,
      bound,
      backed,
    )

-- If the frame bitmap's words are 32-bit and the kernel and its tables end below 4 MB, `init_paging`
-- ends, with no abort and nothing undefined: it installs the page fault handler under number 14,
-- `free_addr` grows, and every address below it is in a present page whose frame is the address's own
-- and is marked as used.
pub init_paging-Identity :
    {H : Type 0} (page_fault : H) (handlers : List (Option H)) (free_addr : ℕ) (rest : List ℕ)
    → length rest ≡ 96
    → IsWords rest
    → 0 < free_addr
    → free_addr + 20612 ≤ 2 ^ 22
    → (vm : Vm) × (init_paging page_fault handlers free_addr rest
        ≡ done (vm, register_int_handler handlers 14 page_fault))
      × (free_addr < vm.free_addr)
      × Identity vm
init_paging-Identity page_fault handlers free_addr rest size h pos small =
    let (vm, runs, grown, _, (n, table, m, past, few)) =
      init_paging-IsBacked page_fault handlers free_addr rest size h pos small in
    (vm, runs, grown, Mapped-Identity n vm table m few past)
