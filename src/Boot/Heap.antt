-- ===== src/Boot/Heap.antt =====
-- The heap during the boot.
use icix.Prelude.{ℕ, ◌+◌, ◌*◌, ◌^◌, ◌≤◌, ◌≡◌, refl, arith, mul32, List, [], ◌∷◌}
use icix.Outcome.{Outcome, done, >>=-done}
use icix.Bitmap.{get_bitmap_sz}
use icix.Ufs.Layout.{Super}
use icix.Ufs.Init.Formatted.{get_bitmap_sz_lem}
use icix.Paging.Init.{Vm}
use icix.Paging.Init.Identity.{IsBacked}
use icix.Paging.Heap.{malloc}
use icix.Paging.Heap.Backed.{malloc-Allocates}
use icix.Boot.{malloc_all, block_sizes}

-- The memory in use ends at most `room` bytes later, and is mapped.
abbrev pub Grows : ℕ → Vm → Vm → Type 0
Grows room vm vm' =
    (vm.free_addr ≤ vm'.free_addr) × (vm'.free_addr ≤ vm.free_addr + room) × IsBacked vm'

abbrev pub Leads : ℕ → Vm → Outcome Vm → Type 0
Leads room vm o = (vm' : Vm) × (o ≡ done vm') × Grows room vm vm'

pub malloc-Grows :
    (size : ℕ) (vm : Vm)
    → IsBacked vm
    → vm.free_addr + 4096 + size ≤ 2 ^ 22
    → (ret : ℕ) × (vm' : Vm) × (malloc size vm ≡ done (ret, vm')) × Grows (4096 + size) vm vm'
malloc-Grows size vm backed small =
    let (ret, vm', e, _, low, near, next, backed', _) = malloc-Allocates size vm backed small in
    (ret, vm', e, (omega (arith, low, next), omega (arith, near, next), backed'))

-- At most what blocks of these sizes take.
abbrev total : List ℕ → ℕ
total [] = 0
total (size ∷ sizes) = 4096 + size + total sizes

malloc_all-Leads :
    (sizes : List ℕ) (vm : Vm)
    → IsBacked vm
    → vm.free_addr + total sizes ≤ 2 ^ 22
    → Leads (total sizes) vm (malloc_all sizes vm)
unfolding malloc_all
malloc_all-Leads [] vm backed small = (vm, refl, (omega arith, omega arith, backed))
malloc_all-Leads (size ∷ sizes) vm backed small =
    let (ret, v, e, (low, high, backed1)) = malloc-Grows size vm backed (omega (arith, small)) in
    let (vm', e', (low', high', backed')) =
      malloc_all-Leads sizes v backed1 (omega (arith, high, small)) in
    (vm', >>=-done _ e e', (omega (arith, low, low'), omega (arith, high, high'), backed'))

-- The blocks of a file system with one block for each bitmap.
pub block_sizes-Leads :
    (s : Super) (vm : Vm)
    → s.num_inodes ≤ 32768
    → s.num_data ≤ 32768
    → IsBacked vm
    → vm.free_addr + 41032 + 128 * s.num_inodes ≤ 2 ^ 22
    → Leads (41032 + 128 * s.num_inodes) vm (malloc_all (block_sizes s) vm)
block_sizes-Leads s vm few few_data backed small =
    let n : mul32 (get_bitmap_sz s.num_inodes) 4 ≤ 4096 =
      omega (arith, get_bitmap_sz_lem s.num_inodes few, few) in
    let m : mul32 (get_bitmap_sz s.num_data) 4 ≤ 4096 =
      omega (arith, get_bitmap_sz_lem s.num_data few_data, few_data) in
    let i : mul32 128 s.num_inodes ≡ 128 * s.num_inodes = omega (arith, few) in
    let (vm', e, (low, high, backed')) =
      malloc_all-Leads (block_sizes s) vm backed (omega (arith, n, m, i, small)) in
    (vm', e, (low, omega (arith, n, m, i, high), backed'))
