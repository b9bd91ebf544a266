-- ===== src/Paging/Laws.antt =====
-- Where `kmalloc` puts an allocation, and which page `get_page` finds.
use icix.Prelude.{ℕ, ◌+◌, ◌-◌, ◌*◌, ◌/◌, ◌%◌, ◌^◌, ◌≤◌, ◌<◌, ◌==◌, not, ◌&&◌, List}
use icix.Prelude.{
  ◌≡◌, ◌≢◌, ◌∙◌, sym, refl, ap, arith, inl, inr, Bool-cases, length, get_or, set, replicate, true,
  false,
}
use icix.Prelude.{
  Option, none, some, get_or-set_self, get_or-set_ne, bit_and, bit_or, bit_and_low, bit_and_step,
}
use icix.Frames.{Page}
use icix.Paging.{kmalloc, PageDir, page_in, get_page, blank_page, table_at}

bit_and_double : (x m : ℕ) → bit_and x (m * 2) ≡ bit_and (x / 2) m * 2
bit_and_double x m =
    let half : m * 2 / 2 ≡ m = omega arith in
    omega (arith, bit_and_step x (m * 2), ap (bit_and (x / 2)) half)

bit_and_times_eight : (x m : ℕ) → bit_and x (m * 8) ≡ bit_and (x / 2 / 2 / 2) m * 8
bit_and_times_eight x m =
    let as_double : m * 8 ≡ m * 2 * 2 * 2 = omega arith in
    ap (bit_and x) as_double
    ∙ omega (
      arith,
      bit_and_double x (m * 2 * 2),
      bit_and_double (x / 2) (m * 2),
      bit_and_double (x / 2 / 2) m,
    )

page_mask : (x : ℕ) → x < 2 ^ 32 → bit_and x 0xFFFFF000 ≡ x - x % 4096
page_mask x h =
    let x3 = x / 2 / 2 / 2 in
    let x6 = x3 / 2 / 2 / 2 in
    let x9 = x6 / 2 / 2 / 2 in
    omega (
      arith,
      bit_and_times_eight x 0x1FFFFE00,
      bit_and_times_eight x3 0x3FFFFC0,
      bit_and_times_eight x6 0x7FFFF8,
      bit_and_times_eight x9 0xFFFFF,
      bit_and_low 20 (x9 / 2 / 2 / 2),
    )

-- If the block and its alignment fit below 2^32, `kmalloc` returns an address at most a page past
-- the old `free_addr`, never before it, on a page boundary if asked to, and moves `free_addr` to
-- the end of the block.
pub kmalloc_lem :
    (free_addr size align : ℕ)
    → free_addr + 4096 + size < 2 ^ 32
    → let (ret, next) = kmalloc free_addr size align in
      (free_addr ≤ ret)
      × (ret < free_addr + 4096)
      × (next ≡ ret + size)
      × ((align == 1) ≡ true → ret % 4096 ≡ 0)
unfolding kmalloc
kmalloc_lem free_addr size align h =
    let low : bit_and free_addr 0xFFF ≡ free_addr % 4096 = bit_and_low 12 free_addr in
    let high = page_mask free_addr (omega arith) in
    elim (Bool-cases (align == 1 && not (bit_and free_addr 0xFFF == 0))) [
      | inl e ↦ rw e (
        omega (arith, high),
        ground (arith, high, low, e),
        omega (arith, high),
        λ _. omega (arith, high),
      )
      | inr e ↦ rw e (omega arith, omega arith, omega arith, λ a. ground (arith, low, e))
    ]

-- The table that an address is in, and the page there.
abbrev pub page_of : ℕ → ℕ × ℕ
page_of addr = (addr / 0x1000 / 1024, addr / 0x1000 % 1024)

-- What holds of a directory and the one that `get_page` with `make` leaves, for the address.
abbrev pub Maps : ℕ → PageDir → PageDir → Type 0
Maps addr dir dir' =
    ((other make free_addr : ℕ)
      → other / 0x1000 / 1024 ≡ addr / 0x1000 / 1024
      → get_page other make dir' free_addr ≡ (some (page_of other), dir', free_addr))
    × ((other : ℕ)
        → other / 0x1000 / 1024 ≢ addr / 0x1000 / 1024
        → get_or dir'.tables (other / 0x1000 / 1024) none
          ≡ get_or dir.tables (other / 0x1000 / 1024) none)

pub found :
    (dir : PageDir) (table : List Page) (other make free_addr : ℕ)
    → get_or dir.tables (other / 0x1000 / 1024) none ≡ some table
    → get_page other make dir free_addr ≡ (some (page_of other), dir, free_addr)
unfolding get_page
found dir table other make free_addr e =
    ap (λ t. page_in t (other / 0x1000 / 1024) (other / 0x1000 % 1024) make dir free_addr) e

-- A page that `kmalloc` gives is not at 0, but if `free_addr` is 0 or less than a page below 2^32.
kmalloc-page :
    (free_addr : ℕ) → 0 < free_addr → free_addr ≤ 0xFFFFF000 → (kmalloc free_addr 4096 1).0 ≢ 0
unfolding kmalloc
kmalloc-page free_addr pos h =
    let low : bit_and free_addr 0xFFF ≡ free_addr % 4096 = bit_and_low 12 free_addr in
    let high = page_mask free_addr (omega (arith, h)) in
    elim (Bool-cases (not (bit_and free_addr 0xFFF == 0))) [
      | inl e ↦ rw e (λ z. ground (arith, z, high, low, e, h))
      | inr e ↦ rw e (λ z. omega (arith, z, pos))
    ]

pub table_at_lem :
    (free_addr : ℕ)
    → 0 < free_addr
    → free_addr ≤ 0xFFFFF000
    → table_at (kmalloc free_addr 4096 1).0 ≡ some (replicate 1024 blank_page)
table_at_lem free_addr pos h =
    let t : ((kmalloc free_addr 4096 1).0 == 0) ≡ false =
      ground (arith, kmalloc-page free_addr pos h) in
    rw t refl

-- `get_page` with `make`, of an address below 2^32 in a directory of 1024 tables, where `free_addr`
-- is not 0 and at most the last page below 2^32: it returns the page of the address, and afterwards every page of that table is found with no allocation and no change,
-- while the other tables are what they were.
pub get_page-Maps :
    (addr make free_addr : ℕ) (dir : PageDir)
    → length dir.tables ≡ 1024
    → addr < 2 ^ 32
    → make ≢ 0
    → 0 < free_addr
    → free_addr ≤ 0xFFFFF000
    → ((get_page addr make dir free_addr).0 ≡ some (page_of addr))
      × Maps addr dir (get_page addr make dir free_addr).1
unfolding get_page
get_page-Maps addr make free_addr dir size small make_it pos last =
    go (get_or dir.tables (addr / 0x1000 / 1024) none) refl
  where
    go :
        (t : Option (List Page))
        → get_or dir.tables (addr / 0x1000 / 1024) none ≡ t
        → let r = page_in t (addr / 0x1000 / 1024) (addr / 0x1000 % 1024) make dir free_addr in
          (r.0 ≡ some (page_of addr)) × Maps addr dir r.1
    go (some table) e = (
      refl,
      (
        λ other m f same. found dir table other m f (ap (λ n. get_or dir.tables n none) same ∙ e),
        λ other ne. refl,
      ),
    )
    go none e =
        let table = replicate 1024 blank_page in
        let no : (make == 0) ≡ false = ground arith in
        let dir1 : PageDir = record {
          tables = set dir.tables (addr / 0x1000 / 1024) (table_at (kmalloc free_addr 4096 1).0);
          phys_tables =
              set dir.phys_tables (addr / 0x1000 / 1024) (bit_or (kmalloc free_addr 4096 1).0 0x7);
        } in
        rw no (
          refl,
          (
            λ other m f same. found dir1 table other m f (
                ap (λ n. get_or dir1.tables n none) same
                ∙ get_or-set_self dir.tables (addr / 0x1000 / 1024) _ none (omega (arith, size))
                ∙ table_at_lem free_addr pos last),
            λ other ne.
                get_or-set_ne dir.tables (addr / 0x1000 / 1024) (other / 0x1000 / 1024) _ none
                  (λ q. ne (sym q)),
          ),
        )
