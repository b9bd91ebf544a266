-- ===== src/Paging/Init/Round.antt =====
-- One round of the loop of `init_paging`, and the loop once the table is there.
use icix.Prelude.{
  ℕ, zero, suc, ◌+◌, ◌-◌, ◌*◌, ◌/◌, ◌%◌, ◌^◌, ◌≤◌, ◌<◌, ◌==◌, ltb, List, ◌≡◌, ◌∙◌, refl, sym, ap,
  arith, inl, inr, Bool-cases, false, length, get_or, set, minus_one, u32, add32, Option, none,
  some, get_or-set_self, get_or-set_ne, length-set, get_or-set_either, set_bit-lt, bit_or, shl32,
}
use mathlib.Core.Path.{subst}
use native.Mathlib.Decide.{dec_lt}
use icix.Outcome.{Outcome, done, undefined, ◌>>=◌}
use icix.Frames.{Page, pfa_alloc, first_frame, set_frame}
use icix.Frames.Laws.{shl32_low, used, used-set_frame, length-set_frame}
use icix.Frames.First.{IsWords, first_frame-IsFirstFree}
use icix.Paging.{PageDir, blank_page}
use icix.Paging.Laws.{found}
use icix.Paging.Init.{Vm, put_page, in_table, set_in, alloc_at, find_page, map_page, map_region}

-- The first n frames are in use and the first n pages of table 0 have them, in order.
pub record Mapped (n : ℕ) (vm : Vm) (table : List Page) : Type 0 where
  pub has_table : get_or vm.dir.tables 0 none ≡ some table
  pub length_tables : length vm.dir.tables ≡ 1024
  pub length_table : length table ≡ 1024
  pub present : (k : ℕ) → k < n → (get_or table k blank_page).present ≡ 1
  pub frame : (k : ℕ) → k < n → (get_or table k blank_page).frame ≡ k
  pub absent : (k : ℕ) → n ≤ k → k < 1024 → (get_or table k blank_page).present ≡ 0
  pub words : IsWords vm.frames
  pub length_frames : length vm.frames ≡ 128
  pub count : vm.nframes ≡ 4096
  pub in_use : (k : ℕ) → k < n → used vm.frames k ≡ 1
  pub unused : (k : ℕ) → n ≤ k → k < 1024 → used vm.frames k ≡ 0

-- The least free frame is the next one.
next_frame :
    (n : ℕ) (vm : Vm) (table : List Page)
    → n < 1024
    → Mapped n vm table
    → first_frame vm.frames vm.nframes ≡ n
next_frame n vm table small m =
    let first = first_frame-IsFirstFree vm.frames vm.nframes m.words (omega (arith, m.count)) in
    let r = first_frame vm.frames vm.nframes in
    elim first.in_range [
      | inl none_left ↦ absurd (
          omega (
            arith,
            m.unused n (omega arith) small,
            first.full none_left n (omega arith) (omega (arith, m.count)),
          ))
      | inr found ↦ elim (dec_lt r n) [
        | yes below ↦ absurd (omega (arith, first.free found, m.in_use r below))
        | no above ↦ elim (dec_lt n r) [
          | yes passed ↦ absurd (
              omega
                (arith, m.unused n (omega arith) small, first.least found n (omega arith) passed))
          | no same ↦ omega arith
        ]
      ]
    ]

-- A page with frame n, as `pfa_alloc` fills it in.
abbrev pub taken : Page → ℕ → Page
taken page n = record page { present = 1; rw_flag = 0; user = 1; frame = n }

pfa_alloc_next :
    (frames : List ℕ) (nframes : ℕ) (page : Page) (n : ℕ)
    → page.present ≡ 0
    → first_frame frames nframes ≡ n
    → n < 1024
    → pfa_alloc frames nframes page 0 0 ≡ done (taken page n, set_frame frames (n * 4096))
unfolding pfa_alloc
pfa_alloc_next frames nframes page n absent first small =
    let t : (page.present == 1) ≡ false = ground (arith, absent) in
    let u : (n == minus_one) ≡ false = ground arith in
    let v : n % 2 ^ 20 ≡ n = omega arith in
    let w : u32 (n * 0x1000) ≡ n * 4096 = omega arith in
    rw t (rw first (rw u (λ i. done (taken page (v i), set_frame frames (w i)))))

pub find_page_next :
    (n : ℕ) (vm : Vm) (table : List Page)
    → n < 1024
    → get_or vm.dir.tables 0 none ≡ some table
    → find_page vm (n * 4096) ≡ (some (0, n), vm)
unfolding find_page
find_page_next n vm table small has =
    ap (λ (r : Option (ℕ × ℕ) × PageDir × ℕ). (r.0, record vm { dir = r.1; free_addr = r.2 }))
      (found vm.dir table (n * 4096) 1 vm.free_addr
          (ap (λ t. get_or vm.dir.tables t none) at_index ∙ has)
        ∙ (λ i. (some (at_index i, at_offset i), vm.dir, vm.free_addr)))
  where
    at_index : n * 4096 / 0x1000 / 1024 ≡ 0
    at_index = omega arith

    at_offset : n * 4096 / 0x1000 % 1024 ≡ n
    at_offset = omega arith

-- What one round of the loop leaves.
abbrev pub stepped : ℕ → Vm → List Page → Vm
stepped n vm table = record vm {
  dir = put_page vm.dir (0, n) (taken (get_or table n blank_page) n);
  frames = set_frame vm.frames (n * 4096);
}

pub alloc_at_next :
    (n : ℕ) (vm : Vm) (table : List Page)
    → n < 1024
    → Mapped n vm table
    → alloc_at vm (0, n) ≡ done (stepped n vm table)
unfolding alloc_at
alloc_at_next n vm table small m =
    let put =
      λ (r : Page × List ℕ). done (record vm { dir = put_page vm.dir (0, n) r.0; frames = r.1 }) in
    ap (λ (p : Page). pfa_alloc vm.frames vm.nframes p 0 0 >>= put)
      (ap (λ t. in_table t n) m.has_table)
    ∙ ap (λ (o : Outcome (Page × List ℕ)). o >>= put)
        (pfa_alloc_next vm.frames vm.nframes (get_or table n blank_page) n
          (m.absent n (omega arith) small) (next_frame n vm table small m) small)

map_page_next :
    (n : ℕ) (vm : Vm) (table : List Page)
    → n < 1024
    → Mapped n vm table
    → map_page vm (n * 4096) ≡ done (stepped n vm table)
unfolding map_page
map_page_next n vm table small m =
    ap
      (λ (r : Option (ℕ × ℕ) × Vm). elim r.0 as (λ _. Outcome Vm) [
        | some at ↦ alloc_at r.1 at
        | none ↦ undefined
      ])
      (find_page_next n vm table small m.has_table)
    ∙ alloc_at_next n vm table small m

IsWords-set_frame : (f : List ℕ) (addr : ℕ) → IsWords f → IsWords (set_frame f addr)
unfolding set_frame
IsWords-set_frame f addr h i =
    let idx = addr / 0x1000 / 32 in
    let off = addr / 0x1000 % 32 in
    let v = bit_or (get_or f idx 0) (shl32 1 off) in
    let fits : v < 2 ^ 32 =
      subst (λ w. bit_or (get_or f idx 0) w < 2 ^ 32) (sym (shl32_low off (omega arith)))
        (set_bit-lt (get_or f idx 0) off (h idx) (omega arith)) in
    elim (get_or-set_either f idx i v 0) [
      | inl e ↦ omega (arith, e, fits)
      | inr e ↦ omega (arith, e, h i)
    ]

pub Mapped-stepped :
    (n : ℕ) (vm : Vm) (table : List Page)
    → n < 1024
    → Mapped n vm table
    → Mapped (n + 1) (stepped n vm table) (set table n (taken (get_or table n blank_page) n))
Mapped-stepped n vm table small m =
    let page = taken (get_or table n blank_page) n in
    let self = get_or-set_self table n page blank_page (omega (arith, m.length_table)) in
    let marked =
      λ (k : ℕ). used-set_frame vm.frames (n * 4096) k (omega (arith, m.length_frames)) in
    let number : n * 4096 / 0x1000 ≡ n = omega arith in
    record {
      has_table =
          get_or-set_self vm.dir.tables 0 _ none (omega (arith, m.length_tables))
          ∙ ap (λ t. set_in t n page) m.has_table;
      length_tables = length-set vm.dir.tables 0 _ ∙ m.length_tables;
      length_table = length-set table n page ∙ m.length_table;
      present = λ k p. elim (dec_lt k n) [
        | yes lt ↦
            ap (λ (q : Page). q.present)
              (get_or-set_ne table n k page blank_page (omega (arith, lt)))
            ∙ m.present k lt
        | no ge ↦
            ap (λ (j : ℕ). (get_or (set table n page) j blank_page).present) {x = k} {y = n}
              (omega (arith, ge, p))
            ∙ ap (λ (q : Page). q.present) self
      ];
      frame = λ k p. elim (dec_lt k n) [
        | yes lt ↦
            ap (λ (q : Page). q.frame) (get_or-set_ne table n k page blank_page (omega (arith, lt)))
            ∙ m.frame k lt
        | no ge ↦
            ap (λ (j : ℕ). (get_or (set table n page) j blank_page).frame) {x = k} {y = n}
              (omega (arith, ge, p))
            ∙ ap (λ (q : Page). q.frame) self
            ∙ omega (arith, ge, p)
      ];
      absent = λ k p q.
          ap (λ (r : Page). r.present) (get_or-set_ne table n k page blank_page (omega (arith, p)))
          ∙ m.absent k (omega (arith, p)) q;
      words = IsWords-set_frame vm.frames (n * 4096) m.words;
      length_frames = length-set_frame vm.frames (n * 4096) ∙ m.length_frames;
      count = m.count;
      in_use = λ k p. ground (arith, marked k, number, m.in_use k);
      unused = λ k p q. ground (arith, marked k, number, m.unused k);
    }

-- The loop, once the table is there.
pub map_region_rest :
    (fuel n : ℕ) (vm : Vm) (table : List Page)
    → Mapped n vm table
    → vm.free_addr ≤ 2 ^ 22
    → n ≤ 1024
    → 1024 - n < fuel
    → (vm' : Vm) × (table' : List Page) × (n' : ℕ) × (map_region fuel (n * 4096) vm ≡ done vm')
      × Mapped n' vm' table'
      × (vm'.free_addr ≤ n' * 4096)
      × (n' ≤ 1024)
      × (vm'.free_addr ≡ vm.free_addr)
unfolding map_region
map_region_rest zero n vm table m small le enough = absurd (omega arith)
map_region_rest (suc fuel) n vm table m small le enough =
    elim (Bool-cases (ltb (n * 4096) vm.free_addr)) [
      | inl t ↦
          let below : n < 1024 = ground (arith, t) in
          let next : add32 (n * 4096) 0x1000 ≡ (n + 1) * 4096 = omega arith in
          let (vm', table', n', runs, mapped, past, few, same) =
            map_region_rest fuel (n + 1) (stepped n vm table)
              (set table n (taken (get_or table n blank_page) n))
              (Mapped-stepped n vm table below m) small (omega arith) (omega arith) in
          (
            vm',
            table',
            n',
            (rw (t, map_region)
                (ap (λ o. o >>= map_region fuel (add32 (n * 4096) 0x1000))
                    (map_page_next n vm table below m)
                  ∙ ap (λ a. map_region fuel a (stepped n vm table)) next
                  ∙ runs)),
            mapped,
            past,
            few,
            same,
          )
      | inr t ↦ (vm, table, n, rw (t, map_region) refl, m, ground (arith, t), le, refl)
    ]
