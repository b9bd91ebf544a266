-- ===== src/Paging/Heap/Fuel.antt =====
-- The loop of `malloc` ends.
use icix.Prelude.{
  ℕ, zero, suc, ◌+◌, ◌-◌, ◌*◌, ◌^◌, ◌≤◌, ◌<◌, ltb, ◌≡◌, refl, ap, arith, Bool, add32, true, false,
}
use mathlib.Core.Path.{subst}
use icix.Outcome.{Outcome, done, ◌>>=◌}
use icix.Paging.Init.{Vm}
use icix.Paging.Heap.{back_page, back_pages}

abbrev round : Bool → Vm → Outcome Vm → (Vm → Outcome Vm) → Outcome Vm
round b vm o k = elim b as (λ _. Outcome Vm) [ false ↦ done vm | true ↦ o >>= k ]

round-ap :
    (b : Bool) (vm : Vm) (o : Outcome Vm) (k l : Vm → Outcome Vm)
    → (b ≡ true → (v : Vm) → k v ≡ l v)
    → round b vm o k ≡ round b vm o l
round-ap false vm o k l h = refl
round-ap true vm o k l h = ap (λ f. o >>= f) (λ i v. h refl v i)

-- Two amounts of fuel that reach the end give the same.
back_pages-suc :
    (n m j end : ℕ) (vm : Vm)
    → end + 4096 ≤ 2 ^ 32
    → end ≤ j + n * 4096
    → end ≤ j + m * 4096
    → back_pages (suc n) j end vm ≡ back_pages (suc m) j end vm
unfolding back_pages
back_pages-suc zero m j end vm small le le' =
    round-ap (ltb j end) vm (back_page vm j) (back_pages zero (add32 j 0x1000) end)
      (back_pages m (add32 j 0x1000) end) (λ t v. absurd (ground (arith, t, le)))
back_pages-suc (suc n) zero j end vm small le le' =
    round-ap (ltb j end) vm (back_page vm j) (back_pages (suc n) (add32 j 0x1000) end)
      (back_pages zero (add32 j 0x1000) end) (λ t v. absurd (ground (arith, t, le')))
back_pages-suc (suc n) (suc m) j end vm small le le' =
    round-ap (ltb j end) vm (back_page vm j) (back_pages (suc n) (add32 j 0x1000) end)
      (back_pages (suc m) (add32 j 0x1000) end)
      (λ t v.
        let below : j < end = ground (arith, t) in
        back_pages-suc n m (add32 j 0x1000) end v small (omega (arith, le, below, small))
          (omega (arith, le', below, small)))

-- For a block that ends at least a page below 2^32: the loop of `malloc` gives with any fuel that is
-- more than the number of pages in the block what it gives with the fuel that it has, so the fuel
-- never ends it.
pub back_pages-eq :
    (fuel j end : ℕ) (vm : Vm)
    → end + 4096 ≤ 2 ^ 32
    → end ≤ j + fuel * 4096
    → back_pages (suc fuel) j end vm ≡ back_pages (2 ^ 20) j end vm
back_pages-eq fuel j end vm small enough =
    subst (λ n. back_pages (suc fuel) j end vm ≡ back_pages n j end vm) all
      (back_pages-suc fuel (2 ^ 20 - 1) j end vm small enough (omega (arith, small)))
  where
    all : suc (2 ^ 20 - 1) ≡ 2 ^ 20
    all = omega arith
