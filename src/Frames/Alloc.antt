-- ===== src/Frames/Alloc.antt =====
-- What `pfa_alloc` and `pfa_free` do to the frame bitmap.
use mathlib.Core.Path.{subst}
use icix.Prelude.{ℕ, ◌*◌, ◌/◌, ◌%◌, ◌^◌, ◌≤◌, ◌<◌, ◌==◌, if◌then◌else◌}
use icix.Prelude.{List, ◌≡◌, ◌≢◌, refl, arith, length, false, inl, inr}
use icix.Prelude.{Bool-cases, minus_one, u32, ==_iff}
use icix.Outcome.{Outcome, done, aborted, undefined}
use icix.Frames.{Page, set_frame, first_frame, pfa_alloc, pfa_free}
use icix.Frames.Laws.{used, used-set_frame, used-clear_frame}
use icix.Frames.First.{IsWords, IsFirstFree, first_frame-IsFirstFree}

-- Frame r below `limit` was the least free one, and it alone is marked from f to f'.
abbrev pub TakesLeast : List ℕ → ℕ → ℕ → List ℕ → Type 0
TakesLeast f limit r f' =
    (r < limit)
    × (used f r ≡ 0)
    × ((k : ℕ) → k < r → used f k ≡ 1)
    × ((k : ℕ) → used f' k ≡ (if r == k then 1 else used f k))

-- The outcomes of an allocation for an absent page: it aborts with every frame in use, or the page
-- becomes present with the flags that were asked for and the least free frame.
abbrev pub Allocates : List ℕ → ℕ → Page → ℕ → ℕ → Outcome (Page × List ℕ) → Type 0
Allocates f limit page is_kernel is_writeable aborted = (k : ℕ) → k < limit → used f k ≡ 1
Allocates f limit page is_kernel is_writeable undefined = ⊥
Allocates f limit page is_kernel is_writeable (done (p, f')) =
    (p.present ≡ 1)
    × (p.rw_flag ≡ is_writeable % 2)
    × (p.user ≡ (if is_kernel == 0 then 1 else 0))
    × TakesLeast f limit p.frame f'

-- For an absent page, a bitmap of 32-bit words that covers the frames and at most 2 ^ 20 frames,
-- `pfa_alloc` either aborts with every frame in use, or makes the page present with the asked
-- flags and the least free frame, and marks exactly that frame.
pub pfa_alloc-Allocates :
    (f : List ℕ) (nframes : ℕ) (page : Page) (is_kernel is_writeable : ℕ)
    → IsWords f
    → nframes ≤ 2 ^ 20
    → nframes / 32 ≤ length f
    → page.present ≢ 1
    → Allocates f
        (32 * (nframes / 32))
        page
        is_kernel
        is_writeable
        (pfa_alloc f nframes page is_kernel is_writeable)
unfolding pfa_alloc
pfa_alloc-Allocates f nframes page is_kernel is_writeable words small covers absent =
    elim (Bool-cases (first_frame f nframes == minus_one)) [
      | inl t ↦ rw (t1, t, Allocates) (λ k p. first.full ((==_iff _ _).0 t) k (omega arith) p)
      | inr t ↦ rw (t1, t, Allocates) (refl, refl, refl, found (ground (arith, first.in_range)))
    ]
  where
    first : IsFirstFree f 0 (32 * (nframes / 32)) (first_frame f nframes)
    first = first_frame-IsFirstFree f nframes words (omega arith)

    t1 : (page.present == 1) ≡ false
    t1 = ground arith

    found :
        first_frame f nframes < 32 * (nframes / 32)
        → TakesLeast f
            (32 * (nframes / 32))
            (first_frame f nframes % 2 ^ 20)
            (set_frame f (u32 (first_frame f nframes * 0x1000)))
    found range =
        let e : first_frame f nframes % 2 ^ 20 ≡ first_frame f nframes = omega arith in
        let d : u32 (first_frame f nframes * 0x1000) / 0x1000 ≡ first_frame f nframes =
          omega arith in
        rw (e) (
          range,
          first.free range,
          λ k p. first.least range k (omega arith) p,
          λ k.
              subst
                (λ t.
                  used (set_frame f (u32 (first_frame f nframes * 0x1000))) k
                  ≡ (if t == k then 1 else used f k))
                d (used-set_frame f (u32 (first_frame f nframes * 0x1000)) k (omega arith)),
        )

-- `pfa_free` passes a frame number where `clear_frame` takes an address: for a present page with a
-- frame from 1 up to 4095, which covers the 16 MB of memory, the page's frame stays marked as in
-- use, and it is frame 0 that is marked free.
pub used-pfa_free :
    (f : List ℕ) (page : Page)
    → page.present ≢ 0
    → 0 < page.frame
    → page.frame < 0x1000
    → 0 < length f
    → ((pfa_free f page).0.present ≡ 0)
      × (used (pfa_free f page).1 page.frame ≡ used f page.frame)
      × (used (pfa_free f page).1 0 ≡ 0)
unfolding pfa_free
used-pfa_free f page present pos small some_word =
    let t : (page.present == 0) ≡ false = ground arith in
    let d : page.frame / 0x1000 ≡ 0 = omega arith in
    rw t (
      refl,
      ground (arith, d, used-clear_frame f page.frame page.frame (omega arith)),
      ground (arith, d, used-clear_frame f page.frame 0 (omega arith)),
    )
