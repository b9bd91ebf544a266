-- ===== src/Listing/Shown.antt =====
-- The bytes of a text, shown one after the other.
use icix.Prelude.{ℕ, List, [], ◌∷◌, ◌++◌, ◌≡◌, refl, u8}
use icix.Printf.Format.{Printer}
use icix.Printf.Format.Laws.{displayed}
use icix.Listing.Laws.{shows}

module _ {S : Type 0} (putchar : ℕ → S → S) where
  -- The bytes of a text on the console.
  abbrev pub shown : List ℕ → S → S
  shown = shows (λ c. putchar (u8 c))

  pub shown-append : (t u : List ℕ) (s : S) → shown (t ++ u) s ≡ shown u (shown t s)
  shown-append [] u s = refl
  shown-append (c ∷ t) u s = shown-append t u (putchar (u8 c) s)

  pub displayed-append :
      (t u : List ℕ) (p : Printer S)
      → displayed putchar (t ++ u) p ≡ displayed putchar u (displayed putchar t p)
  displayed-append [] u p = refl
  displayed-append (c ∷ t) u p = displayed-append t u _

  pub console-displayed :
      (t : List ℕ) (p : Printer S) → (displayed putchar t p).console ≡ shown t p.console
  console-displayed [] p = refl
  console-displayed (c ∷ t) p = console-displayed t _
