-- ===== src/Outcome.antt =====
-- What a call comes to: a value, or `abort` of libc/stdlib/abort.c, which prints and then loops
-- for ever, so nothing after it runs; or behaviour that C leaves undefined.
use mathlib.Core.Path.{subst}
use icix.Prelude.{Bool, true, false, if◌then◌else◌, ◌≡◌, ◌∙◌, refl, ap}

pub data Outcome {ℓ} (A : Type ℓ) : Type ℓ where
  done : A → Outcome A
  aborted undefined : Outcome A

infixl 5 ◌>>=◌
abbrev pub ◌>>=◌ {ℓ κ} : {A : Type ℓ} {B : Type κ} → Outcome A → (A → Outcome B) → Outcome B
done a >>= f = f a
aborted >>= f = aborted
undefined >>= f = undefined

-- Inversion of a successful bind.
pub >>=-eq-done {ℓ κ} :
    {A : Type ℓ} {B : Type κ} (m : Outcome A) (f : A → Outcome B) {b : B}
    → (m >>= f) ≡ done b
    → (a : A) × (m ≡ done a) × (f a ≡ done b)
>>=-eq-done (done a) f h = (a, refl, h)
>>=-eq-done aborted f h = cc
>>=-eq-done undefined f h = cc

-- A step of a chain that ends.
pub >>=-done {ℓ κ} :
    {A : Type ℓ} {B : Type κ} {m : Outcome A} {a : A} (f : A → Outcome B) {b : B}
    → m ≡ done a
    → f a ≡ done b
    → (m >>= f) ≡ done b
>>=-done f e h = ap (λ o. o >>= f) e ∙ h

-- A postcondition of the value, if the call returns one.
pub data Post {ℓ κ} {A : Type ℓ} (P : A → Type κ) : Outcome A → Type (ℓ ⊔ κ) where
  returns : {a : A} → P a → Post P (done a)
  aborts : Post P aborted
  is_undefined : Post P undefined

-- What a call that returned satisfies.
pub Post-value {ℓ κ} :
    {A : Type ℓ} {P : A → Type κ} {m : Outcome A} {a : A} → Post P m → m ≡ done a → P a
Post-value {A} {P} {a = a} (returns {a = b} h) e = subst P (ap value e) h
  where
    value : Outcome A → A
    value (done x) = x
    value aborted = a
    value undefined = a
Post-value aborts e = cc
Post-value is_undefined e = cc

pub Post-if {ℓ κ} :
    {A : Type ℓ} {P : A → Type κ} (b : Bool) (x y : Outcome A)
    → (b ≡ true → Post P x)
    → (b ≡ false → Post P y)
    → Post P (if b then x else y)
Post-if true x y p q = p refl
Post-if false x y p q = q refl

pub Post-elim {ℓ κ} :
    {A : Type ℓ} {P : A → Type κ} (b : Bool) (x y : Outcome A)
    → (b ≡ true → Post P x)
    → (b ≡ false → Post P y)
    → Post P (elim b [ true ↦ x | false ↦ y ])
Post-elim true x y p q = p refl
Post-elim false x y p q = q refl

pub Post-weaken {ℓ κ μ} :
    {A : Type ℓ} {P : A → Type κ} {Q : A → Type μ} {m : Outcome A}
    → ((a : A) → Q a → P a)
    → Post Q m
    → Post P m
Post-weaken f (returns {a} h) = returns (f a h)
Post-weaken f aborts = aborts
Post-weaken f is_undefined = is_undefined

-- A later step may use that the first one returned.
pub Post-bind {ℓ κ μ} :
    {A : Type ℓ} {B : Type κ} {P : B → Type μ} (m : Outcome A) (f : A → Outcome B)
    → ((a : A) → m ≡ done a → Post P (f a))
    → Post P (m >>= f)
Post-bind (done a) f h = h a refl
Post-bind aborted f h = aborts
Post-bind undefined f h = is_undefined

-- Or the postcondition of the first step.
pub Post-then {ℓ κ μ ν} :
    {A : Type ℓ} {B : Type κ} {Q : A → Type ν} {P : B → Type μ} (m : Outcome A) (f : A → Outcome B)
    → Post Q m
    → ((a : A) → Q a → Post P (f a))
    → Post P (m >>= f)
Post-then (done a) f q h = Post-bind (done a) f (λ b e. h b (Post-value q e))
Post-then aborted f q h = aborts
Post-then undefined f q h = is_undefined
