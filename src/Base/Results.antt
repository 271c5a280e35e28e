-- ===== src/Base/Results.antt =====
-- Python code that raises: a value or the exception, with `do` blocks.
use mathlib.Core.Path.{◌≡◌, refl}
use mathlib.Core.Bool.{Bool, true, false}
use ivrdroid.Base.Tests.{if◌then◌else◌}
use mathlib.Core.Logic.{◌⊎◌, inl, inr}

pub data Result {ℓ κ} (E : Type ℓ) (A : Type κ) : Type (ℓ ⊔ κ) where
  ok : A → Result E A
  err : E → Result E A

-- `if not holds: raise error`.
abbrev pub guard {ℓ} : {E : Type ℓ} → Bool → E → Result E (Unit {0})
guard false error = err error
guard true _ = ok tt

infixl 5 ◌>>=◌
abbrev pub ◌>>=◌ {ℓ κ μ} :
    {E : Type ℓ} {A : Type κ} {B : Type μ} → Result E A → (A → Result E B) → Result E B
err error >>= next = err error
ok value >>= next = next value

-- A statement without a value, and what follows it.
infixl 5 ◌>>◌
abbrev pub ◌>>◌ {ℓ κ} : {E : Type ℓ} {B : Type κ} → Result E (Unit {0}) → Result E B → Result E B
statement >> rest = statement >>= λ done. rest

module _ {ℓ κ} {E : Type ℓ} {A : Type κ} where
  -- A sequence returns what its second part returns on the value of its first.
  pub >>=-eq-ok {μ} :
      {B : Type μ} (first : Result E A) (next : A → Result E B) {result : B}
      → (first >>= next) ≡ ok result
      → (value : A) × (first ≡ ok value) × (next value ≡ ok result)
  >>=-eq-ok (err error) next returned = cc
  >>=-eq-ok (ok value) next returned = (value, refl, returned)

pub guard-eq-ok {ℓ κ} :
    {E : Type ℓ} {B : Type κ} (c : Bool) (e : E) (k : Result E B) {b : B}
    → (guard c e >> k) ≡ ok b
    → (c ≡ true) × (k ≡ ok b)
guard-eq-ok true e k h = (refl, h)
guard-eq-ok false e k h = cc

-- A branch that returns a value.
pub if-eq-ok {ℓ κ} :
    {E : Type ℓ} {B : Type κ} (c : Bool) (x y : Result E B) {b : B}
    → (if c then x else y) ≡ ok b
    → ((c ≡ true) × (x ≡ ok b)) ⊎ ((c ≡ false) × (y ≡ ok b))
if-eq-ok true x y e = inl (refl, e)
if-eq-ok false x y e = inr (refl, e)

-- The first of two values that are returned.
pub ok-first {ℓ κ μ} :
    {E : Type ℓ} {A : Type κ} {B : Type μ} {a c : A} {b d : B}
    → Path (Result E (A × B)) (ok (a, b)) (ok (c, d))
    → a ≡ c
ok-first e = cc

pub ok-same {ℓ κ} : {E : Type ℓ} {A : Type κ} {a c : A} → Path (Result E A) (ok a) (ok c) → a ≡ c
ok-same e = cc

pub ok-second {ℓ κ μ} :
    {E : Type ℓ} {A : Type κ} {B : Type μ} {a c : A} {b d : B}
    → Path (Result E (A × B)) (ok (a, b)) (ok (c, d))
    → b ≡ d
ok-second e = cc
