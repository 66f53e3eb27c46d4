-- ===== src/Prelude/Results.antt =====
-- A fallible call: the value that it returns, or the exception that it raises.
use mathlib.Core.Path.{◌≡◌, refl}
use mathlib.Core.Logic.{◌⊎◌, inl, inr}
use mathlib.Core.Bool.{Bool, true, false}
use mini_ai_cloud.Prelude.Tests.{if◌then◌else◌}

pub data Result {ℓ κ} (E : Type ℓ) (A : Type κ) : Type (ℓ ⊔ κ) where
  ok : A → Result E A
  err : E → Result E A

-- `if test: raise e`.
abbrev pub raise_if {ℓ} : {E : Type ℓ} → Bool → E → Result E (Unit {0})
raise_if false e = ok tt
raise_if true e = err e

module _ {ℓ κ} {E : Type ℓ} {A : Type κ} where
  -- The next statement runs only where the one before it returned.
  infixl 5 ◌>>=◌
  abbrev pub ◌>>=◌ {μ} : {B : Type μ} → Result E A → (A → Result E B) → Result E B
  err raised >>= next = err raised
  ok value >>= next = next value

  pub Result-cases : (m : Result E A) → ((a : A) × (m ≡ ok a)) ⊎ ((e : E) × (m ≡ err e))
  Result-cases (ok a) = inl (a, refl)
  Result-cases (err e) = inr (e, refl)

  -- A sequence that returned went through its first statement, and the rest returned the same.
  pub ok_parts {μ} :
      {B : Type μ} (first : Result E A) (next : A → Result E B) {result : B}
      → (first >>= next) ≡ ok result
      → (value : A) × (first ≡ ok value) × (next value ≡ ok result)
  ok_parts (err raised) next h = cc
  ok_parts (ok value) next h = (value, refl, h)

  pub ok_injective : {a b : A} → ◌≡◌ {A = Result E A} (ok a) (ok b) → a ≡ b
  ok_injective e = cc

infixl 5 ◌>>◌
abbrev pub ◌>>◌ {ℓ κ} : {E : Type ℓ} {B : Type κ} → Result E (Unit {0}) → Result E B → Result E B
check >> rest = check >>= λ _. rest

-- A choice of two calls that returned is one of them.
pub either_ok {ℓ κ} :
    {E : Type ℓ} {A : Type κ} (test : Bool) (x y : Result E A) {a : A}
    → (if test then x else y) ≡ ok a
    → ((test ≡ true) × (x ≡ ok a)) ⊎ ((test ≡ false) × (y ≡ ok a))
either_ok true x y h = inl (refl, h)
either_ok false x y h = inr (refl, h)
