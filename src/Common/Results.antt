-- ===== src/Common/Results.antt =====
-- Results of fallible code: a value, or an error of type `X`.
use mathlib.Core.Path.{◌≡◌, refl}
use mathlib.Core.Bool.{Bool, true, false}

pub data Result {ℓ κ} (X : Type κ) (A : Type ℓ) : Type (ℓ ⊔ κ) where
  ok : A → Result X A
  err : X → Result X A

-- `?`: the rest of the code runs on the value, and an error ends it.
module _ {κ μ} {X : Type μ} {B : Type κ} where
  infixl 5 ◌>>=◌ ◌>>◌
  abbrev pub ◌>>=◌ {ℓ} : {A : Type ℓ} → Result X A → (A → Result X B) → Result X B
  err x >>= next = err x
  ok v >>= next = next v

  abbrev pub ◌>>◌ {ℓ} : {A : Type ℓ} → Result X A → Result X B → Result X B
  first >> next = first >>= λ v. next

-- `if test { return Err(x) }`.
abbrev pub fail_if {μ} : {X : Type μ} → Bool → X → Result X (Unit {0})
fail_if false x = ok tt
fail_if true x = err x

module _ {ℓ κ μ} {X : Type μ} {A : Type ℓ} {B : Type κ} where
  pub >>=-eq-ok :
      (first : Result X A) (next : A → Result X B) {b : B}
      → first >>= next ≡ ok b
      → (v : A) × (first ≡ ok v) × (next v ≡ ok b)
  >>=-eq-ok (err x) next e = cc
  >>=-eq-ok (ok v) next e = (v, refl, e)
