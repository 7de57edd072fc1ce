-- ===== src/Common/Outcomes.antt =====
-- Code that may return an error by `?`, or panic.
use mathlib.Core.Path.{◌≡◌, refl}
use accumulator.Common.Runs.{Run, returns, panics}

pub data Outcome {ℓ κ} (X : Type κ) (A : Type ℓ) : Type (ℓ ⊔ κ) where
  done : A → Outcome X A
  throws : X → Outcome X A
  crashes : Outcome X A

module _ {ℓ κ μ} {X : Type μ} {A : Type ℓ} {B : Type κ} where
  infixl 5 ◌>>=◌
  abbrev pub ◌>>=◌ : Outcome X A → (A → Outcome X B) → Outcome X B
  crashes >>= next = crashes
  throws x >>= next = throws x
  done v >>= next = next v

  pub >>=-eq-done :
      (first : Outcome X A) (next : A → Outcome X B) {b : B}
      → first >>= next ≡ done b
      → (v : A) × (first ≡ done v) × (next v ≡ done b)
  >>=-eq-done crashes next e = cc
  >>=-eq-done (throws x) next e = cc
  >>=-eq-done (done v) next e = (v, refl, e)

module _ {ℓ μ} {X : Type μ} {A : Type ℓ} where
  -- Code that returns no error.
  abbrev pub lift : Run A → Outcome X A
  lift panics = crashes
  lift (returns v) = done v

  pub lift-eq-done : (m : Run A) {v : A} → lift m ≡ done v → m ≡ returns v
  lift-eq-done panics e = cc
  lift-eq-done (returns v) e = cc

  pub done-injective : {v w : A} → ◌≡◌ {A = Outcome X A} (done v) (done w) → v ≡ w
  done-injective e = cc
