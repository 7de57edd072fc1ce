-- ===== src/Common/Runs.antt =====
-- Code that may panic: an index out of range, or an `expect` on a missing value.
use Prim.Native.Nat.{ℕ, zero, suc}
use mathlib.Core.Path.{◌≡◌, refl}
use mathlib.Core.Logic.{◌⊎◌, inl, inr}
use mathlib.Core.List.{List, [], ◌∷◌, Memᴰ}
use mathlib.Core.Bool.{Bool, true, false, not}
use accumulator.Common.Tests.{if◌then◌else◌}
use mathlib.Core.Option.{Option, none, some}

pub data Run {ℓ} (A : Type ℓ) : Type ℓ where
  returns : A → Run A
  panics : Run A

module _ {ℓ κ} {A : Type ℓ} {B : Type κ} where
  infixl 5 ◌>>=◌ ◌>>◌
  abbrev pub ◌>>=◌ : Run A → (A → Run B) → Run B
  panics >>= next = panics
  returns v >>= next = next v

  abbrev pub ◌>>◌ : Run A → Run B → Run B
  first >> next = first >>= λ v. next

module _ {ℓ} {A : Type ℓ} where
  -- `xs[i]`.
  abbrev pub index : List A → ℕ → Run A
  index [] i = panics
  index (x ∷ xs) zero = returns x
  index (x ∷ xs) (suc i) = index xs i

  -- `xs[i] = f(xs[i])`.
  abbrev pub modify_at : List A → ℕ → (A → A) → Run (List A)
  modify_at [] i f = panics
  modify_at (x ∷ xs) zero f = returns (f x ∷ xs)
  modify_at (x ∷ xs) (suc i) f = modify_at xs i f >>= λ rest. returns (x ∷ rest)

module _ {ℓ κ} {A : Type ℓ} {B : Type κ} where
  pub >>=-eq-returns :
      (first : Run A) (next : A → Run B) {b : B}
      → first >>= next ≡ returns b
      → (v : A) × (first ≡ returns v) × (next v ≡ returns b)
  >>=-eq-returns panics next e = cc
  >>=-eq-returns (returns v) next e = (v, refl, e)

-- Inversions of the guards `if test { continue }`.
module _ {ℓ} {B : Type ℓ} {b : B} where
  pub skip-eq-some :
      (test : Bool) (m : Run (Option B))
      → (if test then returns none else m) ≡ returns (some b)
      → (test ≡ false) × (m ≡ returns (some b))
  skip-eq-some true m h = cc
  skip-eq-some false m h = (refl, h)

  pub pass-eq-some :
      (test : Bool) (m : Run (Option B))
      → (if test then m else returns none) ≡ returns (some b)
      → (test ≡ true) × (m ≡ returns (some b))
  pass-eq-some true m h = (refl, h)
  pass-eq-some false m h = cc

pub returns-injective {ℓ} : {A : Type ℓ} {a b : A} → returns a ≡ returns b → a ≡ b
returns-injective h = cc

pub not-eq-false : (b : Bool) → not b ≡ false → b ≡ true
not-eq-false true h = refl
not-eq-false false h = cc

-- A `for` loop that may return early: `none` goes on to the next element.
module _ {ℓ} {B : Type ℓ} where
  abbrev pub or_next : Option B → Run (Option B) → Run (Option B)
  or_next none rest = rest
  or_next (some b) rest = returns (some b)

  returned_cases :
      (m rest : Run (Option B)) (b : B)
      → (m >>= λ r. or_next r rest) ≡ returns (some b)
      → (m ≡ returns (some b)) ⊎ (rest ≡ returns (some b))
  returned_cases (returns none) rest b h = inr h
  returned_cases (returns (some c)) rest b h = inl h
  returned_cases panics rest b h = cc

  passed_cases :
      (m rest : Run (Option B))
      → (m >>= λ r. or_next r rest) ≡ returns none
      → (m ≡ returns none) × (rest ≡ returns none)
  passed_cases (returns none) rest h = (refl, h)
  passed_cases (returns (some c)) rest h = cc
  passed_cases panics rest h = cc

module _ {ℓ κ} {A : Type ℓ} {B : Type κ} where
  unfoldable pub first_some : (A → Run (Option B)) → List A → Run (Option B)
  first_some f [] = returns none
  first_some f (x ∷ xs) = let rest = first_some f xs in f x >>= λ r. or_next r rest

  -- An early return comes from an element of the list.
  pub first_some-eq-some :
      (f : A → Run (Option B)) (xs : List A) (b : B)
      → first_some f xs ≡ returns (some b)
      → (x : A) × Memᴰ x xs × (f x ≡ returns (some b))
  unfolding first_some
  first_some-eq-some f [] b h = cc
  first_some-eq-some f (x ∷ xs) b h = elim (returned_cases (f x) (first_some f xs) b h) [
    | inl e ↦ (x, Memᴰ.head refl, e)
    | inr e ↦ let (y, m, d) = first_some-eq-some f xs b e in (y, Memᴰ.tail m, d)
  ]

  -- Without one, every element was passed over.
  pub first_some-eq-none :
      (f : A → Run (Option B)) (xs : List A) (x : A)
      → first_some f xs ≡ returns none
      → Memᴰ x xs
      → f x ≡ returns none
  unfolding first_some
  first_some-eq-none f [] x h m = elim m [ ]
  first_some-eq-none f (y ∷ xs) x h (Memᴰ.head e) = rw e (passed_cases (f y) (first_some f xs) h).0
  first_some-eq-none f (y ∷ xs) x h (Memᴰ.tail m) =
      first_some-eq-none f xs x (passed_cases (f y) (first_some f xs) h).1 m
