-- ===== src/Common/Total.antt =====
-- Code that does not panic.
use Prim.Native.Nat.{ℕ, zero, suc, ◌+◌, ◌<◌}
use mathlib.Core.Path.{◌≡◌, refl, sym, ap, subst, ◌∙◌}
use mathlib.Core.Bool.{Bool, true, false}
use mathlib.Core.List.{List, [], ◌∷◌, Memᴰ}
use mathlib.Core.Option.{Option, none, some}
use native.Mathlib.Omega.{arith}
use accumulator.Common.Tests.{if◌then◌else◌}
use accumulator.Common.Lists.{length, All, range_from}
use accumulator.Common.Runs.{
  Run, returns, panics, ◌>>=◌, index, modify_at, first_some, or_next, returns-injective,
  >>=-eq-returns,
}

abbrev pub Total {ℓ} : {A : Type ℓ} → Run A → Type ℓ
Total {A = A} m = (a : A) × (m ≡ returns a)

or_next-Total {ℓ} :
    {B : Type ℓ} (r : Option B) (rest : Run (Option B)) → Total rest → Total (or_next r rest)
or_next-Total none rest t = t
or_next-Total (some b) rest t = (some b, refl)

module _ {ℓ κ} {A : Type ℓ} {B : Type κ} where
  pub bind-Total :
      (first : Run A) (next : A → Run B)
      → Total first
      → ((a : A) → first ≡ returns a → Total (next a))
      → Total (first >>= next)
  bind-Total panics next t k = cc
  bind-Total (returns v) next t k = k v refl

module _ {ℓ κ} {A : Type ℓ} {B : Type κ} where
  -- A loop with an early return, whose body does not panic on the elements of its list.
  pub first_some-Total :
      (f : A → Run (Option B)) (xs : List A)
      → ((x : A) → Memᴰ x xs → Total (f x))
      → Total (first_some f xs)
  unfolding first_some
  first_some-Total f [] t = (none, refl)
  first_some-Total f (x ∷ xs) t =
      let rest = first_some-Total f xs (λ y m. t y (Memᴰ.tail m)) in
      bind-Total (f x) _ (t x (Memᴰ.head refl)) λ r e. or_next-Total r (first_some f xs) rest

module _ {ℓ} {A : Type ℓ} where
  pub if-Total : (test : Bool) (m k : Run A) → Total m → Total k → Total (if test then m else k)
  if-Total true m k t u = t
  if-Total false m k t u = u

  pub index-Total : (xs : List A) (i : ℕ) → i < length xs → Total (index xs i)
  index-Total [] i h = elim h [ ]
  index-Total (x ∷ xs) zero h = (x, refl)
  index-Total (x ∷ xs) (suc i) h = index-Total xs i (omega (arith, h))

  pub modify_at-Total :
      (xs : List A) (i : ℕ) (f : A → A)
      → i < length xs
      → (ys : List A) × (modify_at xs i f ≡ returns ys) × (length ys ≡ length xs)
  modify_at-Total [] i f h = elim h [ ]
  modify_at-Total (x ∷ xs) zero f h = (f x ∷ xs, refl, refl)
  modify_at-Total (x ∷ xs) (suc i) f h =
      let (ys, e, n) = modify_at-Total xs i f (omega (arith, h)) in (x ∷ ys, rw e refl, ap suc n)

  pub length-modify_at :
      (xs : List A) (i : ℕ) (f : A → A) (ys : List A)
      → modify_at xs i f ≡ returns ys
      → length ys ≡ length xs
  length-modify_at [] i f ys e = cc
  length-modify_at (x ∷ xs) zero f ys e = ap length (sym (returns-injective e))
  length-modify_at (x ∷ xs) (suc i) f ys e =
      let (rest, d, k) = >>=-eq-returns (modify_at xs i f) _ e in
      ap length (sym (returns-injective k)) ∙ ap suc (length-modify_at xs i f rest d)

  -- An element that an index gives has what all elements have.
  pub index-All {κ} :
      (P : A → Type κ) (xs : List A) (i : ℕ) {x : A} → All P xs → index xs i ≡ returns x → P x
  index-All P [] i all e = cc
  index-All P (y ∷ xs) zero all e = subst P (returns-injective e) all.0
  index-All P (y ∷ xs) (suc i) all e = index-All P xs i all.1 e

pub range_from-below : (i n k : ℕ) → Memᴰ k (range_from i n) → k < i + n
range_from-below i zero k m = elim m [ ]
range_from-below i (suc n) k (Memᴰ.head e) = omega (arith, e)
range_from-below i (suc n) k (Memᴰ.tail m) = omega (arith, range_from-below (suc i) n k m)
