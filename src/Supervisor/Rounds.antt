-- ===== src/Supervisor/Rounds.antt =====
-- Counts by index, as the two rounds of `run_supervisor`'s start in src/lib.rs raise them.
use accumulator.Common.{
  ℕ, zero, suc, ◌+◌, ◌≤◌, ◌≡◌, refl, subst, ap, ◌∙◌, List, [], ◌∷◌, ◌++◌, map, arith, sum, length,
  length-append, modify_at, returns, returns-injective, >>=-eq-returns,
}

-- The counts with `n` more at index `i`.
abbrev pub add_at : List ℕ → ℕ → ℕ → List ℕ
add_at [] i n = []
add_at (c ∷ counts) zero n = (c + n) ∷ counts
add_at (c ∷ counts) (suc i) n = c ∷ add_at counts i n

-- The counts with the numbers of a list more, from index `i` on.
abbrev pub add_from : List ℕ → ℕ → List ℕ → List ℕ
add_from counts i [] = counts
add_from counts i (n ∷ ns) = add_from (add_at counts i n) (suc i) ns

pub add_at-zero : (counts : List ℕ) (i : ℕ) → add_at counts i 0 ≡ counts
add_at-zero [] i = refl
add_at-zero (c ∷ counts) zero = ap (λ x. x ∷ counts) omega arith
add_at-zero (c ∷ counts) (suc i) = ap (◌∷◌ c) (add_at-zero counts i)

pub add_at-add_at :
    (counts : List ℕ) (i n : ℕ) → add_at (add_at counts i 1) i n ≡ add_at counts i (suc n)
add_at-add_at [] i n = refl
add_at-add_at (c ∷ counts) zero n = ap (λ x. x ∷ counts) omega arith
add_at-add_at (c ∷ counts) (suc i) n = ap (◌∷◌ c) (add_at-add_at counts i n)

add_from-tail :
    (c : ℕ) (counts : List ℕ) (i : ℕ) (ns : List ℕ)
    → add_from (c ∷ counts) (suc i) ns ≡ c ∷ add_from counts i ns
add_from-tail c counts i [] = refl
add_from-tail c counts i (n ∷ ns) = add_from-tail c (add_at counts i n) (suc i) ns

pub add_from-map :
    {A : Type 0} (f g : A → ℕ) (xs : List A)
    → add_from (map f xs) 0 (map g xs) ≡ map (λ x. f x + g x) xs
add_from-map f g [] = refl
add_from-map f g (x ∷ xs) =
    add_from-tail (f x + g x) (map f xs) 0 (map g xs) ∙ ap (◌∷◌ (f x + g x)) (add_from-map f g xs)

pub lengths-push :
    (lists lists' : List (List ℕ)) (i w : ℕ)
    → modify_at lists i (λ ids. ids ++ w ∷ []) ≡ returns lists'
    → map length lists' ≡ add_at (map length lists) i 1
lengths-push [] lists' i w h = cc
lengths-push (ids ∷ lists) lists' zero w h =
    subst (λ l. map length l ≡ add_at (map length (ids ∷ lists)) 0 1) (returns-injective h)
      (ap (λ n. n ∷ map length lists) (length-append ids (w ∷ [])))
lengths-push (ids ∷ lists) lists' (suc i) w h =
    let (rest, e, d) = >>=-eq-returns (modify_at lists i (λ ids. ids ++ w ∷ [])) _ h in
    subst (λ l. map length l ≡ add_at (map length (ids ∷ lists)) (suc i) 1) (returns-injective d)
      (ap (◌∷◌ (length ids)) (lengths-push lists rest i w e))

-- An index out of range adds nothing.
pub sum-add_at : (counts : List ℕ) (i n : ℕ) → sum (add_at counts i n) ≤ sum counts + n
sum-add_at [] i n = omega arith
sum-add_at (c ∷ counts) zero n = omega arith
sum-add_at (c ∷ counts) (suc i) n = omega (arith, sum-add_at counts i n)

sum-add_from :
    (counts : List ℕ) (i : ℕ) (ns : List ℕ) → sum (add_from counts i ns) ≤ sum counts + sum ns
sum-add_from counts i [] = omega arith
sum-add_from counts i (n ∷ ns) =
    omega (arith, sum-add_at counts i n, sum-add_from (add_at counts i n) (suc i) ns)

pub sum-map-add :
    {A : Type 0} (f g : A → ℕ) (xs : List A)
    → sum (map f xs) + sum (map g xs) ≡ sum (map (λ x. f x + g x) xs)
sum-map-add f g [] = refl
sum-map-add f g (x ∷ xs) = omega (arith, sum-map-add f g xs)

pub lengths_of_empty :
    {A : Type 0} (xs : List A) (lists : List (List ℕ))
    → lists ≡ map (λ x. []) xs
    → map length lists ≡ map (λ x. 0) xs
lengths_of_empty {A = A} xs lists h = ap (map length) h ∙ zeros xs
  where
    zeros : (ys : List A) → map (length {A = ℕ}) (map (λ y. []) ys) ≡ map (λ y. 0) ys
    zeros [] = refl
    zeros (y ∷ ys) = ap (◌∷◌ 0) (zeros ys)

pub map-same :
    {A : Type 0} (f g : A → ℕ) → ((x : A) → f x ≡ g x) → (xs : List A) → map f xs ≡ map g xs
map-same f g same [] = refl
map-same f g same (x ∷ xs) = rw (same x, map-same f g same xs) refl
