-- ===== src/Graph/Acyclic/Tables.antt =====
-- Tables of Boolean marks: how many nodes are unmarked, and the edges and paths of a graph given
-- by the lists of children.
use accumulator.Common.{
  ℕ, zero, suc, ◌+◌, ◌<◌, ◌≡◌, refl, sym, subst, ◌⊎◌, inl, inr, Bool, true, false, some, List, [],
  ◌∷◌, arith, if◌then◌else◌, length, get_elem?, set, replicate, Elem,
}

pub get_elem?-total {ℓ} :
    {A : Type ℓ} (xs : List A) (i : ℕ) → i < length xs → (x : A) × (get_elem? xs i ≡ some x)
get_elem?-total [] i h = elim h [ ]
get_elem?-total (x ∷ xs) zero h = (x, refl)
get_elem?-total (x ∷ xs) (suc i) h = get_elem?-total xs i (omega arith)

pub lt-length_of_get {ℓ} :
    {A : Type ℓ} (xs : List A) (i : ℕ) {x : A} → get_elem? xs i ≡ some x → i < length xs
lt-length_of_get [] i h = cc
lt-length_of_get (x ∷ xs) zero h = omega arith
lt-length_of_get (x ∷ xs) (suc i) h = omega (arith, lt-length_of_get xs i h)

pub get_elem?-replicate : (n i : ℕ) → (get_elem? (replicate n false) i ≡ some true) → ⊥
get_elem?-replicate zero i h = cc
get_elem?-replicate (suc n) zero h = cc
get_elem?-replicate (suc n) (suc i) h = get_elem?-replicate n i h

-- The number of entries that are `false`.
abbrev pub unmarked : List Bool → ℕ
unmarked [] = 0
unmarked (x ∷ xs) = (if x then 0 else 1) + unmarked xs

pub unmarked-set :
    (xs : List Bool) (i : ℕ)
    → get_elem? xs i ≡ some false
    → unmarked (set xs i true) + 1 ≡ unmarked xs
unmarked-set [] i h = cc
unmarked-set (x ∷ xs) zero h = ground arith
unmarked-set (x ∷ xs) (suc i) h = omega (arith, unmarked-set xs i h)

pub unmarked-replicate : (n : ℕ) → unmarked (replicate n false) ≡ n
unmarked-replicate zero = refl
unmarked-replicate (suc n) = omega (arith, unmarked-replicate n)

-- `to` is a child of `from`.
abbrev pub Edge : List (List ℕ) → ℕ → ℕ → Type 0
Edge adjacency from to =
    (children : List ℕ) × (get_elem? adjacency from ≡ some children) × Elem to children

-- A path of one edge or more.
pub data Reach (adjacency : List (List ℕ)) : ℕ → ℕ → Type 0 where
  step : {a b : ℕ} → Edge adjacency a b → Reach adjacency a b
  snoc : {a b c : ℕ} → Reach adjacency a b → Edge adjacency b c → Reach adjacency a c

-- Every path out of the node ends.
pub data Grounded (adjacency : List (List ℕ)) : ℕ → Type 0 where
  grounded : {a : ℕ} → ((b : ℕ) → Edge adjacency a b → Grounded adjacency b) → Grounded adjacency a

abbrev pub InRange : List (List ℕ) → Type 0
InRange adjacency = (a b : ℕ) → Edge adjacency a b → b < length adjacency

pub Reach-append :
    {adjacency : List (List ℕ)} {a b c : ℕ}
    → Reach adjacency a b
    → Reach adjacency b c
    → Reach adjacency a c
Reach-append r (step e) = snoc r e
Reach-append r (snoc s e) = snoc (Reach-append r s) e

pub first-Edge :
    {adjacency : List (List ℕ)} {a c : ℕ}
    → Reach adjacency a c
    → (b : ℕ) × Edge adjacency a b × ((b ≡ c) ⊎ Reach adjacency b c)
first-Edge {c} (step e) = (c, e, inl refl)
first-Edge (snoc r e) =
    let (b, d, tail) = first-Edge r in
    elim tail [ inl same ↦ (b, d, inr (step (rw same e))) | inr rest ↦ (b, d, inr (snoc rest e)) ]

-- A grounded node lies on no cycle.
pub Grounded-acyclic :
    {adjacency : List (List ℕ)} {a : ℕ} → Grounded adjacency a → Reach adjacency a a → ⊥
Grounded-acyclic {adjacency} {a} (grounded below) r =
    let (b, d, tail) = first-Edge r in
    Grounded-acyclic (below b d) (elim tail [
      | inl same ↦ subst (λ x. Reach adjacency x x) (sym same) r
      | inr rest ↦ Reach-append rest (step d)
    ])
