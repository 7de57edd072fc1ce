-- ===== src/Graph/Acyclic/Correct.antt =====
-- The cycle check against an independent description: node `a` feeds node `b` where an output link
-- of `a` is the input link of `b`.
use mathlib.Core.Option.{some-injective}
use accumulator.Common.{
  ℕ, zero, suc, ◌+◌, ◌<◌, ◌≡◌, refl, sym, subst, ap, ◌⊎◌, inl, inr, Bool, true, false, Option, none,
  some, List, [], ◌∷◌, arith, map, ◌==◌, if◌then◌else◌, length, get_elem?, replicate,
  enumerate_from, any, range_from, Elem, length-replicate,
}
use accumulator.Common.Results.{Result, ok, err}
use accumulator.Errors.{PiperError, invalid_graph, cycle}
use accumulator.Float.{Float}
use accumulator.Graph.Specs.{GraphNodeSpec}
use accumulator.Graph.Acyclic.Tables.{
  get_elem?-replicate, unmarked-replicate, lt-length_of_get, Edge, Reach, step, snoc, InRange,
  Grounded-acyclic, first-Edge,
}
use accumulator.Graph.Acyclic.Search.{Answers, visit_children-Answers, visit-Answers}
use accumulator.Graph.Acyclic.{
  Visit, found_cycle, clear, no_answer, visit, consumers_of, build_adjacency, search_all,
  validate_graph_is_acyclic,
}

any-==_iff :
    (outputs : List ℕ) (link : ℕ)
    → (any (λ output. output == link) outputs ≡ true → Elem link outputs)
      × (Elem link outputs → any (λ output. output == link) outputs ≡ true)
any-==_iff [] link = ((λ h. cc), λ h. elim h [ ])
any-==_iff (o ∷ outputs) link =
    let (to, from) = any-==_iff outputs link in
    ((λ h. ground (arith, to)), elim [ inl e ↦ ground arith | inr m ↦ ground (arith, from m) ])

get_elem?-map {ℓ κ} :
    {A : Type ℓ} {B : Type κ} (f : A → B) (xs : List A) (i : ℕ) {x : A}
    → get_elem? xs i ≡ some x
    → get_elem? (map f xs) i ≡ some (f x)
get_elem?-map f [] i h = cc
get_elem?-map f (y ∷ xs) zero h = cc
get_elem?-map f (y ∷ xs) (suc i) h = get_elem?-map f xs i h

get_elem?-map_inv {ℓ κ} :
    {A : Type ℓ} {B : Type κ} (f : A → B) (xs : List A) (i : ℕ) {y : B}
    → get_elem? (map f xs) i ≡ some y
    → (x : A) × (get_elem? xs i ≡ some x) × (f x ≡ y)
get_elem?-map_inv f [] i h = cc
get_elem?-map_inv f (x ∷ xs) zero h = (x, refl, some-injective _ _ h)
get_elem?-map_inv f (x ∷ xs) (suc i) h = get_elem?-map_inv f xs i h

length-map {ℓ κ} :
    {A : Type ℓ} {B : Type κ} (f : A → B) (xs : List A) → length (map f xs) ≡ length xs
length-map f [] = refl
length-map f (x ∷ xs) = ap suc (length-map f xs)

mem-if : (test : Bool) (x b : ℕ) (ys : List ℕ) → Elem b ys → Elem b (if test then x ∷ ys else ys)
mem-if true x b ys m = inr m
mem-if false x b ys m = m

if-mem :
    (test : Bool) (x b : ℕ) (ys : List ℕ)
    → Elem b (if test then x ∷ ys else ys)
    → (b ≡ x) × (test ≡ true) ⊎ Elem b ys
if-mem true x b ys (inl e) = inl (e, refl)
if-mem true x b ys (inr m) = inr m
if-mem false x b ys m = inr m

module _ {fl : Float} where
  -- A node's output link is another node's input link.
  abbrev pub Feeds : List (GraphNodeSpec fl) → ℕ → ℕ → Type 0
  Feeds stages a b =
      (producer : GraphNodeSpec fl) × (consumer : GraphNodeSpec fl) × (get_elem? stages a
        ≡ some producer)
      × (get_elem? stages b ≡ some consumer)
      × Elem consumer.input_link producer.output_links

  -- Items flow from the one node to the other, through one link or more.
  pub data Downstream (stages : List (GraphNodeSpec fl)) : ℕ → ℕ → Type 0 where
    directly : {a b : ℕ} → Feeds stages a b → Downstream stages a b
    through : {a b c : ℕ} → Downstream stages a b → Feeds stages b c → Downstream stages a c

  mem-consumers_of :
      (outputs : List ℕ) (i k : ℕ) (xs : List (GraphNodeSpec fl)) {q : GraphNodeSpec fl}
      → get_elem? xs k ≡ some q
      → Elem q.input_link outputs
      → Elem (i + k) (consumers_of outputs (enumerate_from i xs))
  unfolding consumers_of
  mem-consumers_of outputs i k [] h m = cc
  mem-consumers_of outputs i zero (x ∷ xs) {q} h m =
      ground (arith, (any-==_iff outputs q.input_link).1 m)
  mem-consumers_of outputs i (suc k) (x ∷ xs) {q} h m =
      let moved : i + suc k ≡ suc i + k = omega arith in
      rw moved (
        mem-if (any (λ output. output == x.input_link) outputs) i (suc i + k) _
          (mem-consumers_of outputs (suc i) k xs h m))

  consumers_of-mem :
      (outputs : List ℕ) (i b : ℕ) (xs : List (GraphNodeSpec fl))
      → Elem b (consumers_of outputs (enumerate_from i xs))
      → (k : ℕ) × (q : GraphNodeSpec fl) × (b ≡ i + k)
        × (get_elem? xs k ≡ some q)
        × Elem q.input_link outputs
  unfolding consumers_of
  consumers_of-mem outputs i b [] h = elim h [ ]
  consumers_of-mem outputs i b (x ∷ xs) h =
      elim (if-mem (any (λ output. output == x.input_link) outputs) i b _ h) [
        | inl (e, t) ↦ (0, x, omega arith, refl, (any-==_iff outputs x.input_link).0 t)
        | inr m ↦
            let (k, q, e, d, m') = consumers_of-mem outputs (suc i) b xs m in
            (suc k, q, omega arith, d, m')
      ]

  Feeds-Edge :
      (stages : List (GraphNodeSpec fl)) (a b : ℕ)
      → Feeds stages a b
      → Edge (build_adjacency stages) a b
  unfolding build_adjacency
  Feeds-Edge stages a b (producer, consumer, e, d, m) = (
    _,
    get_elem?-map _ stages a e,
    subst (λ x. Elem x (consumers_of producer.output_links (enumerate_from 0 stages))) (omega arith)
        (mem-consumers_of producer.output_links 0 b stages d m),
  )

  Edge-Feeds :
      (stages : List (GraphNodeSpec fl)) (a b : ℕ)
      → Edge (build_adjacency stages) a b
      → Feeds stages a b
  unfolding build_adjacency
  Edge-Feeds stages a b (children, listed, m) =
      let (producer, e, same) = get_elem?-map_inv _ stages a listed in
      let (k, consumer, shifted, d, m') =
        consumers_of-mem producer.output_links 0 b stages (subst (Elem b) (sym same) m) in
      let index : b ≡ k = omega arith in
      (producer, consumer, e, subst (λ x. get_elem? stages x ≡ some consumer) (sym index) d, m')

  Downstream-Reach :
      (stages : List (GraphNodeSpec fl)) {a b : ℕ}
      → Downstream stages a b
      → Reach (build_adjacency stages) a b
  Downstream-Reach stages (directly f) = step (Feeds-Edge stages _ _ f)
  Downstream-Reach stages (through d f) = snoc (Downstream-Reach stages d) (Feeds-Edge stages _ _ f)

  Reach-Downstream :
      (stages : List (GraphNodeSpec fl)) {a b : ℕ}
      → Reach (build_adjacency stages) a b
      → Downstream stages a b
  Reach-Downstream stages (step e) = directly (Edge-Feeds stages _ _ e)
  Reach-Downstream stages (snoc r e) = through (Reach-Downstream stages r) (Edge-Feeds stages _ _ e)

  length-build_adjacency :
      (stages : List (GraphNodeSpec fl)) → length (build_adjacency stages) ≡ length stages
  unfolding build_adjacency
  length-build_adjacency stages = length-map _ stages

  build_adjacency-InRange : (stages : List (GraphNodeSpec fl)) → InRange (build_adjacency stages)
  build_adjacency-InRange stages a b e =
      let (producer, consumer, _, d, _) = Edge-Feeds stages a b e in
      omega (arith, length-build_adjacency stages, lt-length_of_get stages b d)

range_from-lt : (i n a : ℕ) → Elem a (range_from i n) → a < i + n
range_from-lt i zero a m = elim m [ ]
range_from-lt i (suc n) a (inl e) = omega arith
range_from-lt i (suc n) a (inr m) = omega (arith, range_from-lt (suc i) n a m)

mem-range_from : (i n k : ℕ) → k < n → Elem (i + k) (range_from i n)
mem-range_from i zero k h = elim h [ ]
mem-range_from i (suc n) zero h = inl (omega arith)
mem-range_from i (suc n) (suc k) h =
    let moved : i + suc k ≡ suc i + k = omega arith in
    inr (
      subst (λ x. Elem x (range_from (suc i) n)) (sym moved)
        (mem-range_from (suc i) n k (omega arith)))

search_all-Answers :
    (adjacency : List (List ℕ))
    → InRange adjacency
    → Answers adjacency
        (range_from 0 (length adjacency))
        (record {
          temporary = replicate (length adjacency) false;
          permanent = replicate (length adjacency) false;
        })
        (search_all adjacency)
unfolding search_all
search_all-Answers adjacency in_range =
    let count = length adjacency in
    visit_children-Answers adjacency (visit (suc count) adjacency) (range_from 0 count) _
      (λ node marks m same size sound.
        visit-Answers adjacency in_range (suc count) node marks
          (rw same (omega (arith, unmarked-replicate count)))
          (omega (arith, range_from-lt 0 count node m))
          (record {
            temporary_size = rw same (length-replicate count false);
            permanent_size = size;
          })
          sound (λ a marked. absurd (get_elem?-replicate count a (rw same at marked))))
      (length-replicate count false) (λ a marked. absurd (get_elem?-replicate count a marked))

module _ {fl : Float} (E : Type 0) (stages : List (GraphNodeSpec fl)) where
  abbrev pub Decides : Option (Result (PiperError E) (Unit {0})) → Type 0
  Decides (some (ok _)) = (a : ℕ) → ¬ Downstream stages a a
  Decides (some (err e)) = (e ≡ invalid_graph cycle) × ((a : ℕ) × Downstream stages a a)
  Decides none = ⊥

  validate-Decides :
      (r : Visit)
      → Answers
          (build_adjacency stages)
          (range_from 0 (length (build_adjacency stages)))
          (record {
            temporary = replicate (length (build_adjacency stages)) false;
            permanent = replicate (length (build_adjacency stages)) false;
          })
          r
      → search_all (build_adjacency stages) ≡ r
      → Decides (validate_graph_is_acyclic stages)
  unfolding validate_graph_is_acyclic
  validate-Decides (found_cycle m) (a, r) e =
      rw (e, validate_graph_is_acyclic) (refl, (a, Reach-Downstream stages r))
  validate-Decides (clear after) s e =
      rw (e, validate_graph_is_acyclic)
        λ a d.
          let r = Downstream-Reach stages d in
          let (b, (children, listed, m), _) = first-Edge r in
          let inside = lt-length_of_get (build_adjacency stages) a listed in
          let listed_a =
            subst (λ x. Elem x (range_from 0 (length (build_adjacency stages)))) {x = 0 + a} {y = a}
              (omega arith) (mem-range_from 0 _ a inside) in
          Grounded-acyclic (s.sound a (s.visited a listed_a)) r
  validate-Decides no_answer s e = absurd s

-- The check answers on every graph: it accepts a graph exactly when no node is downstream of
-- itself, and when it rejects one there is such a node and the error is the one for cycles.
pub validate_graph_is_acyclic-Decides :
    {fl : Float} (E : Type 0) (stages : List (GraphNodeSpec fl))
    → Decides E stages (validate_graph_is_acyclic stages)
validate_graph_is_acyclic-Decides E stages =
    validate-Decides E stages _
      (search_all-Answers (build_adjacency stages) (build_adjacency-InRange stages)) refl
