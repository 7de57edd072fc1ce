-- ===== src/Graph/Acyclic.antt =====
-- src/lib.rs, `validate_graph_is_acyclic`: a depth-first search with temporary and permanent marks.
-- `visit` recurses along the graph, so it takes fuel; one unit per node and one more are enough.
mod Tables
pub mod Search
pub mod Correct
use accumulator.Common.{
  ℕ, zero, suc, Bool, true, false, Option, none, some, List, [], ◌∷◌, map, ◌==◌, if◌then◌else◌,
  length, get_elem?, set, replicate, enumerate_from, any, range_from,
}
use accumulator.Common.Results.{Result, ok, err}
use accumulator.Errors.{PiperError, invalid_graph, cycle}
use accumulator.Float.{Float}
use accumulator.Graph.Specs.{GraphNodeSpec}

pub record Marks : Type 0 where
  pub temporary : List Bool
  pub permanent : List Bool

-- `no_answer` is a panic (an index out of range) or the end of the fuel.
pub data Visit : Type 0 where
  found_cycle : Marks → Visit
  clear : Marks → Visit
  no_answer : Visit

-- The loop over the children: it stops at the first cycle.
pub visit_children : (ℕ → Marks → Visit) → List ℕ → Marks → Visit
visit_children visit_child [] marks = clear marks
visit_children visit_child (child ∷ rest) marks = elim (visit_child child marks) [
  | found_cycle marks' ↦ found_cycle marks'
  | clear marks' ↦ visit_children visit_child rest marks'
  | no_answer ↦ no_answer
]

-- The end of a visit whose children showed no cycle.
pub finish_visit : ℕ → Visit → Visit
finish_visit node (clear marks) = clear (record {
  temporary = set marks.temporary node false;
  permanent = set marks.permanent node true;
})
finish_visit node other = other

pub enter : (ℕ → Marks → Visit) → List (List ℕ) → ℕ → Marks → Visit
unfolding visit_children finish_visit
enter visit_child adjacency node marks = elim (get_elem? adjacency node) [
  | none ↦ no_answer
  | some children ↦ finish_visit node (
      visit_children visit_child children
        (record marks { temporary = set marks.temporary node true }))
]

pub visit : ℕ → List (List ℕ) → ℕ → Marks → Visit
unfolding enter
visit zero adjacency node marks = no_answer
visit (suc fuel) adjacency node marks = elim (get_elem? marks.permanent node) [
  | none ↦ no_answer
  | some true ↦ clear marks
  | some false ↦ elim (get_elem? marks.temporary node) [
    | none ↦ no_answer
    | some true ↦ found_cycle marks
    | some false ↦ enter (visit fuel adjacency) adjacency node marks
  ]
]

-- The nodes whose input link is an output link of the producer.
pub consumers_of : {fl : Float} → List ℕ → List (ℕ × GraphNodeSpec fl) → List ℕ
consumers_of outputs [] = []
consumers_of outputs ((index, consumer) ∷ rest) =
    let others = consumers_of outputs rest in
    if any (λ output. output == consumer.input_link) outputs then index ∷ others else others

pub build_adjacency : {fl : Float} → List (GraphNodeSpec fl) → List (List ℕ)
unfolding consumers_of
build_adjacency stages =
    map (λ producer. consumers_of producer.output_links (enumerate_from 0 stages)) stages

-- The main loop over the nodes: the loop over children, started at every node.
pub search_all : List (List ℕ) → Visit
unfolding visit
search_all adjacency =
    let count = length adjacency in
    let unmarked = replicate count false in
    visit_children (visit (suc count) adjacency) (range_from 0 count)
      (record { temporary = unmarked; permanent = unmarked })

-- `none` would be a panic or the end of the fuel.
unfoldable pub validate_graph_is_acyclic :
    {fl : Float} {E : Type 0} → List (GraphNodeSpec fl) → Option (Result (PiperError E) (Unit {0}))
unfolding build_adjacency search_all
validate_graph_is_acyclic stages = elim (search_all (build_adjacency stages)) [
  | found_cycle marks ↦ some (err (invalid_graph cycle))
  | clear marks ↦ some (ok tt)
  | no_answer ↦ none
]
