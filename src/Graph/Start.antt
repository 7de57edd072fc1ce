-- ===== src/Graph/Start.antt =====
-- src/lib.rs, the first part of `Piper::start`: the checks of the graph, in their order, and the
-- nodes for the supervisor. The channels, threads and handles that `start` makes next are not here.
pub mod Checked
use Prim.Native.String.{String}
use accumulator.Common.{
  ℕ, zero, suc, Bool, true, false, not, ◌&&◌, ◌||◌, Option, none, some, List, [], ◌∷◌, leb, ◌==◌,
  if◌then◌else◌, is_some, length, any, enumerate_from,
}
use accumulator.Common.Results.{Result, ok, err, ◌>>=◌, ◌>>◌, fail_if}
use accumulator.Errors.{
  PiperError, no_nodes, invalid_graph, invalid_weighted_branch_config,
  unsupported_weighted_branch_feeder_output, missing_state_merge, endpoint_outside_graph,
  missing_link, branch_needs_two_outputs, node_needs_one_output, state_needs_one_producer,
  state_needs_managed_producer, worker_cap_zero, target_not_positive_finite, half_life_zero,
}
use accumulator.Float.{Float}
use accumulator.Policy.{resolve_thread_policy}
use accumulator.Graph.Specs.{
  DynNode, FeederLinkConfig, StateReturnConfig, SingleThreadWeightedBranchConfig, GraphNodeSpec,
  PipelineGraph, RuntimeNode,
}
use accumulator.Graph.Acyclic.{validate_graph_is_acyclic}

contains_key : List (ℕ × FeederLinkConfig) → ℕ → Bool
contains_key [] link = false
contains_key ((key, config) ∷ rest) link = key == link || contains_key rest link

module _ {fl : Float} {E : Type 0} where
  pub validate_weighted_branch_config :
      String → SingleThreadWeightedBranchConfig fl → Result (PiperError E) (Unit {0})
  validate_weighted_branch_config branch config = do
    fail_if
        (fl.le config.target_queue_seconds (fl.of_nat 0)
          || not (fl.is_finite config.target_queue_seconds))
        (invalid_weighted_branch_config branch target_not_positive_finite)
    fail_if (config.ewma_half_life == 0) (invalid_weighted_branch_config branch half_life_zero)

module _ {E : Type 0} where
  pub check_output_links : ℕ → String → List ℕ → Result (PiperError E) (Unit {0})
  check_output_links link_count name [] = ok tt
  check_output_links link_count name (output ∷ rest) =
      fail_if (leb link_count output) (invalid_graph (missing_link name))
      >> check_output_links link_count name rest

  check_feeder_outputs :
      List (ℕ × FeederLinkConfig) → String → ℕ → List ℕ → Result (PiperError E) (Unit {0})
  unfolding contains_key
  check_feeder_outputs feeder_links name index [] = ok tt
  check_feeder_outputs feeder_links name index (output ∷ rest) =
      fail_if (contains_key feeder_links output)
        (unsupported_weighted_branch_feeder_output name index)
      >> check_feeder_outputs feeder_links name (suc index) rest

module _ {fl : Float} {E : Type 0} where
  check_kind : PipelineGraph fl → GraphNodeSpec fl → Result (PiperError E) (Unit {0})
  unfolding check_feeder_outputs validate_weighted_branch_config
  check_kind graph stage = elim stage.weighted_branch_config [
    | some config ↦
        validate_weighted_branch_config stage.name config
        >> (fail_if (not (length stage.output_links == 2))
              (invalid_graph (branch_needs_two_outputs stage.name))
            >> check_feeder_outputs graph.feeder_links stage.name 0 stage.output_links)
    | none ↦
        fail_if (not (length stage.output_links == 1))
          (invalid_graph (node_needs_one_output stage.name))
  ]

  check_stage : PipelineGraph fl → GraphNodeSpec fl → Result (PiperError E) (Unit {0})
  unfolding check_output_links check_kind
  check_stage graph stage = do
    fail_if (leb graph.link_count stage.input_link) (invalid_graph (missing_link stage.name))
    check_output_links graph.link_count stage.name stage.output_links
    check_kind graph stage

  check_stages : PipelineGraph fl → List (GraphNodeSpec fl) → Result (PiperError E) (Unit {0})
  unfolding check_stage
  check_stages graph [] = ok tt
  check_stages graph (stage ∷ rest) = check_stage graph stage >> check_stages graph rest

  -- The checks before the cycle check.
  check_links : PipelineGraph fl → Result (PiperError E) (Unit {0})
  unfolding check_stages
  check_links graph = do
    fail_if (length graph.nodes == 0) no_nodes
    fail_if (leb graph.link_count graph.input_link || leb graph.link_count graph.output_link)
        (invalid_graph endpoint_outside_graph)
    check_stages graph graph.nodes

module _ {fl : Float} where
  -- The nodes with an output link to the given link, with their indices.
  producers_of : ℕ → List (ℕ × GraphNodeSpec fl) → List (ℕ × GraphNodeSpec fl)
  producers_of link [] = []
  producers_of link ((index, stage) ∷ rest) =
      let others = producers_of link rest in
      if any (λ output. output == link) stage.output_links then (index, stage) ∷ others else others

module _ {fl : Float} {E : Type 0} where
  managed_state_node : StateReturnConfig → ℕ × GraphNodeSpec fl → Result (PiperError E) (Option ℕ)
  managed_state_node config (index, stage) =
      if is_some stage.external_index || is_some stage.weighted_branch_config
      then err (invalid_graph state_needs_managed_producer)
      else (elim stage.stage [
        | none ↦ err (invalid_graph state_needs_managed_producer)
        | some stage_impl ↦
            if config.require_merge && not stage_impl.can_merge_state
            then err (missing_state_merge stage.name)
            else ok (some index)
      ])

  only_producer : StateReturnConfig → List (ℕ × GraphNodeSpec fl) → Result (PiperError E) (Option ℕ)
  unfolding managed_state_node
  only_producer config (producer ∷ []) = managed_state_node config producer
  only_producer config _ = err (invalid_graph state_needs_one_producer)

  -- `return_state_node_index`.
  return_state_node : PipelineGraph fl → Result (PiperError E) (Option ℕ)
  unfolding only_producer producers_of
  return_state_node graph = elim graph.state_return [
    | none ↦ ok none
    | some config ↦
        only_producer config (producers_of graph.output_link (enumerate_from 0 graph.nodes))
  ]

  check_worker_cap : Option ℕ → List (GraphNodeSpec fl) → Result (PiperError E) (Unit {0})
  check_worker_cap global_worker_cap stages =
      fail_if
        (not (any (λ (stage : GraphNodeSpec fl). stage.is_anchor) stages)
          && (elim global_worker_cap [ none ↦ false | some cap ↦ cap == 0 ]))
        (invalid_graph worker_cap_zero)

  runtime_stage :
      Option ℕ → Option ℕ → ℕ → GraphNodeSpec fl → Result (PiperError E) (RuntimeNode fl)
  runtime_stage parallelism return_state_node index stage = do
    thread_policy ← resolve_thread_policy parallelism stage.is_anchor stage.thread_hints
    ok (record {
      name = stage.name;
      stage = stage.stage;
      output_acquire = stage.output_acquire_builder;
      is_anchor = stage.is_anchor;
      thread_policy = thread_policy;
      input_link = stage.input_link;
      output_links = stage.output_links;
      weighted_branch_config = stage.weighted_branch_config;
      is_external = is_some stage.external_index;
      external_index = stage.external_index;
      return_state_on_exit = elim return_state_node [ none ↦ false | some node ↦ node == index ];
    })

  runtime_stages :
      Option ℕ
      → Option ℕ
      → List (ℕ × GraphNodeSpec fl)
      → Result (PiperError E) (List (RuntimeNode fl))
  unfolding runtime_stage
  runtime_stages parallelism return_state_node [] = ok []
  runtime_stages parallelism return_state_node ((index, stage) ∷ rest) = do
    node ← runtime_stage parallelism return_state_node index stage
    nodes ← runtime_stages parallelism return_state_node rest
    ok (node ∷ nodes)

  -- What follows the cycle check.
  check_rest :
      Option ℕ → Option ℕ → PipelineGraph fl → Result (PiperError E) (List (RuntimeNode fl))
  unfolding return_state_node check_worker_cap runtime_stages
  check_rest parallelism global_worker_cap graph = do
    state_node ← return_state_node graph
    check_worker_cap global_worker_cap graph.nodes
    runtime_stages parallelism state_node (enumerate_from 0 graph.nodes)

  after_cycle_check :
      Result (PiperError E) (List (RuntimeNode fl))
      → Option (Result (PiperError E) (Unit {0}))
      → Option (Result (PiperError E) (List (RuntimeNode fl)))
  after_cycle_check rest none = none
  after_cycle_check rest (some (err e)) = some (err e)
  after_cycle_check rest (some (ok _)) = some rest

  -- All checks of `start` in their order. `none` would be a panic in the cycle check.
  unfoldable pub start_nodes :
      Option ℕ
      → Option ℕ
      → PipelineGraph fl
      → Option (Result (PiperError E) (List (RuntimeNode fl)))
  unfolding check_links check_rest after_cycle_check
  start_nodes parallelism global_worker_cap graph = elim (check_links {E = E} graph) [
    | err e ↦ some (err e)
    | ok _ ↦
        after_cycle_check (check_rest parallelism global_worker_cap graph)
          (validate_graph_is_acyclic graph.nodes)
  ]
