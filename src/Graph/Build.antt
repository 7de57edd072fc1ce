-- ===== src/Graph/Build.antt =====
-- src/lib.rs, `PipelineGraphBuilder`: links are numbered in the order in which they are made, and
-- link 0 is the pipeline's input. A `GraphLink` and an `ExternalNodeToken` are their indices. What
-- `into_node_spec` gives of a stage is the record `NodeSpec`.
pub mod Issued
use Prim.Native.String.{String}
use accumulator.Common.{
  ℕ, ◌+◌, Bool, true, false, Option, none, some, List, [], ◌∷◌, ◌++◌, max, ◌==◌, if◌then◌else◌,
}
use accumulator.Float.{Float}
use accumulator.Policy.{ThreadPolicyHints, no_hints}
use accumulator.Graph.Specs.{
  DynNode, FeederLinkConfig, StateReturnConfig, SingleThreadWeightedBranchConfig, GraphNodeSpec,
  PipelineGraph,
}

module _ (fl : Float) where
  pub record NodeSpec : Type 0 where
    pub name : String
    pub stage : DynNode
    pub output_acquire_builder : Bool
    pub is_anchor : Bool
    pub thread_hints : ThreadPolicyHints fl

  pub record PipelineGraphBuilder : Type 0 where
    pub link_count : ℕ
    pub nodes : List (GraphNodeSpec fl)
    pub external_count : ℕ
    pub feeder_links : List (ℕ × FeederLinkConfig)

  unfoldable pub new : PipelineGraphBuilder
  new = record { link_count = 1; nodes = []; external_count = 0; feeder_links = [] }

-- `HashMap::insert`.
pub insert_feeder : ℕ → FeederLinkConfig → List (ℕ × FeederLinkConfig) → List (ℕ × FeederLinkConfig)
insert_feeder link config [] = (link, config) ∷ []
insert_feeder link config ((key, old) ∷ rest) =
    if key == link then (link, config) ∷ rest else (key, old) ∷ insert_feeder link config rest

module _ {fl : Float} where
  pub input : PipelineGraphBuilder fl → ℕ
  input builder = 0

  -- A call returns its result and the builder after it.
  pub link : PipelineGraphBuilder fl → ℕ × PipelineGraphBuilder fl
  link builder = (builder.link_count, record builder { link_count = builder.link_count + 1 })

  push_node : PipelineGraphBuilder fl → GraphNodeSpec fl → PipelineGraphBuilder fl
  push_node builder node = record builder { nodes = builder.nodes ++ node ∷ [] }

  pub add_node_to : PipelineGraphBuilder fl → ℕ → NodeSpec fl → ℕ → PipelineGraphBuilder fl
  unfolding push_node
  add_node_to builder input stage output = push_node builder (record {
    name = stage.name;
    stage = some stage.stage;
    output_acquire_builder = stage.output_acquire_builder;
    is_anchor = stage.is_anchor;
    thread_hints = stage.thread_hints;
    input_link = input;
    output_links = output ∷ [];
    weighted_branch_config = none;
    external_index = none;
  })

  pub add_node : PipelineGraphBuilder fl → ℕ → NodeSpec fl → ℕ × PipelineGraphBuilder fl
  unfolding link add_node_to
  add_node builder input stage =
      let (output, builder') = link builder in (output, add_node_to builder' input stage output)

  pub add_single_thread_weighted_branch_to :
      PipelineGraphBuilder fl
      → ℕ
      → String
      → ℕ
      → ℕ
      → SingleThreadWeightedBranchConfig fl
      → PipelineGraphBuilder fl
  unfolding push_node
  add_single_thread_weighted_branch_to builder input name left right config =
      push_node builder (record {
        name = name;
        stage = none;
        output_acquire_builder = false;
        is_anchor = false;
        thread_hints = no_hints;
        input_link = input;
        output_links = left ∷ right ∷ [];
        weighted_branch_config = some config;
        external_index = none;
      })

  -- The result is the pair of new links.
  pub add_single_thread_weighted_branch :
      PipelineGraphBuilder fl
      → ℕ
      → String
      → SingleThreadWeightedBranchConfig fl
      → (ℕ × ℕ) × PipelineGraphBuilder fl
  unfolding link add_single_thread_weighted_branch_to
  add_single_thread_weighted_branch builder input name config =
      let (left, builder₁) = link builder in
      let (right, builder₂) = link builder₁ in
      ((left, right), add_single_thread_weighted_branch_to builder₂ input name left right config)

  push_external : PipelineGraphBuilder fl → ℕ → String → ℕ → Bool → ℕ × PipelineGraphBuilder fl
  unfolding push_node
  push_external builder input name output reusable = (
    builder.external_count,
    push_node (record builder { external_count = builder.external_count + 1 })
        (record {
          name = name;
          stage = none;
          output_acquire_builder = reusable;
          is_anchor = false;
          thread_hints = no_hints;
          input_link = input;
          output_links = output ∷ [];
          weighted_branch_config = none;
          external_index = some builder.external_count;
        }),
  )

  -- The result is the token of the external node.
  pub add_external_node_to : PipelineGraphBuilder fl → ℕ → String → ℕ → ℕ × PipelineGraphBuilder fl
  unfolding push_external
  add_external_node_to builder input name output = push_external builder input name output false

  pub add_external_node_to_with_reusable_output :
      PipelineGraphBuilder fl → ℕ → String → ℕ → ℕ × PipelineGraphBuilder fl
  unfolding push_external
  add_external_node_to_with_reusable_output builder input name output =
      push_external builder input name output true

  -- The result is the new link and the token.
  pub add_external_node : PipelineGraphBuilder fl → ℕ → String → (ℕ × ℕ) × PipelineGraphBuilder fl
  unfolding link add_external_node_to
  add_external_node builder input name =
      let (output, builder₁) = link builder in
      let (token, builder₂) = add_external_node_to builder₁ input name output in
      ((output, token), builder₂)

  pub add_external_node_with_reusable_output :
      PipelineGraphBuilder fl → ℕ → String → (ℕ × ℕ) × PipelineGraphBuilder fl
  unfolding link add_external_node_to_with_reusable_output
  add_external_node_with_reusable_output builder input name =
      let (output, builder₁) = link builder in
      let (token, builder₂) =
        add_external_node_to_with_reusable_output builder₁ input name output in
      ((output, token), builder₂)

  pub feeder_link : PipelineGraphBuilder fl → ℕ → FeederLinkConfig → PipelineGraphBuilder fl
  unfolding insert_feeder
  feeder_link builder target config = record builder {
    feeder_links = insert_feeder target config builder.feeder_links;
  }

  pub finish : PipelineGraphBuilder fl → ℕ → PipelineGraph fl
  finish builder output = record {
    input_link = 0;
    output_link = output;
    link_count = max builder.link_count (output + 1);
    nodes = builder.nodes;
    external_count = builder.external_count;
    state_return = none;
    feeder_links = builder.feeder_links;
  }

  pub finish_with_state : PipelineGraphBuilder fl → ℕ → PipelineGraph fl
  unfolding finish
  finish_with_state builder output =
      let graph = finish builder output in
      record graph { state_return = some (record { require_merge = false }) }

  pub finish_with_merged_state : PipelineGraphBuilder fl → ℕ → PipelineGraph fl
  unfolding finish
  finish_with_merged_state builder output =
      let graph = finish builder output in
      record graph { state_return = some (record { require_merge = true }) }
