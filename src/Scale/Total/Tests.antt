-- ===== src/Scale/Total/Tests.antt =====
-- The theorem about accepted graphs, applied to a graph of one node.
use accumulator.Common.{ℕ, ◌≡◌, refl, false, none, some, List, [], ◌∷◌}
use accumulator.Common.Results.{ok}
use accumulator.Common.Total.{Total}
use accumulator.Float.Milli.{milli}
use accumulator.Policy.{implicit_support, resolve_thread_policy}
use accumulator.Graph.{PipelineGraph, RuntimeNode}
use accumulator.Graph.Acyclic.{validate_graph_is_acyclic}
use accumulator.Graph.Start.{start_nodes}
use accumulator.Trend.{LinkControl, stable, growing}
use accumulator.Control.{NodeControl}
use accumulator.Scale.Choose.{choose_scale_operation}
use accumulator.Scale.Total.Started.{choose_scale_operation-started}
use accumulator.Samples.{reader, sample_node, sample_control, sample_link_control}

abbrev one_stage : PipelineGraph milli
one_stage = record {
  input_link = 0;
  output_link = 1;
  link_count = 2;
  nodes =
      record {
        name = "node";
        stage = some reader.stage;
        output_acquire_builder = false;
        is_anchor = false;
        thread_hints = reader.thread_hints;
        input_link = 0;
        output_links = 1 ∷ [];
        weighted_branch_config = none;
        external_index = none;
      }
      ∷ [];
  external_count = 0;
  state_return = none;
  feeder_links = [];
}

abbrev one_node : List (RuntimeNode milli)
one_node = sample_node false implicit_support 0 1 ∷ []

one_accepted : start_nodes {E = ℕ} (some 4) none one_stage ≡ some (ok one_node)
unfolding start_nodes validate_graph_is_acyclic resolve_thread_policy
one_accepted = refl

abbrev one_control : List (NodeControl milli)
one_control = sample_control false implicit_support 1 ∷ []

abbrev two_links : List (LinkControl milli)
two_links = sample_link_control 9 growing ∷ sample_link_control 1 stable ∷ []

choose_scale_operation-started_example :
    Total (choose_scale_operation two_links ((0 ∷ []) ∷ []) one_node 1 0 one_control 4)
choose_scale_operation-started_example =
    choose_scale_operation-started ℕ (some 4) none one_stage one_node two_links ((0 ∷ []) ∷ [])
      one_control 0 4 one_accepted refl refl refl
