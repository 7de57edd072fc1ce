-- ===== src/Graph/Tests.antt =====
-- The theorems about graphs, applied to a graph of two nodes in a row.
use accumulator.Common.{ℕ, ◌<◌, ◌≡◌, none, some, List, [], ◌∷◌, range_from, arith}
use accumulator.Float.Milli.{milli}
use accumulator.Graph.{PipelineGraph}
use accumulator.Graph.Acyclic.{validate_graph_is_acyclic}
use accumulator.Graph.Acyclic.Correct.{Decides, validate_graph_is_acyclic-Decides}
use accumulator.Graph.Build.{new, finish}
use accumulator.Graph.Build.Issued.{
  Call, node_after, external_after, call_on, calls_on, AllLinked, tokens_of, finish-AllLinked,
}
use accumulator.Graph.Start.{start_nodes}
use accumulator.Graph.Start.Checked.{Establishes, start_nodes-Establishes}
use accumulator.Samples.{reader}

-- A node after the input, and an external node after it.
abbrev two_calls : List (Call milli)
two_calls = node_after 0 reader ∷ external_after 1 "remote" ∷ []

abbrev two_stages : PipelineGraph milli
two_stages = finish (calls_on (new milli) two_calls) 2

finish-AllLinked_example :
    AllLinked two_stages.link_count two_stages.nodes
    × (two_stages.input_link < two_stages.link_count)
    × (two_stages.output_link < two_stages.link_count)
    × (tokens_of two_stages.nodes ≡ range_from 0 two_stages.external_count)
unfolding new calls_on call_on
finish-AllLinked_example = finish-AllLinked milli two_calls 2 (omega arith, (omega arith, tt))

validate_graph_is_acyclic-Decides_example :
    Decides ℕ two_stages.nodes (validate_graph_is_acyclic two_stages.nodes)
validate_graph_is_acyclic-Decides_example = validate_graph_is_acyclic-Decides ℕ two_stages.nodes

start_nodes-Establishes_example :
    Establishes ℕ (some 4) none two_stages (start_nodes (some 4) none two_stages)
start_nodes-Establishes_example = start_nodes-Establishes ℕ (some 4) none two_stages
