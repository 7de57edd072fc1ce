-- ===== src/Scale/Total/Started.antt =====
-- src/lib.rs: the choice of an operation for a graph that `Piper::start` has accepted.
use accumulator.Common.{
  ℕ, ◌≤◌, ◌≡◌, sym, subst, Option, none, some, List, [], ◌∷◌, arith, All, length,
}
use accumulator.Common.Results.{ok}
use accumulator.Common.Total.{Total}
use accumulator.Float.{Float}
use accumulator.Graph.{PipelineGraph, RuntimeNode, SingleThreadWeightedBranchConfig}
use accumulator.Graph.Start.{start_nodes}
use accumulator.Graph.Start.Checked.{
  HasOutputs, IsReady, Established, Establishes, start_nodes-Establishes,
}
use accumulator.Trend.{LinkControl}
use accumulator.Control.{NodeControl}
use accumulator.Scale.Choose.{choose_scale_operation}
use accumulator.Scale.Total.{IsWired}
use accumulator.Scale.Total.Whole.{choose_scale_operation-Total}

has_output :
    {fl : Float} (config : Option (SingleThreadWeightedBranchConfig fl)) (outputs : List ℕ)
    → HasOutputs config outputs
    → 1 ≤ length outputs
has_output none outputs h = omega (arith, h)
has_output (some config) outputs h = omega (arith, h)

ready-IsWired :
    {fl : Float} (count : ℕ) (nodes : List (RuntimeNode fl))
    → All (IsReady count) nodes
    → All (IsWired count) nodes
ready-IsWired count [] r = tt
ready-IsWired count (node ∷ nodes) (r, rs) = (
  (r.links, has_output node.weighted_branch_config node.output_links r.outputs),
  ready-IsWired count nodes rs,
)

-- On a graph that `start` has accepted the choice never panics, as long as the supervisor keeps a
-- control for each link and each node, and a list of workers for each node.
pub choose_scale_operation-started :
    {fl : Float} (E : Type 0) (parallelism cap : Option ℕ) (graph : PipelineGraph fl)
    (nodes : List (RuntimeNode fl)) (links : List (LinkControl fl)) (active : List (List ℕ))
    (controls : List (NodeControl fl)) (now worker_cap : ℕ)
    → start_nodes {E = E} parallelism cap graph ≡ some (ok nodes)
    → length links ≡ graph.link_count
    → length active ≡ length nodes
    → length controls ≡ length nodes
    → Total (choose_scale_operation links active nodes graph.output_link now controls worker_cap)
choose_scale_operation-started E parallelism cap graph nodes links active controls now worker_cap
      accepted l a c =
    let established : Established E parallelism cap graph nodes =
      subst (Establishes E parallelism cap graph) accepted
        (start_nodes-Establishes E parallelism cap graph) in
    choose_scale_operation-Total links active nodes graph.output_link
      (omega (arith, established.output_exists, l)) a
      (subst (λ count. All (IsWired count) nodes) (sym l)
        (ready-IsWired graph.link_count nodes established.ready))
      now worker_cap controls c
