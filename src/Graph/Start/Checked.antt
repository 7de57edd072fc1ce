-- ===== src/Graph/Start/Checked.antt =====
-- src/lib.rs, `Piper::start`: the checks, and the nodes that they pass on to the supervisor.
use Prim.Native.String.{String}
use accumulator.Common.{
  ℕ, suc, ◌<◌, ◌≡◌, ◌≢◌, refl, subst, Option, none, some, List, [], ◌∷◌, arith, All, length,
  enumerate_from,
}
use accumulator.Common.Results.{Result, ok, err, >>=-eq-ok}
use accumulator.Errors.{PiperError}
use accumulator.Float.{Float}
use accumulator.Policy.{ResolvedThreadPolicy, resolve_thread_policy}
use accumulator.Policy.Bounds.{IsStartable, ResolvesTo, resolve_thread_policy-ResolvesTo}
use accumulator.Graph.Specs.{
  SingleThreadWeightedBranchConfig, GraphNodeSpec, PipelineGraph, RuntimeNode, LinksBelow,
}
use accumulator.Graph.Acyclic.Correct.{Downstream, Decides, validate_graph_is_acyclic-Decides}
use accumulator.Graph.Start.{
  check_output_links, check_kind, check_stage, check_stages, check_links, return_state_node,
  check_worker_cap, runtime_stage, runtime_stages, check_rest, after_cycle_check, start_nodes,
}

-- A weighted branch has two output links, any other node one.
abbrev pub HasOutputs :
    {fl : Float} → Option (SingleThreadWeightedBranchConfig fl) → List ℕ → Type 0
HasOutputs (some config) links = length links ≡ 2
HasOutputs none links = length links ≡ 1

module _ {fl : Float} where
  abbrev pub IsChecked : ℕ → GraphNodeSpec fl → Type 0
  IsChecked count stage =
      LinksBelow count stage.input_link stage.output_links
      × HasOutputs stage.weighted_branch_config stage.output_links

  -- A node that the supervisor can run.
  pub record IsReady (count : ℕ) (node : RuntimeNode fl) : Type 0 where
    pub links : LinksBelow count node.input_link node.output_links
    pub outputs : HasOutputs node.weighted_branch_config node.output_links
    pub policy : IsStartable node.thread_policy

module _ (E : Type 0) where
  check_output_links-All :
      (count : ℕ) (name : String) (links : List ℕ)
      → check_output_links {E = E} count name links ≡ ok tt
      → All (λ link. link < count) links
  unfolding check_output_links
  check_output_links-All count name [] h = tt
  check_output_links-All count name (link ∷ links) h =
      ground (arith, check_output_links-All count name links)

module _ {fl : Float} (E : Type 0) (graph : PipelineGraph fl) where
  check_kind-HasOutputs :
      (stage : GraphNodeSpec fl)
      → check_kind {E = E} graph stage ≡ ok tt
      → HasOutputs stage.weighted_branch_config stage.output_links
  unfolding check_kind
  check_kind-HasOutputs stage h = ground arith

  check_stage-IsChecked :
      (stage : GraphNodeSpec fl)
      → check_stage {E = E} graph stage ≡ ok tt
      → IsChecked graph.link_count stage
  unfolding check_stage
  check_stage-IsChecked stage h = ground (
    arith,
    check_output_links-All E graph.link_count stage.name stage.output_links,
    check_kind-HasOutputs stage,
  )

  check_stages-IsChecked :
      (stages : List (GraphNodeSpec fl))
      → check_stages {E = E} graph stages ≡ ok tt
      → All (IsChecked graph.link_count) stages
  unfolding check_stages
  check_stages-IsChecked [] h = tt
  check_stages-IsChecked (stage ∷ stages) h =
      let (_, e, d) = >>=-eq-ok (check_stage {E = E} graph stage) _ h in
      (check_stage-IsChecked stage e, check_stages-IsChecked stages d)

-- The runtime nodes have the links of the stages, in the same order.
abbrev pub SameWiring : {fl : Float} → List (GraphNodeSpec fl) → List (RuntimeNode fl) → Type 0
SameWiring [] [] = Unit {0}
SameWiring (stage ∷ stages) (node ∷ nodes) =
    (node.input_link ≡ stage.input_link)
    × (node.output_links ≡ stage.output_links)
    × SameWiring stages nodes
SameWiring _ _ = ⊥

module _ {fl : Float} (E : Type 0) (parallelism : Option ℕ) where
  runtime_stage-IsReady :
      (count : ℕ) (state_node : Option ℕ) (index : ℕ) (stage : GraphNodeSpec fl)
      (node : RuntimeNode fl)
      → IsChecked count stage
      → runtime_stage {E = E} parallelism state_node index stage ≡ ok node
      → IsReady count node
        × (node.input_link ≡ stage.input_link)
        × (node.output_links ≡ stage.output_links)
  unfolding runtime_stage
  runtime_stage-IsReady count state_node index stage node c h =
      go (resolve_thread_policy {E = E} parallelism stage.is_anchor stage.thread_hints)
        (resolve_thread_policy-ResolvesTo E parallelism stage.is_anchor stage.thread_hints) refl
    where
      go :
          (r : Result (PiperError E) (ResolvedThreadPolicy fl))
          → ResolvesTo stage.thread_hints.fixed_threads r
          → resolve_thread_policy {E = E} parallelism stage.is_anchor stage.thread_hints ≡ r
          → IsReady count node
            × (node.input_link ≡ stage.input_link)
            × (node.output_links ≡ stage.output_links)
      go (ok policy) s e = ground (arith, s.1)
      go (err e') s e = ground arith

  runtime_stages-IsReady :
      (count : ℕ) (state_node : Option ℕ) (index : ℕ) (stages : List (GraphNodeSpec fl))
      (nodes : List (RuntimeNode fl))
      → All (IsChecked count) stages
      → runtime_stages {E = E} parallelism state_node (enumerate_from index stages) ≡ ok nodes
      → All (IsReady count) nodes × SameWiring stages nodes
  unfolding runtime_stages
  runtime_stages-IsReady count state_node index [] nodes c h = ground arith
  runtime_stages-IsReady count state_node index (stage ∷ stages) nodes c h =
      let (node, e, d) = >>=-eq-ok (runtime_stage {E = E} parallelism state_node index stage) _ h in
      let (rest, e', d') =
        >>=-eq-ok
          (runtime_stages {E = E} parallelism state_node (enumerate_from (suc index) stages)) _ d in
      let here = runtime_stage-IsReady count state_node index stage node c.0 e in
      let there = runtime_stages-IsReady count state_node (suc index) stages rest c.1 e' in
      let same : node ∷ rest ≡ nodes = cc in
      subst (λ ns. All (IsReady count) ns × SameWiring (stage ∷ stages) ns) same
        ((here.0, there.0), (here.1, here.2, there.1))

module _ {fl : Float} (E : Type 0) (parallelism cap : Option ℕ) (graph : PipelineGraph fl) where
  -- What `start` has established when it hands the nodes on.
  pub record Established (nodes : List (RuntimeNode fl)) : Type 0 where
    pub nonempty : graph.nodes ≢ []
    pub input_exists : graph.input_link < graph.link_count
    pub output_exists : graph.output_link < graph.link_count
    pub ready : All (IsReady graph.link_count) nodes
    pub wired : SameWiring graph.nodes nodes
    pub acyclic : (a : ℕ) → ¬ Downstream graph.nodes a a

  abbrev pub Establishes : Option (Result (PiperError E) (List (RuntimeNode fl))) → Type 0
  Establishes (some (ok nodes)) = Established nodes
  Establishes (some (err e)) = Unit {0}
  Establishes none = ⊥

  check_links-IsChecked :
      check_links {E = E} graph ≡ ok tt
      → (graph.nodes ≢ [])
        × (graph.input_link < graph.link_count)
        × (graph.output_link < graph.link_count)
        × All (IsChecked graph.link_count) graph.nodes
  unfolding check_links
  check_links-IsChecked h = ground (arith, check_stages-IsChecked E graph graph.nodes)

  check_rest-IsReady :
      (nodes : List (RuntimeNode fl))
      → All (IsChecked graph.link_count) graph.nodes
      → check_rest {E = E} parallelism cap graph ≡ ok nodes
      → All (IsReady graph.link_count) nodes × SameWiring graph.nodes nodes
  unfolding check_rest
  check_rest-IsReady nodes c h =
      let (state_node, _, d) = >>=-eq-ok (return_state_node {E = E} graph) _ h in
      let (_, _, d') = >>=-eq-ok (check_worker_cap {E = E} cap graph.nodes) _ d in
      runtime_stages-IsReady E parallelism graph.link_count state_node 0 graph.nodes nodes c d'

  after_cycle_check-Establishes :
      (rest : Result (PiperError E) (List (RuntimeNode fl)))
      (checked : Option (Result (PiperError E) (Unit {0})))
      → check_links {E = E} graph ≡ ok tt
      → check_rest {E = E} parallelism cap graph ≡ rest
      → Decides E graph.nodes checked
      → Establishes (after_cycle_check rest checked)
  unfolding after_cycle_check
  after_cycle_check-Establishes rest none h e d = d
  after_cycle_check-Establishes rest (some (err e')) h e d = tt
  after_cycle_check-Establishes (err e') (some (ok _)) h e d = tt
  after_cycle_check-Establishes (ok nodes) (some (ok _)) h e d =
      let (nonempty, inputs, outputs, checked) = check_links-IsChecked h in
      let (ready, wired) = check_rest-IsReady nodes checked e in
      record {
        nonempty = nonempty;
        input_exists = inputs;
        output_exists = outputs;
        ready = ready;
        wired = wired;
        acyclic = d;
      }

  -- The checks of `start` always come to an answer. When they accept a graph it has a node and no
  -- cycle, both endpoints and all links of its nodes exist, a weighted branch has two outputs and
  -- any other node one, every node's thread policy starts a worker, and the nodes handed on are
  -- wired as the stages of the graph.
  pub start_nodes-Establishes : Establishes (start_nodes {E = E} parallelism cap graph)
  unfolding start_nodes
  start_nodes-Establishes = go (check_links {E = E} graph) refl
    where
      go :
          (r : Result (PiperError E) (Unit {0}))
          → check_links {E = E} graph ≡ r
          → Establishes (start_nodes {E = E} parallelism cap graph)
      go (err e) h = rw (h, start_nodes) tt
      go (ok _) h =
          rw (h, start_nodes)
            (after_cycle_check-Establishes _ _ h refl
              (validate_graph_is_acyclic-Decides E graph.nodes))
