-- ===== src/Graph/Build/Issued.antt =====
-- src/lib.rs, `PipelineGraphBuilder`: its calls as a list, for a caller that uses only links made by
-- the same builder.
use Prim.Native.String.{String}
use accumulator.Common.{
  ℕ, zero, suc, ◌+◌, ◌≤◌, ◌<◌, ◌≡◌, refl, sym, ◌∙◌, ap, none, some, List, [], ◌∷◌, ◌++◌, arith, All,
  range_from,
}
use native.Mathlib.Numerals.{add-one}
use accumulator.Float.{Float}
use accumulator.Graph.Specs.{
  FeederLinkConfig, SingleThreadWeightedBranchConfig, GraphNodeSpec, LinksBelow,
}
use accumulator.Graph.Build.{
  NodeSpec, PipelineGraphBuilder, new, link, push_node, push_external, add_node_to, add_node,
  add_single_thread_weighted_branch_to, add_single_thread_weighted_branch, add_external_node_to,
  add_external_node_to_with_reusable_output, add_external_node,
  add_external_node_with_reusable_output, feeder_link, finish,
}

Below-mono : {m n : ℕ} (links : List ℕ) → m ≤ n → All (λ l. l < m) links → All (λ l. l < n) links
Below-mono [] h a = tt
Below-mono (l ∷ links) h a = (omega arith, Below-mono links h a.1)

-- The calls that change a builder.
pub data Call (fl : Float) : Type 0 where
  make_link : Call fl
  node_to : ℕ → NodeSpec fl → ℕ → Call fl
  node_after : ℕ → NodeSpec fl → Call fl
  branch_to : ℕ → String → ℕ → ℕ → SingleThreadWeightedBranchConfig fl → Call fl
  branch_after : ℕ → String → SingleThreadWeightedBranchConfig fl → Call fl
  external_to : ℕ → String → ℕ → Call fl
  external_after : ℕ → String → Call fl
  reusable_external_to : ℕ → String → ℕ → Call fl
  reusable_external_after : ℕ → String → Call fl
  feeder_on : ℕ → FeederLinkConfig → Call fl

module _ {fl : Float} where
  unfoldable pub call_on : PipelineGraphBuilder fl → Call fl → PipelineGraphBuilder fl
  unfolding link add_node_to add_node add_single_thread_weighted_branch_to
      add_single_thread_weighted_branch add_external_node_to
      add_external_node_to_with_reusable_output add_external_node
      add_external_node_with_reusable_output feeder_link
  call_on b make_link = (link b).1
  call_on b (node_to input stage output) = add_node_to b input stage output
  call_on b (node_after input stage) = (add_node b input stage).1
  call_on b (branch_to input name left right config) =
      add_single_thread_weighted_branch_to b input name left right config
  call_on b (branch_after input name config) =
      (add_single_thread_weighted_branch b input name config).1
  call_on b (external_to input name output) = (add_external_node_to b input name output).1
  call_on b (external_after input name) = (add_external_node b input name).1
  call_on b (reusable_external_to input name output) =
      (add_external_node_to_with_reusable_output b input name output).1
  call_on b (reusable_external_after input name) =
      (add_external_node_with_reusable_output b input name).1
  call_on b (feeder_on target config) = feeder_link b target config

  unfoldable pub calls_on : PipelineGraphBuilder fl → List (Call fl) → PipelineGraphBuilder fl
  unfolding call_on
  calls_on b [] = b
  calls_on b (c ∷ cs) = calls_on (call_on b c) cs

  -- The links that a call is given, all below `count`.
  abbrev pub UsesBelow : ℕ → Call fl → Type 0
  UsesBelow count make_link = Unit {0}
  UsesBelow count (node_to input stage output) = (input < count) × (output < count)
  UsesBelow count (node_after input stage) = input < count
  UsesBelow count (branch_to input name left right config) =
      (input < count) × (left < count) × (right < count)
  UsesBelow count (branch_after input name config) = input < count
  UsesBelow count (external_to input name output) = (input < count) × (output < count)
  UsesBelow count (external_after input name) = input < count
  UsesBelow count (reusable_external_to input name output) = (input < count) × (output < count)
  UsesBelow count (reusable_external_after input name) = input < count
  UsesBelow count (feeder_on target config) = target < count

  -- Every call uses only links that the builder has issued before it.
  abbrev pub UsesIssued : PipelineGraphBuilder fl → List (Call fl) → Type 0
  UsesIssued b [] = Unit {0}
  UsesIssued b (c ∷ cs) = UsesBelow b.link_count c × UsesIssued (call_on b c) cs

  -- The tokens of the external nodes, in the order of the nodes.
  abbrev pub tokens_of : List (GraphNodeSpec fl) → List ℕ
  tokens_of [] = []
  tokens_of (stage ∷ rest) = elim stage.external_index [
    | none ↦ tokens_of rest
    | some token ↦ token ∷ tokens_of rest
  ]

  abbrev pub AllLinked : ℕ → List (GraphNodeSpec fl) → Type 0
  AllLinked count = All (λ stage. LinksBelow count stage.input_link stage.output_links)

  pub record IsIssued (b : PipelineGraphBuilder fl) : Type 0 where
    pub has_input : 0 < b.link_count
    pub linked : AllLinked b.link_count b.nodes
    pub numbered : tokens_of b.nodes ≡ range_from 0 b.external_count

  AllLinked-push :
      {m n : ℕ} (nodes : List (GraphNodeSpec fl)) (stage : GraphNodeSpec fl)
      → m ≤ n
      → AllLinked m nodes
      → LinksBelow n stage.input_link stage.output_links
      → AllLinked n (nodes ++ stage ∷ [])
  AllLinked-push [] stage h a s = (s, tt)
  AllLinked-push (node ∷ nodes) stage h a s =
      ((omega arith, Below-mono node.output_links h a.0.1), AllLinked-push nodes stage h a.1 s)

  AllLinked-mono :
      {m n : ℕ} (nodes : List (GraphNodeSpec fl)) → m ≤ n → AllLinked m nodes → AllLinked n nodes
  AllLinked-mono [] h a = tt
  AllLinked-mono (node ∷ nodes) h a =
      ((omega arith, Below-mono node.output_links h a.0.1), AllLinked-mono nodes h a.1)

  tokens_of-push_none :
      (nodes : List (GraphNodeSpec fl)) (stage : GraphNodeSpec fl)
      → stage.external_index ≡ none
      → tokens_of (nodes ++ stage ∷ []) ≡ tokens_of nodes
  tokens_of-push_none [] stage e = ground arith
  tokens_of-push_none (node ∷ nodes) stage e = ground (arith, tokens_of-push_none nodes stage e)

  tokens_of-push_some :
      (nodes : List (GraphNodeSpec fl)) (stage : GraphNodeSpec fl) (token : ℕ)
      → stage.external_index ≡ some token
      → tokens_of (nodes ++ stage ∷ []) ≡ tokens_of nodes ++ token ∷ []
  tokens_of-push_some [] stage token e = ground arith
  tokens_of-push_some (node ∷ nodes) stage token e =
      ground (arith, tokens_of-push_some nodes stage token e)

range_from-suc : (i n k : ℕ) → k ≡ i + n → range_from i (suc n) ≡ range_from i n ++ k ∷ []
range_from-suc i zero k e = ap (λ (x : ℕ). x ∷ []) (omega arith)
range_from-suc i (suc n) k e = ap (◌∷◌ i) (range_from-suc (suc i) n k (omega arith))

module _ {fl : Float} (b : PipelineGraphBuilder fl) (count : ℕ) (stage : GraphNodeSpec fl)
    (v : IsIssued b) (more : b.link_count ≤ count)
    (below : LinksBelow count stage.input_link stage.output_links) where
  pushed :
      stage.external_index ≡ none
      → IsIssued (record b { link_count = count; nodes = b.nodes ++ stage ∷ [] })
  pushed e = record {
    has_input = omega (arith, v.has_input);
    linked = AllLinked-push b.nodes stage more v.linked below;
    numbered = tokens_of-push_none b.nodes stage e ∙ v.numbered;
  }

  pushed_external :
      stage.external_index ≡ some b.external_count
      → IsIssued (record b {
        link_count = count;
        nodes = b.nodes ++ stage ∷ [];
        external_count = b.external_count + 1;
      })
  pushed_external e = record {
    has_input = omega (arith, v.has_input);
    linked = AllLinked-push b.nodes stage more v.linked below;
    numbered =
        rw (tokens_of-push_some b.nodes stage b.external_count e, v.numbered, add-one)
          (sym (range_from-suc 0 b.external_count b.external_count (omega arith)));
  }

module _ {fl : Float} where
  call_on-IsIssued :
      (b : PipelineGraphBuilder fl) (c : Call fl)
      → IsIssued b
      → UsesBelow b.link_count c
      → IsIssued (call_on b c)
  unfolding call_on push_node push_external
  call_on-IsIssued b make_link v u = record {
    has_input = omega arith;
    linked = AllLinked-mono b.nodes (omega arith) v.linked;
    numbered = v.numbered;
  }
  call_on-IsIssued b (node_to input stage output) v u =
      pushed b b.link_count _ v (omega arith) (omega arith) refl
  call_on-IsIssued b (node_after input stage) v u =
      pushed b (b.link_count + 1) _ v (omega arith) (omega arith) refl
  call_on-IsIssued b (branch_to input name left right config) v u =
      pushed b b.link_count _ v (omega arith) (omega arith) refl
  call_on-IsIssued b (branch_after input name config) v u =
      pushed b (b.link_count + 1 + 1) _ v (omega arith) (omega arith) refl
  call_on-IsIssued b (external_to input name output) v u =
      pushed_external b b.link_count _ v (omega arith) (omega arith) refl
  call_on-IsIssued b (external_after input name) v u =
      pushed_external b (b.link_count + 1) _ v (omega arith) (omega arith) refl
  call_on-IsIssued b (reusable_external_to input name output) v u =
      pushed_external b b.link_count _ v (omega arith) (omega arith) refl
  call_on-IsIssued b (reusable_external_after input name) v u =
      pushed_external b (b.link_count + 1) _ v (omega arith) (omega arith) refl
  call_on-IsIssued b (feeder_on target config) v u = record {
    has_input = v.has_input;
    linked = v.linked;
    numbered = v.numbered;
  }

  calls_on-IsIssued :
      (b : PipelineGraphBuilder fl) (calls : List (Call fl))
      → IsIssued b
      → UsesIssued b calls
      → IsIssued (calls_on b calls)
  unfolding calls_on
  calls_on-IsIssued b [] v u = v
  calls_on-IsIssued b (c ∷ cs) v u =
      calls_on-IsIssued (call_on b c) cs (call_on-IsIssued b c v u.0) u.1

new-IsIssued : (fl : Float) → IsIssued (new fl)
unfolding new
new-IsIssued fl = record { has_input = omega arith; linked = tt; numbered = refl }

-- Whatever a caller builds from issued links, the finished graph has all of its nodes' links and
-- both of its endpoints in range, and its external nodes carry the tokens 0, 1, 2, ... in order.
pub finish-AllLinked :
    (fl : Float) (calls : List (Call fl)) (output : ℕ)
    → UsesIssued (new fl) calls
    → let graph = finish (calls_on (new fl) calls) output in
      AllLinked graph.link_count graph.nodes
      × (graph.input_link < graph.link_count)
      × (graph.output_link < graph.link_count)
      × (tokens_of graph.nodes ≡ range_from 0 graph.external_count)
unfolding finish
finish-AllLinked fl calls output u =
    let b = calls_on (new fl) calls in
    let v = calls_on-IsIssued (new fl) calls (new-IsIssued fl) u in
    (AllLinked-mono b.nodes (omega arith) v.linked, omega arith, omega arith, v.numbered)
