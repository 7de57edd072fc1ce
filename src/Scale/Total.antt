-- ===== src/Scale/Total.antt =====
-- src/lib.rs: the indexing of the choosers of Scale.Basics, for nodes whose links exist.
mod Choosers
pub mod Whole
pub mod Started
mod Tests
use mathlib.Core.List.{Memᴰ}
use accumulator.Common.{
  ℕ, zero, suc, ◌+◌, ◌<◌, ◌≤◌, ◌≡◌, refl, sym, subst, ◌∙◌, ap, Bool, true, false, not, ◌&&◌, ◌||◌,
  Option, none, some, List, [], ◌∷◌, arith, All, any, ltb, leb, ◌==◌, if◌then◌else◌, length,
  range_from, Run, returns, panics, ◌>>=◌, index, modify_at, first_some,
}
use accumulator.Common.Total.{
  Total, bind-Total, first_some-Total, if-Total, index-Total, modify_at-Total, index-All,
  range_from-below,
}
use accumulator.Float.{Float}
use accumulator.Policy.{
  ResolvedThreadPolicy, ResolvedScalePolicy, fixed, scalable, implicit_support,
}
use accumulator.Graph.{RuntimeNode, LinksBelow}
use accumulator.Trend.{LinkControl, is_growing}
use accumulator.Control.{
  NodeControl, AnchorPressureReason, budget_pressure, node_can_scale, active_worker_count,
  is_scalable,
}
use accumulator.Scale.Basics.{
  ScaleOperation, Choice, or_nothing, downstream_blocks_scale_up, scale_up_unblocked,
  scale_up_scalable, scale_up_at, choose_scalable_scale_up, set_pressure_reason, take_from_anchor,
  add_or_rebalance_for_node, anchor_indices_from, anchor_node_indices, nodes_where, consumer_nodes,
  producer_nodes,
}

module _ {fl : Float} where
  -- The node's links exist, and it has an output.
  abbrev pub IsWired : ℕ → RuntimeNode fl → Type 0
  IsWired count node =
      LinksBelow count node.input_link node.output_links × (1 ≤ length node.output_links)

  anchor_indices_from-below :
      (i : ℕ) (controls : List (NodeControl fl)) (x : ℕ)
      → Memᴰ x (anchor_indices_from i controls)
      → x < i + length controls
  unfolding anchor_indices_from
  anchor_indices_from-below i [] x m = elim m [ ]
  anchor_indices_from-below i (control ∷ rest) x m =
      go control.is_anchor m (anchor_indices_from-below (suc i) rest x)
    where
      go :
          (test : Bool)
          → Memᴰ x (
              if test
              then i ∷ anchor_indices_from (suc i) rest
              else anchor_indices_from (suc i) rest)
          → (Memᴰ x (anchor_indices_from (suc i) rest) → x < suc i + length rest)
          → x < i + suc (length rest)
      go true (Memᴰ.head e) k = omega (arith, e)
      go true (Memᴰ.tail m) k = omega (arith, k m)
      go false m k = omega (arith, k m)

  nodes_where-below :
      (test : RuntimeNode fl → Bool) (i : ℕ) (nodes : List (RuntimeNode fl)) (x : ℕ)
      → Memᴰ x (nodes_where test i nodes)
      → x < i + length nodes
  unfolding nodes_where
  nodes_where-below test i [] x m = elim m [ ]
  nodes_where-below test i (node ∷ rest) x m =
      go (test node) m (nodes_where-below test (suc i) rest x)
    where
      go :
          (passes : Bool)
          → Memᴰ x
              (if passes then i ∷ nodes_where test (suc i) rest else nodes_where test (suc i) rest)
          → (Memᴰ x (nodes_where test (suc i) rest) → x < suc i + length rest)
          → x < i + suc (length rest)
      go true (Memᴰ.head e) k = omega (arith, e)
      go true (Memᴰ.tail m) k = omega (arith, k m)
      go false m k = omega (arith, k m)

module _ {fl : Float} (links : List (LinkControl fl)) (active_by_node : List (List ℕ))
    (nodes : List (RuntimeNode fl)) (output_link : ℕ) (exists : output_link < length links)
    (same : length active_by_node ≡ length nodes) (wired : All (IsWired (length links)) nodes) where
  -- The node at an index, and its input link.
  input-Total :
      (i : ℕ) (node : RuntimeNode fl)
      → index nodes i ≡ returns node
      → Total (index links node.input_link)
  input-Total i node e =
      let w = index-All (IsWired (length links)) nodes i wired e in
      index-Total links node.input_link w.0.0

  pub downstream-Total :
      (i : ℕ)
      → i < length nodes
      → Total (downstream_blocks_scale_up links active_by_node nodes output_link i)
  unfolding downstream_blocks_scale_up
  downstream-Total i h =
      bind-Total (index links output_link) _ (index-Total links output_link exists) λ output e.
        if-Total (is_growing output.trend) _ _ (true, refl)
          (bind-Total (index nodes i) _ (index-Total nodes i h) λ node d.
            let w = index-All (IsWired (length links)) nodes i wired d in
            bind-Total (index node.output_links 0) _
              (index-Total node.output_links 0 (omega (arith, w.1)))
              λ first f.
                bind-Total (index links first) _
                  (index-Total links first
                    (index-All (λ link. link < length links) node.output_links 0 w.0.1 f))
                  λ link g. (is_growing link.trend, refl))

  scale_up_unblocked-Total :
      (control : NodeControl fl) (i max : ℕ) (target : fl.F)
      → i < length nodes
      → Total (scale_up_unblocked links active_by_node nodes output_link control i max target)
  unfolding scale_up_unblocked
  scale_up_unblocked-Total control i max target h =
      bind-Total (index active_by_node i) _ (index-Total active_by_node i (omega (arith, h, same)))
        λ active e.
          if-Total _ _ _ (none, refl)
            (bind-Total (index nodes i) _ (index-Total nodes i h) λ node d.
              bind-Total (index links node.input_link) _ (input-Total i node d)
                λ input f. if-Total _ _ _ (none, refl) (some _, refl))

  scale_up_scalable-Total :
      (control : NodeControl fl) (policy : ResolvedScalePolicy fl) (i : ℕ)
      → i < length nodes
      → Total (scale_up_scalable links active_by_node nodes output_link control policy i)
  unfolding scale_up_scalable
  scale_up_scalable-Total control policy i h =
      if-Total (not (node_can_scale control)) _ _ (none, refl)
        (bind-Total (downstream_blocks_scale_up links active_by_node nodes output_link i) _
          (downstream-Total i h)
          λ blocked e.
            if-Total blocked _ _ (none, refl)
              (scale_up_unblocked-Total control i policy.max_threads policy.target_queue_seconds h))

  module _ (controls : List (NodeControl fl)) (fits : length controls ≡ length nodes) where
    scale_up_at-Total :
        (i : ℕ)
        → i < length nodes
        → Total (scale_up_at links active_by_node nodes output_link controls i)
    unfolding scale_up_at
    scale_up_at-Total i h =
        bind-Total (index controls i) _ (index-Total controls i (omega (arith, h, fits)))
          λ control e. go control control.thread_policy
      where
        go :
            (control : NodeControl fl) (policy : ResolvedThreadPolicy fl)
            → Total (elim policy as (λ p. Run (Option ScaleOperation)) [
              | scalable policy ↦
                  scale_up_scalable links active_by_node nodes output_link control policy i
              | _ ↦ returns none
            ])
        go control (fixed count) = (none, refl)
        go control (scalable policy) = scale_up_scalable-Total control policy i h
        go control implicit_support = (none, refl)

    pub choose_scalable_scale_up-Total :
        (cap : ℕ)
        → Total (choose_scalable_scale_up links active_by_node nodes output_link controls cap)
    unfolding choose_scalable_scale_up
    choose_scalable_scale_up-Total cap =
        if-Total (leb cap (active_worker_count active_by_node)) _ _ (none, refl)
          (first_some-Total (scale_up_at links active_by_node nodes output_link controls) _ λ i m.
            scale_up_at-Total i (omega (arith, range_from-below 0 (length controls) i m, fits)))

    pub set_pressure_reason-Total :
        (reason : AnchorPressureReason) (i : ℕ)
        → i < length nodes
        → (controls' : List (NodeControl fl)) × (set_pressure_reason reason controls i
            ≡ returns controls')
          × (length controls' ≡ length nodes)
    unfolding set_pressure_reason
    set_pressure_reason-Total reason i h =
        let (after, e, n) = modify_at-Total controls i _ (omega (arith, h, fits)) in
        (after, e, n ∙ fits)

    pub anchor-below : (i : ℕ) → Memᴰ i (anchor_node_indices controls) → i < length nodes
    unfolding anchor_node_indices
    anchor-below i m = omega (arith, anchor_indices_from-below 0 controls i m, fits)

    take_from_anchor-Total :
        (node_index i : ℕ)
        → i < length nodes
        → Total (take_from_anchor active_by_node node_index controls i)
    unfolding take_from_anchor
    take_from_anchor-Total node_index i h =
        if-Total (node_index == i) _ _ (none, refl)
          (bind-Total (index controls i) _ (index-Total controls i (omega (arith, h, fits)))
            λ control e.
              if-Total (not (is_scalable control.thread_policy)) _ _ (none, refl)
                (bind-Total (index active_by_node i) _
                  (index-Total active_by_node i (omega (arith, h, same)))
                  λ active d.
                    let (after, f, n) = set_pressure_reason-Total budget_pressure i h in
                    if-Total (ltb 1 (length active) && node_can_scale control) _ _
                      (bind-Total (set_pressure_reason budget_pressure controls i) _ (after, f)
                        λ c g. (_, refl))
                      (none, refl)))

    pub add_or_rebalance-Total :
        (node_index cap : ℕ)
        → Total (add_or_rebalance_for_node active_by_node node_index controls cap)
    unfolding add_or_rebalance_for_node
    add_or_rebalance-Total node_index cap =
        if-Total (ltb (active_worker_count active_by_node) cap) _ _ (_, refl)
          (bind-Total
            (first_some (take_from_anchor active_by_node node_index controls)
              (anchor_node_indices controls))
            _
            (first_some-Total (take_from_anchor active_by_node node_index controls) _
              λ i m. take_from_anchor-Total node_index i (anchor-below i m))
            λ found e. (_, refl))

  pub consumer-below : (link i : ℕ) → Memᴰ i (consumer_nodes nodes link) → i < length nodes
  unfolding consumer_nodes
  consumer-below link i m =
      omega (arith, nodes_where-below (λ node. node.input_link == link) 0 nodes i m)

  pub producer-below : (link i : ℕ) → Memᴰ i (producer_nodes nodes link) → i < length nodes
  unfolding producer_nodes
  producer-below link i m = omega (
    arith,
    nodes_where-below (λ node. any (λ output. output == link) node.output_links) 0 nodes i m,
  )
