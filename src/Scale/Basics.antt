-- ===== src/Scale/Basics.antt =====
-- src/lib.rs: the parts that the choosers of a scaling operation share, and the first of them:
-- `choose_scalable_scale_up`, `add_or_rebalance_for_node` and the helpers below them.
-- `active_by_node` has the ids of the workers of each node. A test of the source with `&&` or `||`
-- that indexes on its right side is written with nested conditions, so that it panics where the
-- source does. A function that writes to `controls` returns them.
use accumulator.Common.{
  ℕ, suc, max, Bool, true, false, not, ◌&&◌, ◌||◌, Option, none, some, List, [], ◌∷◌, ltb, leb,
  ◌==◌, if◌then◌else◌, length, any, range_from, Run, returns, ◌>>=◌, index, modify_at, first_some,
}
use accumulator.Common.Words.{saturating_mul}
use accumulator.Float.{Float}
use accumulator.Policy.{ResolvedScalePolicy, scalable}
use accumulator.Graph.{RuntimeNode}
use accumulator.Trend.{LinkControl, is_growing, is_draining, is_starved, is_fast_draining}
use accumulator.Control.{
  NodeControl, AnchorPressureReason, budget_pressure, node_can_scale, is_scalable,
  active_worker_count,
}

pub data ScaleOperation : Type 0 where
  add_worker : (node_index : ℕ) → ScaleOperation
  remove_worker : (node_index : ℕ) → (worker_id : Option ℕ) → ScaleOperation

module _ {fl : Float} where
  unfoldable pub anchor_indices_from : ℕ → List (NodeControl fl) → List ℕ
  anchor_indices_from i [] = []
  anchor_indices_from i (control ∷ rest) =
      let others = anchor_indices_from (suc i) rest in
      if control.is_anchor then i ∷ others else others

  unfoldable pub anchor_node_indices : List (NodeControl fl) → List ℕ
  unfolding anchor_indices_from
  anchor_node_indices controls = anchor_indices_from 0 controls

  -- The nodes, with their indices from `i` on, that pass a test.
  unfoldable pub nodes_where : (RuntimeNode fl → Bool) → ℕ → List (RuntimeNode fl) → List ℕ
  nodes_where test i [] = []
  nodes_where test i (node ∷ rest) =
      let others = nodes_where test (suc i) rest in if test node then i ∷ others else others

  unfoldable pub consumer_nodes : List (RuntimeNode fl) → ℕ → List ℕ
  unfolding nodes_where
  consumer_nodes nodes link = nodes_where (λ node. node.input_link == link) 0 nodes

  unfoldable pub producer_nodes : List (RuntimeNode fl) → ℕ → List ℕ
  unfolding nodes_where
  producer_nodes nodes link =
      nodes_where (λ node. any (λ output. output == link) node.output_links) 0 nodes

  unfoldable pub link_underfeeds_node : LinkControl fl → ℕ → fl.F → fl.F → Bool
  link_underfeeds_node link active_threads backlog_seconds target_queue_seconds =
      let few = leb link.len (max (saturating_mul active_threads 2) 1) in
      if fl.lt target_queue_seconds backlog_seconds
      then false
      else is_starved link.trend
        || ((is_fast_draining link.trend && (fl.le backlog_seconds target_queue_seconds && few))
            || (is_draining link.trend && (not (is_fast_draining link.trend) && few)))

module _ {fl : Float} (links : List (LinkControl fl)) (active_by_node : List (List ℕ))
    (nodes : List (RuntimeNode fl)) (output_link : ℕ) where
  unfoldable pub downstream_blocks_scale_up : ℕ → Run Bool
  downstream_blocks_scale_up node_index = do
    output ← index links output_link
    if is_growing output.trend then returns true else (do
      node ← index nodes node_index
      first ← index node.output_links 0
      link ← index links first
      returns (is_growing link.trend))

  -- The rest of the loop body of `choose_scalable_scale_up`, for a node that may scale.
  unfoldable pub scale_up_unblocked : NodeControl fl → ℕ → ℕ → fl.F → Run (Option ScaleOperation)
  scale_up_unblocked control node_index max_threads target_queue_seconds = do
    active ← index active_by_node node_index
    if leb control.desired_workers (length active) || leb max_threads (length active)
        then returns none
        else (do
          node ← index nodes node_index
          input ← index links node.input_link
          if fl.le control.backlog_seconds target_queue_seconds && not (is_growing input.trend)
              then returns none
              else returns (some (add_worker node_index)))

  unfoldable pub scale_up_scalable :
      NodeControl fl → ResolvedScalePolicy fl → ℕ → Run (Option ScaleOperation)
  unfolding downstream_blocks_scale_up scale_up_unblocked
  scale_up_scalable control policy node_index =
      if not (node_can_scale control) then returns none else (do
        blocked ← downstream_blocks_scale_up node_index
        if blocked
            then returns none
            else scale_up_unblocked control node_index policy.max_threads
                policy.target_queue_seconds)

  -- The loop body of `choose_scalable_scale_up`.
  unfoldable pub scale_up_at : List (NodeControl fl) → ℕ → Run (Option ScaleOperation)
  unfolding scale_up_scalable
  scale_up_at controls node_index = do
    control ← index controls node_index
    elim control.thread_policy [
      | scalable policy ↦ scale_up_scalable control policy node_index
      | _ ↦ returns none
    ]

  unfoldable pub choose_scalable_scale_up : List (NodeControl fl) → ℕ → Run (Option ScaleOperation)
  unfolding scale_up_at
  choose_scalable_scale_up controls global_worker_cap =
      if leb global_worker_cap (active_worker_count active_by_node)
      then returns none
      else first_some (scale_up_at controls) (range_from 0 (length controls))

-- The operation that is chosen, if any, and the controls after the choice.
abbrev pub Choice : Float → Type 0
Choice fl = Option ScaleOperation × List (NodeControl fl)

module _ {fl : Float} where
  -- `return` of the function's value at the end of a loop that may have returned one before.
  abbrev pub or_nothing : List (NodeControl fl) → Option (Choice fl) → Choice fl
  or_nothing controls none = (none, controls)
  or_nothing controls (some choice) = choice

  unfoldable pub set_pressure_reason :
      AnchorPressureReason → List (NodeControl fl) → ℕ → Run (List (NodeControl fl))
  set_pressure_reason reason controls node_index =
      modify_at controls node_index
        λ control. record control { last_anchor_pressure_reason = some reason }

module _ {fl : Float} (active_by_node : List (List ℕ)) where
  -- The loop body of `add_or_rebalance_for_node`.
  unfoldable pub take_from_anchor : ℕ → List (NodeControl fl) → ℕ → Run (Option (Choice fl))
  unfolding set_pressure_reason
  take_from_anchor node_index controls anchor_index =
      if node_index == anchor_index then returns none else (do
        control ← index controls anchor_index
        if not (is_scalable control.thread_policy) then returns none else (do
          active ← index active_by_node anchor_index
          if ltb 1 (length active) && node_can_scale control
              then (do
                controls' ← set_pressure_reason budget_pressure controls anchor_index
                returns (some (some (remove_worker anchor_index none), controls')))
              else returns none))

  unfoldable pub add_or_rebalance_for_node : ℕ → List (NodeControl fl) → ℕ → Run (Choice fl)
  unfolding take_from_anchor anchor_node_indices
  add_or_rebalance_for_node node_index controls global_worker_cap =
      if ltb (active_worker_count active_by_node) global_worker_cap
      then returns (some (add_worker node_index), controls)
      else (first_some (take_from_anchor node_index controls) (anchor_node_indices controls)
          >>= λ found. returns (or_nothing controls found))
