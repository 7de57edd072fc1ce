-- ===== src/Scale/Choose.antt =====
-- src/lib.rs: `choose_scale_operation` and the three choosers that it tries after scaling up a
-- scalable node: support nodes, producers of an underfed anchor, and scaling down.
use accumulator.Common.{
  ℕ, ◌-◌, max, not, ◌&&◌, ◌||◌, Option, none, some, List, ltb, leb, if◌then◌else◌, length,
  range_from, Run, returns, ◌>>=◌, index, first_some,
}
use accumulator.Float.{Float}
use accumulator.Policy.{ResolvedThreadPolicy, fixed, scalable, implicit_support}
use accumulator.Graph.{RuntimeNode}
use accumulator.Trend.{LinkControl, is_growing, is_starved}
use accumulator.Control.{NodeControl, input_underfed, node_can_scale, is_fixed, is_implicit_support}
use accumulator.Scale.Basics.{
  ScaleOperation, remove_worker, Choice, or_nothing, set_pressure_reason, add_or_rebalance_for_node,
  downstream_blocks_scale_up, consumer_nodes, producer_nodes, anchor_node_indices,
  link_underfeeds_node, choose_scalable_scale_up,
}

module _ {fl : Float} (links : List (LinkControl fl)) (active_by_node : List (List ℕ))
    (nodes : List (RuntimeNode fl)) (output_link : ℕ) where
  -- The inner loop body of `choose_support_operation`.
  unfoldable pub support_consumer : List (NodeControl fl) → ℕ → ℕ → Run (Option (Choice fl))
  unfolding add_or_rebalance_for_node downstream_blocks_scale_up
  support_consumer controls global_worker_cap consumer_index = do
    control ← index controls consumer_index
    if not (is_implicit_support control.thread_policy) then returns none else (do
      active ← index active_by_node consumer_index
      if ltb (length active) control.desired_workers && node_can_scale control
          then (do
            blocked ←
                downstream_blocks_scale_up links active_by_node nodes output_link consumer_index
            if blocked then returns none else (do
              choice ←
                  add_or_rebalance_for_node active_by_node consumer_index controls global_worker_cap
              returns (some choice)))
          else returns none)

  -- The outer loop body: the consumers of a growing link.
  unfoldable pub support_link : List (NodeControl fl) → ℕ → ℕ → Run (Option (Choice fl))
  unfolding support_consumer consumer_nodes
  support_link controls global_worker_cap link_index = do
    link ← index links link_index
    if not (is_growing link.trend)
        then returns none
        else first_some (support_consumer controls global_worker_cap)
            (consumer_nodes nodes link_index)

  unfoldable pub choose_support_operation : List (NodeControl fl) → ℕ → Run (Choice fl)
  unfolding support_link
  choose_support_operation controls global_worker_cap = do
    output ← index links output_link
    if is_growing output.trend then returns (none, controls) else (do
      found ← first_some (support_link controls global_worker_cap) (range_from 0 (length links))
      returns (or_nothing controls found))

  -- The end of the loop body below, for a producer that may scale.
  unfoldable pub feed_unblocked :
      NodeControl fl → List (NodeControl fl) → ℕ → ℕ → ℕ → Run (Option (Choice fl))
  unfolding add_or_rebalance_for_node set_pressure_reason
  feed_unblocked control controls global_worker_cap anchor_index producer_index = do
    active ← index active_by_node producer_index
    if leb control.desired_workers (length active) then returns none else (do
      controls' ← set_pressure_reason input_underfed controls anchor_index
      choice ← add_or_rebalance_for_node active_by_node producer_index controls' global_worker_cap
      returns (some choice))

  -- The inner loop body of `choose_anchor_pressure_operation`.
  unfoldable pub feed_anchor : List (NodeControl fl) → ℕ → ℕ → ℕ → Run (Option (Choice fl))
  unfolding feed_unblocked downstream_blocks_scale_up
  feed_anchor controls global_worker_cap anchor_index producer_index = do
    control ← index controls producer_index
    if is_fixed control.thread_policy then returns none else (do
      node ← index nodes producer_index
      input ← index links node.input_link
      if is_starved input.trend || not (node_can_scale control) then returns none else (do
        blocked ← downstream_blocks_scale_up links active_by_node nodes output_link producer_index
        if blocked
            then returns none
            else feed_unblocked control controls global_worker_cap anchor_index producer_index))

  unfoldable pub anchor_target_queue : ResolvedThreadPolicy fl → fl.F
  anchor_target_queue (scalable policy) = policy.target_queue_seconds
  anchor_target_queue _ = fl.of_nat 1

  -- The outer loop body: an anchor that is busy and underfed.
  unfoldable pub press_anchor : List (NodeControl fl) → ℕ → ℕ → Run (Option (Choice fl))
  unfolding feed_anchor anchor_target_queue link_underfeeds_node producer_nodes
  press_anchor controls global_worker_cap anchor_index = do
    node ← index nodes anchor_index
    control ← index controls anchor_index
    if fl.le control.busy_ratio (fl.literal 60 100) then returns none else (do
      input ← index links node.input_link
      active ← index active_by_node anchor_index
      if not (
            link_underfeeds_node input (length active) control.backlog_seconds
              (anchor_target_queue control.thread_policy))
          then returns none
          else first_some (feed_anchor controls global_worker_cap anchor_index)
              (producer_nodes nodes node.input_link))

  unfoldable pub choose_anchor_pressure_operation : List (NodeControl fl) → ℕ → Run (Choice fl)
  unfolding press_anchor anchor_node_indices
  choose_anchor_pressure_operation controls global_worker_cap = do
    output ← index links output_link
    if is_growing output.trend then returns (none, controls) else (do
      found ← first_some (press_anchor controls global_worker_cap) (anchor_node_indices controls)
      returns (or_nothing controls found))

  -- The loop body of `choose_scale_down_operation`, for a node with a worker to spare.
  unfoldable pub scale_down_unblocked :
      ℕ → NodeControl fl → List ℕ → ℕ → Run (Option ScaleOperation)
  scale_down_unblocked now control active node_index = elim control.thread_policy [
    | scalable policy ↦ elim control.scale_down_eligible_since [
      | none ↦ returns none
      | some since ↦
          if ltb (now - since) policy.scale_down_after
            || fl.lt policy.low_queue_seconds control.backlog_seconds
          then returns none
          else returns (some (remove_worker node_index none))
    ]
    | implicit_support ↦
        if leb (length active) (max control.desired_workers 1) then returns none else (do
          node ← index nodes node_index
          input ← index links node.input_link
          if is_growing input.trend
              then returns none
              else returns (some (remove_worker node_index none)))
    | fixed count ↦ returns none
  ]

  unfoldable pub scale_down_at : ℕ → List (NodeControl fl) → ℕ → Run (Option ScaleOperation)
  unfolding downstream_blocks_scale_up scale_down_unblocked
  scale_down_at now controls node_index = do
    active ← index active_by_node node_index
    if leb (length active) 1 then returns none else (do
      control ← index controls node_index
      if not (node_can_scale control) then returns none else (do
        blocked ← downstream_blocks_scale_up links active_by_node nodes output_link node_index
        if blocked then returns none else scale_down_unblocked now control active node_index))

  unfoldable pub choose_scale_down_operation :
      ℕ → List (NodeControl fl) → Run (Option ScaleOperation)
  unfolding scale_down_at
  choose_scale_down_operation now controls =
      first_some (scale_down_at now controls) (range_from 0 (length controls))

  -- A chooser that found nothing passes the controls on to the next one.
  abbrev pub or_else : Choice fl → (List (NodeControl fl) → Run (Choice fl)) → Run (Choice fl)
  or_else (none, controls) next = next controls
  or_else (some operation, controls) next = returns (some operation, controls)

  unfoldable pub choose_scale_operation : ℕ → List (NodeControl fl) → ℕ → Run (Choice fl)
  unfolding choose_scalable_scale_up choose_support_operation choose_anchor_pressure_operation
      choose_scale_down_operation
  choose_scale_operation now controls global_worker_cap = do
    up ← choose_scalable_scale_up links active_by_node nodes output_link controls global_worker_cap
    or_else (up, controls)
        λ controls. choose_support_operation controls global_worker_cap >>= λ support.
          or_else support λ controls.
            choose_anchor_pressure_operation controls global_worker_cap >>= λ pressure.
            or_else pressure λ controls.
              choose_scale_down_operation now controls >>= λ down. returns (down, controls)
