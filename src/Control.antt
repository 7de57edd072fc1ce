-- ===== src/Control.antt =====
-- src/lib.rs: `NodeControl`, what the supervisor keeps for each node, with `build_node_controls`,
-- the counts of workers that depend on it, and its small updates. An `Instant` is a count of
-- nanoseconds, and `now` is an argument.
use accumulator.Common.{
  ℕ, ◌+◌, ◌%◌, Bool, true, false, not, ◌&&◌, Option, none, some, List, map, if◌then◌else◌, is_some,
  length, keep_if, sum, Run, modify_at,
}
use accumulator.Float.{Float}
use accumulator.Policy.{
  ResolvedThreadPolicy, fixed, scalable, implicit_support, startup_worker_count,
}
use accumulator.Graph.{RuntimeNode}

pub data NodeScalingState : Type 0 where
  eligible merging settling backing_off : NodeScalingState

pub data AnchorPressureReason : Type 0 where
  input_underfed output_backpressure budget_pressure : AnchorPressureReason

pub data ScaleDirection : Type 0 where
  add_direction remove_direction merge_direction : ScaleDirection

pub record NodeControl (fl : Float) : Type 0 where
  pub is_external : Bool
  pub is_weighted_branch : Bool
  pub is_anchor : Bool
  pub thread_policy : ResolvedThreadPolicy fl
  pub processed_count : ℕ
  pub busy_ratio : fl.F
  pub service_time_ewma : fl.F
  pub per_worker_throughput : fl.F
  pub desired_workers : ℕ
  pub backlog_seconds : fl.F
  pub last_sample_processed : ℕ
  pub scaling_state : NodeScalingState
  pub is_settling : Bool
  pub settle_samples : ℕ
  pub settle_observed_work : Bool
  pub scale_down_eligible_since : Option ℕ
  pub last_anchor_pressure_reason : Option AnchorPressureReason
  pub last_operation : Option (ScaleDirection × ℕ)

module _ {fl : Float} where
  pub node_control : RuntimeNode fl → NodeControl fl
  node_control node = record {
    is_external = node.is_external;
    is_weighted_branch = is_some node.weighted_branch_config;
    is_anchor = node.is_anchor;
    thread_policy = node.thread_policy;
    processed_count = 0;
    busy_ratio = fl.of_nat 0;
    service_time_ewma = fl.of_nat 0;
    per_worker_throughput = fl.of_nat 0;
    desired_workers = 1;
    backlog_seconds = fl.of_nat 0;
    last_sample_processed = 0;
    scaling_state = eligible;
    is_settling = false;
    settle_samples = 0;
    settle_observed_work = false;
    scale_down_eligible_since = none;
    last_anchor_pressure_reason = none;
    last_operation = none;
  }

  unfoldable pub build_node_controls : List (RuntimeNode fl) → List (NodeControl fl)
  unfolding node_control
  build_node_controls nodes = map node_control nodes

  -- The first workers of a node, in the two rounds of the start.
  unfoldable pub startup_counts : RuntimeNode fl → ℕ × ℕ
  startup_counts node =
      if node.is_external
      then (0, 0)
      else if is_some node.weighted_branch_config
      then (1, 0)
      else startup_worker_count node.thread_policy

  -- The number of first workers of a node.
  unfoldable pub required_workers : RuntimeNode fl → ℕ
  required_workers node =
      if node.is_external
      then 0
      else if is_some node.weighted_branch_config
      then 1
      else (startup_worker_count node.thread_policy).0 + (startup_worker_count node.thread_policy).1

  -- A sum of `usize` wraps around.
  unfoldable pub required_base_workers : List (RuntimeNode fl) → ℕ
  unfolding required_workers
  required_base_workers nodes = sum (map required_workers nodes) % 18446744073709551616

  abbrev pub is_fixed : ResolvedThreadPolicy fl → Bool
  is_fixed (fixed count) = true
  is_fixed _ = false

  abbrev pub is_scalable : ResolvedThreadPolicy fl → Bool
  is_scalable (scalable policy) = true
  is_scalable _ = false

  abbrev pub is_implicit_support : ResolvedThreadPolicy fl → Bool
  is_implicit_support implicit_support = true
  is_implicit_support _ = false

  unfoldable pub parked_worker_target : List (RuntimeNode fl) → ℕ
  parked_worker_target nodes = length (
      keep_if
        (λ (node : RuntimeNode fl).
          not node.is_external
          && (not (is_some node.weighted_branch_config) && not (is_fixed node.thread_policy)))
        nodes)

abbrev pub is_settling_state : NodeScalingState → Bool
is_settling_state settling = true
is_settling_state _ = false

abbrev pub is_merging_state : NodeScalingState → Bool
is_merging_state merging = true
is_merging_state _ = false

module _ {fl : Float} where
  unfoldable pub node_can_scale : NodeControl fl → Bool
  node_can_scale control =
      not control.is_external
      && (not control.is_weighted_branch
          && (not (is_fixed control.thread_policy)
              && (not control.is_settling
                  && (not (is_settling_state control.scaling_state)
                      && not (is_merging_state control.scaling_state)))))

  unfoldable pub node_has_merge_state : RuntimeNode fl → Bool
  node_has_merge_state node = elim node.stage [ none ↦ false | some stage ↦ stage.can_merge_state ]

  abbrev pub settled : NodeControl fl → NodeControl fl
  settled control = record control {
    is_settling = true;
    settle_samples = 0;
    settle_observed_work = false;
    scaling_state = settling;
  }

  unfoldable pub mark_node_settling : List (NodeControl fl) → ℕ → Run (List (NodeControl fl))
  mark_node_settling controls node_index = modify_at controls node_index settled

  unfoldable pub record_node_operation :
      List (NodeControl fl) → ℕ → ScaleDirection → ℕ → Run (List (NodeControl fl))
  record_node_operation controls node_index direction now =
      modify_at controls node_index
        λ control. record control { last_operation = some (direction, now) }

abbrev pub active_worker_count : List (List ℕ) → ℕ
active_worker_count active_by_node = sum (map length active_by_node)
