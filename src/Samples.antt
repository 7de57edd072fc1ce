-- ===== src/Samples.antt =====
-- A small pipeline that the tests of all parts run on: a support node feeds an anchor that may have
-- four workers, over the links 0, 1 and 2.
use accumulator.Common.{ℕ, Bool, true, false, none, some, List, [], ◌∷◌}
use accumulator.Float.Milli.{milli, pos}
use accumulator.Policy.{ResolvedScalePolicy, ResolvedThreadPolicy, scalable, implicit_support}
use accumulator.Graph.{RuntimeNode}
use accumulator.Graph.Build.{NodeSpec}
use accumulator.Trend.{LinkControl, QueueTrend, stable, growing}
use accumulator.Control.{NodeControl, eligible}

abbrev pub reader : NodeSpec milli
reader = record {
  name = "reader";
  stage = record { can_merge_state = true };
  output_acquire_builder = false;
  is_anchor = false;
  thread_hints = record {
    fixed_threads = none;
    max_threads = none;
    initial_threads = none;
    scale_policy = none;
  };
}

abbrev pub worker_policy : ResolvedScalePolicy milli
worker_policy = record {
  initial_threads = 2;
  max_threads = 4;
  target_queue_seconds = pos 1000;
  low_queue_seconds = pos 250;
  scale_down_after = 500000000;
  underutilized_busy_ratio = pos 350;
}

abbrev pub sample_link_control : ℕ → QueueTrend → LinkControl milli
sample_link_control len trend = record {
  last_arrivals = 0;
  last_drains = 0;
  len = len;
  previous_len = 0;
  smoothed_len = pos 0;
  arrival_rate = pos 6000;
  drain_rate = pos 2000;
  net_rate = pos 4000;
  trend = trend;
}

abbrev pub sample_node : Bool → ResolvedThreadPolicy milli → ℕ → ℕ → RuntimeNode milli
sample_node is_anchor policy input output = record {
  name = "node";
  stage = some (record { can_merge_state = true });
  output_acquire = false;
  is_anchor = is_anchor;
  thread_policy = policy;
  input_link = input;
  output_links = output ∷ [];
  weighted_branch_config = none;
  is_external = false;
  external_index = none;
  return_state_on_exit = false;
}

-- A node with a throughput of two items a second for each worker.
abbrev pub sample_control : Bool → ResolvedThreadPolicy milli → ℕ → NodeControl milli
sample_control is_anchor policy desired = record {
  is_external = false;
  is_weighted_branch = false;
  is_anchor = is_anchor;
  thread_policy = policy;
  processed_count = 0;
  busy_ratio = pos 900;
  service_time_ewma = pos 0;
  per_worker_throughput = pos 2000;
  desired_workers = desired;
  backlog_seconds = pos 2000;
  last_sample_processed = 0;
  scaling_state = eligible;
  is_settling = false;
  settle_samples = 0;
  settle_observed_work = false;
  scale_down_eligible_since = none;
  last_anchor_pressure_reason = none;
  last_operation = none;
}

abbrev pub two_nodes : List (RuntimeNode milli)
two_nodes =
    sample_node false implicit_support 0 1 ∷ sample_node true (scalable worker_policy) 1 2 ∷ []

abbrev pub two_controls : List (NodeControl milli)
two_controls =
    sample_control false implicit_support 1 ∷ sample_control true (scalable worker_policy) 3 ∷ []

-- The anchor's input grows; the output link has the given trend.
abbrev pub three_links : QueueTrend → List (LinkControl milli)
three_links trend =
    sample_link_control 0 stable ∷ sample_link_control 9 growing ∷ sample_link_control 1 trend ∷ []

abbrev pub two_active : List (List ℕ)
two_active = (0 ∷ []) ∷ (1 ∷ []) ∷ []
