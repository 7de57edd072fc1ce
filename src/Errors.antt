-- ===== src/Errors.antt =====
-- src/lib.rs, `PiperError`: the errors that a pipeline reports. `E` is the user's error type. The
-- formatted messages of `InvalidGraph`, `InvalidWeightedBranchConfig` and `Internal` are
-- constructors that hold what is formatted into them; a worker's name `piper-worker-{id}` is its id.
use Prim.Native.String.{String}
use accumulator.Common.{ℕ}

pub data GraphFault : Type 0 where
  endpoint_outside_graph : GraphFault
  missing_link : (node : String) → GraphFault
  branch_needs_two_outputs : (branch : String) → GraphFault
  node_needs_one_output : (node : String) → GraphFault
  cycle : GraphFault
  state_needs_one_producer : GraphFault
  state_needs_managed_producer : GraphFault
  worker_cap_zero : GraphFault

pub data BranchFault : Type 0 where
  target_not_positive_finite : BranchFault
  half_life_zero : BranchFault

pub data Thread : Type 0 where
  worker : (id : ℕ) → Thread
  supervisor : Thread

pub data InternalFault : Type 0 where
  command_channel_closed : InternalFault
  worker_for_external_node : InternalFault
  missing_merge_receiver : InternalFault
  merge_target_inactive : InternalFault
  merge_target_channel_closed : InternalFault
  merge_target_flag_unavailable : InternalFault
  state_transfer_receiver_closed : InternalFault
  merge_request_channel_closed : InternalFault
  state_transfer_channel_closed : InternalFault
  output_channel_closed : InternalFault
  recycle_channel_closed : InternalFault
  external_output_channel_closed : (node : String) → InternalFault
  external_error_type : (node : String) → InternalFault
  no_returned_state_node : InternalFault
  no_state_collected : InternalFault
  state_type_mismatch : InternalFault

pub data PiperError (E : Type 0) : Type 0 where
  zero_workers : PiperError E
  no_nodes : PiperError E
  invalid_graph : GraphFault → PiperError E
  invalid_thread_count : PiperError E
  invalid_weighted_branch_config : (branch : String) → BranchFault → PiperError E
  unsupported_weighted_branch_feeder_output : (branch : String) (link : ℕ) → PiperError E
  spawn_failed : Thread → PiperError E
  user_init : Thread → E → PiperError E
  user_process : Thread → E → PiperError E
  user_cleanup : Thread → E → PiperError E
  user_merge : Thread → E → PiperError E
  user_finalize : Thread → E → PiperError E
  missing_state_merge : (node : String) → PiperError E
  external_node : (node : String) → E → PiperError E
  internal : Thread → InternalFault → PiperError E
  telemetry : (message : String) → PiperError E
  worker_panicked : Thread → (message : String) → PiperError E
