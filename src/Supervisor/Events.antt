-- ===== src/Supervisor/Events.antt =====
-- src/lib.rs, `drain_worker_events`: one function for each report of a worker. `delivered` tells
-- whether the channel to the merge target still has its receiver, which is the worker's; `now` is the
-- instant that `record_node_operation` reads.
use accumulator.Common.{
  ℕ, Bool, true, false, not, ◌&&◌, Option, none, some, List, [], ◌∷◌, ◌++◌, ◌==◌, if◌then◌else◌,
  contains, Run, returns, ◌>>=◌, index, modify_at,
}
use accumulator.Errors.{
  PiperError, Thread, supervisor, worker, user_init, user_process, user_cleanup, user_merge,
  internal, InternalFault, missing_merge_receiver, merge_target_inactive,
  merge_target_channel_closed, merge_target_flag_unavailable,
}
use accumulator.Float.{Float}
use accumulator.Control.{
  ScaleDirection, add_direction, remove_direction, merge_direction, merging, record_node_operation,
  mark_node_settling,
}
use accumulator.Supervisor.State.{
  Supervisor, WorkerSlot, idle_slot, PendingScale, pending_add, pending_remove, merge_down,
  MergeRequest, remove_worker_from_node, pending_scale_involves_worker,
}

pub data NodeFailure (E : Type 0) : Type 0 where
  init_failure : E → NodeFailure E
  process_failure : E → NodeFailure E
  cleanup_failure : E → NodeFailure E
  merge_failure : E → NodeFailure E
  internal_failure : InternalFault → NodeFailure E

pub data WorkerEvent (E M : Type 0) : Type 0 where
  started : (worker_id : ℕ) → WorkerEvent E M
  parked : (worker_id node_index : ℕ) → (returned_state : Option M) → WorkerEvent E M
  merge_completed : (worker_id node_index source_worker_id : ℕ) → WorkerEvent E M
  failed : (worker_id node_index : ℕ) → NodeFailure E → WorkerEvent E M
  stopped : WorkerEvent E M

unfoldable pub failure_error : {E : Type 0} → Thread → NodeFailure E → PiperError E
failure_error thread (init_failure e) = user_init thread e
failure_error thread (process_failure e) = user_process thread e
failure_error thread (cleanup_failure e) = user_cleanup thread e
failure_error thread (merge_failure e) = user_merge thread e
failure_error thread (internal_failure fault) = internal thread fault

abbrev with_state : {M : Type 0} → List M → Option M → List M
with_state states none = states
with_state states (some state) = states ++ (state ∷ [])

module _ {fl : Float} {E M : Type 0} where
  unfoldable pub fail_internally : Supervisor fl E M → InternalFault → Supervisor fl E M
  fail_internally s fault = record s {
    abort = true;
    stored_failure = some (internal supervisor fault);
  }

  -- The end of a scaling operation.
  unfoldable pub complete_scale :
      Supervisor fl E M → ℕ → ScaleDirection → ℕ → Run (Supervisor fl E M)
  complete_scale s node_index direction now =
      record_node_operation s.controls node_index direction now >>= λ recorded.
      mark_node_settling recorded node_index >>= λ controls.
      returns (record s { pending_scale = none; controls = controls })

  unfoldable pub on_started :
      Supervisor fl E M → ℕ → ℕ → Option PendingScale → Run (Supervisor fl E M)
  unfolding complete_scale
  on_started s now worker_id (some (pending_add pending_worker node_index)) =
      if pending_worker == worker_id
      then complete_scale s node_index add_direction now
      else returns s
  on_started s now worker_id _ = returns s

  -- The merge request is in the target's channel; then the target's flag is raised.
  unfoldable pub flag_target : Supervisor fl E M → ℕ → ℕ → ℕ → Option Bool → Run (Supervisor fl E M)
  unfolding fail_internally
  flag_target s source target node_index none =
      returns (fail_internally s merge_target_flag_unavailable)
  flag_target s source target node_index (some flag) =
      modify_at s.workers target (λ slot. record slot { merge_pending = some true }) >>= λ workers.
      modify_at s.controls node_index (λ control. record control { scaling_state = merging })
      >>= λ controls. returns (record s {
        workers = workers;
        controls = controls;
        pending_scale = some (merge_down source target node_index none true);
      })

  unfoldable pub send_request :
      Supervisor fl E M → Bool → ℕ → ℕ → ℕ → ℕ → WorkerSlot → Option ℕ → Run (Supervisor fl E M)
  unfolding fail_internally flag_target
  send_request s delivered source target node_index receiver slot none =
      returns (fail_internally s merge_target_inactive)
  send_request s delivered source target node_index receiver slot (some channel) =
      let request : MergeRequest = record {
        source_worker_id = source;
        state_receiver = receiver;
      } in
      if not delivered
      then returns (fail_internally s merge_target_channel_closed)
      else flag_target (record s { requests = (channel, request) ∷ s.requests }) source target
          node_index slot.merge_pending

  -- The source of a merge has parked: its state's receiver is taken out of the pending operation
  -- and goes to the target.
  unfoldable pub request_merge :
      Supervisor fl E M → Bool → ℕ → ℕ → ℕ → Option ℕ → Run (Supervisor fl E M)
  unfolding fail_internally send_request
  request_merge s delivered source target node_index none =
      returns (fail_internally s missing_merge_receiver)
  request_merge s delivered source target node_index (some receiver) =
      index s.workers target >>= λ slot.
      send_request
        (record s { pending_scale = some (merge_down source target node_index none false) })
        delivered source target node_index receiver slot slot.merge_sender

  -- The worker leaves its node: the list of the node and the worker's slot.
  unfoldable pub vacate : Supervisor fl E M → ℕ → ℕ → Run (Supervisor fl E M)
  unfolding remove_worker_from_node
  vacate s worker_id node_index =
      remove_worker_from_node s.active_by_node node_index worker_id >>= λ active_by_node.
      modify_at s.workers worker_id (λ slot. idle_slot) >>= λ workers.
      returns (record s { active_by_node = active_by_node; workers = workers })

  unfoldable pub after_parking :
      Supervisor fl E M → ℕ → Bool → ℕ → Option PendingScale → Run (Supervisor fl E M)
  unfolding complete_scale request_merge
  after_parking s now delivered worker_id (some (pending_remove pending_worker node_index)) =
      if pending_worker == worker_id
      then complete_scale s node_index remove_direction now
      else returns s
  after_parking s now delivered worker_id
        (some (merge_down source target node_index state_receiver waiting)) =
      if source == worker_id && not waiting
      then request_merge s delivered source target node_index state_receiver
      else returns s
  after_parking s now delivered worker_id _ = returns s

  unfoldable pub on_parked :
      Supervisor fl E M → ℕ → Bool → ℕ → ℕ → Option M → Run (Supervisor fl E M)
  unfolding vacate after_parking
  on_parked s now delivered worker_id node_index returned_state =
      vacate s worker_id node_index >>= λ left.
      after_parking
        (record left {
          parked = worker_id ∷ left.parked;
          returned_states = with_state left.returned_states returned_state;
        })
        now delivered worker_id left.pending_scale

  unfoldable pub on_merge_completed :
      Supervisor fl E M → ℕ → ℕ → ℕ → ℕ → Option PendingScale → Run (Supervisor fl E M)
  unfolding complete_scale
  on_merge_completed s now worker_id node_index source_worker_id
        (some (merge_down source target n r waiting)) =
      if source == source_worker_id && (target == worker_id && waiting)
      then complete_scale s node_index merge_direction now
      else returns s
  on_merge_completed s now worker_id node_index source_worker_id _ = returns s

  unfoldable pub on_failed : Supervisor fl E M → ℕ → ℕ → NodeFailure E → Run (Supervisor fl E M)
  unfolding vacate pending_scale_involves_worker failure_error
  on_failed s worker_id node_index failure = vacate s worker_id node_index >>= λ left.
      returns (record left {
        parked = if contains left.parked worker_id then left.parked else worker_id ∷ left.parked;
        pending_scale =
            if pending_scale_involves_worker left.pending_scale worker_id
            then none
            else left.pending_scale;
        abort = true;
        stored_failure = some (failure_error (worker worker_id) failure);
      })

  unfoldable pub handle_event :
      Supervisor fl E M → ℕ → Bool → WorkerEvent E M → Run (Supervisor fl E M)
  unfolding on_started on_parked on_merge_completed on_failed
  handle_event s now delivered (started worker_id) = on_started s now worker_id s.pending_scale
  handle_event s now delivered (parked worker_id node_index returned_state) =
      on_parked s now delivered worker_id node_index returned_state
  handle_event s now delivered (merge_completed worker_id node_index source_worker_id) =
      on_merge_completed s now worker_id node_index source_worker_id s.pending_scale
  handle_event s now delivered (failed worker_id node_index failure) =
      on_failed s worker_id node_index failure
  handle_event s now delivered stopped = returns s

  -- The events in the order they were sent, each with whether a merge request would be delivered.
  unfoldable pub drain_worker_events :
      Supervisor fl E M → ℕ → List (Bool × WorkerEvent E M) → Run (Supervisor fl E M)
  unfolding handle_event
  drain_worker_events s now [] = returns s
  drain_worker_events s now ((delivered, event) ∷ events) =
      handle_event s now delivered event >>= λ next. drain_worker_events next now events
