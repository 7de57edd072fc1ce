-- ===== src/Supervisor/Assign.antt =====
-- src/lib.rs: `spawn_worker`, `assign_worker`, the workers that `run_supervisor` starts with, and the
-- part of its loop that carries out an operation. `spawns` tells of a worker's id whether the system
-- starts its thread, and `accepts` whether its command channel is open. The links are `link_count`
-- in number, and the channels that an assignment makes from them are not here.
use accumulator.Common.{
  ℕ, zero, suc, ◌+◌, ◌-◌, Bool, false, Option, none, some, List, [], ◌∷◌, ◌++◌, ltb, if◌then◌else◌,
  length, is_some, index, modify_at,
}
use accumulator.Supervisor.Retire.{apply_remove}
use accumulator.Common.Outcomes.{Outcome, done, throws, crashes, ◌>>=◌, lift}
use accumulator.Errors.{
  PiperError, worker, spawn_failed, internal, command_channel_closed, worker_for_external_node,
}
use accumulator.Float.{Float}
use accumulator.Graph.{RuntimeNode, DynNode}
use accumulator.Control.{startup_counts, active_worker_count}
use accumulator.Scale.{ScaleOperation, add_worker, remove_worker}
use accumulator.Supervisor.State.{
  Supervisor, idle_slot, new_retire, pending_add, WorkerCommand, run_node, run_weighted_branch,
}

-- `links[link]`.
unfoldable pub use_link : {E : Type 0} → ℕ → ℕ → Outcome (PiperError E) (Unit {0})
use_link link_count link = if ltb link link_count then done tt else crashes

module _ {fl : Float} {E M : Type 0} (nodes : List (RuntimeNode fl)) (link_count : ℕ)
    (spawns accepts : ℕ → Bool) where
  unfoldable pub spawn_worker : Supervisor fl E M → Outcome (PiperError E) (ℕ × Supervisor fl E M)
  spawn_worker s =
      let worker_id = length s.workers in
      if spawns worker_id
      then done (worker_id, record s { workers = s.workers ++ idle_slot ∷ [] })
      else throws (spawn_failed (worker worker_id))

  -- The worker's slot, the node's list, and the command.
  unfoldable pub occupy :
      Supervisor fl E M
      → ℕ
      → ℕ
      → Option Bool
      → Option ℕ
      → WorkerCommand
      → Outcome (PiperError E) (Supervisor fl E M)
  occupy s worker_id node_index merge_pending merge_sender command = do
    workers ← lift (
        modify_at s.workers worker_id (λ slot. record {
          active_node = some node_index;
          retire = some new_retire;
          merge_pending = merge_pending;
          merge_sender = merge_sender;
        }))
    active_by_node ← lift (modify_at s.active_by_node node_index (λ ids. ids ++ worker_id ∷ []))
    if accepts worker_id
        then done (record s {
          workers = workers;
          active_by_node = active_by_node;
          commands = (worker_id, command) ∷ s.commands;
        })
        else throws (internal (worker worker_id) command_channel_closed)

  unfoldable pub assign_branch :
      Supervisor fl E M → ℕ → ℕ → RuntimeNode fl → Outcome (PiperError E) (Supervisor fl E M)
  unfolding use_link occupy
  assign_branch s worker_id node_index node = do
    left ← lift (index node.output_links 0)
    right ← lift (index node.output_links 1)
    _ ← use_link link_count node.input_link
    _ ← use_link link_count left
    _ ← use_link link_count right
    occupy s worker_id node_index none none (run_weighted_branch node_index)

  unfoldable pub assign_stage :
      Supervisor fl E M
      → ℕ
      → ℕ
      → RuntimeNode fl
      → Option DynNode
      → Outcome (PiperError E) (Supervisor fl E M)
  unfolding use_link occupy
  assign_stage s worker_id node_index node none =
      throws (internal (worker worker_id) worker_for_external_node)
  assign_stage s worker_id node_index node (some stage) = do
    output ← lift (index node.output_links 0)
    _ ← use_link link_count output
    _ ← use_link link_count node.input_link
    occupy (record s { next_channel = s.next_channel + 1 }) worker_id node_index (some false)
        (some s.next_channel) (run_node node_index)

  unfoldable pub assign_worker :
      Supervisor fl E M → ℕ → ℕ → Outcome (PiperError E) (Supervisor fl E M)
  unfolding assign_branch assign_stage
  assign_worker s worker_id node_index = do
    _ ← lift (index s.workers worker_id)
    node ← lift (index nodes node_index)
    if is_some node.weighted_branch_config
        then assign_branch s worker_id node_index node
        else assign_stage s worker_id node_index node node.stage

  -- A new worker for the node.
  unfoldable pub start_worker : Supervisor fl E M → ℕ → Outcome (PiperError E) (Supervisor fl E M)
  unfolding spawn_worker assign_worker
  start_worker s node_index =
      spawn_worker s >>= λ (worker_id, spawned). assign_worker spawned worker_id node_index

  -- `for _ in 0..base`.
  unfoldable pub start_base : ℕ → Supervisor fl E M → ℕ → Outcome (PiperError E) (Supervisor fl E M)
  unfolding start_worker
  start_base zero s node_index = done s
  start_base (suc n) s node_index =
      start_worker s node_index >>= λ next. start_base n next node_index

  -- The first round, for the nodes from `node_index` on.
  unfoldable pub start_bases :
      List (RuntimeNode fl) → ℕ → Supervisor fl E M → Outcome (PiperError E) (Supervisor fl E M)
  unfolding start_base
  start_bases [] node_index s = done s
  start_bases (node ∷ rest) node_index s =
      start_base (startup_counts node).0 s node_index >>= λ next.
      start_bases rest (suc node_index) next

  -- `while remaining > 0 && active_worker_count(..) < global_worker_cap`.
  unfoldable pub start_extra :
      ℕ → ℕ → Supervisor fl E M → ℕ → Outcome (PiperError E) (Supervisor fl E M)
  unfolding start_worker
  start_extra cap zero s node_index = done s
  start_extra cap (suc remaining) s node_index =
      if ltb (active_worker_count s.active_by_node) cap
      then (start_worker s node_index >>= λ next. start_extra cap remaining next node_index)
      else done s

  unfoldable pub start_extras :
      ℕ → List (RuntimeNode fl) → ℕ → Supervisor fl E M → Outcome (PiperError E) (Supervisor fl E M)
  unfolding start_extra
  start_extras cap [] node_index s = done s
  start_extras cap (node ∷ rest) node_index s =
      start_extra cap (startup_counts node).1 s node_index >>= λ next.
      start_extras cap rest (suc node_index) next

  -- Both rounds.
  unfoldable pub start_workers : ℕ → Supervisor fl E M → Outcome (PiperError E) (Supervisor fl E M)
  unfolding start_bases start_extras
  start_workers cap s = start_bases nodes 0 s >>= λ next. start_extras cap nodes 0 next

  -- `while parked.len() < parked_target`, for `missing` workers.
  unfoldable pub refill_parked : ℕ → Supervisor fl E M → Outcome (PiperError E) (Supervisor fl E M)
  unfolding spawn_worker
  refill_parked zero s = done s
  refill_parked (suc missing) s = spawn_worker s >>= λ (worker_id, spawned).
      refill_parked missing (record spawned { parked = worker_id ∷ spawned.parked })

  -- `parked.pop()`, or a new worker.
  unfoldable pub take_parked :
      Supervisor fl E M → List ℕ → Outcome (PiperError E) (ℕ × Supervisor fl E M)
  unfolding spawn_worker
  take_parked s [] = spawn_worker s
  take_parked s (worker_id ∷ rest) = done (worker_id, record s { parked = rest })

  unfoldable pub apply_add : Supervisor fl E M → ℕ → ℕ → Outcome (PiperError E) (Supervisor fl E M)
  unfolding take_parked assign_worker refill_parked
  apply_add s parked_target node_index = take_parked s s.parked >>= λ (worker_id, taken).
      assign_worker taken worker_id node_index >>= λ assigned.
      refill_parked (parked_target - length assigned.parked)
        (record assigned { pending_scale = some (pending_add worker_id node_index) })

  -- The `match operation` of the loop.
  unfoldable pub apply_operation :
      Supervisor fl E M → ℕ → ScaleOperation → Outcome (PiperError E) (Supervisor fl E M)
  unfolding apply_add apply_remove
  apply_operation s parked_target (add_worker node_index) = apply_add s parked_target node_index
  apply_operation s parked_target (remove_worker node_index worker_id) =
      lift (apply_remove nodes s node_index worker_id)
