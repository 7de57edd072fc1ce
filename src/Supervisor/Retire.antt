-- ===== src/Supervisor/Retire.antt =====
-- src/lib.rs: the part of the loop of `run_supervisor` that removes a worker from a node, which asks
-- it to clean up, or to give its state to another worker of the node.
use accumulator.Common.{
  ℕ, ◌+◌, Option, none, some, List, [], ◌∷◌, ltb, ◌==◌, if◌then◌else◌, length, false, Run, returns,
  ◌>>=◌, index, modify_at,
}
use accumulator.Float.{Float}
use accumulator.Graph.{RuntimeNode}
use accumulator.Control.{merging, node_has_merge_state}
use accumulator.Supervisor.State.{
  Supervisor, RetireControl, request_cleanup, request_transfer, pending_remove, merge_down,
}

-- The first worker of the list other than the given one.
unfoldable pub find_other : ℕ → List ℕ → Option ℕ
find_other worker_id [] = none
find_other worker_id (id ∷ ids) =
    let rest = find_other worker_id ids in if id == worker_id then rest else some id

module _ {fl : Float} {E M : Type 0} (nodes : List (RuntimeNode fl)) where
  unfoldable pub request_merge_down :
      Supervisor fl E M → ℕ → ℕ → ℕ → Option RetireControl → Run (Supervisor fl E M)
  request_merge_down s worker_id node_index target none = returns s
  request_merge_down s worker_id node_index target (some retire) =
      modify_at s.workers worker_id
        (λ slot. record slot { retire = some (request_transfer retire s.next_channel) })
      >>= λ workers.
          modify_at s.controls node_index (λ control. record control { scaling_state = merging })
          >>= λ controls. returns (record s {
            workers = workers;
            controls = controls;
            next_channel = s.next_channel + 1;
            pending_scale =
                some (merge_down worker_id target node_index (some s.next_channel) false);
          })

  unfoldable pub retire_by_merge : Supervisor fl E M → ℕ → ℕ → Option ℕ → Run (Supervisor fl E M)
  unfolding request_merge_down
  retire_by_merge s worker_id node_index none = returns s
  retire_by_merge s worker_id node_index (some target) = index s.workers worker_id >>= λ slot.
      request_merge_down s worker_id node_index target slot.retire

  unfoldable pub retire_by_cleanup :
      Supervisor fl E M → ℕ → ℕ → Option RetireControl → Run (Supervisor fl E M)
  retire_by_cleanup s worker_id node_index none = returns s
  retire_by_cleanup s worker_id node_index (some retire) =
      modify_at s.workers worker_id (λ slot. record slot { retire = some (request_cleanup retire) })
      >>= λ workers. returns (record s {
        workers = workers;
        pending_scale = some (pending_remove worker_id node_index);
      })

  unfoldable pub retire_worker : Supervisor fl E M → ℕ → ℕ → Run (Supervisor fl E M)
  unfolding retire_by_merge retire_by_cleanup find_other
  retire_worker s node_index worker_id =
      let clean_up = index s.workers worker_id >>= λ slot.
      retire_by_cleanup s worker_id node_index slot.retire in
      index nodes node_index >>= λ node.
      if node_has_merge_state node
      then (index s.active_by_node node_index >>= λ active.
          if ltb 1 (length active)
          then retire_by_merge s worker_id node_index (find_other worker_id active)
          else clean_up)
      else clean_up

  unfoldable pub retire_first : Supervisor fl E M → ℕ → List ℕ → Run (Supervisor fl E M)
  unfolding retire_worker
  retire_first s node_index [] = returns s
  retire_first s node_index (worker_id ∷ rest) = retire_worker s node_index worker_id

  -- The worker of the operation, or the first of the node.
  unfoldable pub apply_remove : Supervisor fl E M → ℕ → Option ℕ → Run (Supervisor fl E M)
  unfolding retire_first
  apply_remove s node_index (some worker_id) = retire_worker s node_index worker_id
  apply_remove s node_index none =
      index s.active_by_node node_index >>= λ active. retire_first s node_index active
