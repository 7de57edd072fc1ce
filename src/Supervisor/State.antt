-- ===== src/Supervisor/State.antt =====
-- src/lib.rs: `WorkerSlot`, `RetireControl`, `PendingScale`, the local variables of
-- `run_supervisor` as the record `Supervisor`, and `remove_worker_from_node`. A worker is its id, and
-- a channel between threads is a number. `M` is the type of the boxed states. `parked` has its end
-- at the head; `requests` are the merge requests that were sent, and `commands` the commands, both
-- newest first.
use accumulator.Common.{
  ℕ, Bool, true, false, not, ◌||◌, Option, none, some, List, [], ◌∷◌, ◌==◌, if◌then◌else◌, Run,
  modify_at,
}
use accumulator.Errors.{PiperError}
use accumulator.Float.{Float}
use accumulator.Control.{NodeControl}

pub record RetireControl : Type 0 where
  pub requested : Bool
  pub transfer_sender : Option ℕ

pub data RetireAction : Type 0 where
  cleanup : RetireAction
  transfer : (channel : ℕ) → RetireAction

unfoldable pub new_retire : RetireControl
new_retire = record { requested = false; transfer_sender = none }

unfoldable pub request_cleanup : RetireControl → RetireControl
request_cleanup r = record r { requested = true }

unfoldable pub request_transfer : RetireControl → ℕ → RetireControl
request_transfer r channel = record { requested = true; transfer_sender = some channel }

-- The worker's side: the request, and the control without it.
unfoldable pub take_request : RetireControl → Option RetireAction × RetireControl
take_request r = if not r.requested then (none, r) else (
  (elim r.transfer_sender [ none ↦ some cleanup | some channel ↦ some (transfer channel) ]),
  record { requested = false; transfer_sender = none },
)

pub record WorkerSlot : Type 0 where
  pub active_node : Option ℕ
  pub retire : Option RetireControl
  pub merge_pending : Option Bool
  pub merge_sender : Option ℕ

unfoldable pub idle_slot : WorkerSlot
idle_slot = record { active_node = none; retire = none; merge_pending = none; merge_sender = none }

pub data PendingScale : Type 0 where
  pending_add : (worker_id node_index : ℕ) → PendingScale
  pending_remove : (worker_id node_index : ℕ) → PendingScale
  merge_down :
      (source_worker_id target_worker_id node_index : ℕ) (state_receiver : Option ℕ)
      (waiting_for_target : Bool)
      → PendingScale

pub record MergeRequest : Type 0 where
  pub source_worker_id : ℕ
  pub state_receiver : ℕ

pub data WorkerCommand : Type 0 where
  run_node : (node_index : ℕ) → WorkerCommand
  run_weighted_branch : (node_index : ℕ) → WorkerCommand
  stop : WorkerCommand

pub record Supervisor (fl : Float) (E M : Type 0) : Type 0 where
  pub workers : List WorkerSlot
  pub active_by_node : List (List ℕ)
  pub parked : List ℕ
  pub controls : List (NodeControl fl)
  pub pending_scale : Option PendingScale
  pub abort : Bool
  pub stored_failure : Option (PiperError E)
  pub returned_states : List M
  pub next_channel : ℕ
  pub requests : List (ℕ × MergeRequest)
  pub commands : List (ℕ × WorkerCommand)

-- The last element of a list with the given head, and the list without it.
abbrev pub last_of : ℕ → List ℕ → ℕ
last_of x [] = x
last_of x (y ∷ ys) = last_of y ys

abbrev pub before_last : ℕ → List ℕ → List ℕ
before_last x [] = []
before_last x (y ∷ ys) = x ∷ before_last y ys

-- What follows the removed element: its last element comes to the front, into the gap.
unfoldable pub last_to_front : List ℕ → List ℕ
last_to_front [] = []
last_to_front (x ∷ xs) = last_of x xs ∷ before_last x xs

-- `swap_remove` at the first position of the id, if it stands in the list.
unfoldable pub swap_remove_id : ℕ → List ℕ → List ℕ
unfolding last_to_front
swap_remove_id id [] = []
swap_remove_id id (x ∷ xs) = if x == id then last_to_front xs else x ∷ swap_remove_id id xs

unfoldable pub remove_worker_from_node : List (List ℕ) → ℕ → ℕ → Run (List (List ℕ))
unfolding swap_remove_id
remove_worker_from_node active_by_node node_index worker_id =
    modify_at active_by_node node_index (swap_remove_id worker_id)

unfoldable pub pending_scale_involves_worker : Option PendingScale → ℕ → Bool
pending_scale_involves_worker none worker_id = false
pending_scale_involves_worker (some (pending_add w n)) worker_id = w == worker_id
pending_scale_involves_worker (some (pending_remove w n)) worker_id = w == worker_id
pending_scale_involves_worker (some (merge_down source target n r b)) worker_id =
    source == worker_id || target == worker_id
