-- ===== src/Supervisor/Tests.antt =====
-- The theorems about the supervisor, applied to a run of two workers of which one fails.
use mathlib.Core.List.{Memᴰ}
use accumulator.Common.{
  first_some, ℕ, ◌≤◌, ◌<◌, ◌≡◌, map, sum, length, refl, Bool, true, false, none, some, List, [],
  ◌∷◌, returns, arith,
}
use accumulator.Float.Milli.{milli}
use accumulator.Errors.{worker, user_process}
use accumulator.Supervisor.State.{
  new_retire, WorkerSlot, run_node, pending_add, Supervisor, idle_slot,
}
use accumulator.Supervisor.Events.{
  WorkerEvent, parked, failed, process_failure, handle_event, drain_worker_events,
}
use accumulator.Supervisor.Quiet.{HasFailed}
use accumulator.Supervisor.Failures.{drain_worker_events-HasFailed}
use accumulator.Supervisor.Places.{places, places-handle_event}
use accumulator.Supervisor.Sizes.{IsSized}
use accumulator.Supervisor.Total.{drain_worker_events-IsSized}
use accumulator.Common.Outcomes.{done}
use accumulator.Policy.{startup_worker_count}
use accumulator.Trend.{stable}
use accumulator.Control.{
  startup_counts, required_workers, required_base_workers, active_worker_count, node_can_scale,
}
use accumulator.Scale.{add_worker, choose_scale_operation}
use accumulator.Supervisor.Assign.{start_workers, apply_operation}
use accumulator.Supervisor.Startup.{start_workers-required}
use accumulator.Supervisor.Cap.{apply_operation-cap}
use accumulator.Samples.{two_nodes, three_links, two_controls, two_active}

abbrev running : Supervisor milli ℕ ℕ
running = record {
  workers = idle_slot ∷ idle_slot ∷ [];
  active_by_node = two_active;
  parked = [];
  controls = two_controls;
  pending_scale = none;
  abort = false;
  stored_failure = none;
  returned_states = [];
  next_channel = 0;
  requests = [];
  commands = [];
}

-- Worker 1 has failed, worker 0 stands on its node's list.
abbrev one_failed : Supervisor milli ℕ ℕ
one_failed = record running {
  active_by_node = (0 ∷ []) ∷ [] ∷ [];
  parked = 1 ∷ [];
  abort = true;
  stored_failure = some (user_process (worker 1) 7);
}

abbrev both_gone : Supervisor milli ℕ ℕ
both_gone = record one_failed {
  active_by_node = [] ∷ [] ∷ [];
  parked = 0 ∷ 1 ∷ [];
  returned_states = 5 ∷ [];
}

abbrev failure_report : WorkerEvent ℕ ℕ
failure_report = failed 1 1 (process_failure 7)

abbrev reports : List (Bool × WorkerEvent ℕ ℕ)
reports = (true, failure_report) ∷ (true, parked 0 0 (some 5)) ∷ []

drained : drain_worker_events running 0 reports ≡ returns both_gone
unfolding drain_worker_events idle_slot
drained = refl

drain_worker_events-HasFailed_example : HasFailed both_gone
drain_worker_events-HasFailed_example =
    drain_worker_events-HasFailed running both_gone 0 1 1 (process_failure 7) true reports
      (Memᴰ.head refl) drained

handled : handle_event running 0 true failure_report ≡ returns one_failed
unfolding handle_event idle_slot
handled = refl

placed_once : (w : ℕ) → places running w ≤ 1
placed_once w = ground arith

places-handle_event_example : places one_failed 1 ≡ places running 1
places-handle_event_example =
    places-handle_event running one_failed 0 true failure_report placed_once (1 ∷ [], refl, refl)
      handled 1

running-IsSized : IsSized 2 2 running
running-IsSized = record { slots = refl; lists = refl; tables = refl; pending = tt }

drain_worker_events-IsSized_example :
    (t : Supervisor milli ℕ ℕ) × (drain_worker_events running 0 reports ≡ returns t) × IsSized 2 2 t
drain_worker_events-IsSized_example =
    drain_worker_events-IsSized 2 2 running 0 reports running-IsSized
      ((omega arith, omega arith), ((omega arith, omega arith), tt))

-- The system starts every thread, and no command channel is closed.
abbrev always : ℕ → Bool
always id = true

abbrev busy_slot : ℕ → ℕ → WorkerSlot
busy_slot node_index channel = record {
  active_node = some node_index;
  retire = some (record { requested = false; transfer_sender = none });
  merge_pending = some false;
  merge_sender = some channel;
}

abbrev empty_slot : WorkerSlot
empty_slot = record { active_node = none; retire = none; merge_pending = none; merge_sender = none }

abbrev before_start : Supervisor milli ℕ ℕ
before_start = record running { workers = []; active_by_node = [] ∷ [] ∷ [] }

-- One worker for the support node, and two for the anchor.
abbrev after_start : Supervisor milli ℕ ℕ
after_start = record running {
  workers = busy_slot 0 0 ∷ busy_slot 1 1 ∷ busy_slot 1 2 ∷ [];
  active_by_node = (0 ∷ []) ∷ (1 ∷ 2 ∷ []) ∷ [];
  next_channel = 3;
  commands = (2, run_node 1) ∷ (1, run_node 1) ∷ (0, run_node 0) ∷ [];
}

starts : start_workers two_nodes 3 always always 4 before_start ≡ done after_start
unfolding start_workers startup_counts startup_worker_count new_retire idle_slot
starts = refl

few_required : required_base_workers two_nodes ≤ 4
unfolding required_base_workers required_workers startup_worker_count
few_required = omega arith

no_overflow : sum (map required_workers two_nodes) < 18446744073709551616
unfolding required_workers startup_worker_count
no_overflow = omega arith

start_workers-required_example :
    (map length after_start.active_by_node ≡ map required_workers two_nodes)
    × (active_worker_count after_start.active_by_node ≡ required_base_workers two_nodes)
start_workers-required_example =
    start_workers-required two_nodes 3 always always 4 before_start after_start refl no_overflow
      few_required starts

chooses :
    choose_scale_operation (three_links stable) two_active two_nodes 2 0 two_controls 4
    ≡ returns (some (add_worker 1), two_controls)
unfolding choose_scale_operation node_can_scale first_some
chooses = refl

-- A new worker goes to the anchor, and two more are parked.
abbrev after_adding : Supervisor milli ℕ ℕ
after_adding = record running {
  workers = empty_slot ∷ empty_slot ∷ busy_slot 1 0 ∷ empty_slot ∷ empty_slot ∷ [];
  active_by_node = (0 ∷ []) ∷ (1 ∷ 2 ∷ []) ∷ [];
  parked = 4 ∷ 3 ∷ [];
  pending_scale = some (pending_add 2 1);
  next_channel = 1;
  commands = (2, run_node 1) ∷ [];
}

applies :
    apply_operation two_nodes 3 always always
      (record running { controls = two_controls })
      2
      (add_worker 1)
    ≡ done after_adding
unfolding apply_operation new_retire idle_slot
applies = refl

apply_operation-cap_example : active_worker_count after_adding.active_by_node ≤ 4
apply_operation-cap_example =
    apply_operation-cap two_nodes 3 always always (three_links stable) 2 0 4 2 running after_adding
      (add_worker 1) two_controls (omega arith) chooses applies
