-- ===== src/Supervisor/LoopTests.antt =====
-- src/lib.rs, `run_supervisor`: one node with one worker, which parks at a shutdown, or fails.
use accumulator.Common.{ℕ, ◌+◌, ◌≡◌, ◌≢◌, refl, inr, Bool, true, false, none, some, List, [], ◌∷◌}
use accumulator.Common.Outcomes.{Outcome, done}
use accumulator.Errors.{PiperError, output_channel_closed}
use accumulator.Float.Milli.{milli}
use accumulator.Graph.{RuntimeNode}
use accumulator.Links.{LinkKind, standard}
use accumulator.Trend.{LinkView, default_link_control, sample_links}
use accumulator.Control.{
  build_node_controls, startup_counts, required_base_workers, parked_worker_target,
}
use accumulator.Scale.Desired.{collect_node_samples, update_desired_workers}
use accumulator.Supervisor.Assign.{start_workers, refill_parked}
use mathlib.Core.List.{Memᴰ}
use accumulator.Samples.{sample_node}
use accumulator.Policy.{implicit_support, startup_worker_count, resolve_global_worker_cap}
use accumulator.Supervisor.State.{Supervisor, run_node, new_retire, idle_slot}
use accumulator.Supervisor.Events.{parked, drain_worker_events}
use accumulator.Supervisor.Loop.{
  internal_message, Flags, Tick, LoopState, PassEnd, sleeps, breaks, supervise, supervise_all,
}
use accumulator.Supervisor.Finish.{stop_parked}
use accumulator.Supervisor.Whole.{begin, run_supervisor}
use accumulator.Supervisor.Placed.{spawned_once}
use accumulator.Supervisor.Stops.{stops, begun-stops}
use accumulator.Supervisor.Failing.{passes, run_supervisor-fails}

abbrev one_node : List (RuntimeNode milli)
one_node = sample_node false implicit_support 0 1 ∷ []

abbrev always : ℕ → Bool
always id = true

abbrev links : List LinkKind
links = standard true ∷ standard true ∷ standard true ∷ []

abbrev running : Flags
running = record { shutdown = false; abort = false }

abbrev shut_down : Flags
shut_down = record { shutdown = true; abort = false }

abbrev view : LinkView
view = record { stats = record { arrivals = 5; drains = 5 }; queue_len = some 0 }

abbrev tick : Flags → Tick ℕ ℕ
tick flags = record {
  events = [];
  failures = [];
  at_release = flags;
  abort_at_release = false;
  now = 1000000;
  elapsed = 1000000;
  views = view ∷ view ∷ view ∷ [];
  queue_lens = some 0 ∷ some 0 ∷ some 0 ∷ [];
  stats =
      record { process_nanos = 10; wait_nanos = 10; processed_items = 1 }
      ∷ record { process_nanos = 0; wait_nanos = 0; processed_items = 0 }
      ∷ [];
  at_choice = flags;
  at_end = flags;
  late_failures = [];
}

abbrev parking : Tick ℕ ℕ
parking = record (tick shut_down) { events = (true, parked 0 0 (some 7)) ∷ [] }

runs_well :
    run_supervisor one_node always always none none links 1 (parking ∷ []) [] none
    ≡ done (some (7 ∷ []))
unfolding run_supervisor start_workers startup_counts startup_worker_count refill_parked
    parked_worker_target supervise_all drain_worker_events sample_links collect_node_samples
    build_node_controls update_desired_workers
runs_well = refl

abbrev begun : LoopState milli ℕ ℕ
begun = record {
  supervisor_state = record {
    workers =
        record {
          active_node = some 0;
          retire = some (record { requested = false; transfer_sender = none });
          merge_pending = some false;
          merge_sender = some 0;
        }
        ∷ record { active_node = none; retire = none; merge_pending = none; merge_sender = none }
        ∷ [];
    active_by_node = (0 ∷ []) ∷ [];
    parked = 1 ∷ [];
    controls = build_node_controls one_node;
    pending_scale = none;
    abort = false;
    stored_failure = none;
    returned_states = [];
    next_channel = 1;
    requests = [];
    commands = (0, run_node 0) ∷ [];
  };
  links = links;
  supervisor_holds_links = true;
  link_controls =
      default_link_control milli ∷ default_link_control milli ∷ default_link_control milli ∷ [];
  link_queue_lens = 0 ∷ 0 ∷ 0 ∷ [];
}

begins : begin one_node 3 always always none none links ≡ done begun
unfolding begin start_workers startup_counts startup_worker_count refill_parked parked_worker_target
    new_retire idle_slot
begins = refl

abbrev state_at : Outcome (PiperError ℕ) (PassEnd milli ℕ ℕ) → LoopState milli ℕ ℕ
state_at (done (breaks s)) = s
state_at _ = begun

abbrev ended : LoopState milli ℕ ℕ
ended = state_at (supervise_all one_node 3 always always 1 4 1 (parking ∷ []) begun)

ends : supervise_all one_node 3 always always 1 4 1 (parking ∷ []) begun ≡ done (breaks ended)
unfolding supervise_all drain_worker_events sample_links collect_node_samples build_node_controls
    update_desired_workers
ends = refl

begun-stops_example :
    (u : Supervisor milli ℕ ℕ) × (stop_parked ended.supervisor_state ≡ done u)
    × ((id : ℕ)
        → stops id u.commands
          ≡ spawned_once ended.supervisor_state id + stops id ended.supervisor_state.commands)
begun-stops_example =
    begun-stops one_node 3 always always 1 4 1 none none links (parking ∷ []) begun ended begins
      (((0 ∷ [], refl, refl), λ t h. tt), λ t h. tt) ends

stays : passes one_node always always none none links 1 [] begun ≡ done (sleeps begun)
unfolding supervise_all
stays = refl

-- The failure is received when the pass ends the loop.
abbrev too_late : Tick ℕ ℕ
too_late = record parking { late_failures = internal_message output_channel_closed ∷ [] }

abbrev last : LoopState milli ℕ ℕ
last = state_at (supervise one_node 3 always always 1 4 1 too_late begun)

leaves_then : supervise one_node 3 always always 1 4 1 too_late begun ≡ done (breaks last)
unfolding supervise drain_worker_events sample_links collect_node_samples build_node_controls
    update_desired_workers
leaves_then = refl

run_supervisor-fails_example :
    run_supervisor one_node always always none none links 1 (too_late ∷ []) [] none
    ≢ done (some (7 ∷ []))
unfolding resolve_global_worker_cap parked_worker_target required_base_workers startup_worker_count
    supervise
run_supervisor-fails_example =
    run_supervisor-fails one_node always always none none links 1 [] too_late [] begun begun [] none
      (7 ∷ []) begins stays
      (inr (internal_message output_channel_closed, last, Memᴰ.head refl, leaves_then))
