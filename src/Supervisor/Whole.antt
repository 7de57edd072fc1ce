-- ===== src/Supervisor/Whole.antt =====
-- src/lib.rs: `run_supervisor` as a whole, but for its snapshots.
use Prim.Native.String.{String}
use accumulator.Common.{ℕ, Bool, true, false, Option, none, some, List, [], map, length}
use accumulator.Common.Outcomes.{Outcome, done, ◌>>=◌}
use accumulator.Errors.{PiperError}
use accumulator.Float.{Float}
use accumulator.Graph.{RuntimeNode}
use accumulator.Policy.{resolve_global_worker_cap}
use accumulator.Trend.{default_link_control}
use accumulator.Links.{LinkKind}
use accumulator.Control.{build_node_controls, required_base_workers, parked_worker_target}
use accumulator.Supervisor.State.{Supervisor}
use accumulator.Supervisor.Assign.{start_workers, refill_parked}
use accumulator.Supervisor.Loop.{Tick, LoopState, PassEnd, sleeps, breaks, supervise_all}
use accumulator.Supervisor.Finish.{finish_supervisor}

module _ {fl : Float} {E M : Type 0} where
  unfoldable pub initial_supervisor : List (RuntimeNode fl) → Supervisor fl E M
  initial_supervisor nodes = record {
    workers = [];
    active_by_node = map (λ node. []) nodes;
    parked = [];
    controls = build_node_controls nodes;
    pending_scale = none;
    abort = false;
    stored_failure = none;
    returned_states = [];
    next_channel = 0;
    requests = [];
    commands = [];
  }

  -- After the loop, if it has ended.
  unfoldable pub conclude :
      List (Option String)
      → Option (PiperError E)
      → PassEnd fl E M
      → Outcome (PiperError E) (Option (List M))
  unfolding finish_supervisor
  conclude panicked recorder (sleeps s) = done none
  conclude panicked recorder (breaks s) =
      finish_supervisor panicked recorder s.supervisor_state >>= λ states. done (some states)

module _ {fl : Float} {E M : Type 0} (nodes : List (RuntimeNode fl)) (link_count : ℕ)
    (spawns accepts : ℕ → Bool) where
  -- Up to the loop: the first workers and the parked ones.
  unfoldable pub begin :
      (parallelism configured : Option ℕ)
      → List LinkKind
      → Outcome (PiperError E) (LoopState fl E M)
  unfolding initial_supervisor
  begin parallelism configured links = do
    started ←
        start_workers nodes link_count spawns accepts
          (resolve_global_worker_cap parallelism configured (length nodes)
            (required_base_workers nodes))
          (initial_supervisor nodes)
    parked ← refill_parked nodes link_count spawns accepts (parked_worker_target nodes) started
    done (record {
      supervisor_state = parked;
      links = links;
      supervisor_holds_links = true;
      link_controls = map (λ link. default_link_control fl) links;
      link_queue_lens = map (λ link. 0) links;
    })

-- `none` when the ticks are used up before the loop has ended.
unfoldable pub run_supervisor :
    {fl : Float} {E M : Type 0}
    → List (RuntimeNode fl)
    → (spawns accepts : ℕ → Bool) → (parallelism configured : Option ℕ) → List LinkKind
    → (output_link : ℕ) → List (Tick E M)
    → List (Option String)
    → Option (PiperError E)
    → Outcome (PiperError E) (Option (List M))
unfolding begin conclude
run_supervisor {fl = fl} {E = E} {M = M} nodes spawns accepts parallelism configured links
      output_link ticks panicked recorder =
    do
      s ← begin nodes (length links) spawns accepts parallelism configured links
      end ←
          supervise_all nodes (length links) spawns accepts output_link
            (resolve_global_worker_cap parallelism configured (length nodes)
              (required_base_workers nodes))
            (parked_worker_target nodes) ticks s
      conclude panicked recorder end
