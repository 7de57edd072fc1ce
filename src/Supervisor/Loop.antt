-- ===== src/Supervisor/Loop.antt =====
-- src/lib.rs: the main loop of `run_supervisor`, `drain_internal_failures`.
-- A `Tick` is what one pass of the loop meets: the reports and failures in its channels, the counters
-- of the links and the workers, the clock (one instant for a pass), and what other threads have stored to the shutdown and
-- abort flags when the pass reads them. `abort` of the state is what the supervisor itself has stored.
use Prim.Native.String.{String}
use accumulator.Common.{
  ℕ, Bool, true, false, ◌&&◌, ◌||◌, Option, none, some, is_some, unwrap_or, List, [], ◌∷◌, map, max,
  ◌==◌, if◌then◌else◌,
}
use accumulator.Common.Outcomes.{Outcome, done, ◌>>=◌, lift}
use accumulator.Errors.{
  PiperError, InternalFault, supervisor, internal, telemetry, external_node, external_error_type,
}
use accumulator.Float.{Float}
use accumulator.Graph.{RuntimeNode}
use accumulator.Trend.{LinkView, LinkControl, sample_links}
use accumulator.Control.{active_worker_count}
use accumulator.Links.{LinkKind, close, abort_link}
use accumulator.Scale.{ScaleOperation, choose_scale_operation}
use accumulator.Scale.Desired.{WorkerStats, collect_node_samples, update_desired_workers}
use accumulator.Supervisor.State.{Supervisor}
use accumulator.Supervisor.Events.{WorkerEvent, drain_worker_events}
use accumulator.Supervisor.Assign.{apply_operation}

-- `InternalFailure`. The error of an external node is `none` when it is not of the pipeline's type.
pub data InternalFailure (E : Type 0) : Type 0 where
  internal_message : InternalFault → InternalFailure E
  telemetry_message : (message : String) → InternalFailure E
  external : (node : String) → Option E → InternalFailure E

unfoldable pub stored_error : {E : Type 0} → InternalFailure E → PiperError E
stored_error (internal_message fault) = internal supervisor fault
stored_error (telemetry_message message) = telemetry message
stored_error (external node (some error)) = external_node node error
stored_error (external node none) = internal supervisor (external_error_type node)

-- What other threads have stored.
pub record Flags : Type 0 where
  pub shutdown : Bool
  pub abort : Bool

pub record Tick (E M : Type 0) : Type 0 where
  pub events : List (Bool × WorkerEvent E M)
  pub failures : List (InternalFailure E)
  pub at_release : Flags
  pub abort_at_release : Bool
  pub now : ℕ
  pub elapsed : ℕ
  pub views : List LinkView
  pub queue_lens : List (Option ℕ)
  pub stats : List WorkerStats
  pub at_choice : Flags
  pub at_end : Flags
  pub late_failures : List (InternalFailure E)

pub record LoopState (fl : Float) (E M : Type 0) : Type 0 where
  pub supervisor_state : Supervisor fl E M
  pub links : List LinkKind
  pub supervisor_holds_links : Bool
  pub link_controls : List (LinkControl fl)
  pub link_queue_lens : List ℕ

-- What one pass of the loop leads to.
pub data PassEnd (fl : Float) (E M : Type 0) : Type 0 where
  sleeps : LoopState fl E M → PassEnd fl E M
  breaks : LoopState fl E M → PassEnd fl E M

module _ {fl : Float} {E M : Type 0} where
  unfoldable pub drain_internal_failures :
      Supervisor fl E M → List (InternalFailure E) → Supervisor fl E M
  unfolding stored_error
  drain_internal_failures s [] = s
  drain_internal_failures s (failure ∷ failures) =
      drain_internal_failures
        (record s { stored_failure = some (stored_error failure); abort = true }) failures

  -- `shutdown || abort || stored_failure.is_some()`.
  unfoldable pub is_stopping : Flags → Supervisor fl E M → Bool
  is_stopping flags s = flags.shutdown || (s.abort || flags.abort) || is_some s.stored_failure

  -- The supervisor lets go of the links, once.
  unfoldable pub release_links : Tick E M → LoopState fl E M → LoopState fl E M
  unfolding is_stopping close abort_link
  release_links tick s =
      let aborting =
        s.supervisor_state.abort
        || tick.abort_at_release
        || is_some s.supervisor_state.stored_failure in
      if is_stopping tick.at_release s.supervisor_state && s.supervisor_holds_links
      then record s {
        links = map (λ link. if aborting then abort_link link else close link) s.links;
        supervisor_holds_links = false;
      }
      else s

module _ {fl : Float} {E M : Type 0} (nodes : List (RuntimeNode fl)) (link_count : ℕ)
    (spawns accepts : ℕ → Bool) (output_link cap parked_target : ℕ) where
  -- The samples, and what the nodes want after them.
  unfoldable pub sample_all :
      Tick E M → LoopState fl E M → Outcome (PiperError E) (LoopState fl E M)
  sample_all tick s = do
    link_controls ← lift (sample_links fl tick.views (max tick.elapsed 1000) s.link_controls)
    (controls, _) ← lift (
        collect_node_samples tick.now link_controls s.supervisor_state.active_by_node nodes
          s.supervisor_state.controls tick.stats)
    wanted ←
        lift (update_desired_workers link_controls s.supervisor_state.active_by_node nodes controls)
    done (
        let sampled = s.supervisor_state in
        record s {
          supervisor_state = record sampled { controls = wanted };
          link_controls = link_controls;
          link_queue_lens = map (λ len. unwrap_or len 0) tick.queue_lens;
        })

  unfoldable pub carry_out :
      Option ScaleOperation → Supervisor fl E M → Outcome (PiperError E) (Supervisor fl E M)
  unfolding apply_operation
  carry_out none s = done s
  carry_out (some operation) s =
      apply_operation nodes link_count spawns accepts s parked_target operation

  -- An operation is chosen unless the pipeline is stopping or another operation is pending.
  unfoldable pub scale :
      Tick E M
      → List (LinkControl fl)
      → Supervisor fl E M
      → Outcome (PiperError E) (Supervisor fl E M)
  unfolding is_stopping carry_out
  scale tick link_controls s =
      if is_stopping tick.at_choice s || is_some s.pending_scale then done s else (do
        (operation, controls) ← lift (
            choose_scale_operation link_controls s.active_by_node nodes output_link tick.now
              s.controls cap)
        carry_out operation (record s { controls = controls }))

  -- The end of the pass.
  unfoldable pub leave : Tick E M → LoopState fl E M → PassEnd fl E M
  unfolding is_stopping drain_internal_failures
  leave tick s =
      if is_stopping tick.at_end s.supervisor_state
        && active_worker_count s.supervisor_state.active_by_node == 0
      then breaks (record s {
        supervisor_state = drain_internal_failures s.supervisor_state tick.late_failures;
      })
      else sleeps s

  unfoldable pub supervise : Tick E M → LoopState fl E M → Outcome (PiperError E) (PassEnd fl E M)
  unfolding drain_internal_failures release_links sample_all scale leave
  supervise tick s = do
    drained ← lift (drain_worker_events s.supervisor_state tick.now tick.events)
    let failing = drain_internal_failures drained tick.failures
    sampled ← sample_all tick (release_links tick (record s { supervisor_state = failing }))
    scaled ← scale tick sampled.link_controls sampled.supervisor_state
    done (leave tick (record sampled { supervisor_state = scaled }))

  -- After a pass; `later` is the rest of the loop.
  unfoldable pub after_pass :
      (LoopState fl E M → Outcome (PiperError E) (PassEnd fl E M))
      → PassEnd fl E M
      → Outcome (PiperError E) (PassEnd fl E M)
  after_pass later (sleeps s) = later s
  after_pass later (breaks s) = done (breaks s)

  -- The loop. When the ticks are used up it has not ended.
  unfoldable pub supervise_all :
      List (Tick E M) → LoopState fl E M → Outcome (PiperError E) (PassEnd fl E M)
  unfolding supervise after_pass
  supervise_all [] s = done (sleeps s)
  supervise_all (tick ∷ ticks) s =
      supervise tick s >>= after_pass (λ after. supervise_all ticks after)
