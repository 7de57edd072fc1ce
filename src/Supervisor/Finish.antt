-- ===== src/Supervisor/Finish.antt =====
-- src/lib.rs, `run_supervisor`: what follows the main loop.
use Prim.Native.String.{String}
use accumulator.Common.{ℕ, suc, Option, none, some, List, [], ◌∷◌, index}
use accumulator.Common.Outcomes.{Outcome, done, throws, ◌>>=◌, lift}
use accumulator.Errors.{PiperError, worker, worker_panicked}
use accumulator.Float.{Float}
use accumulator.Supervisor.State.{Supervisor, stop}

-- The threads are joined in order; `panicked` has the message of each that panicked.
unfoldable pub join_workers :
    {E : Type 0} → ℕ → List (Option String) → Outcome (PiperError E) (Unit {0})
join_workers worker_id [] = done tt
join_workers worker_id (some message ∷ rest) = throws (worker_panicked (worker worker_id) message)
join_workers worker_id (none ∷ rest) = join_workers (suc worker_id) rest

unfoldable pub stop_recorder :
    {E : Type 0} → Option (PiperError E) → Outcome (PiperError E) (Unit {0})
stop_recorder none = done tt
stop_recorder (some error) = throws error

module _ {fl : Float} {E M : Type 0} where
  -- `parked.drain(..)`, whose first element is the last of this list.
  unfoldable pub stop_workers :
      List ℕ → Supervisor fl E M → Outcome (PiperError E) (Supervisor fl E M)
  stop_workers [] s = done s
  stop_workers (worker_id ∷ rest) s = stop_workers rest s >>= λ stopped.
      lift (index stopped.workers worker_id) >>= λ slot.
      done (record stopped { commands = (worker_id, stop) ∷ stopped.commands })

  unfoldable pub stop_parked : Supervisor fl E M → Outcome (PiperError E) (Supervisor fl E M)
  unfolding stop_workers
  stop_parked s = stop_workers s.parked (record s { parked = [] })

  unfoldable pub supervisor_result : Supervisor fl E M → Outcome (PiperError E) (List M)
  supervisor_result s = elim s.stored_failure [
    | some failure ↦ throws failure
    | none ↦ done s.returned_states
  ]

  -- What follows the loop. `recorder` is the error of the telemetry recorder, if it stops with one.
  unfoldable pub finish_supervisor :
      List (Option String)
      → Option (PiperError E)
      → Supervisor fl E M
      → Outcome (PiperError E) (List M)
  unfolding stop_parked join_workers stop_recorder supervisor_result
  finish_supervisor panicked recorder s = do
    stopped ← stop_parked s
    _ ← join_workers 0 panicked
    _ ← stop_recorder recorder
    supervisor_result stopped
