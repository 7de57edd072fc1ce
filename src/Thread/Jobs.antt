-- ===== src/Thread/Jobs.antt =====
-- src/lib.rs: `worker_loop`. A `Job` is a command with what the run that it starts meets. When what it
-- meets is used up, the run has not returned, and the worker takes no further command.
use accumulator.Common.{ℕ, Bool, true, false, Option, List, [], ◌∷◌, ◌++◌, if◌then◌else◌}
use accumulator.Float.{Float}
use accumulator.Supervisor.{WorkerEvent, stopped}
use accumulator.Worker.{Stage, Turn, Tally, Fate, held, run_assignment}
use accumulator.Branch.{WeightedBranchController, BranchTurn, run_weighted_branch_assignment}

pub data Job (fl : Float) (E M I : Type 0) : Type 0 where
  run_job :
      Stage E M I
      → (node_index : ℕ) (returns_state accepted : Bool) → Option M
      → Tally
      → List (Turn M I)
      → Job fl E M I
  branch_job :
      (node_index sample_interval : ℕ)
      → WeightedBranchController fl
      → Tally
      → (left_arrivals right_arrivals started_at : ℕ) → List (BranchTurn I)
      → Job fl E M I
  stop_job : Job fl E M I

-- Whether the run has returned: its state is no longer in its loop.
unfoldable pub has_returned : {M : Type 0} → Fate M → Bool
has_returned (held state) = false
has_returned _ = true

module _ {fl : Float} {E M I : Type 0} (worker_id : ℕ) where
  -- The command channel is closed behind the last job.
  unfoldable pub worker_loop : List (Job fl E M I) → List (WorkerEvent E M)
  unfolding has_returned
  worker_loop [] = stopped ∷ []
  worker_loop (run_job stage node_index returns_state accepted initial tally turns ∷ jobs) =
      let rest = worker_loop jobs in
      let end =
        run_assignment stage worker_id node_index returns_state accepted initial tally turns in
      if has_returned end.fate then end.events ++ rest else end.events
  worker_loop
        (branch_job node_index sample_interval controller tally left_arrivals right_arrivals
            started_at turns
          ∷ jobs) =
      let rest = worker_loop jobs in
      let end =
        run_weighted_branch_assignment {E = E} {M = M} worker_id node_index sample_interval
          controller tally left_arrivals right_arrivals started_at turns in
      if end.ended then end.events ++ rest else end.events
  worker_loop (stop_job ∷ jobs) = stopped ∷ []
