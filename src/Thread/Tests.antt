-- ===== src/Thread/Tests.antt =====
-- src/lib.rs, `worker_loop`: a thread that runs a node twice, and then stops.
use accumulator.Common.{ℕ, ◌≡◌, refl, true, false, none, List, [], ◌∷◌}
use accumulator.Common.Results.{ok}
use accumulator.Float.Milli.{milli}
use accumulator.Supervisor.{started, parked, stopped, take_request}
use accumulator.Worker.{Stage, Turn, Tally, timeout, run_assignment}
use accumulator.Thread.Jobs.{Job, run_job, stop_job, worker_loop}
use accumulator.Thread.Orderly.{IsOrderly, worker_loop-IsOrderly}

abbrev idle : Stage ℕ ℕ ℕ
idle = record {
  init_box = ok 0;
  process_box = λ sum n. ok sum;
  cleanup_box = λ sum. ok tt;
  merge_box = λ sum other. ok sum;
}

abbrev last_turn : Turn ℕ ℕ
last_turn = record {
  is_aborting = false;
  merge_pending = false;
  inbox = [];
  inbox_closed = false;
  retire = record { requested = false; transfer_sender = none };
  poll = timeout;
  is_aborting_after = false;
  is_terminated = true;
  is_shutdown = false;
  stops_on_shutdown = false;
  wait_nanos = 5;
  process_nanos = 7;
}

abbrev no_tally : Tally
no_tally = record {
  stats = record { process_nanos = 0; wait_nanos = 0; processed_items = 0 };
  drains = 0;
}

abbrev job : ℕ → Job milli ℕ ℕ ℕ
job node = run_job idle node false true none no_tally (last_turn ∷ [])

abbrev jobs : List (Job milli ℕ ℕ ℕ)
jobs = job 0 ∷ job 1 ∷ stop_job ∷ job 2 ∷ []

reports :
    worker_loop 3 jobs ≡ started 3 ∷ parked 3 0 none ∷ started 3 ∷ parked 3 1 none ∷ stopped ∷ []
unfolding worker_loop run_assignment take_request
reports = refl

worker_loop-IsOrderly_example : IsOrderly (worker_loop 3 jobs)
worker_loop-IsOrderly_example = worker_loop-IsOrderly 3 jobs
