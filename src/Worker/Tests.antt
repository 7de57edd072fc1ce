-- ===== src/Worker/Tests.antt =====
-- src/lib.rs, `run_assignment`: a node that sums its items, on concrete turns.
use accumulator.Common.{ℕ, ◌+◌, ◌≡◌, refl, Bool, true, false, none, some, List, [], ◌∷◌}
use accumulator.Common.Results.{ok}
use accumulator.Supervisor.{RetireControl, parked, merge_completed, started}
use accumulator.Worker.Assignment.{
  Stage, RecvPoll, item, timeout, Turn, Tally, AssignmentRun, returned, initial_state,
  run_assignment,
}
use accumulator.Worker.Protocol.{IsProtocol, run_assignment-IsProtocol}
use accumulator.Worker.Absorbed.{Took, offered}
use accumulator.Worker.Passes.{Leftover}
use accumulator.Worker.Conserved.{run_assignment-Took}

abbrev summing : Stage ℕ ℕ ℕ
summing = record {
  init_box = ok 0;
  process_box = λ sum n. ok (sum + n);
  cleanup_box = λ sum. ok tt;
  merge_box = λ sum other. ok (sum + other);
}

abbrev no_request : RetireControl
no_request = record { requested = false; transfer_sender = none }

abbrev turn : RecvPoll ℕ → Bool → Turn ℕ ℕ
turn poll terminated = record {
  is_aborting = false;
  merge_pending = true;
  inbox = [];
  inbox_closed = false;
  retire = no_request;
  poll = poll;
  is_aborting_after = false;
  is_terminated = terminated;
  is_shutdown = false;
  stops_on_shutdown = false;
  wait_nanos = 5;
  process_nanos = 7;
}

-- Two items, a merge of 10 from worker 4 before the second, and then the input is at its end.
abbrev sum_turns : List (Turn ℕ ℕ)
sum_turns =
    turn (item 1) false
    ∷ (record (turn (item 2) false) {
      inbox = record { source_worker_id = 4; source_state = some 10 } ∷ [];
    })
    ∷ turn timeout true
    ∷ []

abbrev no_tally : Tally
no_tally = record {
  stats = record { processed_items = 0; process_nanos = 0; wait_nanos = 0 };
  drains = 0;
}

abbrev sum_end : AssignmentRun ℕ ℕ
sum_end = record {
  events = started 3 ∷ merge_completed 3 1 4 ∷ parked 3 1 (some 13) ∷ [];
  tally = record {
    stats = record { processed_items = 2; process_nanos = 14; wait_nanos = 15 };
    drains = 2;
  };
  fate = returned 13;
}

sum_run : run_assignment summing 3 1 true true none no_tally sum_turns ≡ sum_end
unfolding run_assignment
sum_run = refl

run_assignment-IsProtocol_example :
    let end = run_assignment summing 3 1 true true none no_tally sum_turns in
    IsProtocol 3 1 end.events end.fate
run_assignment-IsProtocol_example =
    run_assignment-IsProtocol summing 3 1 true true none no_tally sum_turns

starts_at_zero : initial_state summing 3 1 none ≡ ok 0
unfolding initial_state
starts_at_zero = refl

run_assignment-Took_example :
    (rest : List _) × Took summing 0 13 (offered sum_turns) sum_end.events rest
    × Leftover summing 3 1 sum_end.fate rest
run_assignment-Took_example =
    run_assignment-Took summing 3 1 true true none 0 13 no_tally sum_turns sum_end starts_at_zero
      sum_run refl
