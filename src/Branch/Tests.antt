-- ===== src/Branch/Tests.antt =====
-- src/lib.rs: the weighted branch on the float interface's small instance.
use accumulator.Common.{ℕ, ◌≡◌, refl, ◌⊎◌, Bool, true, false, none, List, [], ◌∷◌}
use accumulator.Float.Milli.{pos, milli, milli-IsIeee}
use accumulator.Worker.{RecvPoll, item, Tally}
use accumulator.Branch.Controller.{
  WeightedBranchController, WeightedBranchArmState, new_controller, arms_ready, choose_route,
  sample_arms,
}
use accumulator.Branch.Run.{BranchTurn, BranchRun, run_weighted_branch_assignment}
use accumulator.Branch.Routing.{Alternates, Balances, choose_route-Balances}
use accumulator.Branch.Dealt.{Dealt, polled, run_weighted_branch_assignment-Dealt}

abbrev first_controller : WeightedBranchController milli
unfolding new_controller
first_controller =
    new_controller milli (record { target_queue_seconds = pos 4000; ewma_half_life = 1000000000 })

abbrev ready_arm : ℕ → WeightedBranchArmState milli
ready_arm drain_rate = record {
  last_arrivals = 0;
  last_drains = 0;
  drain_rate_ewma = pos drain_rate;
  net_rate_ewma = pos 0;
  smoothed_len = pos 0;
  ready = true;
}

-- The left queue drains twice as fast as the right one.
abbrev ready_controller : WeightedBranchController milli
ready_controller = record first_controller { left = ready_arm 2000; right = ready_arm 1000 }

routes_left : (choose_route milli ready_controller 5 4).0 ≡ true
unfolding choose_route first_controller
routes_left = refl

choose_route-Balances_example :
    ((arms_ready milli ready_controller ≡ false)
      × Alternates milli ready_controller (choose_route milli ready_controller 5 4))
    ⊎ ((arms_ready milli ready_controller ≡ true)
        × Balances milli ready_controller 5 4 (choose_route milli ready_controller 5 4))
choose_route-Balances_example = choose_route-Balances milli milli-IsIeee ready_controller 5 4

abbrev turn : RecvPoll ℕ → Bool → BranchTurn ℕ
turn poll accepts = record {
  is_aborting = false;
  retire = record { requested = false; transfer_sender = none };
  poll = poll;
  wait_nanos = 5;
  now = 2000000000;
  left_stats = record { arrivals = 3; drains = 1 };
  right_stats = record { arrivals = 3; drains = 1 };
  sampled_left_len = 2;
  sampled_right_len = 2;
  left_len = 2;
  right_len = 2;
  accepts = accepts;
  is_shutdown = false;
  is_aborting_after = false;
  is_terminated = false;
  stops_on_shutdown = false;
}

-- The outputs take turns, and the third item meets a closed output.
abbrev branch_turns : List (BranchTurn ℕ)
branch_turns =
    turn (item 1) true ∷ turn (item 2) true ∷ turn (item 3) false ∷ turn (item 4) true ∷ []

abbrev no_tally : Tally
no_tally = record {
  stats = record { processed_items = 0; process_nanos = 0; wait_nanos = 0 };
  drains = 0;
}

abbrev branch_run : BranchRun milli ℕ ℕ ℕ
unfolding run_weighted_branch_assignment
branch_run =
    run_weighted_branch_assignment 3 1 50000000 first_controller no_tally 0 0 1000000000
      branch_turns

left_gets_first : (branch_run.left_sent ≡ 1 ∷ []) × (branch_run.right_sent ≡ 2 ∷ [])
unfolding branch_run run_weighted_branch_assignment choose_route arms_ready sample_arms
    first_controller
left_gets_first = (refl, refl)

run_weighted_branch_assignment-Dealt_example :
    Dealt (polled branch_turns) branch_run.left_sent branch_run.right_sent branch_run.failures
unfolding branch_run
run_weighted_branch_assignment-Dealt_example =
    run_weighted_branch_assignment-Dealt ℕ ℕ 3 1 50000000 first_controller no_tally 0 0 1000000000
      branch_turns
