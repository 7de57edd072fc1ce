-- ===== src/Branch/Run.antt =====
-- src/lib.rs: `run_weighted_branch_assignment`. A `BranchTurn` is what one pass of the loop meets:
-- the shared flags and counters when they are read, the input link's answer, the time in nanoseconds,
-- and whether the chosen output takes the item. `last_sample` is the controller's last sample time.
use accumulator.Common.{
  ℕ, ◌-◌, Bool, true, false, not, ◌&&◌, ◌||◌, none, is_some, List, [], ◌∷◌, leb, if◌then◌else◌,
}
use accumulator.Common.Words.{fetch_add}
use accumulator.Errors.{InternalFault, output_channel_closed}
use accumulator.Float.{Float, as_secs_f64}
use accumulator.Trend.{LinkStats}
use accumulator.Supervisor.{RetireControl, take_request, WorkerEvent, started, parked}
use accumulator.Worker.{RecvPoll, item, timeout, disconnected, Tally}
use accumulator.Branch.Controller.{WeightedBranchController, sample_arms, arms_ready, choose_route}

pub record BranchTurn (I : Type 0) : Type 0 where
  pub is_aborting : Bool
  pub retire : RetireControl
  pub poll : RecvPoll I
  pub wait_nanos : ℕ
  pub now : ℕ
  pub left_stats : LinkStats
  pub right_stats : LinkStats
  pub sampled_left_len : ℕ
  pub sampled_right_len : ℕ
  pub left_len : ℕ
  pub right_len : ℕ
  pub accepts : Bool
  pub is_shutdown : Bool
  pub is_aborting_after : Bool
  pub is_terminated : Bool
  pub stops_on_shutdown : Bool

-- `aborted` tells whether this worker has stored to the abort flag.
pub record BranchState (fl : Float) : Type 0 where
  pub controller : WeightedBranchController fl
  pub last_sample : ℕ
  pub tally : Tally
  pub left_arrivals : ℕ
  pub right_arrivals : ℕ
  pub aborted : Bool

-- A run: what it put on the two outputs, the failures and the reports that it sent, and whether it
-- has returned.
pub record BranchRun (fl : Float) (E M I : Type 0) : Type 0 where
  pub state : BranchState fl
  pub left_sent : List I
  pub right_sent : List I
  pub failures : List InternalFault
  pub events : List (WorkerEvent E M)
  pub ended : Bool

module _ {fl : Float} where
  unfoldable pub waited : {I : Type 0} → BranchTurn I → BranchState fl → BranchState fl
  waited turn s =
      let tally = s.tally in
      let stats = tally.stats in
      record s {
        tally = record tally {
          stats = record stats { wait_nanos = fetch_add stats.wait_nanos turn.wait_nanos };
        };
      }

  unfoldable pub drained : BranchState fl → BranchState fl
  drained s =
      let tally = s.tally in record s { tally = record tally { drains = fetch_add tally.drains 1 } }

  unfoldable pub processed : BranchState fl → BranchState fl
  processed s =
      let tally = s.tally in
      let stats = tally.stats in
      record s {
        tally = record tally {
          stats = record stats { processed_items = fetch_add stats.processed_items 1 };
        };
      }

  -- The controller is sampled until both arms are ready, and then once in each interval.
  unfoldable pub sampled : {I : Type 0} → ℕ → BranchTurn I → BranchState fl → BranchState fl
  sampled sample_interval turn s =
      let elapsed = turn.now - s.last_sample in
      if not (arms_ready fl s.controller) || leb sample_interval elapsed
      then record s {
        last_sample = turn.now;
        controller =
            sample_arms fl s.controller (fl.max_of (as_secs_f64 fl elapsed) (fl.literal 1 1000000))
              turn.left_stats turn.right_stats turn.sampled_left_len turn.sampled_right_len;
      }
      else s

module _ {fl : Float} {E M I : Type 0} where
  -- The item is on the chosen output; `later` is the rest of the loop.
  unfoldable pub sent :
      Bool → I → BranchState fl → (BranchState fl → BranchRun fl E M I) → BranchRun fl E M I
  unfolding processed
  sent route_left input s later =
      if route_left
      then (let rest =
            later (record (processed s) { left_arrivals = fetch_add s.left_arrivals 1 }) in
          record rest { left_sent = input ∷ rest.left_sent })
      else (let rest =
            later (record (processed s) { right_arrivals = fetch_add s.right_arrivals 1 }) in
          record rest { right_sent = input ∷ rest.right_sent })

  -- The chosen output is closed, and the item is dropped.
  unfoldable pub refused :
      BranchTurn I → BranchState fl → (BranchState fl → BranchRun fl E M I) → BranchRun fl E M I
  refused turn s later =
      if not turn.is_shutdown && not (s.aborted || turn.is_aborting_after)
      then (let rest = later (record s { aborted = true }) in
          record rest { failures = output_channel_closed ∷ rest.failures })
      else later s

  unfoldable pub route_item :
      ℕ
      → BranchTurn I
      → I
      → BranchState fl
      → (BranchState fl → BranchRun fl E M I)
      → BranchRun fl E M I
  unfolding waited drained sampled sent refused
  route_item sample_interval turn input s later =
      let ready = sampled sample_interval turn (drained (waited turn s)) in
      let (route_left, controller) =
        choose_route fl ready.controller turn.left_len turn.right_len in
      let routed = record ready { controller = controller } in
      if turn.accepts then sent route_left input routed later else refused turn routed later

  -- The worker leaves the loop.
  unfoldable pub leaves : ℕ → ℕ → BranchState fl → BranchRun fl E M I
  leaves worker_id node_index s = record {
    state = s;
    left_sent = [];
    right_sent = [];
    failures = [];
    events = parked worker_id node_index none ∷ [];
    ended = true;
  }

  unfoldable pub on_answer :
      ℕ
      → ℕ
      → ℕ
      → BranchTurn I
      → RecvPoll I
      → BranchState fl
      → (BranchState fl → BranchRun fl E M I)
      → BranchRun fl E M I
  unfolding route_item leaves
  on_answer worker_id node_index sample_interval turn (item input) s later =
      route_item sample_interval turn input s later
  on_answer worker_id node_index sample_interval turn timeout s later =
      if turn.is_terminated || (turn.is_shutdown && turn.stops_on_shutdown)
      then leaves worker_id node_index (waited turn s)
      else later (waited turn s)
  on_answer worker_id node_index sample_interval turn disconnected s later =
      leaves worker_id node_index (waited turn s)

  -- The loop. When the turns are used up the worker is still in it.
  unfoldable pub route_turns : ℕ → ℕ → ℕ → BranchState fl → List (BranchTurn I) → BranchRun fl E M I
  unfolding on_answer take_request
  route_turns worker_id node_index sample_interval s [] = record {
    state = s;
    left_sent = [];
    right_sent = [];
    failures = [];
    events = [];
    ended = false;
  }
  route_turns worker_id node_index sample_interval s (turn ∷ turns) =
      let later =
        on_answer worker_id node_index sample_interval turn turn.poll s
          λ after. route_turns worker_id node_index sample_interval after turns in
      if s.aborted || turn.is_aborting
      then leaves worker_id node_index s
      else if is_some (take_request turn.retire).0
      then leaves worker_id node_index s
      else later

  -- `started_at` is the instant at which the worker starts.
  unfoldable pub run_weighted_branch_assignment :
      ℕ
      → ℕ
      → ℕ
      → WeightedBranchController fl
      → Tally
      → ℕ
      → ℕ
      → ℕ
      → List (BranchTurn I)
      → BranchRun fl E M I
  unfolding route_turns
  run_weighted_branch_assignment worker_id node_index sample_interval controller tally left_arrivals
        right_arrivals started_at turns =
      let rest =
        route_turns worker_id node_index sample_interval
          (record {
            controller = controller;
            last_sample = started_at - sample_interval - 1000;
            tally = tally;
            left_arrivals = left_arrivals;
            right_arrivals = right_arrivals;
            aborted = false;
          })
          turns in
      record rest { events = started worker_id ∷ rest.events }
