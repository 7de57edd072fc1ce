-- ===== src/Worker/Assignment.antt =====
-- src/lib.rs, `run_assignment` and `drain_merge_requests`. A node's implementation is the interface
-- `Stage`, the boxed `dyn DynNode`; what it emits goes to the output link and is not part of its
-- state. A `Turn` is what one pass of the loop meets: what the shared flags hold when they are read (a
-- request that was taken is gone, and what the flags hold next is in the next turn), the requests in
-- the merge channel, and the answer of the input link. Events are in the order in which they are sent.
use accumulator.Common.{
  ℕ, Bool, true, not, ◌&&◌, ◌||◌, Option, none, some, List, [], ◌∷◌, ◌++◌, if◌then◌else◌,
}
use accumulator.Common.Words.{fetch_add}
use accumulator.Common.Results.{Result, ok, err}
use accumulator.Errors.{
  merge_request_channel_closed, state_transfer_channel_closed, state_transfer_receiver_closed,
}
use accumulator.Scale.Desired.{WorkerStats}
use accumulator.Supervisor.{
  RetireControl, RetireAction, transfer, take_request, NodeFailure, internal_failure, WorkerEvent,
  started, parked, merge_completed, failed,
}

pub record Stage (E M I : Type 0) : Type 0 where
  pub init_box : Result (NodeFailure E) M
  pub process_box : M → I → Result (NodeFailure E) M
  pub cleanup_box : M → Result (NodeFailure E) (Unit {0})
  pub merge_box : M → M → Result (NodeFailure E) M

-- `RecvPoll`.
pub data RecvPoll (I : Type 0) : Type 0 where
  item : I → RecvPoll I
  timeout : RecvPoll I
  disconnected : RecvPoll I

-- A request in the merge channel, and what its state channel delivers: `none` when it is closed.
pub record Inbound (M : Type 0) : Type 0 where
  pub source_worker_id : ℕ
  pub source_state : Option M

pub record Turn (M I : Type 0) : Type 0 where
  pub is_aborting : Bool
  pub merge_pending : Bool
  pub inbox : List (Inbound M)
  pub inbox_closed : Bool
  pub retire : RetireControl
  pub poll : RecvPoll I
  pub is_aborting_after : Bool
  pub is_terminated : Bool
  pub is_shutdown : Bool
  pub stops_on_shutdown : Bool
  pub wait_nanos : ℕ
  pub process_nanos : ℕ

pub data WorkerExit : Type 0 where
  graceful : WorkerExit
  abort_exit : WorkerExit
  retire_exit : RetireAction → WorkerExit

pub record Drained (E M : Type 0) : Type 0 where
  pub state : M
  pub events : List (WorkerEvent E M)
  pub failure : Option (NodeFailure E)

-- What a pass of the loop leads to.
pub data Next (E M : Type 0) : Type 0 where
  goes_on : M → Next E M
  exits : WorkerExit → M → Next E M
  fails : NodeFailure E → Next E M

-- The counters that the thread shares with the supervisor: its own, and the drains of its input.
pub record Tally : Type 0 where
  pub stats : WorkerStats
  pub drains : ℕ

pub record Passed (E M : Type 0) : Type 0 where
  pub events : List (WorkerEvent E M)
  pub tally : Tally
  pub next : Next E M

-- What has become of the state that the worker held.
pub data Fate (M : Type 0) : Type 0 where
  held : M → Fate M
  returned : M → Fate M
  transferred : (channel : ℕ) → M → Fate M
  cleaned : M → Fate M
  dropped : Fate M

pub record AssignmentRun (E M : Type 0) : Type 0 where
  pub events : List (WorkerEvent E M)
  pub tally : Tally
  pub fate : Fate M

module _ {E M I : Type 0} (stage : Stage E M I) (worker_id node_index : ℕ) where
  -- `later` is what becomes of the rest of the channel, on a state.
  unfoldable pub on_merged : M → ℕ → Result (NodeFailure E) M → (M → Drained E M) → Drained E M
  on_merged state source_worker_id (err failure) later = record {
    state = state;
    events = [];
    failure = some failure;
  }
  on_merged state source_worker_id (ok merged) later =
      let rest = later merged in
      record rest { events = merge_completed worker_id node_index source_worker_id ∷ rest.events }

  unfoldable pub on_request : M → ℕ → Option M → (M → Drained E M) → Drained E M
  unfolding on_merged
  on_request state source_worker_id none later = record {
    state = state;
    events = [];
    failure = some (internal_failure state_transfer_channel_closed);
  }
  on_request state source_worker_id (some source) later =
      on_merged state source_worker_id (stage.merge_box state source) later

  -- The loop of `drain_merge_requests`.
  unfoldable pub drain_inbox : M → List (Inbound M) → Bool → Drained E M
  unfolding on_request
  drain_inbox state [] closed = record {
    state = state;
    events = [];
    failure = if closed then some (internal_failure merge_request_channel_closed) else none;
  }
  drain_inbox state (request ∷ rest) closed =
      on_request state request.source_worker_id request.source_state
        λ merged. drain_inbox merged rest closed

  unfoldable pub drain_merge_requests : M → Turn M I → Drained E M
  unfolding drain_inbox
  drain_merge_requests state turn =
      if not turn.merge_pending
      then record { state = state; events = []; failure = none }
      else drain_inbox state turn.inbox turn.inbox_closed

  waited : Turn M I → Tally → Tally
  waited turn tally =
      let stats = tally.stats in
      record tally {
        stats = record stats { wait_nanos = fetch_add stats.wait_nanos turn.wait_nanos };
      }

  processed : Turn M I → Tally → Tally
  processed turn tally =
      let stats = tally.stats in
      record {
        stats = record stats { process_nanos = fetch_add stats.process_nanos turn.process_nanos };
        drains = fetch_add tally.drains 1;
      }

  counted : Tally → Tally
  counted tally =
      let stats = tally.stats in
      record tally { stats = record stats { processed_items = fetch_add stats.processed_items 1 } }

  -- The `match` on the input link's answer.
  unfoldable pub on_poll : M → Tally → Turn M I → RecvPoll I → Tally × Next E M
  unfolding waited processed counted
  on_poll state tally turn (item input) =
      let timed = processed turn (waited turn tally) in
      elim (stage.process_box state input) [
        | err failure ↦ (timed, fails failure)
        | ok after ↦ (counted timed, goes_on after)
      ]
  on_poll state tally turn timeout =
      if turn.is_aborting_after
      then (waited turn tally, exits abort_exit state)
      else if turn.is_terminated || (turn.is_shutdown && turn.stops_on_shutdown)
      then (waited turn tally, exits graceful state)
      else (waited turn tally, goes_on state)
  on_poll state tally turn disconnected =
      (waited turn tally, exits (if turn.is_aborting_after then abort_exit else graceful) state)

  -- The pass after the merge requests, when none of them failed.
  unfoldable pub after_merges : M → Tally → Turn M I → Tally × Next E M
  unfolding on_poll take_request
  after_merges state tally turn = elim (take_request turn.retire).0 [
    | some action ↦ (tally, exits (retire_exit action) state)
    | none ↦ on_poll state tally turn turn.poll
  ]

  unfoldable pub after_drain : Drained E M → Option (NodeFailure E) → Tally → Turn M I → Passed E M
  unfolding after_merges
  after_drain drained (some failure) tally turn = record {
    events = drained.events;
    tally = tally;
    next = fails failure;
  }
  after_drain drained none tally turn =
      let (tally', next) = after_merges drained.state tally turn in
      record { events = drained.events; tally = tally'; next = next }

  -- One pass of the loop.
  unfoldable pub pass : M → Tally → Turn M I → Passed E M
  unfolding drain_merge_requests after_drain
  pass state tally turn =
      if turn.is_aborting
      then record { events = []; tally = tally; next = exits abort_exit state }
      else (let drained = drain_merge_requests state turn in
          after_drain drained drained.failure tally turn)

  unfoldable pub report_failure : NodeFailure E → Tally → AssignmentRun E M
  report_failure failure tally = record {
    events = failed worker_id node_index failure ∷ [];
    tally = tally;
    fate = dropped;
  }

  -- The `match exit`, for a node whose state is returned or not; `accepted` tells whether the
  -- transfer's receiver is still there.
  unfoldable pub finish_exit : Bool → Bool → Tally → WorkerExit → M → AssignmentRun E M
  unfolding report_failure
  finish_exit returns_state accepted tally abort_exit state = record {
    events = parked worker_id node_index none ∷ [];
    tally = tally;
    fate = dropped;
  }
  finish_exit true accepted tally graceful state = record {
    events = parked worker_id node_index (some state) ∷ [];
    tally = tally;
    fate = returned state;
  }
  finish_exit returns_state accepted tally (retire_exit (transfer channel)) state =
      if accepted
      then record {
        events = parked worker_id node_index none ∷ [];
        tally = tally;
        fate = transferred channel state;
      }
      else report_failure (internal_failure state_transfer_receiver_closed) tally
  finish_exit returns_state accepted tally _ state = elim (stage.cleanup_box state) [
    | err failure ↦ report_failure failure tally
    | ok _ ↦ record {
      events = parked worker_id node_index none ∷ [];
      tally = tally;
      fate = cleaned state;
    }
  ]

  -- What follows a pass; `later` is the rest of the loop.
  unfoldable pub follow :
      Bool → Bool → Tally → Next E M → (M → Tally → AssignmentRun E M) → AssignmentRun E M
  unfolding report_failure finish_exit
  follow returns_state accepted tally (fails failure) later = report_failure failure tally
  follow returns_state accepted tally (exits exit after) later =
      finish_exit returns_state accepted tally exit after
  follow returns_state accepted tally (goes_on after) later = later after tally

  -- The loop. When the turns are used up the worker is still in it.
  unfoldable pub run_turns : Bool → Bool → M → Tally → List (Turn M I) → AssignmentRun E M
  unfolding pass follow
  run_turns returns_state accepted state tally [] = record {
    events = [];
    tally = tally;
    fate = held state;
  }
  run_turns returns_state accepted state tally (turn ∷ turns) =
      let passed = pass state tally turn in
      let rest =
        follow returns_state accepted passed.tally passed.next
          λ after tally'. run_turns returns_state accepted after tally' turns in
      record rest { events = passed.events ++ rest.events }

  unfoldable pub initial_state : Option M → Result (NodeFailure E) M
  initial_state (some state) = ok state
  initial_state none = stage.init_box

  unfoldable pub run_from_state :
      Bool → Bool → Result (NodeFailure E) M → Tally → List (Turn M I) → AssignmentRun E M
  unfolding report_failure run_turns
  run_from_state returns_state accepted (err failure) tally turns = report_failure failure tally
  run_from_state returns_state accepted (ok state) tally turns =
      let rest = run_turns returns_state accepted state tally turns in
      record rest { events = started worker_id ∷ rest.events }

  -- `initial` is the assignment's state, if it brings one.
  unfoldable pub run_assignment :
      Bool → Bool → Option M → Tally → List (Turn M I) → AssignmentRun E M
  unfolding initial_state run_from_state
  run_assignment returns_state accepted initial tally turns =
      run_from_state returns_state accepted (initial_state initial) tally turns
