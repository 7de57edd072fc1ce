-- ===== src/Branch/Dealt.antt =====
-- src/lib.rs, `run_weighted_branch_assignment`: what becomes of the items that the branch takes.
use accumulator.Common.{
  ℕ, ◌≡◌, refl, if-both, Bool, true, false, not, ◌&&◌, ◌||◌, is_some, List, [], ◌∷◌, arith,
  if◌then◌else◌,
}
use accumulator.Errors.{InternalFault, output_channel_closed}
use accumulator.Float.{Float}
use accumulator.Supervisor.{RetireControl, take_request}
use accumulator.Worker.{RecvPoll, item, timeout, disconnected, Tally}
use accumulator.Branch.Controller.{WeightedBranchController}
use accumulator.Branch.Run.{
  waited, drained, sampled, processed, BranchTurn, BranchState, BranchRun, sent, refused,
  route_item, leaves, on_answer, route_turns, run_weighted_branch_assignment,
}

-- An item from the input link, whether the chosen output takes it, and whether the pipeline is
-- stopping then.
abbrev pub Polled : Type 0 → Type 0
Polled I = I × Bool × Bool

abbrev pub answer_polled :
    {I : Type 0} → BranchTurn I → RecvPoll I → List (Polled I) → List (Polled I)
answer_polled turn (item input) later =
    let stopping = turn.is_shutdown || turn.is_aborting_after in
    (input, turn.accepts, stopping) ∷ (if turn.accepts || stopping then later else [])
answer_polled turn timeout later =
    if turn.is_terminated || (turn.is_shutdown && turn.stops_on_shutdown) then [] else later
answer_polled turn disconnected later = []

-- The items that the branch is to take from its input link: up to an abort, a request to retire, the
-- end of the link, or an item that a closed output refuses while the pipeline is not stopping.
unfoldable pub polled : {I : Type 0} → List (BranchTurn I) → List (Polled I)
polled [] = []
polled (turn ∷ turns) =
    let later = answer_polled turn turn.poll (polled turns) in
    if turn.is_aborting then [] else if turn.retire.requested then [] else later

-- The items, dealt to the two outputs in order. An item is lost only if the chosen output refuses it,
-- on a stopping pipeline, or as the last item and with a failure.
pub data Dealt {I : Type 0} : List (Polled I) → List I → List I → List InternalFault → Type 0 where
  none_left : Dealt [] [] [] []
  to_left :
      {input : I} {stopping : Bool} {items : List (Polled I)} {lefts rights : List I}
      {failures : List InternalFault}
      → Dealt items lefts rights failures
      → Dealt ((input, true, stopping) ∷ items) (input ∷ lefts) rights failures
  to_right :
      {input : I} {stopping : Bool} {items : List (Polled I)} {lefts rights : List I}
      {failures : List InternalFault}
      → Dealt items lefts rights failures
      → Dealt ((input, true, stopping) ∷ items) lefts (input ∷ rights) failures
  lost_stopping :
      {input : I} {items : List (Polled I)} {lefts rights : List I} {failures : List InternalFault}
      → Dealt items lefts rights failures
      → Dealt ((input, false, true) ∷ items) lefts rights failures
  lost_failing : {input : I} → Dealt ((input, false, false) ∷ []) [] [] (output_channel_closed ∷ [])

is_some-take_request : (r : RetireControl) → is_some (take_request r).0 ≡ r.requested
unfolding take_request
is_some-take_request r = ground arith

module _ {fl : Float} (E M : Type 0) {I : Type 0} where
  abbrev RunDeals : List (Polled I) → BranchRun fl E M I → Type 0
  RunDeals items run = Dealt items run.left_sent run.right_sent run.failures

  abbrev SendsNothing : BranchRun fl E M I → Type 0
  SendsNothing run = (run.left_sent ≡ []) × (run.right_sent ≡ []) × (run.failures ≡ [])

  leaves-RunDeals :
      (worker_id node_index : ℕ) (s : BranchState fl) → RunDeals [] (leaves worker_id node_index s)
  unfolding leaves
  leaves-RunDeals worker_id node_index s = none_left

  sent-RunDeals :
      (route_left stopping : Bool) (input : I) (s : BranchState fl)
      (later : BranchState fl → BranchRun fl E M I) (items : List (Polled I))
      → s.aborted ≡ false
      → ((t : BranchState fl) → t.aborted ≡ false → RunDeals items (later t))
      → RunDeals ((input, true, stopping) ∷ items) (sent route_left input s later)
  unfolding sent processed
  sent-RunDeals true stopping input s later items going k = to_left (k _ going)
  sent-RunDeals false stopping input s later items going k = to_right (k _ going)

  refused-RunDeals :
      (turn : BranchTurn I) (input : I) (s : BranchState fl)
      (later : BranchState fl → BranchRun fl E M I) (items : List (Polled I))
      → s.aborted ≡ false
      → ((t : BranchState fl) → t.aborted ≡ false → RunDeals items (later t))
      → ((t : BranchState fl) → t.aborted ≡ true → SendsNothing (later t))
      → let stopping = turn.is_shutdown || turn.is_aborting_after in
        RunDeals
          ((input, false, stopping) ∷ (if stopping then items else []))
          (refused turn s later)
  unfolding refused
  refused-RunDeals turn input s later items going k stops =
      go turn.is_shutdown s.aborted turn.is_aborting_after going
    where
      go :
          (shutdown aborted aborting : Bool)
          → aborted ≡ false
          → RunDeals
              ((input, false, shutdown || aborting) ∷ (if shutdown || aborting then items else []))
              (if not shutdown && not (aborted || aborting)
                then (let rest = later (record s { aborted = true }) in
                    record rest { failures = output_channel_closed ∷ rest.failures })
                else later s)
      go true aborted aborting h = lost_stopping (k s going)
      go false false true h = lost_stopping (k s going)
      go false true aborting h = cc
      go false false false h =
          let (l, r, f) = stops (record s { aborted = true }) refl in rw (l, r, f) lost_failing

  routed-RunDeals :
      (accepts route_left : Bool) (turn : BranchTurn I) (input : I) (s : BranchState fl)
      (later : BranchState fl → BranchRun fl E M I) (items : List (Polled I))
      → s.aborted ≡ false
      → ((t : BranchState fl) → t.aborted ≡ false → RunDeals items (later t))
      → ((t : BranchState fl) → t.aborted ≡ true → SendsNothing (later t))
      → let stopping = turn.is_shutdown || turn.is_aborting_after in
        RunDeals
          ((input, accepts, stopping) ∷ (if accepts || stopping then items else []))
          (if accepts then sent route_left input s later else refused turn s later)
  routed-RunDeals true route_left turn input s later items going k stops =
      sent-RunDeals route_left _ input s later items going k
  routed-RunDeals false route_left turn input s later items going k stops =
      refused-RunDeals turn input s later items going k stops

  route_item-RunDeals :
      (sample_interval : ℕ) (turn : BranchTurn I) (input : I) (s : BranchState fl)
      (later : BranchState fl → BranchRun fl E M I) (items : List (Polled I))
      → s.aborted ≡ false
      → ((t : BranchState fl) → t.aborted ≡ false → RunDeals items (later t))
      → ((t : BranchState fl) → t.aborted ≡ true → SendsNothing (later t))
      → RunDeals
          (answer_polled turn (item input) items)
          (route_item sample_interval turn input s later)
  unfolding route_item waited drained sampled
  route_item-RunDeals sample_interval turn input s later items going k stops =
      routed-RunDeals turn.accepts _ turn input _ later items
        (if-both (λ (t : BranchState fl). t.aborted ≡ false) _ going going) k stops

  -- If the worker has stored to the abort flag, the loop ends before it takes another item.
  aborted-SendsNothing :
      (worker_id node_index sample_interval : ℕ) (s : BranchState fl) (turns : List (BranchTurn I))
      → s.aborted ≡ true
      → SendsNothing (route_turns {E = E} {M = M} worker_id node_index sample_interval s turns)
  unfolding route_turns leaves
  aborted-SendsNothing worker_id node_index sample_interval s [] h = (refl, refl, refl)
  aborted-SendsNothing worker_id node_index sample_interval s (turn ∷ turns) h =
      rw h (refl, refl, refl)

  on_answer-RunDeals :
      (worker_id node_index sample_interval : ℕ) (turn : BranchTurn I) (poll : RecvPoll I)
      (s : BranchState fl) (later : BranchState fl → BranchRun fl E M I) (items : List (Polled I))
      → s.aborted ≡ false
      → ((t : BranchState fl) → t.aborted ≡ false → RunDeals items (later t))
      → ((t : BranchState fl) → t.aborted ≡ true → SendsNothing (later t))
      → RunDeals
          (answer_polled turn poll items)
          (on_answer worker_id node_index sample_interval turn poll s later)
  unfolding on_answer waited
  on_answer-RunDeals worker_id node_index sample_interval turn (item input) s later items going k
        stops =
      route_item-RunDeals sample_interval turn input s later items going k stops
  on_answer-RunDeals worker_id node_index sample_interval turn timeout s later items going k stops =
      go (turn.is_terminated || (turn.is_shutdown && turn.stops_on_shutdown))
    where
      go :
          (ends : Bool)
          → RunDeals
              (if ends then [] else items)
              (if ends then leaves worker_id node_index (waited turn s) else later (waited turn s))
      go true = leaves-RunDeals worker_id node_index (waited turn s)
      go false = k _ going
  on_answer-RunDeals worker_id node_index sample_interval turn disconnected s later items going k
        stops =
      leaves-RunDeals worker_id node_index (waited turn s)

  in_loop-RunDeals :
      (aborted aborting asks asked : Bool) (items : List (Polled I))
      (left rest : BranchRun fl E M I)
      → aborted ≡ false
      → asks ≡ asked
      → RunDeals [] left
      → RunDeals items rest
      → RunDeals
          (if aborting then [] else if asked then [] else items)
          (if aborted || aborting then left else if asks then left else rest)
  in_loop-RunDeals true aborting asks asked items left rest still same l r = cc
  in_loop-RunDeals false true asks asked items left rest still same l r = l
  in_loop-RunDeals false false true true items left rest still same l r = l
  in_loop-RunDeals false false false false items left rest still same l r = r
  in_loop-RunDeals false false true false items left rest still same l r = cc
  in_loop-RunDeals false false false true items left rest still same l r = cc

  route_turns-RunDeals :
      (worker_id node_index sample_interval : ℕ) (s : BranchState fl) (turns : List (BranchTurn I))
      → s.aborted ≡ false
      → RunDeals
          (polled turns)
          (route_turns {E = E} {M = M} worker_id node_index sample_interval s turns)
  unfolding route_turns polled take_request
  route_turns-RunDeals worker_id node_index sample_interval s [] going = none_left
  route_turns-RunDeals worker_id node_index sample_interval s (turn ∷ turns) going =
      in_loop-RunDeals s.aborted turn.is_aborting _ turn.retire.requested _ _ _ going
        (is_some-take_request turn.retire) (leaves-RunDeals worker_id node_index s)
        (on_answer-RunDeals worker_id node_index sample_interval turn turn.poll s _ (polled turns)
          going (λ t alive. route_turns-RunDeals worker_id node_index sample_interval t turns alive)
          (λ t same. aborted-SendsNothing worker_id node_index sample_interval t turns same))

  -- Every item that the branch is to take from its input link, up to an abort, a request to retire, the
  -- end of the link or a failure, is put once and in order on one of the two outputs if the chosen one
  -- takes it. An item that a closed output refuses is lost: on a stopping pipeline the branch goes on,
  -- and otherwise it is the last one and this worker sends a failure, the only one that it sends.
  pub run_weighted_branch_assignment-Dealt :
      (worker_id node_index sample_interval : ℕ) (controller : WeightedBranchController fl)
      (tally : Tally) (left_arrivals right_arrivals started_at : ℕ) (turns : List (BranchTurn I))
      → let end : BranchRun fl E M I =
          run_weighted_branch_assignment worker_id node_index sample_interval controller tally
            left_arrivals right_arrivals started_at turns in
        Dealt (polled turns) end.left_sent end.right_sent end.failures
  unfolding run_weighted_branch_assignment
  run_weighted_branch_assignment-Dealt worker_id node_index sample_interval controller tally
        left_arrivals right_arrivals started_at turns =
      route_turns-RunDeals worker_id node_index sample_interval _ turns refl
