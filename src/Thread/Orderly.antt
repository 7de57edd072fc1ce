-- ===== src/Thread/Orderly.antt =====
-- src/lib.rs, `worker_loop`: the reports of a thread over all of its runs.
use accumulator.Common.{
  ℕ, ◌-◌, ◌≡◌, ◌⊎◌, inl, inr, refl, sym, ap, subst, ◌∙◌, Bool, true, false, ◌||◌, ◌&&◌, none,
  is_some, List, [], ◌∷◌, ◌++◌, All, if◌then◌else◌, if-both,
}
use accumulator.Float.{Float}
use accumulator.Supervisor.{
  take_request, WorkerEvent, started, parked, merge_completed, failed, stopped,
}
use accumulator.Worker.{
  RecvPoll, item, timeout, disconnected, Fate, held, returned, transferred, cleaned, dropped,
  run_assignment,
}
use accumulator.Worker.Protocol.{IsMerge, EndsOnce, Reported, IsProtocol, run_assignment-IsProtocol}
use accumulator.Branch.{
  BranchTurn, BranchState, BranchRun, sent, refused, route_item, leaves, on_answer, route_turns,
  run_weighted_branch_assignment,
}
use accumulator.Thread.Jobs.{Job, run_job, branch_job, stop_job, has_returned, worker_loop}

-- What a thread is doing, by its reports.
pub data Phase : Type 0 where
  free : Phase
  busy : Phase
  finished : Phase
  broken : Phase

module _ {E M : Type 0} where
  -- A free thread starts a run, or fails to, or stops; a busy one merges, or ends its run.
  abbrev pub next_phase : Phase → WorkerEvent E M → Phase
  next_phase free (started w) = busy
  next_phase free (failed w i failure) = free
  next_phase free stopped = finished
  next_phase busy (merge_completed w i source) = busy
  next_phase busy (parked w i state) = free
  next_phase busy (failed w i failure) = free
  next_phase _ _ = broken

  abbrev pub phase_after : Phase → List (WorkerEvent E M) → Phase
  phase_after phase [] = phase
  phase_after phase (event ∷ events) = phase_after (next_phase phase event) events

  phase_after-append :
      (phase : Phase) (xs ys : List (WorkerEvent E M))
      → phase_after phase (xs ++ ys) ≡ phase_after (phase_after phase xs) ys
  phase_after-append phase [] ys = refl
  phase_after-append phase (x ∷ xs) ys = phase_after-append (next_phase phase x) xs ys

  -- A run that has returned leaves the thread free, and one that has not is going on.
  abbrev Runs : Bool → Phase → List (WorkerEvent E M) → Type 0
  Runs ended phase events = phase_after phase events ≡ (if ended then free else busy)

  merges-busy :
      (w i : ℕ) (events : List (WorkerEvent E M))
      → All (IsMerge w i) events
      → phase_after busy events ≡ busy
  merges-busy w i [] m = refl
  merges-busy w i (merge_completed v j source ∷ events) m = merges-busy w i events m.1
  merges-busy w i (started v ∷ events) m = elim m.0 [ ]
  merges-busy w i (parked v j state ∷ events) m = elim m.0 [ ]
  merges-busy w i (failed v j failure ∷ events) m = elim m.0 [ ]
  merges-busy w i (stopped ∷ events) m = elim m.0 [ ]

  ends-free :
      (w i : ℕ) (events : List (WorkerEvent E M))
      → EndsOnce w i events
      → phase_after busy events ≡ free
  ends-free w i [] e = elim e [ ]
  ends-free w i (parked v j state ∷ []) e = refl
  ends-free w i (failed v j failure ∷ []) e = refl
  ends-free w i (started v ∷ []) e = elim e [ ]
  ends-free w i (merge_completed v j source ∷ []) e = elim e [ ]
  ends-free w i (stopped ∷ []) e = elim e [ ]
  ends-free w i (merge_completed v j source ∷ (next ∷ events)) e = ends-free w i (next ∷ events) e.1
  ends-free w i (started v ∷ (next ∷ events)) e = elim e.0 [ ]
  ends-free w i (parked v j state ∷ (next ∷ events)) e = elim e.0 [ ]
  ends-free w i (failed v j failure ∷ (next ∷ events)) e = elim e.0 [ ]
  ends-free w i (stopped ∷ (next ∷ events)) e = elim e.0 [ ]

  Reported-Runs :
      (w i : ℕ) (events : List (WorkerEvent E M)) (fate : Fate M)
      → Reported w i events fate
      → Runs (has_returned fate) busy events
  unfolding has_returned
  Reported-Runs w i events (held state) r = merges-busy w i events r
  Reported-Runs w i events (returned state) r = ends-free w i events r
  Reported-Runs w i events (transferred channel state) r = ends-free w i events r
  Reported-Runs w i events (cleaned state) r = ends-free w i events r
  Reported-Runs w i events dropped r = ends-free w i events r

  protocol-Runs :
      (w i : ℕ) (events : List (WorkerEvent E M)) (fate : Fate M)
      → IsProtocol w i events fate
      → Runs (has_returned fate) free events
  unfolding has_returned
  protocol-Runs w i (started v ∷ events) fate p = Reported-Runs w i events fate p.1
  protocol-Runs w i (failed v j failure ∷ []) dropped p = refl
  protocol-Runs w i events fate p = elim p [ ]

  -- The thread has stopped, or is in a run.
  abbrev pub IsOrderly : List (WorkerEvent E M) → Type 0
  IsOrderly events = (phase_after free events ≡ finished) ⊎ (phase_after free events ≡ busy)

  run-IsOrderly :
      (ended : Bool) (events rest : List (WorkerEvent E M))
      → Runs ended free events
      → IsOrderly rest
      → IsOrderly (if ended then events ++ rest else events)
  run-IsOrderly true events rest e o =
      subst (λ p. (p ≡ finished) ⊎ (p ≡ busy))
        (sym (phase_after-append free events rest ∙ ap (λ p. phase_after p rest) e)) o
  run-IsOrderly false events rest e o = inr e

module _ {fl : Float} {E M I : Type 0} (worker_id node_index sample_interval : ℕ) where
  -- The branch's worker is in its loop, or has parked and returned.
  abbrev InOrOut : BranchRun fl E M I → Type 0
  InOrOut run =
      ((run.events ≡ []) × (run.ended ≡ false))
      ⊎ ((run.events ≡ parked worker_id node_index none ∷ []) × (run.ended ≡ true))

  route_item-InOrOut :
      (turn : BranchTurn I) (input : I) (s : BranchState fl)
      (later : BranchState fl → BranchRun fl E M I)
      → ((t : BranchState fl) → InOrOut (later t))
      → InOrOut (route_item sample_interval turn input s later)
  unfolding route_item sent refused
  route_item-InOrOut turn input s later k =
      if-both InOrOut turn.accepts (if-both InOrOut _ (k _) (k _)) (if-both InOrOut _ (k _) (k _))

  on_answer-InOrOut :
      (turn : BranchTurn I) (poll : RecvPoll I) (s : BranchState fl)
      (later : BranchState fl → BranchRun fl E M I)
      → ((t : BranchState fl) → InOrOut (later t))
      → InOrOut (on_answer worker_id node_index sample_interval turn poll s later)
  unfolding on_answer leaves
  on_answer-InOrOut turn (item input) s later k = route_item-InOrOut turn input s later k
  on_answer-InOrOut turn timeout s later k =
      if-both InOrOut (turn.is_terminated || (turn.is_shutdown && turn.stops_on_shutdown))
        (inr (refl, refl)) (k _)
  on_answer-InOrOut turn disconnected s later k = inr (refl, refl)

  route_turns-InOrOut :
      (s : BranchState fl) (turns : List (BranchTurn I))
      → InOrOut (route_turns worker_id node_index sample_interval s turns)
  unfolding route_turns leaves
  route_turns-InOrOut s [] = inl (refl, refl)
  route_turns-InOrOut s (turn ∷ turns) =
      if-both InOrOut (s.aborted || turn.is_aborting) (inr (refl, refl)) (
        if-both InOrOut (is_some (take_request turn.retire).0) (inr (refl, refl))
          (on_answer-InOrOut turn turn.poll s _ (λ t. route_turns-InOrOut t turns)))

  branch-Runs :
      (run : BranchRun fl E M I)
      → InOrOut run
      → Runs run.ended free (started worker_id ∷ run.events)
  branch-Runs run (inl (e, d)) = rw (e, d) refl
  branch-Runs run (inr (e, d)) = rw (e, d) refl

module _ {fl : Float} {E M I : Type 0} (worker_id : ℕ) where
  -- Over all of its runs a thread reports in order: it starts a run, merges in it and ends it before
  -- it starts another, and it stops only when it is in none; at the end of its reports it has stopped
  -- or is in a run, the runs of a stage and of a weighted branch alike.
  pub worker_loop-IsOrderly : (jobs : List (Job fl E M I)) → IsOrderly (worker_loop worker_id jobs)
  unfolding worker_loop run_weighted_branch_assignment
  worker_loop-IsOrderly [] = inl refl
  worker_loop-IsOrderly
        (run_job stage node_index returns_state accepted initial tally turns ∷ jobs) =
      let end =
        run_assignment stage worker_id node_index returns_state accepted initial tally turns in
      run-IsOrderly (has_returned end.fate) end.events (worker_loop worker_id jobs)
        (protocol-Runs worker_id node_index end.events end.fate (
          run_assignment-IsProtocol stage worker_id node_index returns_state accepted initial tally
            turns))
        (worker_loop-IsOrderly jobs)
  worker_loop-IsOrderly
        (branch_job node_index sample_interval controller tally left_arrivals right_arrivals
            started_at turns
          ∷ jobs) =
      let first : BranchState fl = record {
        controller = controller;
        last_sample = started_at - sample_interval - 1000;
        tally = tally;
        left_arrivals = left_arrivals;
        right_arrivals = right_arrivals;
        aborted = false;
      } in
      let run : BranchRun fl E M I = route_turns worker_id node_index sample_interval first turns in
      run-IsOrderly run.ended (started worker_id ∷ run.events) (worker_loop worker_id jobs)
        (branch-Runs worker_id node_index sample_interval run
          (route_turns-InOrOut worker_id node_index sample_interval first turns))
        (worker_loop-IsOrderly jobs)
  worker_loop-IsOrderly (stop_job ∷ jobs) = inl refl
