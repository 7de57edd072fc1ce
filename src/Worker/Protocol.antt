-- ===== src/Worker/Protocol.antt =====
-- src/lib.rs, `run_assignment`: the reports that a worker sends, as the supervisor counts on them.
use accumulator.Common.{
  if-both, sym, subst, arith, ℕ, ◌≡◌, refl, Bool, not, Option, none, some, List, [], ◌∷◌, ◌++◌, All,
}
use accumulator.Common.Results.{Result, ok, err}
use accumulator.Supervisor.{NodeFailure, WorkerEvent, started, parked, merge_completed, failed}
use accumulator.Worker.Assignment.{
  Stage, Inbound, Turn, Tally, WorkerExit, Drained, Next, goes_on, exits, fails, Passed, Fate, held,
  returned, transferred, cleaned, dropped, AssignmentRun, on_merged, on_request, follow,
  initial_state, run_from_state, after_drain, drain_inbox, drain_merge_requests, pass,
  report_failure, finish_exit, run_turns, run_assignment,
}

module _ {E M : Type 0} (worker_id node_index : ℕ) where
  abbrev pub IsMerge : WorkerEvent E M → Type 0
  IsMerge (merge_completed w i source) = (w ≡ worker_id) × (i ≡ node_index)
  IsMerge _ = ⊥

  -- The report that a worker has left its node.
  abbrev pub IsEnd : WorkerEvent E M → Type 0
  IsEnd (parked w i state) = (w ≡ worker_id) × (i ≡ node_index)
  IsEnd (failed w i failure) = (w ≡ worker_id) × (i ≡ node_index)
  IsEnd _ = ⊥

  -- Merges, and one end after them.
  abbrev pub EndsOnce : List (WorkerEvent E M) → Type 0
  EndsOnce [] = ⊥
  EndsOnce (event ∷ []) = IsEnd event
  EndsOnce (event ∷ (next ∷ events)) = IsMerge event × EndsOnce (next ∷ events)

  -- A worker that is still in its loop has reported merges only.
  abbrev pub Reported : List (WorkerEvent E M) → Fate M → Type 0
  Reported events (held state) = All IsMerge events
  Reported events _ = EndsOnce events

  -- The reports of a whole assignment: a start first, or a failure alone.
  abbrev pub IsProtocol : List (WorkerEvent E M) → Fate M → Type 0
  IsProtocol (started w ∷ events) fate = (w ≡ worker_id) × Reported events fate
  IsProtocol (failed w i failure ∷ []) dropped = (w ≡ worker_id) × (i ≡ node_index)
  IsProtocol _ _ = ⊥

  merges-EndsOnce :
      (xs ys : List (WorkerEvent E M)) → All IsMerge xs → EndsOnce ys → EndsOnce (xs ++ ys)
  merges-EndsOnce [] ys m e = e
  merges-EndsOnce (x ∷ []) [] m e = elim e [ ]
  merges-EndsOnce (x ∷ []) (y ∷ ys) m e = (m.0, e)
  merges-EndsOnce (x ∷ (z ∷ xs)) ys m e = (m.0, merges-EndsOnce (z ∷ xs) ys m.1 e)

  merges-append :
      (xs ys : List (WorkerEvent E M)) → All IsMerge xs → All IsMerge ys → All IsMerge (xs ++ ys)
  merges-append [] ys m n = n
  merges-append (x ∷ xs) ys m n = (m.0, merges-append xs ys m.1 n)

  merges-Reported :
      (xs ys : List (WorkerEvent E M)) (fate : Fate M)
      → All IsMerge xs
      → Reported ys fate
      → Reported (xs ++ ys) fate
  merges-Reported xs ys (held state) m r = merges-append xs ys m r
  merges-Reported xs ys (returned state) m r = merges-EndsOnce xs ys m r
  merges-Reported xs ys (transferred channel state) m r = merges-EndsOnce xs ys m r
  merges-Reported xs ys (cleaned state) m r = merges-EndsOnce xs ys m r
  merges-Reported xs ys dropped m r = merges-EndsOnce xs ys m r

module _ {E M I : Type 0} (stage : Stage E M I) (worker_id node_index : ℕ) where
  on_request-merges :
      (state : M) (source : ℕ) (sent : Option M) (later : M → Drained E M)
      → ((m : M) → All (IsMerge worker_id node_index) (later m).events)
      → All
          (IsMerge worker_id node_index)
          (on_request stage worker_id node_index state source sent later).events
  unfolding on_request
  on_request-merges state source none later k = tt
  on_request-merges state source (some m) later k = go (stage.merge_box state m)
    where
      go :
          (r : Result (NodeFailure E) M)
          → All
              (IsMerge worker_id node_index)
              (on_merged stage worker_id node_index state source r later).events
      go (err failure) = tt
      go (ok merged) = ((refl, refl), k merged)

  drain_inbox-merges :
      (state : M) (inbox : List (Inbound M)) (closed : Bool)
      → All
          (IsMerge worker_id node_index)
          (drain_inbox stage worker_id node_index state inbox closed).events
  unfolding drain_inbox
  drain_inbox-merges state [] closed = tt
  drain_inbox-merges state (request ∷ rest) closed =
      on_request-merges state request.source_worker_id request.source_state _
        (λ m. drain_inbox-merges m rest closed)

  after_drain-events :
      (drained : Drained E M) (failure : Option (NodeFailure E)) (tally : Tally) (turn : Turn M I)
      → (after_drain stage worker_id node_index drained failure tally turn).events ≡ drained.events
  unfolding after_drain
  after_drain-events drained none tally turn = refl
  after_drain-events drained (some failure) tally turn = refl

  drain_merge_requests-merges :
      (state : M) (turn : Turn M I)
      → All
          (IsMerge worker_id node_index)
          (drain_merge_requests stage worker_id node_index state turn).events
  unfolding drain_merge_requests
  drain_merge_requests-merges state turn =
      if-both (λ (d : Drained E M). All (IsMerge worker_id node_index) d.events)
        (not turn.merge_pending) tt (drain_inbox-merges state turn.inbox turn.inbox_closed)

  pass-merges :
      (state : M) (tally : Tally) (turn : Turn M I)
      → All (IsMerge worker_id node_index) (pass stage worker_id node_index state tally turn).events
  unfolding pass
  pass-merges state tally turn =
      if-both (λ (p : Passed E M). All (IsMerge worker_id node_index) p.events) turn.is_aborting tt
        (subst (All (IsMerge worker_id node_index))
          (sym (
            after_drain-events (drain_merge_requests stage worker_id node_index state turn) _ tally
              turn))
          (drain_merge_requests-merges state turn))

  finish_exit-Reported :
      (returns_state accepted : Bool) (tally : Tally) (exit : WorkerExit) (state : M)
      → let end = finish_exit stage worker_id node_index returns_state accepted tally exit state in
        Reported worker_id node_index end.events end.fate
  unfolding finish_exit
  finish_exit-Reported returns_state accepted tally exit state = ground arith

  report_failure-Reported :
      (failure : NodeFailure E) (tally : Tally)
      → let end = report_failure stage worker_id node_index failure tally in
        Reported worker_id node_index end.events end.fate
  unfolding report_failure
  report_failure-Reported failure tally = (refl, refl)

  follow-Reported :
      (returns_state accepted : Bool) (tally : Tally) (next : Next E M)
      (later : M → Tally → AssignmentRun E M)
      → ((m : M) (t : Tally) → Reported worker_id node_index (later m t).events (later m t).fate)
      → let end = follow stage worker_id node_index returns_state accepted tally next later in
        Reported worker_id node_index end.events end.fate
  unfolding follow
  follow-Reported returns_state accepted tally (fails failure) later k =
      report_failure-Reported failure tally
  follow-Reported returns_state accepted tally (exits exit state) later k =
      finish_exit-Reported returns_state accepted tally exit state
  follow-Reported returns_state accepted tally (goes_on state) later k = k state tally

  run_turns-Reported :
      (returns_state accepted : Bool) (state : M) (tally : Tally) (turns : List (Turn M I))
      → let end = run_turns stage worker_id node_index returns_state accepted state tally turns in
        Reported worker_id node_index end.events end.fate
  unfolding run_turns
  run_turns-Reported returns_state accepted state tally [] = tt
  run_turns-Reported returns_state accepted state tally (turn ∷ turns) =
      merges-Reported worker_id node_index _ _ _ (pass-merges state tally turn) (
        follow-Reported returns_state accepted _ _ _
          λ m t. run_turns-Reported returns_state accepted m t turns)

  run_from_state-IsProtocol :
      (returns_state accepted : Bool) (initial : Result (NodeFailure E) M) (tally : Tally)
      (turns : List (Turn M I))
      → let end =
          run_from_state stage worker_id node_index returns_state accepted initial tally turns in
        IsProtocol worker_id node_index end.events end.fate
  unfolding run_from_state report_failure
  run_from_state-IsProtocol returns_state accepted (err failure) tally turns = (refl, refl)
  run_from_state-IsProtocol returns_state accepted (ok state) tally turns =
      (refl, run_turns-Reported returns_state accepted state tally turns)

  -- The reports of an assignment are a failure alone, when the node's state cannot be made, or else
  -- a start and then merges, of which only a worker that has left its loop has sent one more report:
  -- that it parked or failed, at the end. All of them name the worker and its node.
  pub run_assignment-IsProtocol :
      (returns_state accepted : Bool) (initial : Option M) (tally : Tally) (turns : List (Turn M I))
      → let end =
          run_assignment stage worker_id node_index returns_state accepted initial tally turns in
        IsProtocol worker_id node_index end.events end.fate
  unfolding run_assignment
  run_assignment-IsProtocol returns_state accepted initial tally turns =
      run_from_state-IsProtocol returns_state accepted
        (initial_state stage worker_id node_index initial) tally turns
