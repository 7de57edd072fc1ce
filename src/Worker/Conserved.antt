-- ===== src/Worker/Conserved.antt =====
-- src/lib.rs, `run_assignment`: the state at the end of the loop, against the work that was offered.
use accumulator.Common.{
  append_assoc, ℕ, ◌≡◌, refl, sym, subst, Bool, Option, some, List, [], ◌∷◌, ◌++◌,
}
use accumulator.Common.Results.{ok}
use accumulator.Supervisor.{WorkerEvent, started}
use accumulator.Worker.Assignment.{
  Stage, Turn, Tally, graceful, Next, goes_on, exits, fails, Fate, AssignmentRun, follow,
  initial_state, run_from_state, report_failure, finish_exit, run_turns, run_assignment,
}
use accumulator.Worker.Absorbed.{
  Work, offered_item, offered_merges, offered, merged_sources, state_of, absorb, Took, Took-then,
  Took-nothing, Took-also,
}
use accumulator.Worker.Passes.{PassLeads, pass-PassLeads, Leftover, finish_exit-keeps}

module _ {E M I : Type 0} (stage : Stage E M I) (worker_id node_index : ℕ) where
  -- What a worker that holds a state has done of the work that it was offered.
  abbrev Accounts : M → List (Work M I) → List (WorkerEvent E M) → Fate M → Type 0
  Accounts s all events fate =
      (t : M)
      → state_of fate ≡ some t
      → (rest : List (Work M I)) × Took stage s t all events rest
        × Leftover stage worker_id node_index fate rest

  exited-Accounts :
      (s t : M) (turn : Turn M I) (later : List (Work M I)) (events : List (WorkerEvent E M))
      (end : AssignmentRun E M)
      → PassLeads stage worker_id node_index s turn events (exits graceful t)
      → (merged_sources end.events ≡ [])
        × ((u : M) → state_of end.fate ≡ some u → u ≡ t)
        × ((rest : List (Work M I)) → Leftover stage worker_id node_index end.fate rest)
      → Accounts s
          (offered_merges turn ++ (offered_item turn.poll ++ later))
          (events ++ end.events)
          end.fate
  exited-Accounts s t turn later events end p (quiet, same, gone) u h =
      let (rest, took) = p later in
      (rest, rw (same u h) (Took-also stage s t _ events end.events rest quiet took), gone rest)

  went_on-Accounts :
      (s t : M) (turn : Turn M I) (later : List (Work M I)) (xs ys : List (WorkerEvent E M))
      (fate : Fate M)
      → PassLeads stage worker_id node_index s turn xs (goes_on t)
      → Accounts t later ys fate
      → Accounts s (offered_merges turn ++ (offered_item turn.poll ++ later)) (xs ++ ys) fate
  went_on-Accounts s t turn later xs ys fate p k u h =
      let (rest, took, left) = k u h in
      (
        rest,
        subst (λ all. Took stage s u all (xs ++ ys) rest)
            (append_assoc (offered_merges turn) (offered_item turn.poll) later)
            (Took-then stage s t u _ later xs ys rest p took),
        left,
      )

  follow-Accounts :
      (returns_state accepted : Bool) (s : M) (tally : Tally) (turn : Turn M I)
      (all : List (Work M I)) (events : List (WorkerEvent E M)) (next : Next E M)
      (later : M → Tally → AssignmentRun E M)
      → PassLeads stage worker_id node_index s turn events next
      → ((m : M) (t : Tally) → Accounts m all (later m t).events (later m t).fate)
      → let end = follow stage worker_id node_index returns_state accepted tally next later in
        Accounts s
          (offered_merges turn ++ (offered_item turn.poll ++ all))
          (events ++ end.events)
          end.fate
  unfolding follow report_failure
  follow-Accounts returns_state accepted s tally turn all events (goes_on t) later p k =
      went_on-Accounts s t turn all events _ _ p (k t tally)
  follow-Accounts returns_state accepted s tally turn all events (exits exit t) later p k =
      exited-Accounts s t turn all events
        (finish_exit stage worker_id node_index returns_state accepted tally exit t) p
        (finish_exit-keeps stage worker_id node_index returns_state accepted tally exit t)
  follow-Accounts returns_state accepted s tally turn all events (fails failure) later p k =
      λ u h. cc

  run_turns-Accounts :
      (returns_state accepted : Bool) (s : M) (tally : Tally) (turns : List (Turn M I))
      → let end = run_turns stage worker_id node_index returns_state accepted s tally turns in
        Accounts s (offered turns) end.events end.fate
  unfolding run_turns offered absorb
  run_turns-Accounts returns_state accepted s tally [] t h =
      let same : s ≡ t = cc in
      ([], subst (λ u. Took stage s u [] [] []) same (Took-nothing stage s []), refl)
  run_turns-Accounts returns_state accepted s tally (turn ∷ turns) t h =
      follow-Accounts returns_state accepted s _ turn (offered turns) _ _ _
        (pass-PassLeads stage worker_id node_index s tally turn)
        (λ m u. run_turns-Accounts returns_state accepted m u turns) t h

  Took-started :
      {s t : M} {all : List (Work M I)} {events : List (WorkerEvent E M)} {rest : List (Work M I)}
      (w : ℕ)
      → Took stage s t all events rest
      → Took stage s t all (started w ∷ events) rest
  Took-started w p = record {
    done_work = p.done_work;
    split = p.split;
    absorbed = p.absorbed;
    told = p.told;
  }

  -- Whatever state a worker holds, returns, transfers or cleans up is the initial state after all
  -- merges and items of a first part of the work that it was offered, each done once and in order by
  -- the node's own functions. The merges that it reported are those of that part, and nothing is left
  -- over while it is still in its loop.
  pub run_assignment-Took :
      (returns_state accepted : Bool) (initial : Option M) (first last : M) (tally : Tally)
      (turns : List (Turn M I)) (end : AssignmentRun E M)
      → initial_state stage worker_id node_index initial ≡ ok first
      → run_assignment stage worker_id node_index returns_state accepted initial tally turns ≡ end
      → state_of end.fate ≡ some last
      → (rest : List (Work M I)) × Took stage first last (offered turns) end.events rest
        × Leftover stage worker_id node_index end.fate rest
  unfolding run_assignment run_from_state
  run_assignment-Took returns_state accepted initial first last tally turns end e = rw e (λ same h.
      let held =
        run_turns-Accounts returns_state accepted first tally turns last
          (subst (λ (r : AssignmentRun E M). state_of r.fate ≡ some last) (sym same) h) in
      subst
        (λ (r : AssignmentRun E M).
          (rest : List (Work M I)) × Took stage first last (offered turns) r.events rest
          × Leftover stage worker_id node_index r.fate rest)
        same (held.0, Took-started worker_id held.1, held.2))
