-- ===== src/Worker/Passes.antt =====
-- src/lib.rs, `run_assignment`: what one pass of the loop, and its exit, do with the state.
use accumulator.Common.{
  append_nil, ℕ, ◌≡◌, refl, subst, if-both, Bool, true, false, not, Option, none, some, List, [],
  ◌∷◌, ◌++◌, ◌||◌, ◌&&◌, arith, if◌then◌else◌,
}
use accumulator.Common.Results.{Result, ok, err}
use accumulator.Supervisor.{RetireAction, take_request, NodeFailure, WorkerEvent, merge_completed}
use accumulator.Worker.Assignment.{
  Stage, RecvPoll, item, timeout, disconnected, Inbound, Turn, Tally, WorkerExit, Drained, Next,
  goes_on, exits, fails, Passed, Fate, held, on_merged, on_request, after_drain, drain_inbox,
  drain_merge_requests, after_merges, on_poll, pass, report_failure, finish_exit,
}
use accumulator.Worker.Absorbed.{
  Work, merged_work, item_work, offered_state, offered_inbox, offered_item, offered_merges,
  merged_sources, state_of, on_ok, absorb, Took, Took-then, Took-stop, Took-nothing,
}

module _ {E M I : Type 0} (stage : Stage E M I) (worker_id node_index : ℕ) where
  merge-Took :
      (s other t : M) (source : ℕ)
      → stage.merge_box s other ≡ ok t
      → Took stage s t
          (merged_work source other ∷ [])
          (merge_completed worker_id node_index source ∷ [])
          []
  unfolding absorb on_ok
  merge-Took s other t source e = record {
    done_work = merged_work source other ∷ [];
    split = refl;
    absorbed = rw e refl;
    told = refl;
  }

  item-Took :
      (s t : M) (input : I)
      → stage.process_box s input ≡ ok t
      → Took stage s t (item_work input ∷ []) [] []
  unfolding absorb on_ok
  item-Took s t input e = record {
    done_work = item_work input ∷ [];
    split = refl;
    absorbed = rw e refl;
    told = refl;
  }

  abbrev DrainTook : M → List (Work M I) → Drained E M → Type 0
  DrainTook s all drained =
      drained.failure ≡ none → Took stage s drained.state all drained.events []

  on_request-DrainTook :
      (s : M) (source : ℕ) (sent : Option M) (rest : List (Work M I)) (later : M → Drained E M)
      → ((m : M) → DrainTook m rest (later m))
      → DrainTook s
          (offered_state source sent rest)
          (on_request stage worker_id node_index s source sent later)
  unfolding on_request on_merged offered_state
  on_request-DrainTook s source none rest later k h = cc
  on_request-DrainTook s source (some other) rest later k h = go (stage.merge_box s other) refl h
    where
      go :
          (r : Result (NodeFailure E) M)
          → stage.merge_box s other ≡ r
          → DrainTook s
              (merged_work source other ∷ rest)
              (on_merged stage worker_id node_index s source r later)
      go (err failure) e h = cc
      go (ok m) e h =
          Took-then stage s m (later m).state (merged_work source other ∷ []) rest
            (merge_completed worker_id node_index source ∷ []) (later m).events []
            (merge-Took s other m source e) (k m h)

  drain_inbox-DrainTook :
      (s : M) (inbox : List (Inbound M)) (closed : Bool)
      → DrainTook s (offered_inbox inbox) (drain_inbox stage worker_id node_index s inbox closed)
  unfolding drain_inbox offered_inbox
  drain_inbox-DrainTook s [] closed h = Took-nothing stage s []
  drain_inbox-DrainTook s (request ∷ rest) closed h =
      on_request-DrainTook s request.source_worker_id request.source_state (offered_inbox rest) _
        (λ m. drain_inbox-DrainTook m rest closed) h

  drain_merge_requests-DrainTook :
      (s : M) (turn : Turn M I)
      → DrainTook s (offered_merges turn) (drain_merge_requests stage worker_id node_index s turn)
  unfolding drain_merge_requests offered_merges
  drain_merge_requests-DrainTook s turn =
      go turn.merge_pending (drain_inbox-DrainTook s turn.inbox turn.inbox_closed)
    where
      go :
          (pending : Bool)
          → DrainTook s
              (offered_inbox turn.inbox)
              (drain_inbox stage worker_id node_index s turn.inbox turn.inbox_closed)
          → DrainTook s (if pending then offered_inbox turn.inbox else []) (
              if not pending
              then record { state = s; events = []; failure = none }
              else drain_inbox stage worker_id node_index s turn.inbox turn.inbox_closed)
      go true k h = k h
      go false k h = Took-nothing stage s []

  -- The answer of the input link has been absorbed, or the loop ends with the state as it is.
  abbrev PollLeads : M → RecvPoll I → Next E M → Type 0
  PollLeads s poll (goes_on t) = Took stage s t (offered_item poll) [] []
  PollLeads s poll (exits exit t) = t ≡ s
  PollLeads s poll (fails failure) = Unit {0}

  on_poll-PollLeads :
      (s : M) (tally : Tally) (turn : Turn M I) (poll : RecvPoll I)
      → PollLeads s poll (on_poll stage worker_id node_index s tally turn poll).1
  unfolding on_poll
  on_poll-PollLeads s tally turn (item input) = go (stage.process_box s input) refl
    where
      go :
          (r : Result (NodeFailure E) M)
          → stage.process_box s input ≡ r
          → PollLeads s
              (item input)
              (on_poll stage worker_id node_index s tally turn (item input)).1
      go (err failure) e = rw (e, on_poll) tt
      go (ok t) e = rw (e, on_poll) (item-Took s t input e)
  on_poll-PollLeads s tally turn timeout =
      if-both (λ (p : Tally × Next E M). PollLeads s timeout p.1) turn.is_aborting_after refl
        (if-both (λ (p : Tally × Next E M). PollLeads s timeout p.1)
          (turn.is_terminated || (turn.is_shutdown && turn.stops_on_shutdown)) refl
          (Took-nothing stage s []))
  on_poll-PollLeads s tally turn disconnected = refl

  after_merges-PollLeads :
      (s : M) (tally : Tally) (turn : Turn M I)
      → PollLeads s turn.poll (after_merges stage worker_id node_index s tally turn).1
  unfolding after_merges
  after_merges-PollLeads s tally turn = go (take_request turn.retire).0 refl
    where
      go :
          (action : Option RetireAction)
          → (take_request turn.retire).0 ≡ action
          → PollLeads s turn.poll (after_merges stage worker_id node_index s tally turn).1
      go none e = rw (e, after_merges) (on_poll-PollLeads s tally turn turn.poll)
      go (some action) e = rw (e, after_merges) refl

  -- The pass has absorbed what it was offered, or the loop ends and the rest of it is left over.
  abbrev pub PassLeads : M → Turn M I → List (WorkerEvent E M) → Next E M → Type 0
  PassLeads s turn events (goes_on t) =
      Took stage s t (offered_merges turn ++ offered_item turn.poll) events []
  PassLeads s turn events (exits exit t) =
      (later : List (Work M I))
      → (rest : List (Work M I)) × Took stage s t
          (offered_merges turn ++ (offered_item turn.poll ++ later)) events rest
  PassLeads s turn events (fails failure) = Unit {0}

  drained-PassLeads :
      (s m : M) (turn : Turn M I) (events : List (WorkerEvent E M)) (next : Next E M)
      → Took stage s m (offered_merges turn) events []
      → PollLeads m turn.poll next
      → PassLeads s turn events next
  drained-PassLeads s m turn events (goes_on t) p q =
      subst (λ xs. Took stage s t (offered_merges turn ++ offered_item turn.poll) xs [])
        (append_nil events) (Took-then stage s m t _ _ events [] [] p q)
  drained-PassLeads s m turn events (exits exit t) p q = λ later. (
    offered_item turn.poll ++ later,
    rw q (Took-stop stage s m (offered_merges turn) (offered_item turn.poll ++ later) events p),
  )
  drained-PassLeads s m turn events (fails failure) p q = tt

  after_drain-PassLeads :
      (s : M) (tally : Tally) (turn : Turn M I) (drained : Drained E M)
      (failure : Option (NodeFailure E))
      → drained.failure ≡ failure
      → DrainTook s (offered_merges turn) drained
      → let passed = after_drain stage worker_id node_index drained failure tally turn in
        PassLeads s turn passed.events passed.next
  unfolding after_drain
  after_drain-PassLeads s tally turn drained (some failure) e k = tt
  after_drain-PassLeads s tally turn drained none e k =
      drained-PassLeads s drained.state turn drained.events _ (k e)
        (after_merges-PollLeads drained.state tally turn)

  pub pass-PassLeads :
      (s : M) (tally : Tally) (turn : Turn M I)
      → let passed = pass stage worker_id node_index s tally turn in
        PassLeads s turn passed.events passed.next
  unfolding pass
  pass-PassLeads s tally turn =
      if-both (λ (p : Passed E M). PassLeads s turn p.events p.next) turn.is_aborting
        (λ later. (_, Took-nothing stage s _))
        (after_drain-PassLeads s tally turn (drain_merge_requests stage worker_id node_index s turn)
          _ refl (drain_merge_requests-DrainTook s turn))

  -- The work that is left over when the loop has not ended: none.
  abbrev pub Leftover : Fate M → List (Work M I) → Type 0
  Leftover (held state) rest = rest ≡ []
  Leftover _ rest = Unit {0}

  -- The exit leaves the state as it is, or drops it, and reports no merge.
  pub finish_exit-keeps :
      (returns_state accepted : Bool) (tally : Tally) (exit : WorkerExit) (s : M)
      → let end = finish_exit stage worker_id node_index returns_state accepted tally exit s in
        (merged_sources end.events ≡ [])
        × ((t : M) → state_of end.fate ≡ some t → t ≡ s)
        × ((rest : List (Work M I)) → Leftover end.fate rest)
  unfolding finish_exit report_failure
  finish_exit-keeps returns_state accepted tally exit s = ground arith
