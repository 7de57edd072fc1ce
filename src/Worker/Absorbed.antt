-- ===== src/Worker/Absorbed.antt =====
-- src/lib.rs, `run_assignment`: the work that the loop is offered, and what of it is in the state.
use accumulator.Common.{
  ℕ, ◌≡◌, refl, sym, ap, ◌∙◌, Option, none, some, List, [], ◌∷◌, ◌++◌, append_assoc, append_nil,
  if◌then◌else◌,
}
use accumulator.Common.Results.{Result, ok, err}
use accumulator.Supervisor.{
  NodeFailure, WorkerEvent, started, parked, merge_completed, failed, stopped,
}
use accumulator.Worker.Assignment.{
  Stage, RecvPoll, item, Inbound, Turn, Fate, held, returned, transferred, cleaned, dropped,
}

-- A state to merge, from the worker that held it, or an item to process.
pub data Work (M I : Type 0) : Type 0 where
  merged_work : (source_worker_id : ℕ) → M → Work M I
  item_work : I → Work M I

module _ {M I : Type 0} where
  abbrev pub sources_of : List (Work M I) → List ℕ
  sources_of [] = []
  sources_of (merged_work source state ∷ works) = source ∷ sources_of works
  sources_of (item_work input ∷ works) = sources_of works

  unfoldable pub offered_state : ℕ → Option M → List (Work M I) → List (Work M I)
  offered_state source none rest = []
  offered_state source (some state) rest = merged_work source state ∷ rest

  -- The states in the merge channel, up to one whose sender is gone.
  unfoldable pub offered_inbox : List (Inbound M) → List (Work M I)
  unfolding offered_state
  offered_inbox [] = []
  offered_inbox (request ∷ rest) =
      offered_state request.source_worker_id request.source_state (offered_inbox rest)

  abbrev pub offered_item : RecvPoll I → List (Work M I)
  offered_item (item input) = item_work input ∷ []
  offered_item _ = []

  unfoldable pub offered_merges : Turn M I → List (Work M I)
  unfolding offered_inbox
  offered_merges turn = if turn.merge_pending then offered_inbox turn.inbox else []

  unfoldable pub offered : List (Turn M I) → List (Work M I)
  unfolding offered_merges
  offered [] = []
  offered (turn ∷ turns) = offered_merges turn ++ (offered_item turn.poll ++ offered turns)

-- The workers whose merges were reported.
abbrev pub merged_sources : {E M : Type 0} → List (WorkerEvent E M) → List ℕ
merged_sources [] = []
merged_sources (merge_completed w i source ∷ events) = source ∷ merged_sources events
merged_sources (_ ∷ events) = merged_sources events

-- The state that a worker held when its run ended, or holds now.
abbrev pub state_of : {M : Type 0} → Fate M → Option M
state_of (held state) = some state
state_of (returned state) = some state
state_of (transferred channel state) = some state
state_of (cleaned state) = some state
state_of dropped = none

module _ {E M I : Type 0} (stage : Stage E M I) where
  unfoldable pub on_ok : Result (NodeFailure E) M → (M → Option M) → Option M
  on_ok (err failure) next = none
  on_ok (ok state) next = next state

  -- The node's own functions, applied to all of the work in order.
  unfoldable pub absorb : M → List (Work M I) → Option M
  unfolding on_ok
  absorb state [] = some state
  absorb state (merged_work source other ∷ works) =
      on_ok (stage.merge_box state other) λ after. absorb after works
  absorb state (item_work input ∷ works) =
      on_ok (stage.process_box state input) λ after. absorb after works

  on_ok-eq-some :
      (r : Result (NodeFailure E) M) (next : M → Option M) {t : M}
      → on_ok r next ≡ some t
      → (m : M) × (r ≡ ok m) × (next m ≡ some t)
  unfolding on_ok
  on_ok-eq-some (err failure) next h = cc
  on_ok-eq-some (ok m) next h = (m, refl, h)

  absorb-append :
      (s t : M) (xs ys : List (Work M I)) {u : M}
      → absorb s xs ≡ some t
      → absorb t ys ≡ some u
      → absorb s (xs ++ ys) ≡ some u
  unfolding absorb
  absorb-append s t [] ys h k = let same : s ≡ t = cc in rw same k
  absorb-append s t (merged_work source other ∷ xs) ys h k =
      let (m, e, d) = on_ok-eq-some (stage.merge_box s other) _ h in
      rw (e, on_ok) (absorb-append m t xs ys d k)
  absorb-append s t (item_work input ∷ xs) ys h k =
      let (m, e, d) = on_ok-eq-some (stage.process_box s input) _ h in
      rw (e, on_ok) (absorb-append m t xs ys d k)

  -- The state has absorbed the first of the work, `rest` is left over, and the merges among it are
  -- those that were reported.
  pub record Took (s t : M) (all : List (Work M I)) (events : List (WorkerEvent E M))
      (rest : List (Work M I)) : Type 0 where
    pub done_work : List (Work M I)
    pub split : done_work ++ rest ≡ all
    pub absorbed : absorb s done_work ≡ some t
    pub told : sources_of done_work ≡ merged_sources events

sources_of-append :
    {M I : Type 0} (xs ys : List (Work M I))
    → sources_of (xs ++ ys) ≡ sources_of xs ++ sources_of ys
sources_of-append [] ys = refl
sources_of-append (merged_work source state ∷ xs) ys = ap (◌∷◌ source) (sources_of-append xs ys)
sources_of-append (item_work input ∷ xs) ys = sources_of-append xs ys

merged_sources-append :
    {E M : Type 0} (xs ys : List (WorkerEvent E M))
    → merged_sources (xs ++ ys) ≡ merged_sources xs ++ merged_sources ys
merged_sources-append [] ys = refl
merged_sources-append (merge_completed w i source ∷ xs) ys =
    ap (◌∷◌ source) (merged_sources-append xs ys)
merged_sources-append (started w ∷ xs) ys = merged_sources-append xs ys
merged_sources-append (parked w i state ∷ xs) ys = merged_sources-append xs ys
merged_sources-append (failed w i failure ∷ xs) ys = merged_sources-append xs ys
merged_sources-append (stopped ∷ xs) ys = merged_sources-append xs ys

module _ {E M I : Type 0} (stage : Stage E M I) where
  -- All of the first work is done, and then some of the work after it.
  pub Took-then :
      (s t u : M) (first later : List (Work M I)) (xs ys : List (WorkerEvent E M))
      (rest : List (Work M I))
      → Took stage s t first xs []
      → Took stage t u later ys rest
      → Took stage s u (first ++ later) (xs ++ ys) rest
  Took-then s t u first later xs ys rest p q = record {
    done_work = p.done_work ++ q.done_work;
    split =
        append_assoc p.done_work q.done_work rest
        ∙ ap (◌++◌ p.done_work) q.split
        ∙ ap (λ l. l ++ later) (sym (append_nil p.done_work) ∙ p.split);
    absorbed = absorb-append stage s t p.done_work q.done_work p.absorbed q.absorbed;
    told =
        sources_of-append p.done_work q.done_work
        ∙ ap (λ l. l ++ sources_of q.done_work) p.told
        ∙ ap (◌++◌ (merged_sources xs)) q.told
        ∙ sym (merged_sources-append xs ys);
  }

  -- Nothing more is done.
  pub Took-stop :
      (s t : M) (first later : List (Work M I)) (xs : List (WorkerEvent E M))
      → Took stage s t first xs []
      → Took stage s t (first ++ later) xs later
  Took-stop s t first later xs p = record {
    done_work = p.done_work;
    split = ap (λ l. l ++ later) (sym (append_nil p.done_work) ∙ p.split);
    absorbed = p.absorbed;
    told = p.told;
  }

  pub Took-nothing : (s : M) (all : List (Work M I)) → Took stage s s all [] all
  unfolding absorb
  Took-nothing s all = record { done_work = []; split = refl; absorbed = refl; told = refl }

  -- More is reported, but no merge.
  pub Took-also :
      (s t : M) (all : List (Work M I)) (xs ys : List (WorkerEvent E M)) (rest : List (Work M I))
      → merged_sources ys ≡ []
      → Took stage s t all xs rest
      → Took stage s t all (xs ++ ys) rest
  Took-also s t all xs ys rest quiet p = record {
    done_work = p.done_work;
    split = p.split;
    absorbed = p.absorbed;
    told =
        p.told
        ∙ sym (append_nil (merged_sources xs))
        ∙ ap (◌++◌ (merged_sources xs)) (sym quiet)
        ∙ sym (merged_sources-append xs ys);
  }
