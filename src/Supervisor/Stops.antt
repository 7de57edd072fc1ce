-- ===== src/Supervisor/Stops.antt =====
-- src/lib.rs, `run_supervisor`: the commands to stop.
use accumulator.Common.{
  ℕ, ◌+◌, ◌≤◌, ◌<◌, ◌≡◌, refl, sym, ap, subst, ◌∙◌, Bool, List, [], ◌∷◌, map, arith, ltb, Option,
  if◌then◌else◌, length, sum, All,
}
use accumulator.Common.Total.{index-Total}
use accumulator.Common.Outcomes.{done}
use accumulator.Float.{Float}
use accumulator.Graph.{RuntimeNode}
use accumulator.Control.{active_worker_count}
use accumulator.Supervisor.State.{Supervisor, WorkerCommand, stop}
use accumulator.Supervisor.Places.{hit, count}
use accumulator.Supervisor.Placed.{IsPlaced, spawned_once}
use accumulator.Supervisor.Loop.{Tick, LoopState, breaks, supervise_all}
use accumulator.Links.{LinkKind}
use accumulator.Supervisor.Whole.{begin}
use accumulator.Supervisor.Begun.{begin-IsPlaced}
use accumulator.Supervisor.Finish.{stop_workers, stop_parked}
use accumulator.Supervisor.Ends.{KeepsInformed, supervise_all-AreAtEnd}

-- How often a worker was told to stop.
abbrev pub stops : ℕ → List (ℕ × WorkerCommand) → ℕ
stops id [] = 0
stops id ((w, stop) ∷ sent) = hit id w + stops id sent
stops id ((w, _) ∷ sent) = stops id sent

count-length : (id : ℕ) (xs : List ℕ) → count id xs ≤ length xs
count-length id [] = omega arith
count-length id (x ∷ xs) = let less = count-length id xs in ground arith

count-inactive :
    (id : ℕ) (lists : List (List ℕ)) → sum (map (count id) lists) ≤ active_worker_count lists
count-inactive id [] = omega arith
count-inactive id (ids ∷ lists) = omega (arith, count-length id ids, count-inactive id lists)

-- A list holds numbers below `n` only, if it holds no others.
counted-below :
    (n : ℕ) (ids : List ℕ)
    → ((id : ℕ) → count id ids ≤ (if ltb id n then 1 else 0))
    → All (λ w. w < n) ids
counted-below n [] h = tt
counted-below n (x ∷ ids) h = (first, counted-below n ids (λ id. omega (arith, h id)))
  where
    first : x < n
    first = let some = h x in ground arith

module _ {fl : Float} {E M : Type 0} where
  stop_workers-stops :
      (ids : List ℕ) (s : Supervisor fl E M)
      → All (λ w. w < length s.workers) ids
      → (u : Supervisor fl E M) × (stop_workers ids s ≡ done u)
        × (u.workers ≡ s.workers)
        × ((id : ℕ) → stops id u.commands ≡ count id ids + stops id s.commands)
  unfolding stop_workers
  stop_workers-stops [] s below = (s, refl, refl, λ id. omega arith)
  stop_workers-stops (w ∷ ids) s below =
      let (u, e, same, many) = stop_workers-stops ids s below.1 in
      let (slot, d) = index-Total u.workers w (subst (λ l. w < length l) (sym same) below.0) in
      (
        record u { commands = (w, stop) ∷ u.commands },
        rw (e, d) refl,
        same,
        λ id. omega (arith, many id),
      )

module _ {fl : Float} {E M : Type 0} (nodes : List (RuntimeNode fl)) (link_count : ℕ)
    (spawns accepts : ℕ → Bool) (output_link cap parked_target : ℕ) where
  supervise_all-stops :
      (ticks : List (Tick E M)) (s end : LoopState fl E M)
      → IsPlaced s.supervisor_state
      → KeepsInformed nodes link_count spawns accepts output_link cap parked_target ticks s
      → supervise_all nodes link_count spawns accepts output_link cap parked_target ticks s
        ≡ done (breaks end)
      → (u : Supervisor fl E M) × (stop_parked end.supervisor_state ≡ done u)
        × ((id : ℕ)
            → stops id u.commands
              ≡ spawned_once end.supervisor_state id + stops id end.supervisor_state.commands)
  unfolding stop_parked
  supervise_all-stops ticks s end placed informed h =
      let last = end.supervisor_state in
      let (there, none) =
        supervise_all-AreAtEnd nodes link_count spawns accepts output_link cap parked_target ticks s
          (breaks end) placed informed h in
      let parked_once : (id : ℕ) → count id last.parked ≡ spawned_once last id =
        λ id. omega (arith, there id, count-inactive id last.active_by_node, none) in
      let (u, e, _, many) =
        stop_workers-stops last.parked (record last { parked = [] })
          (counted-below (length last.workers) last.parked (λ id. omega (arith, parked_once id))) in
      (u, e, λ id. many id ∙ ap (λ n. n + stops id last.commands) (parked_once id))

  -- If the start succeeds and the main loop ends, stopping the parked workers does not panic, and it
  -- sends one more stop to every worker that was ever spawned and none to any other number, if each
  -- report of the end of a run comes from a worker on the list of the node that it names.
  pub begun-stops :
      (parallelism configured : Option ℕ) (links : List LinkKind) (ticks : List (Tick E M))
      (s end : LoopState fl E M)
      → begin nodes link_count spawns accepts parallelism configured links ≡ done s
      → KeepsInformed nodes link_count spawns accepts output_link cap parked_target ticks s
      → supervise_all nodes link_count spawns accepts output_link cap parked_target ticks s
        ≡ done (breaks end)
      → (u : Supervisor fl E M) × (stop_parked end.supervisor_state ≡ done u)
        × ((id : ℕ)
            → stops id u.commands
              ≡ spawned_once end.supervisor_state id + stops id end.supervisor_state.commands)
  begun-stops parallelism configured links ticks s end starts informed h =
      supervise_all-stops ticks s end
        (begin-IsPlaced nodes link_count spawns accepts parallelism configured links s starts)
        informed h
