-- ===== src/Supervisor/Begun.antt =====
-- src/lib.rs, `run_supervisor`: every worker that the start spawns stands at one place.
use accumulator.Common.{
  ℕ, zero, suc, ◌≡◌, refl, subst, Bool, Option, List, [], ◌∷◌, map, arith, ltb, if-known, length,
  sum,
}
use accumulator.Common.Outcomes.{Outcome, done, >>=-eq-done, done-injective}
use accumulator.Float.{Float}
use accumulator.Graph.{RuntimeNode}
use accumulator.Supervisor.State.{Supervisor}
use accumulator.Supervisor.Assign.{
  spawn_worker, start_worker, start_base, start_bases, start_extra, start_extras, start_workers,
  refill_parked,
}
use accumulator.Control.{startup_counts, active_worker_count}
use accumulator.Errors.{PiperError}
use accumulator.Supervisor.Places.{count}
use accumulator.Supervisor.Placed.{
  IsPlaced, spawn_worker-IsSpare, assign_worker-IsPlaced, refill_parked-IsPlaced,
}
use accumulator.Supervisor.Whole.{initial_supervisor, begin}
use accumulator.Supervisor.Loop.{LoopState}
use accumulator.Links.{LinkKind}
use accumulator.Policy.{resolve_global_worker_cap}
use accumulator.Control.{required_base_workers, parked_worker_target}

count-empty : {A : Type 0} (id : ℕ) (xs : List A) → sum (map (count id) (map (λ x. []) xs)) ≡ 0
count-empty id [] = refl
count-empty id (x ∷ xs) = omega (arith, count-empty id xs)

initial_supervisor-IsPlaced :
    {fl : Float} (E M : Type 0) (nodes : List (RuntimeNode fl))
    → IsPlaced (initial_supervisor {E = E} {M = M} nodes)
unfolding initial_supervisor
initial_supervisor-IsPlaced E M nodes id = let none = count-empty id nodes in ground arith

module _ {fl : Float} {E M : Type 0} (nodes : List (RuntimeNode fl)) (link_count : ℕ)
    (spawns accepts : ℕ → Bool) where
  start_worker-IsPlaced :
      (s t : Supervisor fl E M) (i : ℕ)
      → IsPlaced s
      → start_worker nodes link_count spawns accepts s i ≡ done t
      → IsPlaced t
  unfolding start_worker
  start_worker-IsPlaced s t i placed h =
      let ((w, spawned), e, d) = >>=-eq-done (spawn_worker nodes link_count spawns accepts s) _ h in
      assign_worker-IsPlaced nodes link_count spawns accepts spawned t w i
        (spawn_worker-IsSpare nodes link_count spawns accepts s spawned w placed e) d

  start_base-IsPlaced :
      (n : ℕ) (s t : Supervisor fl E M) (i : ℕ)
      → IsPlaced s
      → start_base nodes link_count spawns accepts n s i ≡ done t
      → IsPlaced t
  unfolding start_base
  start_base-IsPlaced zero s t i placed h = subst IsPlaced (done-injective h) placed
  start_base-IsPlaced (suc n) s t i placed h =
      let (next, e, d) = >>=-eq-done (start_worker nodes link_count spawns accepts s i) _ h in
      start_base-IsPlaced n next t i (start_worker-IsPlaced s next i placed e) d

  start_bases-IsPlaced :
      (rest : List (RuntimeNode fl)) (i : ℕ) (s t : Supervisor fl E M)
      → IsPlaced s
      → start_bases nodes link_count spawns accepts rest i s ≡ done t
      → IsPlaced t
  unfolding start_bases
  start_bases-IsPlaced [] i s t placed h = subst IsPlaced (done-injective h) placed
  start_bases-IsPlaced (node ∷ rest) i s t placed h =
      let (next, e, d) =
        >>=-eq-done (start_base nodes link_count spawns accepts (startup_counts node).0 s i) _ h in
      start_bases-IsPlaced rest (suc i) next t
        (start_base-IsPlaced (startup_counts node).0 s next i placed e) d

  start_extra-IsPlaced :
      (cap remaining : ℕ) (s t : Supervisor fl E M) (i : ℕ)
      → IsPlaced s
      → start_extra nodes link_count spawns accepts cap remaining s i ≡ done t
      → IsPlaced t
  unfolding start_extra
  start_extra-IsPlaced cap zero s t i placed = λ h. subst IsPlaced (done-injective h) placed
  start_extra-IsPlaced cap (suc remaining) s t i placed =
      if-known (λ (m : Outcome (PiperError E) (Supervisor fl E M)). m ≡ done t → IsPlaced t)
        (ltb (active_worker_count s.active_by_node) cap)
        (λ _ h.
          let (next, e, d) = >>=-eq-done (start_worker nodes link_count spawns accepts s i) _ h in
          start_extra-IsPlaced cap remaining next t i (start_worker-IsPlaced s next i placed e) d)
        (λ _ h. subst IsPlaced (done-injective h) placed)

  start_extras-IsPlaced :
      (cap : ℕ) (rest : List (RuntimeNode fl)) (i : ℕ) (s t : Supervisor fl E M)
      → IsPlaced s
      → start_extras nodes link_count spawns accepts cap rest i s ≡ done t
      → IsPlaced t
  unfolding start_extras
  start_extras-IsPlaced cap [] i s t placed h = subst IsPlaced (done-injective h) placed
  start_extras-IsPlaced cap (node ∷ rest) i s t placed h =
      let (next, e, d) =
        >>=-eq-done (start_extra nodes link_count spawns accepts cap (startup_counts node).1 s i) _
          h in
      start_extras-IsPlaced cap rest (suc i) next t
        (start_extra-IsPlaced cap (startup_counts node).1 s next i placed e) d

  pub start_workers-IsPlaced :
      (cap : ℕ) (s t : Supervisor fl E M)
      → IsPlaced s
      → start_workers nodes link_count spawns accepts cap s ≡ done t
      → IsPlaced t
  unfolding start_workers
  start_workers-IsPlaced cap s t placed h =
      let (next, e, d) = >>=-eq-done (start_bases nodes link_count spawns accepts nodes 0 s) _ h in
      start_extras-IsPlaced cap nodes 0 next t (start_bases-IsPlaced nodes 0 s next placed e) d

  pub begin-IsPlaced :
      (parallelism configured : Option ℕ) (links : List LinkKind) (s : LoopState fl E M)
      → begin nodes link_count spawns accepts parallelism configured links ≡ done s
      → IsPlaced s.supervisor_state
  unfolding begin
  begin-IsPlaced parallelism configured links s h =
      let (first, e, h₁) =
        >>=-eq-done
          (start_workers nodes link_count spawns accepts
            (resolve_global_worker_cap parallelism configured (length nodes)
              (required_base_workers nodes))
            (initial_supervisor nodes))
          _ h in
      let (waiting, d, h₂) =
        >>=-eq-done
          (refill_parked nodes link_count spawns accepts (parked_worker_target nodes) first) _ h₁ in
      subst (λ (x : LoopState fl E M). IsPlaced x.supervisor_state) (done-injective h₂)
        (refill_parked-IsPlaced nodes link_count spawns accepts (parked_worker_target nodes) first
          waiting (start_workers-IsPlaced _ _ first (initial_supervisor-IsPlaced E M nodes) e) d)
