-- ===== src/Supervisor/Placed.antt =====
-- src/lib.rs, `run_supervisor`: every worker that was spawned stands at one place.
use accumulator.Common.{
  ℕ, zero, suc, ◌+◌, ◌-◌, ◌≤◌, ◌≡◌, refl, sym, ap, subst, ◌∙◌, Bool, List, [], ◌∷◌, ◌++◌, map,
  arith, ltb, if◌then◌else◌, length, length-append, sum, returns, >>=-eq-returns, returns-injective,
  modify_at,
}
use accumulator.Common.Total.{length-modify_at}
use accumulator.Common.Outcomes.{done, >>=-eq-done, lift-eq-done, done-injective}
use accumulator.Float.{Float}
use accumulator.Graph.{RuntimeNode}
use accumulator.Scale.{ScaleOperation, add_worker, remove_worker}
use accumulator.Supervisor.State.{Supervisor, idle_slot, remove_worker_from_node}
use accumulator.Supervisor.Events.{
  WorkerEvent, started, parked, merge_completed, failed, stopped, vacate, on_parked, on_failed,
  handle_event, drain_worker_events,
}
use accumulator.Supervisor.Assign.{
  spawn_worker, assign_worker, refill_parked, take_parked, apply_add, apply_operation,
}
use accumulator.Supervisor.Quiet.{
  after_parking-Carries, on_started-Carries, on_merge_completed-Carries, unchanged-Carries,
}
use accumulator.Supervisor.Counts.{if-eq-done, assign_worker-Occupies}
use accumulator.Supervisor.Kept.{apply_remove-SamePlaces}
use accumulator.Supervisor.Places.{hit, count, places, IsInformed, places-handle_event}

-- A worker is pushed on one of several lists.
count-push :
    (id w i : ℕ) (lists lists' : List (List ℕ))
    → modify_at lists i (λ ids. ids ++ w ∷ []) ≡ returns lists'
    → sum (map (count id) lists') ≡ sum (map (count id) lists) + hit id w
count-push id w i [] lists' h = cc
count-push id w zero (ids ∷ lists) lists' h =
    subst (λ l. sum (map (count id) l) ≡ sum (map (count id) (ids ∷ lists)) + hit id w)
      (returns-injective h) omega (arith, count-append ids)
  where
    count-append : (xs : List ℕ) → count id (xs ++ w ∷ []) ≡ count id xs + hit id w
    count-append [] = omega arith
    count-append (x ∷ xs) = omega (arith, count-append xs)
count-push id w (suc i) (ids ∷ lists) lists' h =
    let (rest, e, d) = >>=-eq-returns (modify_at lists i (λ ids. ids ++ w ∷ [])) _ h in
    subst (λ l. sum (map (count id) l) ≡ sum (map (count id) (ids ∷ lists)) + hit id w)
      (returns-injective d) omega (arith, count-push id w i lists rest e)

module _ {fl : Float} {E M : Type 0} where
  -- How often a worker should stand somewhere: once, if it was spawned.
  abbrev pub spawned_once : Supervisor fl E M → ℕ → ℕ
  spawned_once s id = if ltb id (length s.workers) then 1 else 0

  abbrev pub IsPlaced : Supervisor fl E M → Type 0
  IsPlaced s = (id : ℕ) → places s id ≡ spawned_once s id

  -- The worker has been taken off its place, or was just spawned.
  abbrev pub IsSpare : ℕ → Supervisor fl E M → Type 0
  IsSpare w s = (id : ℕ) → places s id + hit id w ≡ spawned_once s id

  abbrev SameLists : Supervisor fl E M → Supervisor fl E M → Type 0
  SameLists s t =
      (t.active_by_node ≡ s.active_by_node)
      × (t.parked ≡ s.parked)
      × (length t.workers ≡ length s.workers)

  pub SameLists-IsPlaced : (s t : Supervisor fl E M) → SameLists s t → IsPlaced s → IsPlaced t
  SameLists-IsPlaced s t (a, p, n) placed id = rw (a, p, n) (placed id)

  IsPlaced-once : (s : Supervisor fl E M) → IsPlaced s → (w : ℕ) → places s w ≤ 1
  IsPlaced-once s placed w = rw (placed w) (ground arith)

  length-vacate :
      (s t : Supervisor fl E M) (w i : ℕ)
      → vacate s w i ≡ returns t
      → length t.workers ≡ length s.workers
  unfolding vacate
  length-vacate s t w i h =
      let (active, e, h₁) = >>=-eq-returns (remove_worker_from_node s.active_by_node i w) _ h in
      let (workers, d, h₂) = >>=-eq-returns (modify_at s.workers w (λ slot. idle_slot)) _ h₁ in
      subst (λ (x : Supervisor fl E M). length x.workers ≡ length s.workers) (returns-injective h₂)
        (length-modify_at s.workers w _ _ d)

  length-handle_event :
      (s t : Supervisor fl E M) (now : ℕ) (delivered : Bool) (event : WorkerEvent E M)
      → handle_event s now delivered event ≡ returns t
      → length t.workers ≡ length s.workers
  unfolding handle_event on_parked on_failed
  length-handle_event s t now delivered (started w) h =
      (on_started-Carries s t now w s.pending_scale h).3
  length-handle_event s t now delivered (parked w i state) h =
      let (left, e, d) = >>=-eq-returns (vacate s w i) _ h in
      (after_parking-Carries _ t now delivered w left.pending_scale d).3
      ∙ length-vacate s left w i e
  length-handle_event s t now delivered (merge_completed w i source) h =
      (on_merge_completed-Carries s t now w i source s.pending_scale h).3
  length-handle_event s t now delivered (failed w i failure) h =
      let (left, e, d) = >>=-eq-returns (vacate s w i) _ h in
      ap (λ (x : Supervisor fl E M). length x.workers) (sym (returns-injective d))
      ∙ length-vacate s left w i e
  length-handle_event s t now delivered stopped h = (unchanged-Carries s t h).3

  -- Each of the reports comes from where its worker stands when it is handled.
  abbrev pub AreInformed : Supervisor fl E M → ℕ → List (Bool × WorkerEvent E M) → Type 0
  AreInformed s now [] = Unit
  AreInformed s now ((delivered, event) ∷ events) =
      IsInformed s event
      × ((t : Supervisor fl E M)
          → handle_event s now delivered event ≡ returns t
          → AreInformed t now events)

  pub drain_worker_events-IsPlaced :
      (s t : Supervisor fl E M) (now : ℕ) (events : List (Bool × WorkerEvent E M))
      → IsPlaced s
      → AreInformed s now events
      → drain_worker_events s now events ≡ returns t
      → IsPlaced t
  unfolding drain_worker_events
  drain_worker_events-IsPlaced s t now [] placed informed h =
      subst IsPlaced (returns-injective h) placed
  drain_worker_events-IsPlaced s t now ((delivered, event) ∷ events) placed (informed, later) h =
      let (next, e, d) = >>=-eq-returns (handle_event s now delivered event) _ h in
      let kept : IsPlaced next = λ id.
        places-handle_event s next now delivered event (IsPlaced-once s placed) informed e id
        ∙ placed id
        ∙ ap (λ n. if ltb id n then 1 else 0)
            (sym (length-handle_event s next now delivered event e)) in
      drain_worker_events-IsPlaced next t now events kept (later next e) d

module _ {fl : Float} {E M : Type 0} (nodes : List (RuntimeNode fl)) (link_count : ℕ)
    (spawns accepts : ℕ → Bool) where
  pub spawn_worker-IsSpare :
      (s t : Supervisor fl E M) (w : ℕ)
      → IsPlaced s
      → spawn_worker nodes link_count spawns accepts s ≡ done (w, t)
      → IsSpare w t
  unfolding spawn_worker
  spawn_worker-IsSpare s t w placed h =
      subst (λ (p : ℕ × Supervisor fl E M). IsSpare p.0 p.1)
        (done-injective (if-eq-done (spawns (length s.workers)) _ _ h))
        (λ id. rw (length-append s.workers (idle_slot ∷ [])) (ground (arith, placed id)))

  take_parked-IsSpare :
      (s t : Supervisor fl E M) (w : ℕ) (ids : List ℕ)
      → IsPlaced s
      → s.parked ≡ ids
      → take_parked nodes link_count spawns accepts s ids ≡ done (w, t)
      → IsSpare w t
  unfolding take_parked
  take_parked-IsSpare s t w [] placed e h = spawn_worker-IsSpare s t w placed h
  take_parked-IsSpare s t w (v ∷ ids) placed e h =
      subst (λ (p : ℕ × Supervisor fl E M). IsSpare p.0 p.1) (done-injective h)
        (λ id. omega (arith, ap (count id) e, placed id))

  pub assign_worker-IsPlaced :
      (s t : Supervisor fl E M) (w i : ℕ)
      → IsSpare w s
      → assign_worker nodes link_count spawns accepts s w i ≡ done t
      → IsPlaced t
  assign_worker-IsPlaced s t w i spare h id =
      let (a, p, n) = assign_worker-Occupies nodes link_count spawns accepts s t w i h in
      rw (p, n) omega (arith, count-push id w i s.active_by_node t.active_by_node a, spare id)

  pub refill_parked-IsPlaced :
      (missing : ℕ) (s t : Supervisor fl E M)
      → IsPlaced s
      → refill_parked nodes link_count spawns accepts missing s ≡ done t
      → IsPlaced t
  unfolding refill_parked
  refill_parked-IsPlaced zero s t placed h = subst IsPlaced (done-injective h) placed
  refill_parked-IsPlaced (suc missing) s t placed h =
      let ((w, spawned), e, d) = >>=-eq-done (spawn_worker nodes link_count spawns accepts s) _ h in
      let spare = spawn_worker-IsSpare s spawned w placed e in
      refill_parked-IsPlaced missing _ t (λ id. omega (arith, spare id)) d

  pub apply_operation-IsPlaced :
      (s t : Supervisor fl E M) (parked_target : ℕ) (op : ScaleOperation)
      → IsPlaced s
      → apply_operation nodes link_count spawns accepts s parked_target op ≡ done t
      → IsPlaced t
  unfolding apply_operation apply_add
  apply_operation-IsPlaced s t parked_target (add_worker i) placed h =
      let ((w, taken), e, h₁) =
        >>=-eq-done (take_parked nodes link_count spawns accepts s s.parked) _ h in
      let (assigned, d, h₂) =
        >>=-eq-done (assign_worker nodes link_count spawns accepts taken w i) _ h₁ in
      refill_parked-IsPlaced (parked_target - length assigned.parked) _ t
        (assign_worker-IsPlaced taken assigned w i
          (take_parked-IsSpare s taken w s.parked placed refl e) d)
        h₂
  apply_operation-IsPlaced s t parked_target (remove_worker i w) placed h =
      SameLists-IsPlaced s t (apply_remove-SamePlaces nodes s t i w (lift-eq-done _ h)) placed
