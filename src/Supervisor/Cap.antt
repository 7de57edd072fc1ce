-- ===== src/Supervisor/Cap.antt =====
-- src/lib.rs, `run_supervisor`: the number of active workers when a chosen operation is carried out.
use accumulator.Common.{
  ℕ, zero, suc, ◌+◌, ◌-◌, ◌≤◌, ◌≡◌, refl, sym, subst, ◌∙◌, ap, Bool, some, List, [], ◌∷◌, arith,
  length, returns,
}
use accumulator.Common.Outcomes.{done, >>=-eq-done, lift-eq-done, done-injective}
use accumulator.Float.{Float}
use accumulator.Graph.{RuntimeNode}
use accumulator.Trend.{LinkControl}
use accumulator.Control.{NodeControl, active_worker_count}
use accumulator.Scale.{ScaleOperation, add_worker, remove_worker, choose_scale_operation}
use accumulator.Scale.Safety.{choose_scale_operation-IsSanctioned}
use accumulator.Supervisor.State.{Supervisor}
use accumulator.Supervisor.Assign.{
  spawn_worker, assign_worker, refill_parked, take_parked, apply_add, apply_operation,
}
use accumulator.Supervisor.Kept.{apply_remove-SamePlaces}
use accumulator.Supervisor.Counts.{assign_worker-AddsOne, spawn_worker-active}

module _ {fl : Float} {E M : Type 0} (nodes : List (RuntimeNode fl)) (link_count : ℕ)
    (spawns accepts : ℕ → Bool) where
  refill_parked-active :
      (missing : ℕ) (s t : Supervisor fl E M)
      → refill_parked nodes link_count spawns accepts missing s ≡ done t
      → t.active_by_node ≡ s.active_by_node
  unfolding refill_parked
  refill_parked-active zero s t h =
      subst (λ (x : Supervisor fl E M). x.active_by_node ≡ s.active_by_node) (done-injective h) refl
  refill_parked-active (suc missing) s t h =
      let ((w, spawned), e, d) = >>=-eq-done (spawn_worker nodes link_count spawns accepts s) _ h in
      refill_parked-active missing _ t d
      ∙ spawn_worker-active nodes link_count spawns accepts s spawned w e

  take_parked-active :
      (s t : Supervisor fl E M) (w : ℕ) (ids : List ℕ)
      → take_parked nodes link_count spawns accepts s ids ≡ done (w, t)
      → t.active_by_node ≡ s.active_by_node
  unfolding take_parked
  take_parked-active s t w [] h = spawn_worker-active nodes link_count spawns accepts s t w h
  take_parked-active s t w (v ∷ ids) h =
      sym (ap (λ (p : ℕ × Supervisor fl E M). p.1.active_by_node) (done-injective h))

  apply_add-count :
      (s t : Supervisor fl E M) (parked_target i : ℕ)
      → apply_add nodes link_count spawns accepts s parked_target i ≡ done t
      → active_worker_count t.active_by_node ≡ active_worker_count s.active_by_node + 1
  unfolding apply_add
  apply_add-count s t parked_target i h =
      let ((w, taken), e, h₁) =
        >>=-eq-done (take_parked nodes link_count spawns accepts s s.parked) _ h in
      let (assigned, d, h₂) =
        >>=-eq-done (assign_worker nodes link_count spawns accepts taken w i) _ h₁ in
      ap active_worker_count (refill_parked-active (parked_target - length assigned.parked) _ t h₂)
      ∙ assign_worker-AddsOne nodes link_count spawns accepts taken assigned w i d
      ∙ ap (λ l. active_worker_count l + 1) (take_parked-active s taken w s.parked e)

  -- Carrying out an operation that was chosen in the same state never takes the number of active
  -- workers above the cap, if it was not above it before.
  pub apply_operation-cap :
      (links : List (LinkControl fl)) (output_link now cap parked_target : ℕ)
      (s t : Supervisor fl E M) (op : ScaleOperation) (controls : List (NodeControl fl))
      → active_worker_count s.active_by_node ≤ cap
      → choose_scale_operation links s.active_by_node nodes output_link now s.controls cap
        ≡ returns (some op, controls)
      → apply_operation nodes link_count spawns accepts
          (record s { controls = controls })
          parked_target
          op
        ≡ done t
      → active_worker_count t.active_by_node ≤ cap
  unfolding apply_operation
  apply_operation-cap links output_link now cap parked_target s t (add_worker i) controls room h k =
      let sanctioned =
        choose_scale_operation-IsSanctioned links s.active_by_node nodes output_link now cap
          s.controls (some (add_worker i), controls) h in
      omega (
        arith,
        sanctioned.1.0,
        apply_add-count (record s { controls = controls }) t parked_target i k,
      )
  apply_operation-cap links output_link now cap parked_target s t (remove_worker i w) controls room
        h k =
      let kept =
        (apply_remove-SamePlaces nodes (record s { controls = controls }) t i w
          (lift-eq-done _ k)).0 in
      omega (arith, ap active_worker_count kept, room)
