-- ===== src/Supervisor/Counts.antt =====
-- src/lib.rs: how many workers are active after a call of Assign and Retire.
use accumulator.Common.{
  ℕ, zero, suc, ◌+◌, ◌≡◌, refl, sym, subst, ◌∙◌, ap, Bool, true, false, Option, none, some, List,
  [], ◌∷◌, ◌++◌, arith, length, is_some, if◌then◌else◌, index, modify_at, returns,
  returns-injective, >>=-eq-returns, length-append,
}
use accumulator.Common.Total.{length-modify_at}
use accumulator.Common.Outcomes.{
  Outcome, done, throws, lift, >>=-eq-done, lift-eq-done, done-injective,
}
use accumulator.Float.{Float}
use accumulator.Graph.{RuntimeNode, DynNode}
use accumulator.Control.{active_worker_count}
use accumulator.Supervisor.State.{
  Supervisor, new_retire, WorkerCommand, run_node, run_weighted_branch,
}
use accumulator.Supervisor.Assign.{
  spawn_worker, use_link, occupy, assign_branch, assign_stage, assign_worker, start_worker,
}

active_worker_count-push :
    (lists lists' : List (List ℕ)) (i w : ℕ)
    → modify_at lists i (λ ids. ids ++ w ∷ []) ≡ returns lists'
    → active_worker_count lists' ≡ active_worker_count lists + 1
active_worker_count-push [] lists' i w h = cc
active_worker_count-push (ids ∷ lists) lists' zero w h =
    subst (λ l. active_worker_count l ≡ active_worker_count (ids ∷ lists) + 1) (returns-injective h)
      omega (arith, length-append ids (w ∷ []))
active_worker_count-push (ids ∷ lists) lists' (suc i) w h =
    let (rest, e, d) = >>=-eq-returns (modify_at lists i (λ ids. ids ++ w ∷ [])) _ h in
    subst (λ l. active_worker_count l ≡ active_worker_count (ids ∷ lists) + 1) (returns-injective d)
      omega (arith, active_worker_count-push lists rest i w e)

pub if-eq-done {ℓ μ} :
    {X : Type μ} {A : Type ℓ} (test : Bool) (m : Outcome X A) (x : X) {v : A}
    → (if test then m else throws x) ≡ done v
    → m ≡ done v
if-eq-done true m x h = h
if-eq-done false m x h = cc

module _ {fl : Float} {E M : Type 0} (nodes : List (RuntimeNode fl)) (link_count : ℕ)
    (spawns accepts : ℕ → Bool) where
  -- The step puts the worker on the list of the node, and moves no other.
  abbrev pub Occupies : ℕ → ℕ → Supervisor fl E M → Supervisor fl E M → Type 0
  Occupies w i s t =
      (modify_at s.active_by_node i (λ ids. ids ++ w ∷ []) ≡ returns t.active_by_node)
      × (t.parked ≡ s.parked)
      × (length t.workers ≡ length s.workers)

  occupy-Occupies :
      (s t : Supervisor fl E M) (w i : ℕ) (flag : Option Bool) (sender : Option ℕ)
      (command : WorkerCommand)
      → occupy nodes link_count spawns accepts s w i flag sender command ≡ done t
      → Occupies w i s t
  unfolding occupy
  occupy-Occupies s t w i flag sender command h =
      let (workers, e, h₁) =
        >>=-eq-done
          (lift (
            modify_at s.workers w (λ slot. record {
              active_node = some i;
              retire = some new_retire;
              merge_pending = flag;
              merge_sender = sender;
            })))
          _ h in
      let (active, d, h₂) =
        >>=-eq-done (lift (modify_at s.active_by_node i (λ ids. ids ++ w ∷ []))) _ h₁ in
      subst (λ x. Occupies w i s x) (done-injective (if-eq-done (accepts w) _ _ h₂))
        (lift-eq-done _ d, refl, length-modify_at s.workers w _ _ (lift-eq-done _ e))

  assign_branch-Occupies :
      (s t : Supervisor fl E M) (w i : ℕ) (node : RuntimeNode fl)
      → assign_branch nodes link_count spawns accepts s w i node ≡ done t
      → Occupies w i s t
  unfolding assign_branch
  assign_branch-Occupies s t w i node h =
      let (left, _, h₁) = >>=-eq-done (lift (index node.output_links 0)) _ h in
      let (right, _, h₂) = >>=-eq-done (lift (index node.output_links 1)) _ h₁ in
      let (_, _, h₃) = >>=-eq-done (use_link link_count node.input_link) _ h₂ in
      let (_, _, h₄) = >>=-eq-done (use_link link_count left) _ h₃ in
      let (_, _, h₅) = >>=-eq-done (use_link link_count right) _ h₄ in
      occupy-Occupies s t w i none none (run_weighted_branch i) h₅

  assign_stage-Occupies :
      (s t : Supervisor fl E M) (w i : ℕ) (node : RuntimeNode fl) (stage : Option DynNode)
      → assign_stage nodes link_count spawns accepts s w i node stage ≡ done t
      → Occupies w i s t
  unfolding assign_stage
  assign_stage-Occupies s t w i node none h = cc
  assign_stage-Occupies s t w i node (some stage) h =
      let (output, _, h₁) = >>=-eq-done (lift (index node.output_links 0)) _ h in
      let (_, _, h₂) = >>=-eq-done (use_link link_count output) _ h₁ in
      let (_, _, h₃) = >>=-eq-done (use_link link_count node.input_link) _ h₂ in
      occupy-Occupies _ t w i (some false) (some s.next_channel) (run_node i) h₃

  pub assign_worker-Occupies :
      (s t : Supervisor fl E M) (w i : ℕ)
      → assign_worker nodes link_count spawns accepts s w i ≡ done t
      → Occupies w i s t
  unfolding assign_worker
  assign_worker-Occupies s t w i h =
      let (_, _, h₁) = >>=-eq-done (lift (index s.workers w)) _ h in
      let (node, _, h₂) = >>=-eq-done (lift (index nodes i)) _ h₁ in
      go node (is_some node.weighted_branch_config) h₂
    where
      go :
          (node : RuntimeNode fl) (test : Bool)
          → (if test
              then assign_branch nodes link_count spawns accepts s w i node
              else assign_stage nodes link_count spawns accepts s w i node node.stage)
            ≡ done t
          → Occupies w i s t
      go node true h = assign_branch-Occupies s t w i node h
      go node false h = assign_stage-Occupies s t w i node node.stage h

  -- The step adds one active worker.
  abbrev AddsOne : Supervisor fl E M → Supervisor fl E M → Type 0
  AddsOne s t = active_worker_count t.active_by_node ≡ active_worker_count s.active_by_node + 1

  pub assign_worker-AddsOne :
      (s t : Supervisor fl E M) (w i : ℕ)
      → assign_worker nodes link_count spawns accepts s w i ≡ done t
      → AddsOne s t
  assign_worker-AddsOne s t w i h =
      active_worker_count-push s.active_by_node t.active_by_node i w
        (assign_worker-Occupies s t w i h).0

  -- A new worker is idle.
  pub spawn_worker-active :
      (s t : Supervisor fl E M) (w : ℕ)
      → spawn_worker nodes link_count spawns accepts s ≡ done (w, t)
      → t.active_by_node ≡ s.active_by_node
  unfolding spawn_worker
  spawn_worker-active s t w h = sym (
      ap (λ (p : ℕ × Supervisor fl E M). p.1.active_by_node)
        (done-injective (if-eq-done (spawns (length s.workers)) _ _ h)))

  pub start_worker-pushes :
      (s t : Supervisor fl E M) (i : ℕ)
      → start_worker nodes link_count spawns accepts s i ≡ done t
      → (w : ℕ) × (modify_at s.active_by_node i (λ ids. ids ++ w ∷ []) ≡ returns t.active_by_node)
  unfolding start_worker
  start_worker-pushes s t i h =
      let ((w, spawned), e, d) = >>=-eq-done (spawn_worker nodes link_count spawns accepts s) _ h in
      (
        w,
        subst (λ lists. modify_at lists i (λ ids. ids ++ w ∷ []) ≡ returns t.active_by_node)
            (spawn_worker-active s spawned w e) (assign_worker-Occupies spawned t w i d).0,
      )

  pub start_worker-AddsOne :
      (s t : Supervisor fl E M) (i : ℕ)
      → start_worker nodes link_count spawns accepts s i ≡ done t
      → AddsOne s t
  unfolding start_worker
  start_worker-AddsOne s t i h =
      let ((w, spawned), e, d) = >>=-eq-done (spawn_worker nodes link_count spawns accepts s) _ h in
      assign_worker-AddsOne spawned t w i d
      ∙ ap (λ l. active_worker_count l + 1) (spawn_worker-active s spawned w e)
