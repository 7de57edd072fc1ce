-- ===== src/Supervisor/Quiet.antt =====
-- src/lib.rs, `drain_worker_events`: the parts of the handlers that move no worker.
use accumulator.Common.{
  ℕ, Bool, true, false, ◌≡◌, refl, subst, Option, none, some, is_some, not, ◌==◌, ◌&&◌,
  if◌then◌else◌, length, Run, returns, >>=-eq-returns, returns-injective, index, modify_at,
}
use accumulator.Common.Total.{length-modify_at}
use accumulator.Float.{Float}
use accumulator.Errors.{InternalFault}
use accumulator.Control.{
  ScaleDirection, add_direction, remove_direction, merge_direction, merging, record_node_operation,
  mark_node_settling,
}
use accumulator.Supervisor.State.{
  Supervisor, WorkerSlot, PendingScale, pending_add, pending_remove, merge_down,
}
use accumulator.Supervisor.Events.{
  fail_internally, complete_scale, flag_target, send_request, request_merge, on_started,
  after_parking, on_merge_completed,
}

module _ {fl : Float} {E M : Type 0} where
  -- The pipeline is told to stop, and the error it will report is stored.
  abbrev pub HasFailed : Supervisor fl E M → Type 0
  HasFailed s = (s.abort ≡ true) × (is_some s.stored_failure ≡ true)

  -- A failure stays stored, no worker changes its place, and none is added.
  abbrev pub Carries : Supervisor fl E M → Supervisor fl E M → Type 0
  Carries s t =
      (HasFailed s → HasFailed t)
      × (t.parked ≡ s.parked)
      × (t.active_by_node ≡ s.active_by_node)
      × (length t.workers ≡ length s.workers)

  pub complete_scale-Carries :
      (s t : Supervisor fl E M) (i : ℕ) (direction : ScaleDirection) (now : ℕ)
      → complete_scale s i direction now ≡ returns t
      → Carries s t
  unfolding complete_scale
  complete_scale-Carries s t i direction now h =
      let (recorded, e, h1) =
        >>=-eq-returns (record_node_operation s.controls i direction now) _ h in
      let (controls, d, h2) = >>=-eq-returns (mark_node_settling recorded i) _ h1 in
      subst (λ x. Carries s x) (returns-injective h2) ((λ f. f), refl, refl, refl)

  fail_internally-Carries :
      (s t : Supervisor fl E M) (fault : InternalFault)
      → returns (fail_internally s fault) ≡ returns t
      → Carries s t
  unfolding fail_internally
  fail_internally-Carries s t fault h =
      subst (λ x. Carries s x) (returns-injective h) ((λ f. (refl, refl)), refl, refl, refl)

  flag_target-Carries :
      (s t : Supervisor fl E M) (source target i : ℕ) (flag : Option Bool)
      → flag_target s source target i flag ≡ returns t
      → Carries s t
  unfolding flag_target
  flag_target-Carries s t source target i none h = fail_internally-Carries s t _ h
  flag_target-Carries s t source target i (some flag) h =
      let (workers, e, h1) =
        >>=-eq-returns
          (modify_at s.workers target (λ slot. record slot { merge_pending = some true })) _ h in
      let (controls, d, h2) =
        >>=-eq-returns
          (modify_at s.controls i (λ control. record control { scaling_state = merging })) _ h1 in
      subst (λ x. Carries s x) (returns-injective h2)
        ((λ f. f), refl, refl, length-modify_at s.workers target _ _ e)

  send_request-Carries :
      (s t : Supervisor fl E M) (delivered : Bool) (source target i receiver : ℕ)
      (slot : WorkerSlot) (channel : Option ℕ)
      → send_request s delivered source target i receiver slot channel ≡ returns t
      → Carries s t
  unfolding send_request
  send_request-Carries s t delivered source target i receiver slot none h =
      fail_internally-Carries s t _ h
  send_request-Carries s t false source target i receiver slot (some channel) h =
      fail_internally-Carries s t _ h
  send_request-Carries s t true source target i receiver slot (some channel) h =
      flag_target-Carries _ t source target i slot.merge_pending h

  request_merge-Carries :
      (s t : Supervisor fl E M) (delivered : Bool) (source target i : ℕ) (receiver : Option ℕ)
      → request_merge s delivered source target i receiver ≡ returns t
      → Carries s t
  unfolding request_merge
  request_merge-Carries s t delivered source target i none h = fail_internally-Carries s t _ h
  request_merge-Carries s t delivered source target i (some receiver) h =
      let (slot, e, h1) = >>=-eq-returns (index s.workers target) _ h in
      send_request-Carries _ t delivered source target i receiver slot slot.merge_sender h1

  pub unchanged-Carries : (s t : Supervisor fl E M) → returns s ≡ returns t → Carries s t
  unchanged-Carries s t h =
      subst (λ x. Carries s x) (returns-injective h) ((λ f. f), refl, refl, refl)

  -- Guards `if test { step }`.
  guarded-Carries :
      (s t : Supervisor fl E M) (test : Bool) (m : Run (Supervisor fl E M))
      → (m ≡ returns t → Carries s t)
      → (if test then m else returns s) ≡ returns t
      → Carries s t
  guarded-Carries s t true m step h = step h
  guarded-Carries s t false m step h = unchanged-Carries s t h

  pub on_started-Carries :
      (s t : Supervisor fl E M) (now w : ℕ) (pending : Option PendingScale)
      → on_started s now w pending ≡ returns t
      → Carries s t
  unfolding on_started
  on_started-Carries s t now w none h = unchanged-Carries s t h
  on_started-Carries s t now w (some (pending_add p i)) h =
      guarded-Carries s t (p == w) (complete_scale s i add_direction now)
        (complete_scale-Carries s t i add_direction now) h
  on_started-Carries s t now w (some (pending_remove p i)) h = unchanged-Carries s t h
  on_started-Carries s t now w (some (merge_down source target i r waiting)) h =
      unchanged-Carries s t h

  pub after_parking-Carries :
      (s t : Supervisor fl E M) (now : ℕ) (delivered : Bool) (w : ℕ) (pending : Option PendingScale)
      → after_parking s now delivered w pending ≡ returns t
      → Carries s t
  unfolding after_parking
  after_parking-Carries s t now delivered w none h = unchanged-Carries s t h
  after_parking-Carries s t now delivered w (some (pending_add p i)) h = unchanged-Carries s t h
  after_parking-Carries s t now delivered w (some (pending_remove p i)) h =
      guarded-Carries s t (p == w) (complete_scale s i remove_direction now)
        (complete_scale-Carries s t i remove_direction now) h
  after_parking-Carries s t now delivered w (some (merge_down source target i r waiting)) h =
      guarded-Carries s t (source == w && not waiting) (request_merge s delivered source target i r)
        (request_merge-Carries s t delivered source target i r) h

  pub on_merge_completed-Carries :
      (s t : Supervisor fl E M) (now w i source : ℕ) (pending : Option PendingScale)
      → on_merge_completed s now w i source pending ≡ returns t
      → Carries s t
  unfolding on_merge_completed
  on_merge_completed-Carries s t now w i source none h = unchanged-Carries s t h
  on_merge_completed-Carries s t now w i source (some (pending_add p j)) h = unchanged-Carries s t h
  on_merge_completed-Carries s t now w i source (some (pending_remove p j)) h =
      unchanged-Carries s t h
  on_merge_completed-Carries s t now w i source (some (merge_down from target j r waiting)) h =
      guarded-Carries s t (from == source && (target == w && waiting))
        (complete_scale s i merge_direction now) (complete_scale-Carries s t i merge_direction now)
        h
