-- ===== src/Supervisor/Failures.antt =====
-- src/lib.rs, `drain_worker_events`: what becomes of the report of a failure.
use accumulator.Common.{
  ℕ, Bool, ◌≡◌, refl, sym, subst, Option, List, [], ◌∷◌, returns, >>=-eq-returns, returns-injective,
  modify_at,
}
use mathlib.Core.List.{Memᴰ}
use accumulator.Float.{Float}
use accumulator.Supervisor.State.{Supervisor, idle_slot, remove_worker_from_node}
use accumulator.Supervisor.Quiet.{
  HasFailed, on_started-Carries, after_parking-Carries, on_merge_completed-Carries,
  unchanged-Carries,
}
use accumulator.Supervisor.Events.{
  NodeFailure, WorkerEvent, started, parked, merge_completed, failed, stopped, on_parked, vacate,
  on_failed, handle_event, drain_worker_events,
}

module _ {fl : Float} {E M : Type 0} where
  vacate-HasFailed :
      (s t : Supervisor fl E M) (w i : ℕ) → vacate s w i ≡ returns t → HasFailed s → HasFailed t
  unfolding vacate
  vacate-HasFailed s t w i h =
      let (active, e, h1) = >>=-eq-returns (remove_worker_from_node s.active_by_node i w) _ h in
      let (workers, d, h2) = >>=-eq-returns (modify_at s.workers w (λ slot. idle_slot)) _ h1 in
      subst (λ x. HasFailed s → HasFailed x) (returns-injective h2) (λ f. f)

  on_parked-HasFailed :
      (s t : Supervisor fl E M) (now : ℕ) (delivered : Bool) (w i : ℕ) (state : Option M)
      → on_parked s now delivered w i state ≡ returns t
      → HasFailed s
      → HasFailed t
  unfolding on_parked
  on_parked-HasFailed s t now delivered w i state h f =
      let (left, e, h1) = >>=-eq-returns (vacate s w i) _ h in
      (after_parking-Carries _ t now delivered w left.pending_scale h1).0
        (vacate-HasFailed s left w i e f)

  on_failed-HasFailed :
      (s t : Supervisor fl E M) (w i : ℕ) (failure : NodeFailure E)
      → on_failed s w i failure ≡ returns t
      → HasFailed t
  unfolding on_failed
  on_failed-HasFailed s t w i failure h =
      let (left, e, h1) = >>=-eq-returns (vacate s w i) _ h in
      subst HasFailed (returns-injective h1) (refl, refl)

  handle_event-HasFailed :
      (s t : Supervisor fl E M) (now : ℕ) (delivered : Bool) (event : WorkerEvent E M)
      → handle_event s now delivered event ≡ returns t
      → HasFailed s
      → HasFailed t
  unfolding handle_event
  handle_event-HasFailed s t now delivered (started w) h f =
      (on_started-Carries s t now w s.pending_scale h).0 f
  handle_event-HasFailed s t now delivered (parked w i state) h f =
      on_parked-HasFailed s t now delivered w i state h f
  handle_event-HasFailed s t now delivered (merge_completed w i source) h f =
      (on_merge_completed-Carries s t now w i source s.pending_scale h).0 f
  handle_event-HasFailed s t now delivered (failed w i failure) h f =
      on_failed-HasFailed s t w i failure h
  handle_event-HasFailed s t now delivered stopped h f = (unchanged-Carries s t h).0 f

  pub drain_worker_events-keeps_failure :
      (s t : Supervisor fl E M) (now : ℕ) (events : List (Bool × WorkerEvent E M))
      → drain_worker_events s now events ≡ returns t
      → HasFailed s
      → HasFailed t
  unfolding drain_worker_events
  drain_worker_events-keeps_failure s t now [] h f = (unchanged-Carries s t h).0 f
  drain_worker_events-keeps_failure s t now ((delivered, event) ∷ events) h f =
      let (next, e, d) = >>=-eq-returns (handle_event s now delivered event) _ h in
      drain_worker_events-keeps_failure next t now events d
        (handle_event-HasFailed s next now delivered event e f)

  -- If one of the drained reports is a worker's failure and no index was out of range, then the
  -- pipeline is told to abort and an error is stored, whatever the reports before and after it.
  pub drain_worker_events-HasFailed :
      (s t : Supervisor fl E M) (now w i : ℕ) (failure : NodeFailure E) (delivered : Bool)
      (events : List (Bool × WorkerEvent E M))
      → Memᴰ (delivered, failed w i failure) events
      → drain_worker_events s now events ≡ returns t
      → HasFailed t
  unfolding drain_worker_events handle_event
  drain_worker_events-HasFailed s t now w i failure delivered [] m h = elim m [ ]
  drain_worker_events-HasFailed s t now w i failure delivered ((d, event) ∷ events) (Memᴰ.head same)
        h =
      let (next, e, rest) = >>=-eq-returns (handle_event s now d event) _ h in
      drain_worker_events-keeps_failure next t now events rest (
        on_failed-HasFailed s next w i failure
          (subst (λ p. handle_event s now p.0 p.1 ≡ returns next) (sym same) e))
  drain_worker_events-HasFailed s t now w i failure delivered ((d, event) ∷ events) (Memᴰ.tail m)
        h =
      let (next, e, rest) = >>=-eq-returns (handle_event s now d event) _ h in
      drain_worker_events-HasFailed next t now w i failure delivered events m rest
