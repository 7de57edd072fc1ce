-- ===== src/Supervisor/Total.antt =====
-- src/lib.rs, `drain_worker_events`: the indices of the reports and of the pending operation.
use accumulator.Common.{
  ℕ, ◌<◌, ◌≡◌, refl, ◌∙◌, Bool, true, false, not, ◌&&◌, Option, none, some, List, [], ◌∷◌, arith,
  All, ◌==◌, if◌then◌else◌, returns, modify_at,
}
use accumulator.Common.Total.{modify_at-Total}
use accumulator.Float.{Float}
use accumulator.Control.{add_direction, remove_direction, merge_direction}
use accumulator.Supervisor.State.{
  Supervisor, idle_slot, PendingScale, pending_add, pending_remove, merge_down,
  remove_worker_from_node, swap_remove_id, pending_scale_involves_worker,
}
use accumulator.Supervisor.Events.{
  NodeFailure, WorkerEvent, started, parked, merge_completed, failed, stopped, on_started,
  on_parked, vacate, after_parking, on_merge_completed, on_failed, handle_event,
  drain_worker_events,
}
use accumulator.Supervisor.Sizes.{
  PendingInRange, EventInRange, IsSized, Lands, bind-Lands, if-Lands, complete_scale-Lands,
  request_merge-Lands,
}

cleared-InRange :
    (worker_count node_count : ℕ) (test : Bool) (pending : Option PendingScale)
    → PendingInRange worker_count node_count pending
    → PendingInRange worker_count node_count (if test then none else pending)
cleared-InRange worker_count node_count true pending p = tt
cleared-InRange worker_count node_count false pending p = p

module _ {fl : Float} {E M : Type 0} (worker_count node_count : ℕ) where
  on_started-Lands :
      (s : Supervisor fl E M) (now w : ℕ) (pending : Option PendingScale)
      → IsSized worker_count node_count s
      → PendingInRange worker_count node_count pending
      → Lands worker_count node_count (on_started s now w pending)
  unfolding on_started
  on_started-Lands s now w none z p = (s, refl, z)
  on_started-Lands s now w (some (pending_add v i)) z p =
      if-Lands worker_count node_count (v == w) _ _
        (complete_scale-Lands worker_count node_count s i add_direction now z p) (s, refl, z)
  on_started-Lands s now w (some (pending_remove v i)) z p = (s, refl, z)
  on_started-Lands s now w (some (merge_down source target i r waiting)) z p = (s, refl, z)

  after_parking-Lands :
      (s : Supervisor fl E M) (now : ℕ) (delivered : Bool) (w : ℕ) (pending : Option PendingScale)
      → IsSized worker_count node_count s
      → PendingInRange worker_count node_count pending
      → Lands worker_count node_count (after_parking s now delivered w pending)
  unfolding after_parking
  after_parking-Lands s now delivered w none z p = (s, refl, z)
  after_parking-Lands s now delivered w (some (pending_add v i)) z p = (s, refl, z)
  after_parking-Lands s now delivered w (some (pending_remove v i)) z p =
      if-Lands worker_count node_count (v == w) _ _
        (complete_scale-Lands worker_count node_count s i remove_direction now z p) (s, refl, z)
  after_parking-Lands s now delivered w (some (merge_down source target i r waiting)) z p =
      if-Lands worker_count node_count (source == w && not waiting) _ _
        (request_merge-Lands worker_count node_count s delivered source target i r z p.0 p.1)
        (s, refl, z)

  on_merge_completed-Lands :
      (s : Supervisor fl E M) (now w i source : ℕ) (pending : Option PendingScale)
      → IsSized worker_count node_count s
      → i < node_count
      → Lands worker_count node_count (on_merge_completed s now w i source pending)
  unfolding on_merge_completed
  on_merge_completed-Lands s now w i source none z h = (s, refl, z)
  on_merge_completed-Lands s now w i source (some (pending_add v j)) z h = (s, refl, z)
  on_merge_completed-Lands s now w i source (some (pending_remove v j)) z h = (s, refl, z)
  on_merge_completed-Lands s now w i source (some (merge_down from target j r waiting)) z h =
      if-Lands worker_count node_count (from == source && (target == w && waiting)) _ _
        (complete_scale-Lands worker_count node_count s i merge_direction now z h) (s, refl, z)

  -- Leaving a node keeps the pending operation.
  vacate-Lands :
      (s : Supervisor fl E M) (w i : ℕ)
      → IsSized worker_count node_count s
      → w < worker_count
      → i < node_count
      → Lands worker_count node_count (vacate s w i)
  unfolding vacate remove_worker_from_node
  vacate-Lands s w i z g h =
      let (active, e, n) =
        modify_at-Total s.active_by_node i (swap_remove_id w) (omega (arith, h, z.lists)) in
      let (workers, d, k) =
        modify_at-Total s.workers w (λ slot. idle_slot) (omega (arith, g, z.slots)) in
      bind-Lands worker_count node_count (remove_worker_from_node s.active_by_node i w) _ e (
        bind-Lands worker_count node_count (modify_at s.workers w (λ slot. idle_slot)) _ d (
          _,
          refl,
          record {
            slots = k ∙ z.slots;
            lists = n ∙ z.lists;
            tables = z.tables;
            pending = z.pending;
          },
        ))

  on_parked-Lands :
      (s : Supervisor fl E M) (now : ℕ) (delivered : Bool) (w i : ℕ) (state : Option M)
      → IsSized worker_count node_count s
      → w < worker_count
      → i < node_count
      → Lands worker_count node_count (on_parked s now delivered w i state)
  unfolding on_parked
  on_parked-Lands s now delivered w i state z g h =
      let (left, e, y) = vacate-Lands s w i z g h in
      bind-Lands worker_count node_count (vacate s w i) _ e (
        after_parking-Lands _ now delivered w left.pending_scale
          (record { slots = y.slots; lists = y.lists; tables = y.tables; pending = y.pending })
          y.pending)

  on_failed-Lands :
      (s : Supervisor fl E M) (w i : ℕ) (failure : NodeFailure E)
      → IsSized worker_count node_count s
      → w < worker_count
      → i < node_count
      → Lands worker_count node_count (on_failed s w i failure)
  unfolding on_failed
  on_failed-Lands s w i failure z g h =
      let (left, e, y) = vacate-Lands s w i z g h in
      bind-Lands worker_count node_count (vacate s w i) _ e (
        _,
        refl,
        record {
          slots = y.slots;
          lists = y.lists;
          tables = y.tables;
          pending =
              cleared-InRange worker_count node_count
                (pending_scale_involves_worker left.pending_scale w) left.pending_scale y.pending;
        },
      )

  handle_event-Lands :
      (s : Supervisor fl E M) (now : ℕ) (delivered : Bool) (event : WorkerEvent E M)
      → IsSized worker_count node_count s
      → EventInRange worker_count node_count event
      → Lands worker_count node_count (handle_event s now delivered event)
  unfolding handle_event
  handle_event-Lands s now delivered (started w) z r =
      on_started-Lands s now w s.pending_scale z z.pending
  handle_event-Lands s now delivered (parked w i state) z r =
      on_parked-Lands s now delivered w i state z r.0 r.1
  handle_event-Lands s now delivered (merge_completed w i source) z r =
      on_merge_completed-Lands s now w i source s.pending_scale z r
  handle_event-Lands s now delivered (failed w i failure) z r =
      on_failed-Lands s w i failure z r.0 r.1
  handle_event-Lands s now delivered stopped z r = (s, refl, z)

  -- Draining reports never panics, and keeps the sizes of the tables and the pending operation in
  -- range, if they were so before and the worker and the node that each report names exist.
  pub drain_worker_events-IsSized :
      (s : Supervisor fl E M) (now : ℕ) (events : List (Bool × WorkerEvent E M))
      → IsSized worker_count node_count s
      → All (λ sent. EventInRange worker_count node_count sent.1) events
      → (t : Supervisor fl E M) × (drain_worker_events s now events ≡ returns t)
        × IsSized worker_count node_count t
  unfolding drain_worker_events
  drain_worker_events-IsSized s now [] z r = (s, refl, z)
  drain_worker_events-IsSized s now ((delivered, event) ∷ events) z r =
      let (next, e, y) = handle_event-Lands s now delivered event z r.0 in
      bind-Lands worker_count node_count (handle_event s now delivered event) _ e
        (drain_worker_events-IsSized next now events y r.1)
