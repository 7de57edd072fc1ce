-- ===== src/Supervisor/Sizes.antt =====
-- src/lib.rs, `drain_worker_events`: the sizes of the supervisor's tables, and the steps of a
-- report that its handlers share.
use accumulator.Common.{
  ℕ, ◌<◌, ◌≡◌, refl, sym, subst, ◌∙◌, Bool, true, false, Option, none, some, arith, length,
  if◌then◌else◌, Run, returns, panics, ◌>>=◌, index, modify_at, returns-injective,
}
use accumulator.Common.Total.{index-Total, modify_at-Total}
use accumulator.Float.{Float}
use accumulator.Errors.{InternalFault}
use accumulator.Control.{
  ScaleDirection, record_node_operation, mark_node_settling, settled, merging,
}
use accumulator.Supervisor.State.{
  Supervisor, WorkerSlot, PendingScale, pending_add, pending_remove, merge_down,
}
use accumulator.Supervisor.Events.{
  WorkerEvent, started, parked, merge_completed, failed, stopped, complete_scale, flag_target,
  send_request, request_merge, fail_internally,
}

module _ (worker_count node_count : ℕ) where
  abbrev pub PendingInRange : Option PendingScale → Type 0
  PendingInRange none = Unit {0}
  PendingInRange (some (pending_add w i)) = i < node_count
  PendingInRange (some (pending_remove w i)) = i < node_count
  PendingInRange (some (merge_down source target i receiver waiting)) =
      (target < worker_count) × (i < node_count)

  -- The worker and the node that a report names exist.
  abbrev pub EventInRange : {E M : Type 0} → WorkerEvent E M → Type 0
  EventInRange (started w) = Unit {0}
  EventInRange (parked w i state) = (w < worker_count) × (i < node_count)
  EventInRange (merge_completed w i source) = i < node_count
  EventInRange (failed w i failure) = (w < worker_count) × (i < node_count)
  EventInRange stopped = Unit {0}

  pub record IsSized {fl : Float} {E M : Type 0} (s : Supervisor fl E M) : Type 0 where
    pub slots : length s.workers ≡ worker_count
    pub lists : length s.active_by_node ≡ node_count
    pub tables : length s.controls ≡ node_count
    pub pending : PendingInRange s.pending_scale

module _ {fl : Float} {E M : Type 0} (worker_count node_count : ℕ) where
  -- The step returns, and its result has the same sizes.
  abbrev pub Lands : Run (Supervisor fl E M) → Type 0
  Lands m = (t : Supervisor fl E M) × (m ≡ returns t) × IsSized worker_count node_count t

  pub bind-Lands :
      {A : Type 0} (first : Run A) (next : A → Run (Supervisor fl E M)) {a : A}
      → first ≡ returns a
      → Lands (next a)
      → Lands (first >>= next)
  bind-Lands panics next e l = cc
  bind-Lands (returns v) next e l = subst (λ x. Lands (next x)) (sym (returns-injective e)) l

  pub if-Lands :
      (test : Bool) (m k : Run (Supervisor fl E M))
      → Lands m
      → Lands k
      → Lands (if test then m else k)
  if-Lands true m k l r = l
  if-Lands false m k l r = r

  pub complete_scale-Lands :
      (s : Supervisor fl E M) (i : ℕ) (direction : ScaleDirection) (now : ℕ)
      → IsSized worker_count node_count s
      → i < node_count
      → Lands (complete_scale s i direction now)
  unfolding complete_scale record_node_operation mark_node_settling
  complete_scale-Lands s i direction now z h =
      let (recorded, e, n) =
        modify_at-Total s.controls i
          (λ control. record control { last_operation = some (direction, now) })
          (omega (arith, h, z.tables)) in
      let (controls, d, k) = modify_at-Total recorded i settled (omega (arith, h, n, z.tables)) in
      bind-Lands (record_node_operation s.controls i direction now) _ e (
        bind-Lands (mark_node_settling recorded i) _ d (
          _,
          refl,
          record { slots = z.slots; lists = z.lists; tables = k ∙ n ∙ z.tables; pending = tt },
        ))

  fail_internally-Lands :
      (s : Supervisor fl E M) (fault : InternalFault)
      → IsSized worker_count node_count s
      → Lands (returns (fail_internally s fault))
  unfolding fail_internally
  fail_internally-Lands s fault z =
      (_, refl, record { slots = z.slots; lists = z.lists; tables = z.tables; pending = z.pending })

  flag_target-Lands :
      (s : Supervisor fl E M) (source target i : ℕ) (flag : Option Bool)
      → IsSized worker_count node_count s
      → target < worker_count
      → i < node_count
      → Lands (flag_target s source target i flag)
  unfolding flag_target
  flag_target-Lands s source target i none z g h = fail_internally-Lands s _ z
  flag_target-Lands s source target i (some flag) z g h =
      let (workers, e, n) =
        modify_at-Total s.workers target (λ slot. record slot { merge_pending = some true })
          (omega (arith, g, z.slots)) in
      let (controls, d, k) =
        modify_at-Total s.controls i (λ control. record control { scaling_state = merging })
          (omega (arith, h, z.tables)) in
      bind-Lands (modify_at s.workers target (λ slot. record slot { merge_pending = some true })) _
        e
        (bind-Lands (modify_at s.controls i (λ control. record control { scaling_state = merging }))
          _ d
          (
            _,
            refl,
            record {
              slots = n ∙ z.slots;
              lists = z.lists;
              tables = k ∙ z.tables;
              pending = (g, h);
            },
          ))

  send_request-Lands :
      (s : Supervisor fl E M) (delivered : Bool) (source target i receiver : ℕ) (slot : WorkerSlot)
      (channel : Option ℕ)
      → IsSized worker_count node_count s
      → target < worker_count
      → i < node_count
      → Lands (send_request s delivered source target i receiver slot channel)
  unfolding send_request
  send_request-Lands s delivered source target i receiver slot none z g h =
      fail_internally-Lands s _ z
  send_request-Lands s false source target i receiver slot (some channel) z g h =
      fail_internally-Lands s _ z
  send_request-Lands s true source target i receiver slot (some channel) z g h =
      flag_target-Lands _ source target i slot.merge_pending
        (record { slots = z.slots; lists = z.lists; tables = z.tables; pending = z.pending }) g h

  pub request_merge-Lands :
      (s : Supervisor fl E M) (delivered : Bool) (source target i : ℕ) (receiver : Option ℕ)
      → IsSized worker_count node_count s
      → target < worker_count
      → i < node_count
      → Lands (request_merge s delivered source target i receiver)
  unfolding request_merge
  request_merge-Lands s delivered source target i none z g h = fail_internally-Lands s _ z
  request_merge-Lands s delivered source target i (some receiver) z g h =
      let (slot, e) = index-Total s.workers target (omega (arith, g, z.slots)) in
      bind-Lands (index s.workers target) _ e (
        send_request-Lands _ delivered source target i receiver slot slot.merge_sender
          (record { slots = z.slots; lists = z.lists; tables = z.tables; pending = (g, h) }) g h)
