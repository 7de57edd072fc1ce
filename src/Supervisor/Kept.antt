-- ===== src/Supervisor/Kept.antt =====
-- src/lib.rs, `run_supervisor`: a request to a worker to leave its node moves none yet.
use accumulator.Common.{
  ℕ, ◌≡◌, refl, subst, Bool, true, false, Option, none, some, List, [], ◌∷◌, length, ltb,
  if◌then◌else◌, Run, returns, ◌>>=◌, index, modify_at, >>=-eq-returns, returns-injective,
}
use accumulator.Common.Total.{length-modify_at}
use accumulator.Float.{Float}
use accumulator.Graph.{RuntimeNode}
use accumulator.Control.{merging, node_has_merge_state}
use accumulator.Supervisor.State.{Supervisor, RetireControl, request_cleanup, request_transfer}
use accumulator.Supervisor.Retire.{
  request_merge_down, retire_by_merge, retire_by_cleanup, find_other, retire_worker, retire_first,
  apply_remove,
}

module _ {fl : Float} {E M : Type 0} (nodes : List (RuntimeNode fl)) where
  -- No worker is moved, and none is added.
  abbrev pub SamePlaces : Supervisor fl E M → Supervisor fl E M → Type 0
  SamePlaces s t =
      (t.active_by_node ≡ s.active_by_node)
      × (t.parked ≡ s.parked)
      × (length t.workers ≡ length s.workers)

  unmoved : (s t : Supervisor fl E M) → returns s ≡ returns t → SamePlaces s t
  unmoved s t h = subst (λ x. SamePlaces s x) (returns-injective h) (refl, refl, refl)

  request_merge_down-SamePlaces :
      (s t : Supervisor fl E M) (w i target : ℕ) (retire : Option RetireControl)
      → request_merge_down nodes s w i target retire ≡ returns t
      → SamePlaces s t
  unfolding request_merge_down
  request_merge_down-SamePlaces s t w i target none h = unmoved s t h
  request_merge_down-SamePlaces s t w i target (some retire) h =
      let (workers, e, h₁) =
        >>=-eq-returns
          (modify_at s.workers w
            (λ slot. record slot { retire = some (request_transfer retire s.next_channel) }))
          _ h in
      let (controls, d, h₂) =
        >>=-eq-returns
          (modify_at s.controls i (λ control. record control { scaling_state = merging })) _ h₁ in
      subst (λ x. SamePlaces s x) (returns-injective h₂)
        (refl, refl, length-modify_at s.workers w _ _ e)

  retire_by_merge-SamePlaces :
      (s t : Supervisor fl E M) (w i : ℕ) (target : Option ℕ)
      → retire_by_merge nodes s w i target ≡ returns t
      → SamePlaces s t
  unfolding retire_by_merge
  retire_by_merge-SamePlaces s t w i none h = unmoved s t h
  retire_by_merge-SamePlaces s t w i (some target) h =
      let (slot, e, d) = >>=-eq-returns (index s.workers w) _ h in
      request_merge_down-SamePlaces s t w i target slot.retire d

  retire_by_cleanup-SamePlaces :
      (s t : Supervisor fl E M) (w i : ℕ) (retire : Option RetireControl)
      → retire_by_cleanup nodes s w i retire ≡ returns t
      → SamePlaces s t
  unfolding retire_by_cleanup
  retire_by_cleanup-SamePlaces s t w i none h = unmoved s t h
  retire_by_cleanup-SamePlaces s t w i (some retire) h =
      let (workers, e, d) =
        >>=-eq-returns
          (modify_at s.workers w (λ slot. record slot { retire = some (request_cleanup retire) })) _
          h in
      subst (λ x. SamePlaces s x) (returns-injective d)
        (refl, refl, length-modify_at s.workers w _ _ e)

  if-SamePlaces :
      (s t : Supervisor fl E M) (test : Bool) (m k : Run (Supervisor fl E M))
      → (m ≡ returns t → SamePlaces s t)
      → (k ≡ returns t → SamePlaces s t)
      → (if test then m else k) ≡ returns t
      → SamePlaces s t
  if-SamePlaces s t true m k f g h = f h
  if-SamePlaces s t false m k f g h = g h

  retire_worker-SamePlaces :
      (s t : Supervisor fl E M) (i w : ℕ) → retire_worker nodes s i w ≡ returns t → SamePlaces s t
  unfolding retire_worker
  retire_worker-SamePlaces s t i w h =
      let clean =
        λ (k : (index s.workers w >>= λ slot. retire_by_cleanup nodes s w i slot.retire)
            ≡ returns t).
          let (slot, e, d) = >>=-eq-returns (index s.workers w) _ k in
          retire_by_cleanup-SamePlaces s t w i slot.retire d in
      let (node, _, h₁) = >>=-eq-returns (index nodes i) _ h in
      if-SamePlaces s t (node_has_merge_state node) _ _
        (λ k.
          let (active, _, d) = >>=-eq-returns (index s.active_by_node i) _ k in
          if-SamePlaces s t (ltb 1 (length active)) _ _
            (retire_by_merge-SamePlaces s t w i (find_other w active)) clean d)
        clean h₁

  retire_first-SamePlaces :
      (s t : Supervisor fl E M) (i : ℕ) (ids : List ℕ)
      → retire_first nodes s i ids ≡ returns t
      → SamePlaces s t
  unfolding retire_first
  retire_first-SamePlaces s t i [] h = unmoved s t h
  retire_first-SamePlaces s t i (w ∷ ids) h = retire_worker-SamePlaces s t i w h

  pub apply_remove-SamePlaces :
      (s t : Supervisor fl E M) (i : ℕ) (w : Option ℕ)
      → apply_remove nodes s i w ≡ returns t
      → SamePlaces s t
  unfolding apply_remove
  apply_remove-SamePlaces s t i (some w) h = retire_worker-SamePlaces s t i w h
  apply_remove-SamePlaces s t i none h =
      let (active, _, d) = >>=-eq-returns (index s.active_by_node i) _ h in
      retire_first-SamePlaces s t i active d
