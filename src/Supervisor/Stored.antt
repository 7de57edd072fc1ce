-- ===== src/Supervisor/Stored.antt =====
-- src/lib.rs, `run_supervisor`: a failure that is stored stays stored, and ends it with an error.
use Prim.Native.String.{String}
use accumulator.Common.{
  ℕ, ◌≡◌, ◌≢◌, ◌⊎◌, inl, inr, refl, sym, ap, ◌∙◌, Bool, true, false, ◌||◌, Option, is_some, List,
  [], ◌∷◌, arith, if-known, returns, index, Option-cases,
}
use mathlib.Core.List.{Memᴰ}
use accumulator.Common.Outcomes.{done, lift, >>=-eq-done, done-injective}
use accumulator.Errors.{PiperError}
use accumulator.Float.{Float}
use accumulator.Supervisor.State.{Supervisor}
use accumulator.Supervisor.Events.{NodeFailure, failed, drain_worker_events}
use accumulator.Supervisor.Quiet.{HasFailed}
use accumulator.Supervisor.Failures.{
  drain_worker_events-HasFailed, drain_worker_events-keeps_failure,
}
use accumulator.Supervisor.Loop.{
  InternalFailure, Flags, Tick, LoopState, PassEnd, sleeps, breaks, drain_internal_failures,
  is_stopping, release_links,
}
use accumulator.Supervisor.Finish.{
  stop_workers, stop_parked, join_workers, stop_recorder, supervisor_result, finish_supervisor,
}

-- A worker's failure, or one from the rest of the runtime, is among what the pass receives first.
abbrev pub BringsFailure : {E M : Type 0} → Tick E M → Type 0
BringsFailure {E = E} tick =
    ((w : ℕ) × (i : ℕ) × (failure : NodeFailure E) × (delivered : Bool) × Memᴰ
        (delivered, failed w i failure) tick.events)
    ⊎ ((failure : InternalFailure E) × Memᴰ failure tick.failures)

module _ {fl : Float} {E M : Type 0} where
  pub drain_internal_failures-keeps_failure :
      (failures : List (InternalFailure E)) (s : Supervisor fl E M)
      → HasFailed s
      → HasFailed (drain_internal_failures s failures)
  unfolding drain_internal_failures
  drain_internal_failures-keeps_failure [] s f = f
  drain_internal_failures-keeps_failure (failure ∷ failures) s f =
      drain_internal_failures-keeps_failure failures _ (refl, refl)

  pub drain_internal_failures-HasFailed :
      (failures : List (InternalFailure E)) (s : Supervisor fl E M) (failure : InternalFailure E)
      → Memᴰ failure failures
      → HasFailed (drain_internal_failures s failures)
  unfolding drain_internal_failures
  drain_internal_failures-HasFailed [] s failure m = elim m [ ]
  drain_internal_failures-HasFailed (first ∷ failures) s failure m =
      drain_internal_failures-keeps_failure failures _ (refl, refl)

  pub received-HasFailed :
      (tick : Tick E M) (s drained : Supervisor fl E M)
      → HasFailed s ⊎ BringsFailure tick
      → drain_worker_events s tick.now tick.events ≡ returns drained
      → HasFailed (drain_internal_failures drained tick.failures)
  received-HasFailed tick s drained (inl f) h =
      drain_internal_failures-keeps_failure tick.failures drained
        (drain_worker_events-keeps_failure s drained tick.now tick.events h f)
  received-HasFailed tick s drained (inr (inl (w, i, failure, delivered, m))) h =
      drain_internal_failures-keeps_failure tick.failures drained
        (drain_worker_events-HasFailed s drained tick.now w i failure delivered tick.events m h)
  received-HasFailed tick s drained (inr (inr (failure, m))) h =
      drain_internal_failures-HasFailed tick.failures drained failure m

  pub stop_workers-stored :
      (ids : List ℕ) (s t : Supervisor fl E M)
      → stop_workers ids s ≡ done t
      → t.stored_failure ≡ s.stored_failure
  unfolding stop_workers
  stop_workers-stored [] s t h =
      ap (λ (x : Supervisor fl E M). x.stored_failure) (sym (done-injective h))
  stop_workers-stored (w ∷ ids) s t h =
      let (next, e, d) = >>=-eq-done (stop_workers ids s) _ h in
      let (slot, _, f) = >>=-eq-done (lift (index next.workers w)) _ d in
      ap (λ (x : Supervisor fl E M). x.stored_failure) (sym (done-injective f))
      ∙ stop_workers-stored ids s next e

  pub supervisor_result-fails :
      (s : Supervisor fl E M) (states : List M)
      → is_some s.stored_failure ≡ true
      → supervisor_result s ≢ done states
  unfolding supervisor_result
  supervisor_result-fails s states f h = elim (Option-cases s.stored_failure) [
    | inl e ↦ let no : is_some s.stored_failure ≡ false = rw e refl in (cc)
    | inr (failure, e) ↦ let no = rw e at h in (cc)
  ]

  pub finish_supervisor-fails :
      (panicked : List (Option String)) (recorder : Option (PiperError E)) (s : Supervisor fl E M)
      (states : List M)
      → is_some s.stored_failure ≡ true
      → finish_supervisor panicked recorder s ≢ done states
  unfolding finish_supervisor stop_parked
  finish_supervisor-fails panicked recorder s states f h =
      let (stopped, e, h₁) = >>=-eq-done (stop_parked s) _ h in
      let (_, _, h₂) = >>=-eq-done (join_workers 0 panicked) _ h₁ in
      let (_, _, h₃) = >>=-eq-done (stop_recorder recorder) _ h₂ in
      supervisor_result-fails stopped states
        (ap is_some (stop_workers-stored s.parked (record s { parked = [] }) stopped e) ∙ f) h₃

  pub release_links-keeps_failure :
      (tick : Tick E M) (s : LoopState fl E M)
      → HasFailed s.supervisor_state
      → HasFailed (release_links tick s).supervisor_state
  unfolding release_links
  release_links-keeps_failure tick s f =
      if-known (λ (t : LoopState fl E M). HasFailed t.supervisor_state) _ (λ _. f) (λ _. f)

  abbrev pub EndsFailed : PassEnd fl E M → Type 0
  EndsFailed (sleeps s) = HasFailed s.supervisor_state
  EndsFailed (breaks s) = HasFailed s.supervisor_state

  pub stopping_after_failure :
      (flags : Flags) (s : Supervisor fl E M) (pending : Bool)
      → HasFailed s
      → (is_stopping flags s || pending) ≡ true
  unfolding is_stopping
  stopping_after_failure flags s pending (a, f) = ground arith
