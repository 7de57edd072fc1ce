-- ===== src/Supervisor/Doomed.antt =====
-- src/lib.rs, `run_supervisor`: a failure that reaches the supervisor ends the pipeline with an error.
use Prim.Native.String.{String}
use accumulator.Common.{
  ℕ, max, ◌≡◌, ◌≢◌, ◌⊎◌, inl, inr, refl, sym, subst, ◌∙◌, Bool, true, false, ◌&&◌, Option, is_some,
  List, [], ◌∷◌, ◌==◌, if◌then◌else◌, if-known,
}
use mathlib.Core.List.{Memᴰ}
use accumulator.Common.Outcomes.{Outcome, done, lift, >>=-eq-done, lift-eq-done, done-injective}
use accumulator.Errors.{PiperError}
use accumulator.Float.{Float}
use accumulator.Graph.{RuntimeNode}
use accumulator.Trend.{LinkControl, sample_links}
use accumulator.Control.{active_worker_count}
use accumulator.Scale.Desired.{collect_node_samples, update_desired_workers}
use accumulator.Supervisor.State.{Supervisor}
use accumulator.Supervisor.Events.{drain_worker_events}
use accumulator.Supervisor.Quiet.{HasFailed}
use accumulator.Supervisor.Loop.{
  InternalFailure, Tick, LoopState, PassEnd, sleeps, breaks, drain_internal_failures, is_stopping,
  release_links, sample_all, scale, leave, supervise, after_pass, supervise_all,
}
use accumulator.Supervisor.Finish.{finish_supervisor}
use accumulator.Supervisor.Stored.{
  BringsFailure, drain_internal_failures-keeps_failure, drain_internal_failures-HasFailed,
  received-HasFailed, finish_supervisor-fails, release_links-keeps_failure, EndsFailed,
  stopping_after_failure,
}

module _ {fl : Float} {E M : Type 0} (nodes : List (RuntimeNode fl)) (link_count : ℕ)
    (spawns accepts : ℕ → Bool) (output_link cap parked_target : ℕ) where
  sample_all-keeps_failure :
      (tick : Tick E M) (s t : LoopState fl E M)
      → sample_all nodes link_count spawns accepts output_link cap parked_target tick s ≡ done t
      → HasFailed s.supervisor_state
      → HasFailed t.supervisor_state
  unfolding sample_all
  sample_all-keeps_failure tick s t h f =
      let (links, _, h₁) =
        >>=-eq-done (lift (sample_links fl tick.views (max tick.elapsed 1000) s.link_controls)) _
          h in
      let ((controls, stats), _, h₂) =
        >>=-eq-done
          (lift (
            collect_node_samples tick.now links s.supervisor_state.active_by_node nodes
              s.supervisor_state.controls tick.stats))
          _ h₁ in
      let (wanted, _, h₃) =
        >>=-eq-done
          (lift (update_desired_workers links s.supervisor_state.active_by_node nodes controls)) _
          h₂ in
      subst (λ (x : LoopState fl E M). HasFailed x.supervisor_state) (done-injective h₃) f

  -- No operation is carried out after a failure.
  scale-HasFailed :
      (tick : Tick E M) (links : List (LinkControl fl)) (s t : Supervisor fl E M)
      → scale nodes link_count spawns accepts output_link cap parked_target tick links s ≡ done t
      → HasFailed s
      → HasFailed t
  unfolding scale
  scale-HasFailed tick links s t h f =
      let stopping = stopping_after_failure tick.at_choice s (is_some s.pending_scale) f in
      subst HasFailed (done-injective (rw (stopping, if◌then◌else◌) at h)) f

  leave-EndsFailed :
      (tick : Tick E M) (s : LoopState fl E M)
      → HasFailed s.supervisor_state
      → EndsFailed (leave nodes link_count spawns accepts output_link cap parked_target tick s)
  unfolding leave
  leave-EndsFailed tick s f =
      if-known EndsFailed
        (is_stopping tick.at_end s.supervisor_state
          && active_worker_count s.supervisor_state.active_by_node == 0)
        {x = breaks (record s {
          supervisor_state = drain_internal_failures s.supervisor_state tick.late_failures;
        })}
        (λ _. drain_internal_failures-keeps_failure tick.late_failures s.supervisor_state f)
        (λ _. f)

  -- A failure that is received only when the loop is left is stored then.
  leave-late :
      (tick : Tick E M) (s last : LoopState fl E M) (failure : InternalFailure E)
      → Memᴰ failure tick.late_failures
      → leave nodes link_count spawns accepts output_link cap parked_target tick s ≡ breaks last
      → HasFailed last.supervisor_state
  unfolding leave
  leave-late tick s last failure m h =
      let ends =
        is_stopping tick.at_end s.supervisor_state
        && active_worker_count s.supervisor_state.active_by_node == 0 in
      go ends h
    where
      go :
          (ends : Bool)
          → (if ends
              then breaks (record s {
                supervisor_state = drain_internal_failures s.supervisor_state tick.late_failures;
              })
              else sleeps s)
            ≡ breaks last
          → HasFailed last.supervisor_state
      go true h =
          subst EndsFailed h
            (drain_internal_failures-HasFailed tick.late_failures s.supervisor_state failure m)
      go false h = cc

  supervise-late :
      (tick : Tick E M) (s last : LoopState fl E M) (failure : InternalFailure E)
      → Memᴰ failure tick.late_failures
      → supervise nodes link_count spawns accepts output_link cap parked_target tick s
        ≡ done (breaks last)
      → HasFailed last.supervisor_state
  unfolding supervise
  supervise-late tick s last failure m h =
      let (drained, _, h₁) =
        >>=-eq-done (lift (drain_worker_events s.supervisor_state tick.now tick.events)) _ h in
      let (sampled, _, h₂) =
        >>=-eq-done
          (sample_all nodes link_count spawns accepts output_link cap parked_target tick (
            release_links tick
              (record s { supervisor_state = drain_internal_failures drained tick.failures })))
          _ h₁ in
      let (scaled, _, h₃) =
        >>=-eq-done
          (scale nodes link_count spawns accepts output_link cap parked_target tick
            sampled.link_controls sampled.supervisor_state)
          _ h₂ in
      leave-late tick (record sampled { supervisor_state = scaled }) last failure m
        (done-injective h₃)

  -- A failure reaches the supervisor in this pass from this state: with the reports, with the
  -- failures that it receives first, or with those that it receives when the pass ends the loop.
  abbrev pub FailsIn : Tick E M → LoopState fl E M → Type 0
  FailsIn tick s =
      BringsFailure tick
      ⊎ ((failure : InternalFailure E) × (last : LoopState fl E M) × Memᴰ failure tick.late_failures
          × (supervise nodes link_count spawns accepts output_link cap parked_target tick s
              ≡ done (breaks last)))

  supervise-EndsFailed :
      (tick : Tick E M) (s : LoopState fl E M) (end : PassEnd fl E M)
      → HasFailed s.supervisor_state ⊎ BringsFailure tick
      → supervise nodes link_count spawns accepts output_link cap parked_target tick s ≡ done end
      → EndsFailed end
  unfolding supervise
  supervise-EndsFailed tick s end failing h =
      let (drained, e, h₁) =
        >>=-eq-done (lift (drain_worker_events s.supervisor_state tick.now tick.events)) _ h in
      let received : LoopState fl E M = record s {
        supervisor_state = drain_internal_failures drained tick.failures;
      } in
      let (sampled, d, h₂) =
        >>=-eq-done
          (sample_all nodes link_count spawns accepts output_link cap parked_target tick
            (release_links tick received))
          _ h₁ in
      let (scaled, f, h₃) =
        >>=-eq-done
          (scale nodes link_count spawns accepts output_link cap parked_target tick
            sampled.link_controls sampled.supervisor_state)
          _ h₂ in
      subst EndsFailed (done-injective h₃) (
        leave-EndsFailed tick (record sampled { supervisor_state = scaled })
          (scale-HasFailed tick sampled.link_controls sampled.supervisor_state scaled f (
            sample_all-keeps_failure tick (release_links tick received) sampled d (
              release_links-keeps_failure tick received
                (received-HasFailed tick s.supervisor_state drained failing (lift-eq-done _ e))))))

  after_pass-EndsFailed :
      (later : LoopState fl E M → Outcome (PiperError E) (PassEnd fl E M))
      (passed end : PassEnd fl E M)
      → EndsFailed passed
      → ((t : LoopState fl E M) → passed ≡ sleeps t → later t ≡ done end → EndsFailed end)
      → after_pass nodes link_count spawns accepts output_link cap parked_target later passed
        ≡ done end
      → EndsFailed end
  unfolding after_pass
  after_pass-EndsFailed later (sleeps t) end at k h = k t refl h
  after_pass-EndsFailed later (breaks t) end at k h = subst EndsFailed (done-injective h) at

  supervise_all-keeps_failure :
      (ticks : List (Tick E M)) (s : LoopState fl E M) (end : PassEnd fl E M)
      → HasFailed s.supervisor_state
      → supervise_all nodes link_count spawns accepts output_link cap parked_target ticks s
        ≡ done end
      → EndsFailed end
  unfolding supervise_all
  supervise_all-keeps_failure [] s end f h = subst EndsFailed (done-injective h) f
  supervise_all-keeps_failure (tick ∷ ticks) s end f h =
      let (passed, e, d) =
        >>=-eq-done (supervise nodes link_count spawns accepts output_link cap parked_target tick s)
          _ h in
      let at = supervise-EndsFailed tick s passed (inl f) e in
      after_pass-EndsFailed _ passed end at
        (λ t same k. supervise_all-keeps_failure ticks t end (subst EndsFailed same at) k) d

  FailsIn-EndsFailed :
      (tick : Tick E M) (s : LoopState fl E M) (passed : PassEnd fl E M)
      → FailsIn tick s
      → supervise nodes link_count spawns accepts output_link cap parked_target tick s ≡ done passed
      → EndsFailed passed
  FailsIn-EndsFailed tick s passed (inl brings) h =
      supervise-EndsFailed tick s passed (inr brings) h
  FailsIn-EndsFailed tick s passed (inr (failure, last, m, same)) h =
      subst EndsFailed (done-injective (sym same ∙ h)) (supervise-late tick s last failure m same)

  supervise_all-EndsFailed :
      (tick : Tick E M) (ticks : List (Tick E M)) (s : LoopState fl E M) (end : PassEnd fl E M)
      → FailsIn tick s
      → supervise_all nodes link_count spawns accepts output_link cap parked_target (tick ∷ ticks) s
        ≡ done end
      → EndsFailed end
  unfolding supervise_all
  supervise_all-EndsFailed tick ticks s end failing h =
      let (passed, e, d) =
        >>=-eq-done (supervise nodes link_count spawns accepts output_link cap parked_target tick s)
          _ h in
      let at = FailsIn-EndsFailed tick s passed failing e in
      after_pass-EndsFailed _ passed end at
        (λ t same k. supervise_all-keeps_failure ticks t end (subst EndsFailed same at) k) d

  -- Once a failure has reached the supervisor, from a worker or from the rest of the runtime, the
  -- pipeline does not end well: if the loop ends at all after that, what follows it returns no states,
  -- whatever else is received and however the threads and the recorder end.
  pub supervise_all-fails :
      (tick : Tick E M) (ticks : List (Tick E M)) (s end : LoopState fl E M)
      (panicked : List (Option String)) (recorder : Option (PiperError E)) (states : List M)
      → FailsIn tick s
      → supervise_all nodes link_count spawns accepts output_link cap parked_target (tick ∷ ticks) s
        ≡ done (breaks end)
      → finish_supervisor panicked recorder end.supervisor_state ≢ done states
  supervise_all-fails tick ticks s end panicked recorder states failing h =
      finish_supervisor-fails panicked recorder end.supervisor_state states
        (supervise_all-EndsFailed tick ticks s (breaks end) failing h).1
