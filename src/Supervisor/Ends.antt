-- ===== src/Supervisor/Ends.antt =====
-- src/lib.rs, `run_supervisor`: the workers at the end of the main loop.
use accumulator.Common.{
  ℕ, max, ◌≡◌, refl, ap, subst, ◌∙◌, Bool, true, ◌&&◌, ◌||◌, Option, none, some, is_some, List, [],
  ◌∷◌, arith, ◌==◌, if-known,
}
use accumulator.Common.Outcomes.{Outcome, done, lift, >>=-eq-done, lift-eq-done, done-injective}
use accumulator.Errors.{PiperError}
use accumulator.Float.{Float}
use accumulator.Graph.{RuntimeNode}
use accumulator.Trend.{LinkControl, sample_links}
use accumulator.Control.{active_worker_count}
use accumulator.Scale.{ScaleOperation, choose_scale_operation}
use accumulator.Scale.Desired.{collect_node_samples, update_desired_workers}
use accumulator.Supervisor.State.{Supervisor}
use accumulator.Supervisor.Events.{drain_worker_events}
use accumulator.Supervisor.Placed.{
  IsPlaced, AreInformed, drain_worker_events-IsPlaced, apply_operation-IsPlaced,
}
use accumulator.Supervisor.Loop.{
  InternalFailure, Tick, LoopState, PassEnd, sleeps, breaks, drain_internal_failures, is_stopping,
  release_links, sample_all, carry_out, scale, leave, supervise, after_pass, supervise_all,
}

none_active : (test : Bool) (n : ℕ) → (test && n == 0) ≡ true → n ≡ 0
none_active test n h = ground arith

module _ {fl : Float} {E M : Type 0} where
  drain_internal_failures-IsPlaced :
      (failures : List (InternalFailure E)) (s : Supervisor fl E M)
      → IsPlaced s
      → IsPlaced (drain_internal_failures s failures)
  unfolding drain_internal_failures
  drain_internal_failures-IsPlaced [] s placed = placed
  drain_internal_failures-IsPlaced (failure ∷ failures) s placed =
      drain_internal_failures-IsPlaced failures _ placed

  drain_internal_failures-active :
      (failures : List (InternalFailure E)) (s : Supervisor fl E M)
      → (drain_internal_failures s failures).active_by_node ≡ s.active_by_node
  unfolding drain_internal_failures
  drain_internal_failures-active [] s = refl
  drain_internal_failures-active (failure ∷ failures) s = drain_internal_failures-active failures _

  release_links-IsPlaced :
      (tick : Tick E M) (s : LoopState fl E M)
      → IsPlaced s.supervisor_state
      → IsPlaced (release_links tick s).supervisor_state
  unfolding release_links
  release_links-IsPlaced tick s placed =
      if-known (λ (t : LoopState fl E M). IsPlaced t.supervisor_state) _ (λ _. placed) (λ _. placed)

  -- All workers stand at one place, and none is active at the end.
  abbrev pub AreAtEnd : PassEnd fl E M → Type 0
  AreAtEnd (sleeps s) = IsPlaced s.supervisor_state
  AreAtEnd (breaks s) =
      IsPlaced s.supervisor_state × (active_worker_count s.supervisor_state.active_by_node ≡ 0)

module _ {fl : Float} {E M : Type 0} (nodes : List (RuntimeNode fl)) (link_count : ℕ)
    (spawns accepts : ℕ → Bool) (output_link cap parked_target : ℕ) where
  sample_all-IsPlaced :
      (tick : Tick E M) (s t : LoopState fl E M)
      → sample_all nodes link_count spawns accepts output_link cap parked_target tick s ≡ done t
      → IsPlaced s.supervisor_state
      → IsPlaced t.supervisor_state
  unfolding sample_all
  sample_all-IsPlaced tick s t h placed =
      let (links, _, h₁) =
        >>=-eq-done (lift (sample_links fl tick.views (max tick.elapsed 1000) s.link_controls)) _
          h in
      let ((controls, stats), _, h₂) =
        >>=-eq-done
          (lift (
            collect_node_samples tick.now links s.supervisor_state.active_by_node nodes
              s.supervisor_state.controls tick.stats))
          _ h₁ in
      let (wanted, _, h₃) =
        >>=-eq-done
          (lift (update_desired_workers links s.supervisor_state.active_by_node nodes controls)) _
          h₂ in
      subst (λ (x : LoopState fl E M). IsPlaced x.supervisor_state) (done-injective h₃) placed

  carry_out-IsPlaced :
      (s t : Supervisor fl E M) (operation : Option ScaleOperation)
      → IsPlaced s
      → carry_out nodes link_count spawns accepts output_link cap parked_target operation s ≡ done t
      → IsPlaced t
  unfolding carry_out
  carry_out-IsPlaced s t none placed h = subst IsPlaced (done-injective h) placed
  carry_out-IsPlaced s t (some operation) placed h =
      apply_operation-IsPlaced nodes link_count spawns accepts s t parked_target operation placed h

  scale-IsPlaced :
      (tick : Tick E M) (links : List (LinkControl fl)) (s t : Supervisor fl E M)
      → scale nodes link_count spawns accepts output_link cap parked_target tick links s ≡ done t
      → IsPlaced s
      → IsPlaced t
  unfolding scale
  scale-IsPlaced tick links s t =
      if-known
        (λ (m : Outcome (PiperError E) (Supervisor fl E M)). m ≡ done t → IsPlaced s → IsPlaced t)
        (is_stopping tick.at_choice s || is_some s.pending_scale)
        (λ _ h placed. subst IsPlaced (done-injective h) placed)
        (λ _ h placed.
          let ((operation, controls), _, d) =
            >>=-eq-done
              (lift (
                choose_scale_operation links s.active_by_node nodes output_link tick.now s.controls
                  cap))
              _ h in
          carry_out-IsPlaced (record s { controls = controls }) t operation placed d)

  leave-AreAtEnd :
      (tick : Tick E M) (s : LoopState fl E M)
      → IsPlaced s.supervisor_state
      → AreAtEnd (leave nodes link_count spawns accepts output_link cap parked_target tick s)
  unfolding leave
  leave-AreAtEnd tick s placed =
      if-known AreAtEnd
        (is_stopping tick.at_end s.supervisor_state
          && active_worker_count s.supervisor_state.active_by_node == 0)
        {x = breaks (record s {
          supervisor_state = drain_internal_failures s.supervisor_state tick.late_failures;
        })}
        (λ h. (
          drain_internal_failures-IsPlaced tick.late_failures s.supervisor_state placed,
          ap active_worker_count
                (drain_internal_failures-active tick.late_failures s.supervisor_state)
              ∙ none_active _ _ h,
        ))
        (λ _. placed)

  supervise-AreAtEnd :
      (tick : Tick E M) (s : LoopState fl E M) (end : PassEnd fl E M)
      → IsPlaced s.supervisor_state
      → AreInformed s.supervisor_state tick.now tick.events
      → supervise nodes link_count spawns accepts output_link cap parked_target tick s ≡ done end
      → AreAtEnd end
  unfolding supervise
  supervise-AreAtEnd tick s end placed informed h =
      let (drained, e, h₁) =
        >>=-eq-done (lift (drain_worker_events s.supervisor_state tick.now tick.events)) _ h in
      let received : LoopState fl E M = record s {
        supervisor_state = drain_internal_failures drained tick.failures;
      } in
      let (sampled, d, h₂) =
        >>=-eq-done
          (sample_all nodes link_count spawns accepts output_link cap parked_target tick
            (release_links tick received))
          _ h₁ in
      let (scaled, f, h₃) =
        >>=-eq-done
          (scale nodes link_count spawns accepts output_link cap parked_target tick
            sampled.link_controls sampled.supervisor_state)
          _ h₂ in
      subst AreAtEnd (done-injective h₃) (
        leave-AreAtEnd tick (record sampled { supervisor_state = scaled })
          (scale-IsPlaced tick sampled.link_controls sampled.supervisor_state scaled f (
            sample_all-IsPlaced tick (release_links tick received) sampled d (
              release_links-IsPlaced tick received (
                drain_internal_failures-IsPlaced tick.failures drained (
                  drain_worker_events-IsPlaced s.supervisor_state drained tick.now tick.events
                    placed informed (lift-eq-done _ e)))))))

  -- At each pass the reports come from where their workers stand.
  abbrev pub KeepsInformed : List (Tick E M) → LoopState fl E M → Type 0
  KeepsInformed [] s = Unit
  KeepsInformed (tick ∷ ticks) s =
      AreInformed s.supervisor_state tick.now tick.events
      × ((t : LoopState fl E M)
          → supervise nodes link_count spawns accepts output_link cap parked_target tick s
            ≡ done (sleeps t)
          → KeepsInformed ticks t)

  after_pass-AreAtEnd :
      (later : LoopState fl E M → Outcome (PiperError E) (PassEnd fl E M))
      (passed end : PassEnd fl E M)
      → AreAtEnd passed
      → ((t : LoopState fl E M) → passed ≡ sleeps t → later t ≡ done end → AreAtEnd end)
      → after_pass nodes link_count spawns accepts output_link cap parked_target later passed
        ≡ done end
      → AreAtEnd end
  unfolding after_pass
  after_pass-AreAtEnd later (sleeps t) end at k h = k t refl h
  after_pass-AreAtEnd later (breaks t) end at k h = subst AreAtEnd (done-injective h) at

  pub supervise_all-AreAtEnd :
      (ticks : List (Tick E M)) (s : LoopState fl E M) (end : PassEnd fl E M)
      → IsPlaced s.supervisor_state
      → KeepsInformed ticks s
      → supervise_all nodes link_count spawns accepts output_link cap parked_target ticks s
        ≡ done end
      → AreAtEnd end
  unfolding supervise_all
  supervise_all-AreAtEnd [] s end placed informed h = subst AreAtEnd (done-injective h) placed
  supervise_all-AreAtEnd (tick ∷ ticks) s end placed (informed, later) h =
      let (passed, e, d) =
        >>=-eq-done (supervise nodes link_count spawns accepts output_link cap parked_target tick s)
          _ h in
      let at = supervise-AreAtEnd tick s passed placed informed e in
      after_pass-AreAtEnd _ passed end at
        (λ t same k.
          supervise_all-AreAtEnd ticks t end (subst AreAtEnd same at) (later t (e ∙ ap done same))
            k)
        d
