-- ===== src/Supervisor/Failing.antt =====
-- src/lib.rs, `run_supervisor`: it returns an error after a failure.
use Prim.Native.String.{String}
use accumulator.Common.{
  ℕ, ◌≡◌, ◌≢◌, refl, sym, ap, ◌∙◌, Bool, Option, some, List, [], ◌∷◌, ◌++◌, length,
}
use accumulator.Common.Outcomes.{Outcome, done, >>=-eq-done, done-injective}
use accumulator.Errors.{PiperError}
use accumulator.Float.{Float}
use accumulator.Graph.{RuntimeNode}
use accumulator.Policy.{resolve_global_worker_cap}
use accumulator.Links.{LinkKind}
use accumulator.Control.{required_base_workers, parked_worker_target}
use accumulator.Supervisor.Loop.{
  Tick, LoopState, PassEnd, sleeps, breaks, supervise, after_pass, supervise_all,
}
use accumulator.Supervisor.Finish.{finish_supervisor}
use accumulator.Supervisor.Whole.{begin, conclude, run_supervisor}
use accumulator.Supervisor.Doomed.{FailsIn, supervise_all-fails}

module _ {fl : Float} {E M : Type 0} (nodes : List (RuntimeNode fl)) (link_count : ℕ)
    (spawns accepts : ℕ → Bool) (output_link cap parked_target : ℕ) where
  after_pass-sleeps :
      (later : LoopState fl E M → Outcome (PiperError E) (PassEnd fl E M)) (passed : PassEnd fl E M)
      (t : LoopState fl E M)
      → after_pass nodes link_count spawns accepts output_link cap parked_target later passed
        ≡ done (sleeps t)
      → (after : LoopState fl E M) × (passed ≡ sleeps after) × (later after ≡ done (sleeps t))
  unfolding after_pass
  after_pass-sleeps later (sleeps after) t h = (after, refl, h)
  after_pass-sleeps later (breaks after) t h = cc

  -- The loop goes on where its first passes have left it.
  supervise_all-append :
      (before after : List (Tick E M)) (s t : LoopState fl E M)
      → supervise_all nodes link_count spawns accepts output_link cap parked_target before s
        ≡ done (sleeps t)
      → supervise_all nodes link_count spawns accepts output_link cap parked_target
          (before ++ after)
          s
        ≡ supervise_all nodes link_count spawns accepts output_link cap parked_target after t
  unfolding supervise_all after_pass
  supervise_all-append [] after s t h = let same : s ≡ t = cc in rw same refl
  supervise_all-append (tick ∷ before) after s t h =
      let (passed, e, d) =
        >>=-eq-done (supervise nodes link_count spawns accepts output_link cap parked_target tick s)
          _ h in
      let (next, same, k) = after_pass-sleeps _ passed t d in
      rw (e, same) (supervise_all-append before after next t k)

module _ {fl : Float} {E M : Type 0} (nodes : List (RuntimeNode fl)) (spawns accepts : ℕ → Bool)
    (parallelism configured : Option ℕ) (links : List LinkKind) (output_link : ℕ) where
  abbrev pub passes : List (Tick E M) → LoopState fl E M → Outcome (PiperError E) (PassEnd fl E M)
  passes =
      supervise_all nodes (length links) spawns accepts output_link
        (resolve_global_worker_cap parallelism configured (length nodes)
          (required_base_workers nodes))
        (parked_worker_target nodes)

  -- What reaches the supervisor in this pass of its loop, from this state, has a failure.
  abbrev pub FailsInPass : Tick E M → LoopState fl E M → Type 0
  FailsInPass =
      FailsIn nodes (length links) spawns accepts output_link
        (resolve_global_worker_cap parallelism configured (length nodes)
          (required_base_workers nodes))
        (parked_worker_target nodes)

  conclude-fails :
      (tick : Tick E M) (after : List (Tick E M)) (t : LoopState fl E M)
      (panicked : List (Option String)) (recorder : Option (PiperError E)) (end : PassEnd fl E M)
      (states : List M)
      → FailsInPass tick t
      → passes (tick ∷ after) t ≡ done end
      → conclude panicked recorder end ≢ done (some states)
  unfolding conclude
  conclude-fails tick after t panicked recorder (sleeps last) states failing h k = cc
  conclude-fails tick after t panicked recorder (breaks last) states failing h k =
      let (found, e, _) =
        >>=-eq-done (finish_supervisor panicked recorder last.supervisor_state) _ k in
      supervise_all-fails nodes (length links) spawns accepts output_link
        (resolve_global_worker_cap parallelism configured (length nodes)
          (required_base_workers nodes))
        (parked_worker_target nodes) tick after t last panicked recorder found failing h e

  -- If a failure reaches the supervisor at any pass of its loop, from a worker or from the rest of the
  -- runtime, and at the end of the last pass too, then `run_supervisor` returns no states, whatever is
  -- received in the other passes and however the threads and the recorder end.
  pub run_supervisor-fails :
      (before : List (Tick E M)) (tick : Tick E M) (after : List (Tick E M))
      (s t : LoopState fl E M) (panicked : List (Option String)) (recorder : Option (PiperError E))
      (states : List M)
      → begin nodes (length links) spawns accepts parallelism configured links ≡ done s
      → passes before s ≡ done (sleeps t)
      → FailsInPass tick t
      → run_supervisor nodes spawns accepts parallelism configured links output_link
          (before ++ tick ∷ after)
          panicked
          recorder
        ≢ done (some states)
  unfolding run_supervisor
  run_supervisor-fails before tick after s t panicked recorder states starts reaches failing h =
      let (first, e, h₁) =
        >>=-eq-done (begin nodes (length links) spawns accepts parallelism configured links) _ h in
      let same : first ≡ s = done-injective (sym e ∙ starts) in
      let (end, d, h₂) = >>=-eq-done (passes (before ++ tick ∷ after) first) _ h₁ in
      let goes_on =
        supervise_all-append nodes (length links) spawns accepts output_link
          (resolve_global_worker_cap parallelism configured (length nodes)
            (required_base_workers nodes))
          (parked_worker_target nodes) before (tick ∷ after) s t reaches in
      conclude-fails tick after t panicked recorder end states failing
        (sym goes_on ∙ ap (passes (before ++ tick ∷ after)) (sym same) ∙ d) h₂
