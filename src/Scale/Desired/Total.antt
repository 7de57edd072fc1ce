-- ===== src/Scale/Desired/Total.antt =====
-- src/lib.rs, `update_desired_workers`: where it indexes in range, and where `clamp` has a range.
use accumulator.Common.{
  ℕ, ◌<◌, ◌≤◌, ◌≡◌, refl, List, [], ◌∷◌, arith, All, length, max, ltb, index, Bool-cases, inl, inr,
}
use accumulator.Common.Words.{saturating_add}
use accumulator.Common.Total.{Total, bind-Total, if-Total, index-Total}
use accumulator.Float.{Float}
use accumulator.Policy.{
  ResolvedThreadPolicy, ResolvedScalePolicy, fixed, scalable, implicit_support,
}
use accumulator.Graph.{RuntimeNode}
use accumulator.Trend.{LinkControl, is_growing}
use accumulator.Control.{NodeControl}
use accumulator.Scale.Desired.{
  clamp_from_one, scalable_demand, policy_demand, update_demand, update_desired_workers,
}

-- A scalable node may have a thread.
abbrev pub HasRoom : {fl : Float} → ResolvedThreadPolicy fl → Type 0
HasRoom (fixed count) = Unit {0}
HasRoom (scalable policy) = 1 ≤ policy.max_threads
HasRoom implicit_support = Unit {0}

clamp_from_one-Total : (upper x : ℕ) → 1 ≤ upper → Total (clamp_from_one upper x)
unfolding clamp_from_one
clamp_from_one-Total upper x h = elim (Bool-cases (ltb upper 1)) [
  | inl e ↦ ground arith
  | inr e ↦ rw e (_, refl)
]

module _ {fl : Float} where
  scalable_demand-Total :
      (policy : ResolvedScalePolicy fl) (input : LinkControl fl) (active : ℕ)
      (control : NodeControl fl)
      → 1 ≤ policy.max_threads
      → Total (scalable_demand policy input active control)
  unfolding scalable_demand
  scalable_demand-Total policy input active control h =
      if-Total (fl.lt (fl.of_nat 0) control.per_worker_throughput) _ _
        (bind-Total (clamp_from_one policy.max_threads _) _
          (clamp_from_one-Total policy.max_threads _ h) λ count e. (_, refl))
        (if-Total (is_growing input.trend) _ _
          (bind-Total (clamp_from_one policy.max_threads (saturating_add active 1)) _
            (clamp_from_one-Total policy.max_threads (saturating_add active 1) h)
            λ count e. (_, refl))
          (_, refl))

  policy_demand-Total :
      (input : LinkControl fl) (active : ℕ) (control : NodeControl fl)
      (policy : ResolvedThreadPolicy fl)
      → HasRoom policy
      → Total (policy_demand input active control policy)
  unfolding policy_demand
  policy_demand-Total input active control (fixed count) h = (_, refl)
  policy_demand-Total input active control (scalable policy) h =
      scalable_demand-Total policy input active control h
  policy_demand-Total input active control implicit_support h = (_, refl)

module _ {fl : Float} (links : List (LinkControl fl)) where
  update_demand-Total :
      (ids : List ℕ) (node : RuntimeNode fl) (control : NodeControl fl)
      → node.input_link < length links
      → HasRoom control.thread_policy
      → Total (update_demand links ids node control)
  unfolding update_demand
  update_demand-Total ids node control h room =
      if-Total control.is_external _ _ (_, refl)
        (if-Total control.is_weighted_branch _ _ (_, refl)
          (bind-Total (index links node.input_link) _ (index-Total links node.input_link h)
            λ input e.
              bind-Total (policy_demand input (max (length ids) 1) control control.thread_policy) _
                (policy_demand-Total input _ control control.thread_policy room)
                λ demand d. (_, refl)))

  -- The update never panics, if there are as many lists of workers and nodes as controls, the input
  -- link of every node exists, and every scalable policy allows a thread.
  pub update_desired_workers-Total :
      (active : List (List ℕ)) (nodes : List (RuntimeNode fl)) (controls : List (NodeControl fl))
      → length active ≡ length controls
      → length nodes ≡ length controls
      → All (λ node. node.input_link < length links) nodes
      → All (λ control. HasRoom control.thread_policy) controls
      → Total (update_desired_workers links active nodes controls)
  unfolding update_desired_workers
  update_desired_workers-Total active nodes [] a n below room = (_, refl)
  update_desired_workers-Total [] nodes (control ∷ controls) a n below room = cc
  update_desired_workers-Total (ids ∷ active) [] (control ∷ controls) a n below room = cc
  update_desired_workers-Total (ids ∷ active) (node ∷ nodes) (control ∷ controls) a n below room =
      bind-Total (update_demand links ids node control) _
        (update_demand-Total ids node control below.0 room.0)
        λ control' e.
          bind-Total (update_desired_workers links active nodes controls) _
            (update_desired_workers-Total active nodes controls (omega (arith, a))
              (omega (arith, n)) below.1 room.1)
            λ rest d. (_, refl)
