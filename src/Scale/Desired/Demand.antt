-- ===== src/Scale/Desired/Demand.antt =====
-- How many workers `update_desired_workers` asks for, and when a settling node is released.
use accumulator.Common.{
  inl, inr, ℕ, ◌≤◌, ◌≡◌, refl, subst, max, true, false, List, [], ◌∷◌, arith, length, returns,
  index, >>=-eq-returns, returns-injective, Bool-cases, if◌then◌else◌,
}
use accumulator.Float.{Float}
use accumulator.Policy.{ResolvedThreadPolicy, fixed, scalable, implicit_support}
use accumulator.Graph.{RuntimeNode}
use accumulator.Trend.{LinkControl}
use accumulator.Control.{NodeControl, eligible}
use accumulator.Scale.Desired.{
  Demand, policy_demand, update_demand, update_desired_workers, settle_step,
}

-- The number of workers fits the policy, for a node with `active` workers.
abbrev pub FitsPolicy : {fl : Float} → ResolvedThreadPolicy fl → ℕ → ℕ → Type 0
FitsPolicy (fixed count) active desired = desired ≡ count
FitsPolicy (scalable policy) active desired =
    (1 ≤ desired) × (desired ≤ max (max active 1) policy.max_threads)
FitsPolicy implicit_support active desired = 1 ≤ desired

-- The demand fits the kind of the node.
abbrev pub FitsNode : {fl : Float} → NodeControl fl → ℕ → Type 0
FitsNode control active =
    (control.is_external ≡ true → control.desired_workers ≡ 0)
    × (control.is_external ≡ false
        → control.is_weighted_branch ≡ true
        → control.desired_workers ≡ 1)
    × (control.is_external ≡ false
        → control.is_weighted_branch ≡ false
        → FitsPolicy control.thread_policy active control.desired_workers)

abbrev pub AllFit : {fl : Float} → List (NodeControl fl) → List (List ℕ) → Type 0
AllFit [] active = Unit {0}
AllFit (control ∷ controls) [] = ⊥
AllFit (control ∷ controls) (ids ∷ active) = FitsNode control (length ids) × AllFit controls active

module _ {fl : Float} where
  policy_demand-FitsPolicy :
      (input : LinkControl fl) (active : ℕ) (control : NodeControl fl)
      (policy : ResolvedThreadPolicy fl) (demand : Demand fl)
      → policy_demand input (max active 1) control policy ≡ returns demand
      → FitsPolicy policy active demand.0
  unfolding policy_demand
  policy_demand-FitsPolicy input active control (fixed count) demand h = ground arith
  policy_demand-FitsPolicy input active control (scalable policy) demand h = ground arith
  policy_demand-FitsPolicy input active control implicit_support demand h = ground arith

  update_demand-FitsNode :
      (links : List (LinkControl fl)) (ids : List ℕ) (node : RuntimeNode fl)
      (control control' : NodeControl fl)
      → update_demand links ids node control ≡ returns control'
      → FitsNode control' (length ids)
  unfolding update_demand
  update_demand-FitsNode links ids node control control' h = elim (Bool-cases control.is_external) [
    | inl x ↦
        subst (λ c. FitsNode c (length ids)) (returns-injective (rw (x, if◌then◌else◌) at h))
          ((λ _. refl), (λ i _. cc), (λ i _. cc))
    | inr x ↦ elim (Bool-cases control.is_weighted_branch) [
      | inl b ↦
          subst (λ c. FitsNode c (length ids)) (returns-injective (rw (x, b, if◌then◌else◌) at h))
            ((λ e. cc), (λ _ _. refl), (λ _ i. cc))
      | inr b ↦
          let (input, _, h₁) =
            >>=-eq-returns (index links node.input_link) _ (rw (x, b, if◌then◌else◌) at h) in
          let (demand, d, same) =
            >>=-eq-returns (policy_demand input (max (length ids) 1) control control.thread_policy)
              _ h₁ in
          subst (λ c. FitsNode c (length ids)) (returns-injective same)
            (
              (λ e. cc),
              (λ _ i. cc),
              (λ _ _.
                  policy_demand-FitsPolicy input (length ids) control control.thread_policy demand
                    d),
            )
    ]
  ]

  -- After the update an external node wants no worker, a weighted branch one, a fixed node its
  -- count, a scalable node at least one and no more than its maximum or than it has, and a support
  -- node at least one.
  pub update_desired_workers-AllFit :
      (links : List (LinkControl fl)) (active : List (List ℕ)) (nodes : List (RuntimeNode fl))
      (controls controls' : List (NodeControl fl))
      → update_desired_workers links active nodes controls ≡ returns controls'
      → AllFit controls' active
  unfolding update_desired_workers
  update_desired_workers-AllFit links active nodes [] controls' h =
      subst (λ cs. AllFit cs active) (returns-injective h) tt
  update_desired_workers-AllFit links [] nodes (c ∷ cs) controls' h = cc
  update_desired_workers-AllFit links (ids ∷ active) [] (c ∷ cs) controls' h = cc
  update_desired_workers-AllFit links (ids ∷ active) (node ∷ nodes) (c ∷ cs) controls' h =
      let (c', e, h₁) = >>=-eq-returns (update_demand links ids node c) _ h in
      let (rest, d, same) = >>=-eq-returns (update_desired_workers links active nodes cs) _ h₁ in
      subst (λ cs'. AllFit cs' (ids ∷ active)) (returns-injective same)
        (
          update_demand-FitsNode links ids node c c' e,
          update_desired_workers-AllFit links active nodes cs rest d,
        )

  -- A settling node leaves the state in which it cannot scale only at a sample with two samples
  -- counted and some work seen, and then it is eligible.
  pub settle_step_release :
      (processed_items : ℕ) (control : NodeControl fl)
      → control.is_settling ≡ true
      → (settle_step processed_items control).is_settling ≡ false
      → (1 ≤ control.settle_samples)
        × ((settle_step processed_items control).settle_observed_work ≡ true)
        × ((settle_step processed_items control).scaling_state ≡ eligible)
  unfolding settle_step
  settle_step_release processed_items control s r = ground arith
