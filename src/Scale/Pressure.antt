-- ===== src/Scale/Pressure.antt =====
-- src/lib.rs: the choosers that write to the controls, against the test of an operation.
use accumulator.Common.{
  ℕ, zero, suc, ◌≡◌, refl, sym, subst, ◌∙◌, ap, inl, inr, true, not, ◌&&◌, ◌||◌, Option, none, some,
  List, [], ◌∷◌, map, arith, length, Run, returns, ◌>>=◌, index, first_some, first_some-eq-some,
  >>=-eq-returns, skip-eq-some, pass-eq-some, returns-injective, leb, ltb, ltb→lt, if◌then◌else◌,
  Bool-cases, ◌==◌,
}
use mathlib.Core.Option.{some-injective}
use accumulator.Float.{Float}
use accumulator.Graph.{RuntimeNode}
use accumulator.Trend.{LinkControl, is_growing, is_starved}
use accumulator.Control.{
  NodeControl, AnchorPressureReason, node_can_scale, active_worker_count, is_scalable, is_fixed,
  is_implicit_support, input_underfed, budget_pressure,
}
use accumulator.Scale.Basics.{
  add_worker, remove_worker, Choice, or_nothing, downstream_blocks_scale_up, take_from_anchor,
  add_or_rebalance_for_node, set_pressure_reason, anchor_node_indices,
}
use accumulator.Scale.Choose.{
  support_consumer, support_link, choose_support_operation, feed_unblocked, feed_anchor,
  press_anchor, choose_anchor_pressure_operation,
}
use accumulator.Scale.Sanction.{CanScale, Sanctioned}

module _ {fl : Float} where
  -- A node's control without its pressure reason, which only telemetry reads.
  abbrev pub without_reason : NodeControl fl → NodeControl fl
  without_reason control = record control { last_anchor_pressure_reason = none }

  abbrev pub SameScaling : List (NodeControl fl) → List (NodeControl fl) → Type 0
  SameScaling controls controls' = map without_reason controls ≡ map without_reason controls'

index-map {ℓ κ} :
    {A : Type ℓ} {B : Type κ} (f : A → B) (xs : List A) (i : ℕ) {x : A}
    → index xs i ≡ returns x
    → index (map f xs) i ≡ returns (f x)
index-map f [] i h = cc
index-map f (x ∷ xs) zero h = cc
index-map f (x ∷ xs) (suc i) h = index-map f xs i h

index-map_inv {ℓ κ} :
    {A : Type ℓ} {B : Type κ} (f : A → B) (xs : List A) (i : ℕ) {y : B}
    → index (map f xs) i ≡ returns y
    → (x : A) × (index xs i ≡ returns x) × (f x ≡ y)
index-map_inv f [] i h = cc
index-map_inv f (x ∷ xs) zero h = (x, refl, cc)
index-map_inv f (x ∷ xs) (suc i) h = index-map_inv f xs i h

module _ {fl : Float} where
  pub SameScaling-CanScale :
      (controls controls' : List (NodeControl fl)) (i : ℕ)
      → SameScaling controls controls'
      → CanScale controls' i
      → CanScale controls i
  unfolding node_can_scale
  SameScaling-CanScale controls controls' i same (control', e, can) =
      let there = rw (← same) at (index-map without_reason controls' i e) in
      let (control, d, erased) = index-map_inv without_reason controls i there in
      (control, d, ap node_can_scale erased ∙ can)

  pub set_pressure_reason-SameScaling :
      (reason : AnchorPressureReason) (controls controls' : List (NodeControl fl)) (i : ℕ)
      → set_pressure_reason reason controls i ≡ returns controls'
      → SameScaling controls controls'
  unfolding set_pressure_reason
  set_pressure_reason-SameScaling reason [] controls' i h = cc
  set_pressure_reason-SameScaling reason (c ∷ cs) controls' zero h =
      ap (map without_reason) (returns-injective h)
  set_pressure_reason-SameScaling reason (c ∷ cs) controls' (suc i) h =
      let (rest, e, d) = >>=-eq-returns (set_pressure_reason reason cs i) _ h in
      ap (◌∷◌ (without_reason c)) (set_pressure_reason-SameScaling reason cs rest i e)
      ∙ ap (map without_reason) (returns-injective d)

-- A choice that the given controls sanction, and that changes only pressure reasons.
abbrev pub IsSanctioned :
    {fl : Float} → List (List ℕ) → ℕ → List (NodeControl fl) → Choice fl → Type 0
IsSanctioned active_by_node cap controls (none, controls') = SameScaling controls controls'
IsSanctioned active_by_node cap controls (some op, controls') =
    SameScaling controls controls' × Sanctioned active_by_node cap controls op

module _ {fl : Float} (active_by_node : List (List ℕ)) (cap : ℕ) where
  -- Controls that differ in pressure reasons sanction the same operations.
  pub SameScaling-IsSanctioned :
      (controls controls' : List (NodeControl fl)) (choice : Choice fl)
      → SameScaling controls controls'
      → IsSanctioned active_by_node cap controls' choice
      → IsSanctioned active_by_node cap controls choice
  SameScaling-IsSanctioned controls controls' (none, after) same s = same ∙ s
  SameScaling-IsSanctioned controls controls' (some (add_worker i), after) same (s, (room, can)) =
      (same ∙ s, (room, SameScaling-CanScale controls controls' i same can))
  SameScaling-IsSanctioned controls controls' (some (remove_worker i w), after) same
        (s, (open_choice, can, spare)) =
      (same ∙ s, (open_choice, SameScaling-CanScale controls controls' i same can, spare))

  pub or_nothing-IsSanctioned :
      (controls : List (NodeControl fl)) (found : Option (Choice fl))
      → ((choice : Choice fl)
          → found ≡ some choice
          → IsSanctioned active_by_node cap controls choice)
      → IsSanctioned active_by_node cap controls (or_nothing controls found)
  or_nothing-IsSanctioned controls none s = refl
  or_nothing-IsSanctioned controls (some choice) s = s choice refl

  take_spare :
      (controls : List (NodeControl fl)) (i : ℕ) (choice : Choice fl) (control : NodeControl fl)
      (active : List ℕ)
      → index controls i ≡ returns control
      → index active_by_node i ≡ returns active
      → (ltb 1 (length active) && node_can_scale control) ≡ true
      → (set_pressure_reason budget_pressure controls i >>= λ controls'.
          returns (some (some (remove_worker i none), controls')))
        ≡ returns (some choice)
      → IsSanctioned active_by_node cap controls choice
  take_spare controls i choice control active e d t h =
      let (controls', s, same) =
        >>=-eq-returns (set_pressure_reason budget_pressure controls i) _ h in
      subst (IsSanctioned active_by_node cap controls) (some-injective _ _ (returns-injective same))
        (
          set_pressure_reason-SameScaling budget_pressure controls controls' i s,
          (refl, (control, e, ground arith), (active, d, ground arith)),
        )

  take_from_anchor-IsSanctioned :
      (node_index : ℕ) (controls : List (NodeControl fl)) (i : ℕ) (choice : Choice fl)
      → take_from_anchor active_by_node node_index controls i ≡ returns (some choice)
      → IsSanctioned active_by_node cap controls choice
  unfolding take_from_anchor
  take_from_anchor-IsSanctioned node_index controls i choice h =
      let (_, h₁) = skip-eq-some (node_index == i) _ h in
      let (control, e, h₂) = >>=-eq-returns (index controls i) _ h₁ in
      let (_, h₃) = skip-eq-some (not (is_scalable control.thread_policy)) _ h₂ in
      let (active, d, h₄) = >>=-eq-returns (index active_by_node i) _ h₃ in
      let (t, h₅) = pass-eq-some (ltb 1 (length active) && node_can_scale control) _ h₄ in
      take_spare controls i choice control active e d t h₅

  -- For a node that may scale, the result is a sanctioned choice.
  pub add_or_rebalance-IsSanctioned :
      (node_index : ℕ) (controls : List (NodeControl fl)) (choice : Choice fl)
      → CanScale controls node_index
      → add_or_rebalance_for_node active_by_node node_index controls cap ≡ returns choice
      → IsSanctioned active_by_node cap controls choice
  unfolding add_or_rebalance_for_node
  add_or_rebalance-IsSanctioned node_index controls choice can h =
      elim (Bool-cases (ltb (active_worker_count active_by_node) cap)) [
        | inl room ↦
            subst (IsSanctioned active_by_node cap controls)
              (returns-injective (rw (room, if◌then◌else◌) at h)) (refl, (ltb→lt _ _ room, can))
        | inr full ↦
            let (found, e, d) =
              >>=-eq-returns
                (first_some (take_from_anchor active_by_node node_index controls)
                  (anchor_node_indices controls))
                _ (rw (full, if◌then◌else◌) at h) in
            subst (IsSanctioned active_by_node cap controls) (returns-injective d) (
              or_nothing-IsSanctioned controls found λ choice' same.
                let (i, _, taken) = first_some-eq-some _ _ choice' (rw same at e) in
                take_from_anchor-IsSanctioned node_index controls i choice' taken)
      ]

module _ {fl : Float} (links : List (LinkControl fl)) (active_by_node : List (List ℕ))
    (nodes : List (RuntimeNode fl)) (output_link cap : ℕ) (controls : List (NodeControl fl)) where
  support_consumer-IsSanctioned :
      (i : ℕ) (choice : Choice fl)
      → support_consumer links active_by_node nodes output_link controls cap i
        ≡ returns (some choice)
      → IsSanctioned active_by_node cap controls choice
  unfolding support_consumer
  support_consumer-IsSanctioned i choice h =
      let (control, e, h₁) = >>=-eq-returns (index controls i) _ h in
      let (_, h₂) = skip-eq-some (not (is_implicit_support control.thread_policy)) _ h₁ in
      let (active, _, h₃) = >>=-eq-returns (index active_by_node i) _ h₂ in
      let (t, h₄) =
        pass-eq-some (ltb (length active) control.desired_workers && node_can_scale control) _ h₃ in
      let (blocked, _, h₅) =
        >>=-eq-returns (downstream_blocks_scale_up links active_by_node nodes output_link i) _ h₄ in
      let (_, h₆) = skip-eq-some blocked _ h₅ in
      let (choice', d, same) =
        >>=-eq-returns (add_or_rebalance_for_node active_by_node i controls cap) _ h₆ in
      subst (IsSanctioned active_by_node cap controls) (some-injective _ _ (returns-injective same))
        (add_or_rebalance-IsSanctioned active_by_node cap i controls choice'
          (control, e, ground arith) d)

  support_link-IsSanctioned :
      (i : ℕ) (choice : Choice fl)
      → support_link links active_by_node nodes output_link controls cap i ≡ returns (some choice)
      → IsSanctioned active_by_node cap controls choice
  unfolding support_link
  support_link-IsSanctioned i choice h =
      let (link, _, h₁) = >>=-eq-returns (index links i) _ h in
      let (_, h₂) = skip-eq-some (not (is_growing link.trend)) _ h₁ in
      let (consumer, _, e) = first_some-eq-some _ _ choice h₂ in
      support_consumer-IsSanctioned consumer choice e

  feed_unblocked-IsSanctioned :
      (control : NodeControl fl) (anchor i : ℕ) (choice : Choice fl)
      → CanScale controls i
      → feed_unblocked links active_by_node nodes output_link control controls cap anchor i
        ≡ returns (some choice)
      → IsSanctioned active_by_node cap controls choice
  unfolding feed_unblocked
  feed_unblocked-IsSanctioned control anchor i choice can h =
      let (active, _, h₁) = >>=-eq-returns (index active_by_node i) _ h in
      let (_, h₂) = skip-eq-some (leb control.desired_workers (length active)) _ h₁ in
      let (controls', s, h₃) =
        >>=-eq-returns (set_pressure_reason input_underfed controls anchor) _ h₂ in
      let (choice', d, same) =
        >>=-eq-returns (add_or_rebalance_for_node active_by_node i controls' cap) _ h₃ in
      let kept = set_pressure_reason-SameScaling input_underfed controls controls' anchor s in
      subst (IsSanctioned active_by_node cap controls) (some-injective _ _ (returns-injective same))
        (SameScaling-IsSanctioned active_by_node cap controls controls' choice' kept (
          add_or_rebalance-IsSanctioned active_by_node cap i controls' choice'
            (SameScaling-CanScale controls' controls i (sym kept) can) d))

  feed_anchor-IsSanctioned :
      (anchor i : ℕ) (choice : Choice fl)
      → feed_anchor links active_by_node nodes output_link controls cap anchor i
        ≡ returns (some choice)
      → IsSanctioned active_by_node cap controls choice
  unfolding feed_anchor
  feed_anchor-IsSanctioned anchor i choice h =
      let (control, e, h₁) = >>=-eq-returns (index controls i) _ h in
      let (_, h₂) = skip-eq-some (is_fixed control.thread_policy) _ h₁ in
      let (node, _, h₃) = >>=-eq-returns (index nodes i) _ h₂ in
      let (input, _, h₄) = >>=-eq-returns (index links node.input_link) _ h₃ in
      let (t, h₅) = skip-eq-some (is_starved input.trend || not (node_can_scale control)) _ h₄ in
      let (blocked, _, h₆) =
        >>=-eq-returns (downstream_blocks_scale_up links active_by_node nodes output_link i) _ h₅ in
      let (_, h₇) = skip-eq-some blocked _ h₆ in
      feed_unblocked-IsSanctioned control anchor i choice (control, e, ground arith) h₇

  press_anchor-IsSanctioned :
      (anchor : ℕ) (choice : Choice fl)
      → press_anchor links active_by_node nodes output_link controls cap anchor
        ≡ returns (some choice)
      → IsSanctioned active_by_node cap controls choice
  unfolding press_anchor
  press_anchor-IsSanctioned anchor choice h =
      let (node, _, h₁) = >>=-eq-returns (index nodes anchor) _ h in
      let (control, _, h₂) = >>=-eq-returns (index controls anchor) _ h₁ in
      let (_, h₃) = skip-eq-some (fl.le control.busy_ratio (fl.literal 60 100)) _ h₂ in
      let (input, _, h₄) = >>=-eq-returns (index links node.input_link) _ h₃ in
      let (active, _, h₅) = >>=-eq-returns (index active_by_node anchor) _ h₄ in
      let (_, h₆) = skip-eq-some _ _ h₅ in
      let (producer, _, e) = first_some-eq-some _ _ choice h₆ in
      feed_anchor-IsSanctioned anchor producer choice e

  -- The two loops below `choose_scale_operation` that may write to the controls.
  guarded_loop :
      (loop : Run (Option (Choice fl))) (choice : Choice fl)
      → ((c : Choice fl) → loop ≡ returns (some c) → IsSanctioned active_by_node cap controls c)
      → (index links output_link >>= λ output.
          if is_growing output.trend
          then returns (none, controls)
          else (loop >>= λ found. returns (or_nothing controls found)))
        ≡ returns choice
      → IsSanctioned active_by_node cap controls choice
  guarded_loop loop choice each h =
      let (output, _, h₁) = >>=-eq-returns (index links output_link) _ h in
      elim (Bool-cases (is_growing output.trend)) [
        | inl e ↦
            subst (IsSanctioned active_by_node cap controls)
              (returns-injective (rw (e, if◌then◌else◌) at h₁)) refl
        | inr e ↦
            let (found, d, same) = >>=-eq-returns loop _ (rw (e, if◌then◌else◌) at h₁) in
            subst (IsSanctioned active_by_node cap controls) (returns-injective same)
              (or_nothing-IsSanctioned active_by_node cap controls found λ c s. each c (rw s at d))
      ]

  pub choose_support-IsSanctioned :
      (choice : Choice fl)
      → choose_support_operation links active_by_node nodes output_link controls cap
        ≡ returns choice
      → IsSanctioned active_by_node cap controls choice
  unfolding choose_support_operation
  choose_support-IsSanctioned choice h =
      guarded_loop _ choice
        (λ c e. let (i, _, d) = first_some-eq-some _ _ c e in support_link-IsSanctioned i c d) h

  pub choose_anchor_pressure-IsSanctioned :
      (choice : Choice fl)
      → choose_anchor_pressure_operation links active_by_node nodes output_link controls cap
        ≡ returns choice
      → IsSanctioned active_by_node cap controls choice
  unfolding choose_anchor_pressure_operation
  choose_anchor_pressure-IsSanctioned choice h =
      guarded_loop _ choice
        (λ c e. let (i, _, d) = first_some-eq-some _ _ c e in press_anchor-IsSanctioned i c d) h
