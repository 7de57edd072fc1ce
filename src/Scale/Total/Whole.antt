-- ===== src/Scale/Total/Whole.antt =====
-- src/lib.rs: the indexing of `choose_scale_down_operation`, and of the whole choice.
use accumulator.Common.{
  ℕ, suc, ◌-◌, ◌<◌, ◌≡◌, refl, sym, ◌∙◌, ap, not, ◌||◌, Option, none, some, List, [], ◌∷◌, map,
  arith, All, ltb, leb, max, if◌then◌else◌, length, Run, returns, index,
}
use accumulator.Common.Total.{
  Total, bind-Total, first_some-Total, if-Total, index-Total, range_from-below,
}
use accumulator.Float.{Float}
use accumulator.Policy.{ResolvedThreadPolicy, fixed, scalable, implicit_support}
use accumulator.Graph.{RuntimeNode}
use accumulator.Trend.{LinkControl, is_growing}
use accumulator.Control.{NodeControl, node_can_scale}
use accumulator.Scale.Basics.{
  ScaleOperation, remove_worker, Choice, downstream_blocks_scale_up, choose_scalable_scale_up,
}
use accumulator.Scale.Choose.{
  choose_support_operation, choose_anchor_pressure_operation, scale_down_unblocked, scale_down_at,
  choose_scale_down_operation, or_else, choose_scale_operation,
}
use accumulator.Scale.Pressure.{
  SameScaling, IsSanctioned, without_reason, choose_support-IsSanctioned,
  choose_anchor_pressure-IsSanctioned,
}
use accumulator.Scale.Total.{IsWired, input-Total, downstream-Total, choose_scalable_scale_up-Total}
use accumulator.Scale.Total.Choosers.{choose_support-Total, choose_anchor_pressure-Total}

length-map {ℓ κ} :
    {A : Type ℓ} {B : Type κ} (f : A → B) (xs : List A) → length (map f xs) ≡ length xs
length-map f [] = refl
length-map f (x ∷ xs) = ap suc (length-map f xs)

-- A choice leaves as many controls as it was given.
length-IsSanctioned :
    {fl : Float} (active : List (List ℕ)) (cap : ℕ) (controls : List (NodeControl fl))
    (choice : Choice fl)
    → IsSanctioned active cap controls choice
    → length choice.1 ≡ length controls
length-IsSanctioned active cap controls (found, after) s =
    sym (length-map without_reason after)
    ∙ sym (ap length (scaling found s))
    ∙ length-map without_reason controls
  where
    scaling :
        (found : Option ScaleOperation)
        → IsSanctioned active cap controls (found, after)
        → SameScaling controls after
    scaling none s = s
    scaling (some op) s = s.0

module _ {fl : Float} (links : List (LinkControl fl)) (active_by_node : List (List ℕ))
    (nodes : List (RuntimeNode fl)) (output_link : ℕ) (exists : output_link < length links)
    (same : length active_by_node ≡ length nodes) (wired : All (IsWired (length links)) nodes) where
  module _ (controls : List (NodeControl fl)) (fits : length controls ≡ length nodes) where
    scale_down_unblocked-Total :
        (now i : ℕ) (control : NodeControl fl) (active : List ℕ) (policy : ResolvedThreadPolicy fl)
        → i < length nodes
        → control.thread_policy ≡ policy
        → Total (scale_down_unblocked links active_by_node nodes output_link now control active i)
    unfolding scale_down_unblocked
    scale_down_unblocked-Total now i control active (fixed count) h e =
        rw (e, scale_down_unblocked) (none, refl)
    scale_down_unblocked-Total now i control active (scalable policy) h e =
        rw (e, scale_down_unblocked) (since control.scale_down_eligible_since)
      where
        since :
            (o : Option ℕ)
            → Total (elim o as (λ x. Run (Option ScaleOperation)) [
              | none ↦ returns none
              | some since ↦
                  if ltb (now - since) policy.scale_down_after
                    || fl.lt policy.low_queue_seconds control.backlog_seconds
                  then returns none
                  else returns (some (remove_worker i none))
            ])
        since none = (none, refl)
        since (some t) = if-Total _ _ _ (none, refl) (_, refl)
    scale_down_unblocked-Total now i control active implicit_support h e =
        rw (e, scale_down_unblocked)
          (if-Total (leb (length active) (max control.desired_workers 1)) _ _ (none, refl)
            (bind-Total (index nodes i) _ (index-Total nodes i h) λ node d.
              bind-Total (index links node.input_link) _
                (input-Total links active_by_node nodes output_link exists same wired i node d)
                λ input f. if-Total (is_growing input.trend) _ _ (none, refl) (_, refl)))

    choose_scale_down-Total :
        (now : ℕ)
        → Total (choose_scale_down_operation links active_by_node nodes output_link now controls)
    unfolding choose_scale_down_operation scale_down_at
    choose_scale_down-Total now =
        first_some-Total (scale_down_at links active_by_node nodes output_link now controls) _
          λ i m.
            let h : i < length nodes =
              omega (arith, range_from-below 0 (length controls) i m, fits) in
            bind-Total (index active_by_node i) _
              (index-Total active_by_node i (omega (arith, h, same)))
              λ active e.
                if-Total (leb (length active) 1) _ _ (none, refl)
                  (bind-Total (index controls i) _ (index-Total controls i (omega (arith, h, fits)))
                    λ control d.
                      if-Total (not (node_can_scale control)) _ _ (none, refl)
                        (bind-Total
                          (downstream_blocks_scale_up links active_by_node nodes output_link i) _
                          (downstream-Total links active_by_node nodes output_link exists same wired
                            i h)
                          λ blocked f.
                            if-Total blocked _ _ (none, refl)
                              (scale_down_unblocked-Total now i control active control.thread_policy
                                h refl)))

  or_else-Total :
      (choice : Choice fl) (next : List (NodeControl fl) → Run (Choice fl))
      → Total (next choice.1)
      → Total (or_else links active_by_node nodes output_link choice next)
  or_else-Total (none, after) next t = t
  or_else-Total (some op, after) next t = (_, refl)

  -- The choice of an operation never panics, if the output link and the links of every node exist,
  -- every node has an output, and there are as many controls and lists of workers as nodes.
  pub choose_scale_operation-Total :
      (now cap : ℕ) (controls : List (NodeControl fl))
      → length controls ≡ length nodes
      → Total (choose_scale_operation links active_by_node nodes output_link now controls cap)
  unfolding choose_scale_operation
  choose_scale_operation-Total now cap controls fits =
      bind-Total (choose_scalable_scale_up links active_by_node nodes output_link controls cap) _
        (choose_scalable_scale_up-Total links active_by_node nodes output_link exists same wired
          controls fits cap)
        λ up e.
          or_else-Total (up, controls) _
            (bind-Total
              (choose_support_operation links active_by_node nodes output_link controls cap) _
              (choose_support-Total links active_by_node nodes output_link exists same wired
                controls fits cap)
              λ support s.
                let n₁ =
                  length-IsSanctioned active_by_node cap controls support (
                    choose_support-IsSanctioned links active_by_node nodes output_link cap controls
                      support s)
                  ∙ fits in
                or_else-Total support _ (
                  bind-Total
                    (choose_anchor_pressure_operation links active_by_node nodes output_link
                      support.1 cap)
                    _
                    (choose_anchor_pressure-Total links active_by_node nodes output_link exists same
                      wired support.1 n₁ cap)
                    λ pressure p.
                      let n₂ =
                        length-IsSanctioned active_by_node cap support.1 pressure (
                          choose_anchor_pressure-IsSanctioned links active_by_node nodes output_link
                            cap support.1 pressure p)
                        ∙ n₁ in
                      or_else-Total pressure _ (
                        bind-Total
                          (choose_scale_down_operation links active_by_node nodes output_link now
                            pressure.1)
                          _ (choose_scale_down-Total pressure.1 n₂ now) λ down d. (_, refl))))
