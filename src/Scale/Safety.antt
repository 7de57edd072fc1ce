-- ===== src/Scale/Safety.antt =====
-- The theorems about the whole choice, `choose_scale_operation`.

use accumulator.Common.{
  ℕ, ◌≡◌, refl, sym, subst, not, Option, none, some, List, arith, length, Run, returns, index,
  first_some-eq-some, >>=-eq-returns, skip-eq-some, not-eq-false, returns-injective, leb,
}
use accumulator.Float.{Float}
use accumulator.Policy.{ResolvedThreadPolicy, fixed, scalable, implicit_support}
use accumulator.Graph.{RuntimeNode}
use accumulator.Trend.{LinkControl}
use accumulator.Control.{NodeControl, node_can_scale}
use accumulator.Scale.Basics.{
  ScaleOperation, remove_worker, Choice, downstream_blocks_scale_up, choose_scalable_scale_up,
}
use accumulator.Scale.Choose.{
  choose_support_operation, choose_anchor_pressure_operation, scale_down_unblocked, scale_down_at,
  choose_scale_down_operation, or_else, choose_scale_operation,
}
use accumulator.Scale.Sanction.{
  IsQuiet, Sanctioned, downstream-IsQuiet, choose_scalable_scale_up-Sanctioned,
}
use accumulator.Scale.Pressure.{
  IsSanctioned, SameScaling-IsSanctioned, choose_support-IsSanctioned,
  choose_anchor_pressure-IsSanctioned,
}

module _ {fl : Float} (links : List (LinkControl fl)) (active_by_node : List (List ℕ))
    (nodes : List (RuntimeNode fl)) (output_link now cap : ℕ) where
  scale_down_unblocked-eq :
      (control : NodeControl fl) (active : List ℕ) (i : ℕ) (policy : ResolvedThreadPolicy fl)
      (op : ScaleOperation)
      → control.thread_policy ≡ policy
      → scale_down_unblocked links active_by_node nodes output_link now control active i
        ≡ returns (some op)
      → op ≡ remove_worker i none
  unfolding scale_down_unblocked
  scale_down_unblocked-eq control active i (fixed count) op e h = ground arith
  scale_down_unblocked-eq control active i (scalable policy) op e h = ground arith
  scale_down_unblocked-eq control active i implicit_support op e h = ground arith

  scale_down_at-Sanctioned :
      (controls : List (NodeControl fl)) (i : ℕ) (op : ScaleOperation)
      → scale_down_at links active_by_node nodes output_link now controls i ≡ returns (some op)
      → Sanctioned active_by_node cap controls op × IsQuiet links output_link
  unfolding scale_down_at
  scale_down_at-Sanctioned controls i op h =
      let (active, a, h₁) = >>=-eq-returns (index active_by_node i) _ h in
      let (spare, h₂) = skip-eq-some (leb (length active) 1) _ h₁ in
      let (control, e, h₃) = >>=-eq-returns (index controls i) _ h₂ in
      let (can, h₄) = skip-eq-some (not (node_can_scale control)) _ h₃ in
      let (blocked, d, h₅) =
        >>=-eq-returns (downstream_blocks_scale_up links active_by_node nodes output_link i) _ h₄ in
      let (free, h₆) = skip-eq-some blocked _ h₅ in
      let same = scale_down_unblocked-eq control active i control.thread_policy op refl h₆ in
      (
        subst (Sanctioned active_by_node cap controls) (sym same)
            (refl, (control, e, not-eq-false _ can), (active, a, ground arith)),
        downstream-IsQuiet links active_by_node nodes output_link i (rw free at d),
      )

  pub choose_scale_down-Sanctioned :
      (controls : List (NodeControl fl)) (op : ScaleOperation)
      → choose_scale_down_operation links active_by_node nodes output_link now controls
        ≡ returns (some op)
      → Sanctioned active_by_node cap controls op × IsQuiet links output_link
  unfolding choose_scale_down_operation
  choose_scale_down-Sanctioned controls op h =
      let (i, _, e) = first_some-eq-some _ _ op h in scale_down_at-Sanctioned controls i op e

  or_else-IsSanctioned :
      (controls : List (NodeControl fl)) (tried choice : Choice fl)
      (next : List (NodeControl fl) → Run (Choice fl))
      → IsSanctioned active_by_node cap controls tried
      → ((controls' : List (NodeControl fl))
          → next controls' ≡ returns choice
          → IsSanctioned active_by_node cap controls' choice)
      → or_else links active_by_node nodes output_link tried next ≡ returns choice
      → IsSanctioned active_by_node cap controls choice
  or_else-IsSanctioned controls (none, controls') choice next s rest h =
      SameScaling-IsSanctioned active_by_node cap controls controls' choice s (rest controls' h)
  or_else-IsSanctioned controls (some op, controls') choice next s rest h =
      subst (IsSanctioned active_by_node cap controls) (returns-injective h) s

  up-IsSanctioned :
      (controls : List (NodeControl fl)) (up : Option ScaleOperation)
      → choose_scalable_scale_up links active_by_node nodes output_link controls cap ≡ returns up
      → IsSanctioned active_by_node cap controls (up, controls)
  up-IsSanctioned controls none e = refl
  up-IsSanctioned controls (some op) e =
      let (sanctioned, _) =
        choose_scalable_scale_up-Sanctioned links active_by_node nodes output_link controls cap op
          e in
      (refl, sanctioned)

  down-IsSanctioned :
      (controls : List (NodeControl fl)) (down : Option ScaleOperation)
      → choose_scale_down_operation links active_by_node nodes output_link now controls
        ≡ returns down
      → IsSanctioned active_by_node cap controls (down, controls)
  down-IsSanctioned controls none e = refl
  down-IsSanctioned controls (some op) e = (refl, (choose_scale_down-Sanctioned controls op e).0)

  -- Whatever operation is chosen, a worker is added only below the cap and to a node that may
  -- scale, and one is removed only from a node that may scale and keeps another worker; the choice
  -- writes nothing to the controls but pressure reasons.
  pub choose_scale_operation-IsSanctioned :
      (controls : List (NodeControl fl)) (choice : Choice fl)
      → choose_scale_operation links active_by_node nodes output_link now controls cap
        ≡ returns choice
      → IsSanctioned active_by_node cap controls choice
  unfolding choose_scale_operation
  choose_scale_operation-IsSanctioned controls choice h =
      let (up, u, h₁) =
        >>=-eq-returns
          (choose_scalable_scale_up links active_by_node nodes output_link controls cap) _ h in
      or_else-IsSanctioned controls (up, controls) choice _ (up-IsSanctioned controls up u)
        (λ c₁ k₁.
          let (support, s, h₂) =
            >>=-eq-returns (choose_support_operation links active_by_node nodes output_link c₁ cap)
              _ k₁ in
          or_else-IsSanctioned c₁ support choice _
            (choose_support-IsSanctioned links active_by_node nodes output_link cap c₁ support s)
            (λ c₂ k₂.
              let (pressure, p, h₃) =
                >>=-eq-returns
                  (choose_anchor_pressure_operation links active_by_node nodes output_link c₂ cap) _
                  k₂ in
              or_else-IsSanctioned c₂ pressure choice _
                (choose_anchor_pressure-IsSanctioned links active_by_node nodes output_link cap c₂
                  pressure p)
                (λ c₃ k₃.
                  let (down, d, same) =
                    >>=-eq-returns
                      (choose_scale_down_operation links active_by_node nodes output_link now c₃) _
                      k₃ in
                  subst (IsSanctioned active_by_node cap c₃) (returns-injective same)
                    (down-IsSanctioned c₃ down d))
                h₃)
            h₂)
        h₁
