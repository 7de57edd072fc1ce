-- ===== src/Scale/Backpressure.antt =====
-- src/lib.rs: the whole choice, `choose_scale_operation`, on a growing output link.
use accumulator.Common.{
  ℕ, ◌≡◌, refl, sym, ◌∙◌, ap, true, false, Option, none, some, List, returns, index, >>=-eq-returns,
  returns-injective,
}
use accumulator.Float.{Float}
use accumulator.Graph.{RuntimeNode}
use accumulator.Trend.{LinkControl, is_growing}
use accumulator.Control.{NodeControl}
use accumulator.Scale.Basics.{ScaleOperation, Choice, choose_scalable_scale_up}
use accumulator.Scale.Choose.{
  choose_support_operation, choose_anchor_pressure_operation, choose_scale_down_operation,
  choose_scale_operation,
}
use accumulator.Scale.Sanction.{IsQuiet, choose_scalable_scale_up-Sanctioned}
use accumulator.Scale.Safety.{choose_scale_down-Sanctioned}

module _ {fl : Float} (links : List (LinkControl fl)) (active_by_node : List (List ℕ))
    (nodes : List (RuntimeNode fl)) (output_link now cap : ℕ) (output : LinkControl fl)
    (listed : index links output_link ≡ returns output) (grows : is_growing output.trend ≡ true)
    (controls : List (NodeControl fl)) where
  not-quiet : IsQuiet links output_link → ⊥
  not-quiet (link, e, q) =
      let same : output ≡ link = returns-injective (sym listed ∙ e) in
      let both : true ≡ false =
        sym grows ∙ ap (λ (l : LinkControl fl). is_growing l.trend) same ∙ q in
      cc

  no_up :
      (up : Option ScaleOperation)
      → choose_scalable_scale_up links active_by_node nodes output_link controls cap ≡ returns up
      → up ≡ none
  no_up none e = refl
  no_up (some op) e =
      let (_, quiet) =
        choose_scalable_scale_up-Sanctioned links active_by_node nodes output_link controls cap op
          e in
      absurd (not-quiet quiet)

  no_down :
      (down : Option ScaleOperation)
      → choose_scale_down_operation links active_by_node nodes output_link now controls
        ≡ returns down
      → down ≡ none
  no_down none e = refl
  no_down (some op) e =
      let (_, quiet) =
        choose_scale_down-Sanctioned links active_by_node nodes output_link now cap controls op e in
      absurd (not-quiet quiet)

  no_support :
      choose_support_operation links active_by_node nodes output_link controls cap
      ≡ returns (none, controls)
  unfolding choose_support_operation
  no_support = rw (listed, grows)

  no_pressure :
      choose_anchor_pressure_operation links active_by_node nodes output_link controls cap
      ≡ returns (none, controls)
  unfolding choose_anchor_pressure_operation
  no_pressure = rw (listed, grows)

  -- While the output link grows no operation is chosen, and the controls stay as they are.
  pub choose_scale_operation_blocked :
      (choice : Choice fl)
      → choose_scale_operation links active_by_node nodes output_link now controls cap
        ≡ returns choice
      → choice ≡ (none, controls)
  unfolding choose_scale_operation
  choose_scale_operation_blocked choice h =
      let (up, u, h₁) =
        >>=-eq-returns
          (choose_scalable_scale_up links active_by_node nodes output_link controls cap) _ h in
      let h₂ = rw (no_up up u, no_support, no_pressure) at h₁ in
      let (down, d, same) =
        >>=-eq-returns
          (choose_scale_down_operation links active_by_node nodes output_link now controls) _ h₂ in
      sym (returns-injective same) ∙ ap (λ x. (x, controls)) (no_down down d)
