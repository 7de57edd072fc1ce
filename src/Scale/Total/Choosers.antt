-- ===== src/Scale/Total/Choosers.antt =====
-- src/lib.rs: the indexing of the choosers for support nodes and for producers of an anchor.
use accumulator.Common.{
  ℕ, ◌<◌, ◌≡◌, refl, sym, ◌∙◌, ap, not, ◌&&◌, ◌||◌, none, some, List, arith, All, ltb, leb, length,
  range_from, returns, ◌>>=◌, index, first_some, returns-injective,
}
use accumulator.Common.Total.{
  Total, bind-Total, first_some-Total, if-Total, index-Total, range_from-below,
}
use accumulator.Float.{Float}
use accumulator.Graph.{RuntimeNode}
use accumulator.Trend.{LinkControl, is_growing, is_starved}
use accumulator.Control.{NodeControl, input_underfed, node_can_scale, is_fixed, is_implicit_support}
use accumulator.Scale.Basics.{
  downstream_blocks_scale_up, set_pressure_reason, add_or_rebalance_for_node, anchor_node_indices,
}
use accumulator.Scale.Choose.{
  support_consumer, support_link, choose_support_operation, feed_unblocked, feed_anchor,
  press_anchor, choose_anchor_pressure_operation,
}
use accumulator.Scale.Total.{
  IsWired, input-Total, downstream-Total, set_pressure_reason-Total, anchor-below,
  add_or_rebalance-Total, consumer-below, producer-below,
}

module _ {fl : Float} (links : List (LinkControl fl)) (active_by_node : List (List ℕ))
    (nodes : List (RuntimeNode fl)) (output_link : ℕ) (exists : output_link < length links)
    (same : length active_by_node ≡ length nodes) (wired : All (IsWired (length links)) nodes) where
  blocks-Total :
      (i : ℕ)
      → i < length nodes
      → Total (downstream_blocks_scale_up links active_by_node nodes output_link i)
  blocks-Total = downstream-Total links active_by_node nodes output_link exists same wired

  active-Total : (i : ℕ) → i < length nodes → Total (index active_by_node i)
  active-Total i h = index-Total active_by_node i (omega (arith, h, same))

  module _ (controls : List (NodeControl fl)) (fits : length controls ≡ length nodes) where
    control-Total : (i : ℕ) → i < length nodes → Total (index controls i)
    control-Total i h = index-Total controls i (omega (arith, h, fits))

    rebalance-Total : (i cap : ℕ) → Total (add_or_rebalance_for_node active_by_node i controls cap)
    rebalance-Total i cap =
        add_or_rebalance-Total links active_by_node nodes output_link exists same wired controls
          fits i cap

    support_consumer-Total :
        (cap i : ℕ)
        → i < length nodes
        → Total (support_consumer links active_by_node nodes output_link controls cap i)
    unfolding support_consumer
    support_consumer-Total cap i h =
        bind-Total (index controls i) _ (control-Total i h) λ control e.
          if-Total (not (is_implicit_support control.thread_policy)) _ _ (none, refl)
            (bind-Total (index active_by_node i) _ (active-Total i h) λ active d.
              if-Total (ltb (length active) control.desired_workers && node_can_scale control) _ _
                (bind-Total (downstream_blocks_scale_up links active_by_node nodes output_link i) _
                  (blocks-Total i h)
                  λ blocked f.
                    if-Total blocked _ _ (none, refl)
                      (bind-Total (add_or_rebalance_for_node active_by_node i controls cap) _
                        (rebalance-Total i cap) λ choice g. (some choice, refl)))
                (none, refl))

    pub choose_support-Total :
        (cap : ℕ)
        → Total (choose_support_operation links active_by_node nodes output_link controls cap)
    unfolding choose_support_operation support_link
    choose_support-Total cap =
        bind-Total (index links output_link) _ (index-Total links output_link exists) λ output e.
          if-Total (is_growing output.trend) _ _ (_, refl)
            (bind-Total
              (first_some (support_link links active_by_node nodes output_link controls cap)
                (range_from 0 (length links)))
              _
              (first_some-Total (support_link links active_by_node nodes output_link controls cap) _
                λ l m.
                  bind-Total (index links l) _
                    (index-Total links l (omega (arith, range_from-below 0 (length links) l m)))
                    λ link d.
                      if-Total (not (is_growing link.trend)) _ _ (none, refl)
                        (first_some-Total
                          (support_consumer links active_by_node nodes output_link controls cap) _
                          λ i k. support_consumer-Total cap i (
                            consumer-below links active_by_node nodes output_link exists same wired
                              l i k)))
              λ found f. (_, refl))

    feed_anchor-Total :
        (cap anchor i : ℕ)
        → anchor < length nodes
        → i < length nodes
        → Total (feed_anchor links active_by_node nodes output_link controls cap anchor i)
    unfolding feed_anchor feed_unblocked
    feed_anchor-Total cap anchor i k h =
        bind-Total (index controls i) _ (control-Total i h) λ control e.
          if-Total (is_fixed control.thread_policy) _ _ (none, refl)
            (bind-Total (index nodes i) _ (index-Total nodes i h) λ node d.
              bind-Total (index links node.input_link) _
                (input-Total links active_by_node nodes output_link exists same wired i node d)
                λ input f.
                  if-Total (is_starved input.trend || not (node_can_scale control)) _ _ (none, refl)
                    (bind-Total
                      (downstream_blocks_scale_up links active_by_node nodes output_link i) _
                      (blocks-Total i h)
                      λ blocked g.
                        if-Total blocked _ _ (none, refl)
                          (bind-Total (index active_by_node i) _ (active-Total i h) λ active a.
                            if-Total (leb control.desired_workers (length active)) _ _ (none, refl)
                              (pressed i))))
      where
        pressed :
            (i : ℕ)
            → Total (
                set_pressure_reason input_underfed controls anchor >>= λ after.
                add_or_rebalance_for_node active_by_node i after cap >>= λ choice.
                returns (some choice))
        pressed i =
            let (after, e, n) =
              set_pressure_reason-Total links active_by_node nodes output_link exists same wired
                controls fits input_underfed anchor k in
            bind-Total (set_pressure_reason input_underfed controls anchor) _ (after, e)
              λ c d.
                bind-Total (add_or_rebalance_for_node active_by_node i c cap) _
                  (add_or_rebalance-Total links active_by_node nodes output_link exists same wired c
                    (ap length (returns-injective (sym d ∙ e)) ∙ n) i cap)
                  λ choice f. (some choice, refl)

    pub choose_anchor_pressure-Total :
        (cap : ℕ)
        → Total
            (choose_anchor_pressure_operation links active_by_node nodes output_link controls cap)
    unfolding choose_anchor_pressure_operation press_anchor
    choose_anchor_pressure-Total cap =
        bind-Total (index links output_link) _ (index-Total links output_link exists) λ output e.
          if-Total (is_growing output.trend) _ _ (_, refl)
            (bind-Total
              (first_some (press_anchor links active_by_node nodes output_link controls cap)
                (anchor_node_indices controls))
              _
              (first_some-Total (press_anchor links active_by_node nodes output_link controls cap) _
                λ a m. pressed a (
                  anchor-below links active_by_node nodes output_link exists same wired controls
                    fits a m))
              λ found f. (_, refl))
      where
        pressed :
            (a : ℕ)
            → a < length nodes
            → Total (press_anchor links active_by_node nodes output_link controls cap a)
        pressed a h = bind-Total (index nodes a) _ (index-Total nodes a h) λ node e.
            bind-Total (index controls a) _ (control-Total a h) λ control d.
              if-Total (fl.le control.busy_ratio (fl.literal 60 100)) _ _ (none, refl)
                (bind-Total (index links node.input_link) _
                  (input-Total links active_by_node nodes output_link exists same wired a node e)
                  λ input f. bind-Total (index active_by_node a) _ (active-Total a h) λ active g.
                    if-Total _ _ _ (none, refl)
                      (first_some-Total
                        (feed_anchor links active_by_node nodes output_link controls cap a) _
                        λ i k. feed_anchor-Total cap a i h (
                          producer-below links active_by_node nodes output_link exists same wired
                            node.input_link i k)))
