-- ===== src/Scale/Sanction.antt =====
-- What the choosers check before they return an operation.
use accumulator.Common.{
  ℕ, ◌<◌, ◌≡◌, refl, Bool, true, false, none, some, List, arith, length, Run, returns, index,
  first_some-eq-some, >>=-eq-returns, skip-eq-some, not-eq-false, not, leb, if◌then◌else◌, sym,
  subst,
}
use accumulator.Float.{Float}
use accumulator.Policy.{
  ResolvedThreadPolicy, ResolvedScalePolicy, fixed, scalable, implicit_support,
}
use accumulator.Graph.{RuntimeNode}
use accumulator.Trend.{LinkControl, is_growing}
use accumulator.Control.{NodeControl, node_can_scale, active_worker_count}
use accumulator.Scale.Basics.{
  ScaleOperation, add_worker, remove_worker, downstream_blocks_scale_up, scale_up_unblocked,
  scale_up_scalable, scale_up_at, choose_scalable_scale_up,
}

module _ {fl : Float} where
  -- The node may change its number of workers now.
  abbrev pub CanScale : List (NodeControl fl) → ℕ → Type 0
  CanScale controls node_index =
      (control : NodeControl fl) × (index controls node_index ≡ returns control)
      × (node_can_scale control ≡ true)

  -- The link is there, and it does not grow.
  abbrev pub IsQuiet : List (LinkControl fl) → ℕ → Type 0
  IsQuiet links link_index =
      (link : LinkControl fl) × (index links link_index ≡ returns link)
      × (is_growing link.trend ≡ false)

-- The node has more than one worker.
abbrev pub HasSpare : List (List ℕ) → ℕ → Type 0
HasSpare active_by_node node_index =
    (ids : List ℕ) × (index active_by_node node_index ≡ returns ids) × (1 < length ids)

-- A worker is added below the cap and to a node that may scale; one is removed from a node that
-- may scale and keeps another worker, and which one is left open.
abbrev pub Sanctioned :
    {fl : Float} → List (List ℕ) → ℕ → List (NodeControl fl) → ScaleOperation → Type 0
Sanctioned active_by_node cap controls (add_worker node_index) =
    (active_worker_count active_by_node < cap) × CanScale controls node_index
Sanctioned active_by_node cap controls (remove_worker node_index worker_id) =
    (worker_id ≡ none) × CanScale controls node_index × HasSpare active_by_node node_index

module _ {fl : Float} (links : List (LinkControl fl)) (active_by_node : List (List ℕ))
    (nodes : List (RuntimeNode fl)) (output_link : ℕ) where
  unblocked_quiet :
      (test : Bool) (m : Run Bool)
      → (if test then returns true else m) ≡ returns false
      → test ≡ false
  unblocked_quiet true m h = cc
  unblocked_quiet false m h = refl

  pub downstream-IsQuiet :
      (node_index : ℕ)
      → downstream_blocks_scale_up links active_by_node nodes output_link node_index ≡ returns false
      → IsQuiet links output_link
  unfolding downstream_blocks_scale_up
  downstream-IsQuiet node_index h =
      let (output, e, d) = >>=-eq-returns (index links output_link) _ h in
      (output, e, unblocked_quiet (is_growing output.trend) _ d)

  scale_up_unblocked-eq :
      (control : NodeControl fl) (i max : ℕ) (target : fl.F) (op : ScaleOperation)
      → scale_up_unblocked links active_by_node nodes output_link control i max target
        ≡ returns (some op)
      → op ≡ add_worker i
  unfolding scale_up_unblocked
  scale_up_unblocked-eq control i max target op h = ground arith

  scale_up_scalable-eq :
      (control : NodeControl fl) (policy : ResolvedScalePolicy fl) (i : ℕ) (op : ScaleOperation)
      → scale_up_scalable links active_by_node nodes output_link control policy i
        ≡ returns (some op)
      → (op ≡ add_worker i) × (node_can_scale control ≡ true) × IsQuiet links output_link
  unfolding scale_up_scalable
  scale_up_scalable-eq control policy i op h =
      let (can, h₁) = skip-eq-some (not (node_can_scale control)) _ h in
      let (blocked, e, h₂) =
        >>=-eq-returns (downstream_blocks_scale_up links active_by_node nodes output_link i) _ h₁ in
      let (free, h₃) = skip-eq-some blocked _ h₂ in
      (
        scale_up_unblocked-eq control i policy.max_threads policy.target_queue_seconds op h₃,
        not-eq-false _ can,
        downstream-IsQuiet i (rw free at e),
      )

  policy_cases :
      (control : NodeControl fl) (i : ℕ) (op : ScaleOperation) (policy : ResolvedThreadPolicy fl)
      → (elim policy [
        | scalable p ↦ scale_up_scalable links active_by_node nodes output_link control p i
        | _ ↦ returns none
      ])
        ≡ returns (some op)
      → (op ≡ add_worker i) × (node_can_scale control ≡ true) × IsQuiet links output_link
  policy_cases control i op (scalable p) h = scale_up_scalable-eq control p i op h
  policy_cases control i op (fixed count) h = cc
  policy_cases control i op implicit_support h = cc

  scale_up_at-eq :
      (controls : List (NodeControl fl)) (i : ℕ) (op : ScaleOperation)
      → scale_up_at links active_by_node nodes output_link controls i ≡ returns (some op)
      → (op ≡ add_worker i) × CanScale controls i × IsQuiet links output_link
  unfolding scale_up_at
  scale_up_at-eq controls i op h =
      let (control, e, d) = >>=-eq-returns (index controls i) _ h in
      let (same, can, quiet) = policy_cases control i op control.thread_policy d in
      (same, (control, e, can), quiet)

  pub choose_scalable_scale_up-Sanctioned :
      (controls : List (NodeControl fl)) (cap : ℕ) (op : ScaleOperation)
      → choose_scalable_scale_up links active_by_node nodes output_link controls cap
        ≡ returns (some op)
      → Sanctioned active_by_node cap controls op × IsQuiet links output_link
  unfolding choose_scalable_scale_up
  choose_scalable_scale_up-Sanctioned controls cap op h =
      let (room, h₁) = skip-eq-some (leb cap (active_worker_count active_by_node)) _ h in
      let (i, _, e) = first_some-eq-some _ _ op h₁ in
      let (same, can, quiet) = scale_up_at-eq controls i op e in
      (subst (Sanctioned active_by_node cap controls) (sym same) (ground arith, can), quiet)
