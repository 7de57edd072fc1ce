-- ===== src/Scale/Tests.antt =====
-- The theorems about scaling, applied to the small pipeline.
use accumulator.Common.{
  ◌≤◌, ◌≡◌, refl, true, false, none, some, List, [], ◌∷◌, returns, arith, first_some,
}
use accumulator.Float.Milli.{milli, pos}
use accumulator.Policy.{scalable, implicit_support}
use accumulator.Trend.{stable, runaway, growing, effective_backlog_len}
use accumulator.Control.{NodeControl, eligible, settling, node_can_scale}
use accumulator.Scale.Basics.{add_worker, Choice}
use accumulator.Scale.Choose.{choose_scale_operation}
use accumulator.Scale.Pressure.{IsSanctioned}
use accumulator.Scale.Safety.{choose_scale_operation-IsSanctioned}
use accumulator.Scale.Backpressure.{choose_scale_operation_blocked}
use accumulator.Scale.Desired.{settle_step, update_desired_workers}
use accumulator.Scale.Desired.Demand.{AllFit, update_desired_workers-AllFit, settle_step_release}
use accumulator.Scale.Total.Whole.{choose_scale_operation-Total}
use accumulator.Scale.Desired.Total.{update_desired_workers-Total}
use accumulator.Common.Total.{Total}
use accumulator.Samples.{
  worker_policy, sample_control, sample_link_control, two_nodes, two_controls, three_links,
  two_active,
}

abbrev added : Choice milli
added = (some (add_worker 1), two_controls)

-- The growing input of the anchor adds a worker to it.
choose_added :
    choose_scale_operation (three_links stable) two_active two_nodes 2 0 two_controls 4
    ≡ returns added
unfolding choose_scale_operation node_can_scale first_some
choose_added = refl

choose_scale_operation-IsSanctioned_example : IsSanctioned two_active 4 two_controls added
choose_scale_operation-IsSanctioned_example =
    choose_scale_operation-IsSanctioned (three_links stable) two_active two_nodes 2 0 4 two_controls
      added choose_added

abbrev no_choice : Choice milli
no_choice = (none, two_controls)

choose_none :
    choose_scale_operation (three_links runaway) two_active two_nodes 2 0 two_controls 4
    ≡ returns no_choice
unfolding choose_scale_operation node_can_scale first_some
choose_none = refl

choose_scale_operation_blocked_example : no_choice ≡ (none, two_controls)
choose_scale_operation_blocked_example =
    choose_scale_operation_blocked (three_links runaway) two_active two_nodes 2 0 4
      (sample_link_control 1 runaway) refl refl two_controls no_choice choose_none

-- Two items a second and six arrivals need three workers; the support node keeps one for each.
abbrev updated : List (NodeControl milli)
updated =
    record (sample_control false implicit_support 1) { desired_workers = 3 }
    ∷ record (sample_control true (scalable worker_policy) 3) {
      desired_workers = 4;
      backlog_seconds = pos 4500;
    }
    ∷ []

update_updated :
    update_desired_workers (three_links stable) two_active two_nodes two_controls ≡ returns updated
unfolding update_desired_workers effective_backlog_len
update_updated = refl

update_desired_workers-AllFit_example : AllFit updated two_active
update_desired_workers-AllFit_example =
    update_desired_workers-AllFit (three_links stable) two_active two_nodes two_controls updated
      update_updated

abbrev settling_control : NodeControl milli
settling_control = record (sample_control true (scalable worker_policy) 3) {
  is_settling = true;
  settle_samples = 1;
  scaling_state = settling;
}

released : (settle_step 5 settling_control).is_settling ≡ false
unfolding settle_step
released = refl

settle_step_release_example :
    (1 ≤ settling_control.settle_samples)
    × ((settle_step 5 settling_control).settle_observed_work ≡ true)
    × ((settle_step 5 settling_control).scaling_state ≡ eligible)
settle_step_release_example = settle_step_release 5 settling_control refl released

choose_scale_operation-Total_example :
    Total (choose_scale_operation (three_links growing) two_active two_nodes 2 0 two_controls 4)
choose_scale_operation-Total_example =
    choose_scale_operation-Total (three_links growing) two_active two_nodes 2 (omega arith) refl
      (
        ((omega arith, (omega arith, tt)), omega arith),
        (((omega arith, (omega arith, tt)), omega arith), tt),
      )
      0 4 two_controls refl

update_desired_workers-Total_example :
    Total (update_desired_workers (three_links growing) two_active two_nodes two_controls)
update_desired_workers-Total_example =
    update_desired_workers-Total (three_links growing) two_active two_nodes two_controls refl refl
      (omega arith, (omega arith, tt)) (tt, (omega arith, tt))
