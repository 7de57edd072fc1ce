-- ===== src/Scale/Desired.antt =====
-- src/lib.rs: `collect_node_samples` and `update_desired_workers`. The statistics of the workers are
-- read and reset at the sampling, so the reset statistics are a result. `duration_since` is the
-- difference of two instants, and the sums of a node's statistics stay below 2^64. `clamp(1, max)` panics where `max` is 0.
pub mod Demand
pub mod Total
use accumulator.Common.{
  ℕ, suc, ◌+◌, ◌-◌, max, min, Bool, true, false, ◌&&◌, ◌||◌, Option, none, some, List, [], ◌∷◌, ltb,
  leb, ◌==◌, if◌then◌else◌, length, set, Run, returns, panics, ◌>>=◌, index,
}
use accumulator.Common.Words.{saturating_add}
use accumulator.Float.{Float}
use accumulator.Policy.{
  ResolvedThreadPolicy, ResolvedScalePolicy, fixed, scalable, implicit_support,
}
use accumulator.Graph.{RuntimeNode}
use accumulator.Trend.{LinkControl, is_growing, ewma, effective_backlog_len}
use accumulator.Control.{NodeControl, eligible}

-- `WorkerStats`, and a `NodeSample`, which has the same fields.
pub record WorkerStats : Type 0 where
  pub process_nanos : ℕ
  pub wait_nanos : ℕ
  pub processed_items : ℕ

abbrev pub reset_stats : WorkerStats
reset_stats = record { process_nanos = 0; wait_nanos = 0; processed_items = 0 }

-- The loop over a node's workers: the sum of their statistics, which are swapped for zeros.
gather : List ℕ → List WorkerStats → WorkerStats → Run (WorkerStats × List WorkerStats)
gather [] stats sample = returns (sample, stats)
gather (id ∷ ids) stats sample = index stats id >>= λ s.
    gather ids (set stats id reset_stats) (record {
      process_nanos = sample.process_nanos + s.process_nanos;
      wait_nanos = sample.wait_nanos + s.wait_nanos;
      processed_items = sample.processed_items + s.processed_items;
    })

module _ {fl : Float} where
  -- The fields that the sample sets for every node.
  with_rates : WorkerStats → NodeControl fl → NodeControl fl
  unfolding ewma
  with_rates sample control =
      let total_nanos = saturating_add sample.process_nanos sample.wait_nanos in
      let service_time =
        ewma fl control.service_time_ewma
          (fl.div (fl.of_nat sample.process_nanos) (fl.of_nat sample.processed_items))
          (fl.literal 30 100) in
      let measured = ltb 0 sample.processed_items && ltb 0 sample.process_nanos in
      record control {
        last_sample_processed = sample.processed_items;
        processed_count = saturating_add control.processed_count sample.processed_items;
        busy_ratio =
            if ltb 0 total_nanos
            then fl.div (fl.of_nat sample.process_nanos) (fl.of_nat total_nanos)
            else control.busy_ratio;
        service_time_ewma = if measured then service_time else control.service_time_ewma;
        per_worker_throughput =
            if measured
            then fl.div (fl.of_nat 1000000000) (fl.max_of service_time (fl.of_nat 1))
            else control.per_worker_throughput;
      }

  counted_sample : ℕ → NodeControl fl → NodeControl fl
  counted_sample processed_items control = record control {
    settle_samples = min (control.settle_samples + 1) 4294967295;
    settle_observed_work = control.settle_observed_work || ltb 0 processed_items;
  }

  -- A counted node becomes eligible after two samples, once it has processed something.
  release_settled : NodeControl fl → NodeControl fl
  release_settled control =
      if leb 2 control.settle_samples && control.settle_observed_work
      then record control { is_settling = false; scaling_state = eligible }
      else control

  unfoldable pub settle_step : ℕ → NodeControl fl → NodeControl fl
  unfolding counted_sample release_settled
  settle_step processed_items control =
      if control.is_settling
      then release_settled (counted_sample processed_items control)
      else control

  -- `get_or_insert(now)` on a node that is underutilized, and a reset on any other.
  mark_underutilized : ℕ → ResolvedScalePolicy fl → LinkControl fl → NodeControl fl → NodeControl fl
  unfolding effective_backlog_len
  mark_underutilized now policy input control =
      let throughput = control.per_worker_throughput in
      let backlog_seconds =
        if fl.lt (fl.of_nat 0) throughput
        then fl.div (effective_backlog_len fl input) throughput
        else fl.of_nat 0 in
      let underutilized =
        fl.le backlog_seconds policy.low_queue_seconds
        && fl.lt control.busy_ratio policy.underutilized_busy_ratio in
      record control {
        backlog_seconds = backlog_seconds;
        scale_down_eligible_since =
            if underutilized
            then (elim control.scale_down_eligible_since [
              | none ↦ some now
              | some since ↦ some since
            ])
            else none;
      }

  scalable_step :
      ℕ
      → List (LinkControl fl)
      → RuntimeNode fl
      → NodeControl fl
      → ResolvedThreadPolicy fl
      → Run (NodeControl fl)
  unfolding mark_underutilized
  scalable_step now links node control (scalable policy) =
      index links node.input_link >>= λ input. returns (mark_underutilized now policy input control)
  scalable_step now links node control _ = returns control

  -- The loop over the nodes, with their controls.
  unfoldable pub collect_node_samples :
      ℕ
      → List (LinkControl fl)
      → List (List ℕ)
      → List (RuntimeNode fl)
      → List (NodeControl fl)
      → List WorkerStats
      → Run (List (NodeControl fl) × List WorkerStats)
  unfolding gather with_rates settle_step scalable_step
  collect_node_samples now links [] nodes controls stats = returns (controls, stats)
  collect_node_samples now links (ids ∷ active) nodes [] stats = panics
  collect_node_samples now links (ids ∷ active) [] (control ∷ controls) stats = panics
  collect_node_samples now links (ids ∷ active) (node ∷ nodes) (control ∷ controls) stats =
      gather ids stats reset_stats >>= λ (sample, stats').
      scalable_step now links node (settle_step sample.processed_items (with_rates sample control))
        control.thread_policy
      >>= λ control'.
          collect_node_samples now links active nodes controls stats' >>= λ (rest, stats'').
          returns (control' ∷ rest, stats'')

-- `x.clamp(1, upper)`.
clamp_from_one : ℕ → ℕ → Run ℕ
clamp_from_one upper x = if ltb upper 1 then panics else returns (max 1 (min x upper))

-- `x.ceil().max(1.0) as usize`.
at_least_one : (fl : Float) → fl.F → ℕ
at_least_one fl x = fl.to_usize (fl.max_of (fl.ceil x) (fl.of_nat 1))

-- The number of workers, and the backlog in seconds, which the case of a scalable node sets.
abbrev Demand : Float → Type 0
Demand fl = ℕ × fl.F

module _ {fl : Float} where
  scalable_demand : ResolvedScalePolicy fl → LinkControl fl → ℕ → NodeControl fl → Run (Demand fl)
  unfolding clamp_from_one at_least_one
  scalable_demand policy input active control =
      let throughput = control.per_worker_throughput in
      let backlog_len = effective_backlog_len fl input in
      let workers_for_arrivals = at_least_one fl (fl.div input.arrival_rate throughput) in
      let workers_for_backlog =
        at_least_one fl (fl.div backlog_len (fl.mul policy.target_queue_seconds throughput)) in
      if fl.lt (fl.of_nat 0) throughput
      then (clamp_from_one policy.max_threads (max workers_for_arrivals workers_for_backlog)
          >>= λ count. returns (count, fl.div backlog_len throughput))
      else (if is_growing input.trend
          then (clamp_from_one policy.max_threads (saturating_add active 1) >>= λ count.
              returns (count, control.backlog_seconds))
          else returns (max active 1, control.backlog_seconds))

  support_rate : LinkControl fl → fl.F
  support_rate input =
      let arrivals = fl.max_of input.arrival_rate (fl.of_nat 0) in
      if is_growing input.trend
      then fl.add (fl.add arrivals (fl.max_of input.net_rate (fl.of_nat 0)))
          (fl.div (effective_backlog_len fl input) (fl.of_nat 1))
      else arrivals

  support_demand : LinkControl fl → ℕ → NodeControl fl → ℕ
  unfolding support_rate at_least_one
  support_demand input active control =
      let throughput = control.per_worker_throughput in
      max
        (if fl.lt (fl.of_nat 0) throughput
          then at_least_one fl (fl.div (support_rate input) throughput)
          else if is_growing input.trend
          then saturating_add active 1
          else active)
        1

  policy_demand : LinkControl fl → ℕ → NodeControl fl → ResolvedThreadPolicy fl → Run (Demand fl)
  unfolding scalable_demand support_demand
  policy_demand input active control (fixed count) = returns (count, control.backlog_seconds)
  policy_demand input active control (scalable policy) = scalable_demand policy input active control
  policy_demand input active control implicit_support =
      returns (support_demand input active control, control.backlog_seconds)

  -- The loop body of `update_desired_workers`.
  update_demand :
      List (LinkControl fl) → List ℕ → RuntimeNode fl → NodeControl fl → Run (NodeControl fl)
  unfolding policy_demand
  update_demand links ids node control =
      if control.is_external
      then returns (record control { desired_workers = 0 })
      else if control.is_weighted_branch
      then returns (record control { desired_workers = 1 })
      else (index links node.input_link >>= λ input.
          policy_demand input (max (length ids) 1) control control.thread_policy
          >>= λ (count, seconds).
              returns (record control { desired_workers = count; backlog_seconds = seconds }))

  -- The loop over the controls, with the workers and the node of each.
  unfoldable pub update_desired_workers :
      List (LinkControl fl)
      → List (List ℕ)
      → List (RuntimeNode fl)
      → List (NodeControl fl)
      → Run (List (NodeControl fl))
  unfolding update_demand
  update_desired_workers links active nodes [] = returns []
  update_desired_workers links [] nodes (control ∷ controls) = panics
  update_desired_workers links (ids ∷ active) [] (control ∷ controls) = panics
  update_desired_workers links (ids ∷ active) (node ∷ nodes) (control ∷ controls) =
      update_demand links ids node control >>= λ control'.
      update_desired_workers links active nodes controls >>= λ rest. returns (control' ∷ rest)
