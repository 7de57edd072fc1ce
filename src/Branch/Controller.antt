-- ===== src/Branch/Controller.antt =====
-- src/lib.rs: `WeightedBranchController` and `ewma_alpha`. A method that changes the controller
-- returns the changed one.
use accumulator.Common.{ℕ, ◌-◌, max, Bool, true, false, not, ◌&&◌, ◌||◌, ◌==◌, if◌then◌else◌}
use accumulator.Float.{Float, as_secs_f64}
use accumulator.Trend.{LinkStats}
use accumulator.Graph.{SingleThreadWeightedBranchConfig}

module _ (fl : Float) where
  open fl use {
    F, of_nat, literal, to_usize, add, sub, mul, div, max_of, ceil, powf, lt, le, eq, is_finite,
  }

  pub record WeightedBranchArmState : Type 0 where
    pub last_arrivals : ℕ
    pub last_drains : ℕ
    pub drain_rate_ewma : F
    pub net_rate_ewma : F
    pub smoothed_len : F
    pub ready : Bool

  unfoldable pub default_arm : WeightedBranchArmState
  default_arm = record {
    last_arrivals = 0;
    last_drains = 0;
    drain_rate_ewma = of_nat 0;
    net_rate_ewma = of_nat 0;
    smoothed_len = of_nat 0;
    ready = false;
  }

  pub record WeightedBranchController : Type 0 where
    pub target_queue_seconds : F
    pub ewma_half_life_secs : F
    pub left : WeightedBranchArmState
    pub right : WeightedBranchArmState
    pub next_alternate_left : Bool

  unfoldable pub ewma_alpha : F → F → F → F
  ewma_alpha previous sample alpha =
      if eq previous (of_nat 0)
      then sample
      else add (mul previous (sub (of_nat 1) alpha)) (mul sample alpha)

  unfoldable pub new_controller : SingleThreadWeightedBranchConfig fl → WeightedBranchController
  unfolding default_arm
  new_controller config = record {
    target_queue_seconds = config.target_queue_seconds;
    ewma_half_life_secs = max_of (as_secs_f64 fl config.ewma_half_life) (literal 1 1000000);
    left = default_arm;
    right = default_arm;
    next_alternate_left = true;
  }

  unfoldable pub sample_arm :
      WeightedBranchArmState → LinkStats → ℕ → F → F → WeightedBranchArmState
  unfolding ewma_alpha
  sample_arm arm stats queue_len elapsed_secs alpha =
      let delta_arrivals = stats.arrivals - arm.last_arrivals in
      let delta_drains = stats.drains - arm.last_drains in
      let arrival_rate = div (of_nat delta_arrivals) elapsed_secs in
      let drain_rate = div (of_nat delta_drains) elapsed_secs in
      let net_rate = sub arrival_rate drain_rate in
      let net_rate_ewma = ewma_alpha arm.net_rate_ewma net_rate alpha in
      let smoothed_len = ewma_alpha arm.smoothed_len (of_nat queue_len) alpha in
      record {
        last_arrivals = stats.arrivals;
        last_drains = stats.drains;
        drain_rate_ewma = ewma_alpha arm.drain_rate_ewma drain_rate alpha;
        net_rate_ewma = net_rate_ewma;
        smoothed_len = smoothed_len;
        ready =
            if le (of_nat 1) smoothed_len || lt (of_nat 0) net_rate_ewma then true else arm.ready;
      }

  unfoldable pub sample_arms :
      WeightedBranchController → F → LinkStats → LinkStats → ℕ → ℕ → WeightedBranchController
  unfolding sample_arm
  sample_arms c elapsed_secs left_stats right_stats left_queue_len right_queue_len =
      let alpha = sub (of_nat 1) (powf (literal 1 2) (div elapsed_secs c.ewma_half_life_secs)) in
      record c {
        left = sample_arm c.left left_stats left_queue_len elapsed_secs alpha;
        right = sample_arm c.right right_stats right_queue_len elapsed_secs alpha;
      }

  unfoldable pub arms_ready : WeightedBranchController → Bool
  arms_ready c = c.left.ready && c.right.ready

  unfoldable pub effective_queue_len : ℕ → F → ℕ
  effective_queue_len observed_len smoothed_len =
      if observed_len == 0
      then 0
      else max observed_len (
          if is_finite smoothed_len && lt (of_nat 0) smoothed_len
          then to_usize (ceil smoothed_len)
          else 0)

  unfoldable pub virtual_capacity : F → F → ℕ
  virtual_capacity drain_rate_ewma target_queue_seconds =
      to_usize (max_of (ceil (mul drain_rate_ewma target_queue_seconds)) (of_nat 1))

  unfoldable pub fill_ratio : ℕ → F → F → F
  unfolding virtual_capacity
  fill_ratio queue_len drain_rate_ewma target_queue_seconds =
      div (of_nat queue_len)
        (of_nat (max (virtual_capacity drain_rate_ewma target_queue_seconds) 1))

  -- The turn of the arms, which the controller passes on.
  unfoldable pub alternate : WeightedBranchController → Bool × WeightedBranchController
  alternate c =
      (c.next_alternate_left, record c { next_alternate_left = not c.next_alternate_left })

  -- `true` is the left output.
  unfoldable pub choose_route : WeightedBranchController → ℕ → ℕ → Bool × WeightedBranchController
  unfolding alternate effective_queue_len fill_ratio
  choose_route c left_queue_len right_queue_len =
      let left_len = effective_queue_len left_queue_len c.left.smoothed_len in
      let right_len = effective_queue_len right_queue_len c.right.smoothed_len in
      let left_fill = fill_ratio left_len c.left.drain_rate_ewma c.target_queue_seconds in
      let right_fill = fill_ratio right_len c.right.drain_rate_ewma c.target_queue_seconds in
      if not c.left.ready || not c.right.ready
      then alternate c
      else if lt left_fill right_fill
      then (true, c)
      else if lt right_fill left_fill
      then (false, c)
      else alternate c
