-- ===== src/Trend.antt =====
-- src/lib.rs: how the supervisor samples a link. `QueueTrend`, `LinkControl`, `sample_links`,
-- `ewma`, `classify_queue_trend` and `effective_backlog_len`. A link is read through its counters
-- and its queue length, `none` for a feeder link. A length is below 2^63, so that
-- `len as isize - previous_len as isize > k` is `previous_len + k < len`.
use accumulator.Common.{
  ℕ, ◌+◌, ◌-◌, max, Bool, true, false, ◌&&◌, ◌||◌, Option, List, [], ◌∷◌, ltb, ◌==◌, if◌then◌else◌,
  unwrap_or, Run, returns, panics, ◌>>=◌,
}
use accumulator.Float.{Float, as_secs_f64}

pub data QueueTrend : Type 0 where
  starved fast_draining draining stable growing fast_growing runaway : QueueTrend

-- `QueueTrend::code`: the discriminant.
unfoldable pub trend_code : QueueTrend → ℕ
trend_code starved = 0
trend_code fast_draining = 1
trend_code draining = 2
trend_code stable = 3
trend_code growing = 4
trend_code fast_growing = 5
trend_code runaway = 6

abbrev pub is_draining : QueueTrend → Bool
is_draining starved = true
is_draining fast_draining = true
is_draining draining = true
is_draining _ = false

abbrev pub is_growing : QueueTrend → Bool
is_growing growing = true
is_growing fast_growing = true
is_growing runaway = true
is_growing _ = false

abbrev pub is_starved : QueueTrend → Bool
is_starved starved = true
is_starved _ = false

abbrev pub is_fast_draining : QueueTrend → Bool
is_fast_draining fast_draining = true
is_fast_draining _ = false

pub record LinkStats : Type 0 where
  pub arrivals : ℕ
  pub drains : ℕ

-- A link as the sampler sees it.
pub record LinkView : Type 0 where
  pub stats : LinkStats
  pub queue_len : Option ℕ

module _ (fl : Float) where
  open fl use {
    F, of_nat, literal, to_usize, add, sub, mul, div, neg, max_of, ceil, lt, le, eq, is_finite,
  }

  pub record LinkControl : Type 0 where
    pub last_arrivals : ℕ
    pub last_drains : ℕ
    pub len : ℕ
    pub previous_len : ℕ
    pub smoothed_len : F
    pub arrival_rate : F
    pub drain_rate : F
    pub net_rate : F
    pub trend : QueueTrend

  pub default_link_control : LinkControl
  default_link_control = record {
    last_arrivals = 0;
    last_drains = 0;
    len = 0;
    previous_len = 0;
    smoothed_len = of_nat 0;
    arrival_rate = of_nat 0;
    drain_rate = of_nat 0;
    net_rate = of_nat 0;
    trend = starved;
  }

  -- `ewma`, and `ewma_alpha`, which has the same text.
  unfoldable pub ewma : F → F → F → F
  ewma previous sample alpha =
      if eq previous (of_nat 0)
      then sample
      else add (mul previous (sub (of_nat 1) alpha)) (mul sample alpha)

  abbrev rate_ewma_alpha : F
  rate_ewma_alpha = literal 35 100

  abbrev stable_rate_ratio : F
  stable_rate_ratio = literal 12 100

  abbrev fast_rate_ratio : F
  fast_rate_ratio = literal 45 100

  abbrev runaway_rate_ratio : F
  runaway_rate_ratio = literal 85 100

  -- The rate of growth in units of the larger of the two rates.
  abbrev pub rate_ratio : F → F → F → F
  rate_ratio arrival_rate drain_rate net_rate =
      div net_rate (max_of (max_of arrival_rate drain_rate) (of_nat 1))

  abbrev trend_of_ratio : ℕ → ℕ → F → QueueTrend
  trend_of_ratio len previous_len ratio =
      if le ratio (neg fast_rate_ratio)
      then fast_draining
      else if le ratio (neg stable_rate_ratio)
      then draining
      else if le runaway_rate_ratio ratio && ltb previous_len len
      then runaway
      else if le fast_rate_ratio ratio
      then fast_growing
      else if le stable_rate_ratio ratio || ltb (previous_len + 2) len
      then growing
      else stable

  pub classify_queue_trend : ℕ → ℕ → F → F → F → QueueTrend
  classify_queue_trend len previous_len arrival_rate drain_rate net_rate =
      if len == 0 && lt (add arrival_rate drain_rate) (literal 1 100)
      then starved
      else if len == 0 && previous_len == 0
      then stable
      else trend_of_ratio len previous_len (rate_ratio arrival_rate drain_rate net_rate)

  -- The queue's length, or its smoothed length rounded up, if that is larger; 0 on an empty queue.
  -- The result is the number that the code casts to `f64`.
  unfoldable pub backlog_items : ℕ → F → ℕ
  backlog_items len smoothed_len =
      if len == 0
      then 0
      else max len (
          if is_finite smoothed_len && lt (of_nat 0) smoothed_len
          then to_usize (ceil smoothed_len)
          else 0)

  unfoldable pub effective_backlog_len : LinkControl → F
  unfolding backlog_items
  effective_backlog_len link = of_nat (backlog_items link.len link.smoothed_len)

  -- The body of the loop of `sample_links`.
  sample_link : F → LinkView → LinkControl → LinkControl
  unfolding ewma classify_queue_trend
  sample_link seconds view control =
      let len = unwrap_or view.queue_len 0 in
      let previous_len = control.len in
      let sampled_arrivals = div (of_nat (view.stats.arrivals - control.last_arrivals)) seconds in
      let sampled_drains = div (of_nat (view.stats.drains - control.last_drains)) seconds in
      let arrival_rate = ewma control.arrival_rate sampled_arrivals rate_ewma_alpha in
      let drain_rate = ewma control.drain_rate sampled_drains rate_ewma_alpha in
      let net_rate = ewma control.net_rate (sub sampled_arrivals sampled_drains) rate_ewma_alpha in
      record {
        last_arrivals = view.stats.arrivals;
        last_drains = view.stats.drains;
        len = len;
        previous_len = previous_len;
        smoothed_len = ewma control.smoothed_len (of_nat len) (literal 25 100);
        arrival_rate = arrival_rate;
        drain_rate = drain_rate;
        net_rate = net_rate;
        trend = classify_queue_trend len previous_len arrival_rate drain_rate net_rate;
      }

  sample_each : F → List LinkView → List LinkControl → Run (List LinkControl)
  unfolding sample_link
  sample_each seconds [] controls = returns controls
  sample_each seconds (view ∷ views) [] = panics
  sample_each seconds (view ∷ views) (control ∷ controls) =
      sample_each seconds views controls >>= λ rest.
      returns (sample_link seconds view control ∷ rest)

  -- `elapsed` is in nanoseconds.
  unfoldable pub sample_links : List LinkView → ℕ → List LinkControl → Run (List LinkControl)
  unfolding sample_each
  sample_links views elapsed controls =
      sample_each (max_of (as_secs_f64 fl elapsed) (literal 1 1000000)) views controls
