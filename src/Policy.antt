-- ===== src/Policy.antt =====
-- src/lib.rs: the thread policy of a node (`NodeScalePolicy`, `ThreadPolicyHints`, the builder
-- methods of `NodeSpec`, `resolve_scale_policy`, `resolve_thread_policy`), the workers that it
-- starts with, and the global cap. Durations are counts of nanoseconds, and the answer of
-- `thread::available_parallelism()` is the argument `parallelism`.
pub mod Bounds
mod Tests
use accumulator.Common.{
  ℕ, ◌+◌, ◌-◌, min, max, Bool, true, false, ◌||◌, Option, none, some, ◌==◌, if◌then◌else◌, is_some,
  unwrap_or,
}
use accumulator.Common.Words.{saturating_mul, div_ceil}
use accumulator.Common.Results.{Result, ok, err, ◌>>=◌, ◌>>◌, fail_if}
use accumulator.Errors.{PiperError, invalid_thread_count}
use accumulator.Float.{Float}

pub data NodeThreadPolicyKind : Type 0 where
  fixed_kind scalable_kind implicit_support_kind : NodeThreadPolicyKind

-- `thread::available_parallelism().map(get).unwrap_or(1).max(1)`.
abbrev pub available_threads : Option ℕ → ℕ
available_threads parallelism = max (unwrap_or parallelism 1) 1

module _ (fl : Float) where
  open fl use {F, literal, of_nat}

  pub record NodeScalePolicy : Type 0 where
    pub initial_threads : ℕ
    pub max_threads : ℕ
    pub target_queue_seconds : F
    pub low_queue_seconds : F
    pub scale_down_after : ℕ
    pub underutilized_busy_ratio : F

  unfoldable pub default_scale_policy : Option ℕ → NodeScalePolicy
  default_scale_policy parallelism =
      let max_threads = available_threads parallelism in
      record {
        initial_threads = max (div_ceil max_threads 2) 1;
        max_threads = max_threads;
        target_queue_seconds = of_nat 1;
        low_queue_seconds = literal 25 100;
        scale_down_after = 500000000;
        underutilized_busy_ratio = literal 35 100;
      }

  pub record ThreadPolicyHints : Type 0 where
    pub fixed_threads : Option ℕ
    pub max_threads : Option ℕ
    pub initial_threads : Option ℕ
    pub scale_policy : Option NodeScalePolicy

  pub record ResolvedScalePolicy : Type 0 where
    pub initial_threads : ℕ
    pub max_threads : ℕ
    pub target_queue_seconds : F
    pub low_queue_seconds : F
    pub scale_down_after : ℕ
    pub underutilized_busy_ratio : F

  pub data ResolvedThreadPolicy : Type 0 where
    fixed : ℕ → ResolvedThreadPolicy
    scalable : ResolvedScalePolicy → ResolvedThreadPolicy
    implicit_support : ResolvedThreadPolicy

module _ {fl : Float} where
  -- The builder methods of `NodeSpec`, on its hints.
  unfoldable pub no_hints : ThreadPolicyHints fl
  no_hints = record {
    fixed_threads = none;
    max_threads = none;
    initial_threads = none;
    scale_policy = none;
  }

  unfoldable pub with_scale_policy :
      ThreadPolicyHints fl → NodeScalePolicy fl → ThreadPolicyHints fl
  with_scale_policy hints policy = record hints { scale_policy = some policy }

  unfoldable pub scalable_threads : ThreadPolicyHints fl → ℕ → ℕ → ThreadPolicyHints fl
  scalable_threads hints initial max = record hints {
    initial_threads = some initial;
    max_threads = some max;
  }

  unfoldable pub with_max_threads : ThreadPolicyHints fl → ℕ → ThreadPolicyHints fl
  with_max_threads hints max = record hints { max_threads = some max }

  unfoldable pub with_initial_threads : ThreadPolicyHints fl → ℕ → ThreadPolicyHints fl
  with_initial_threads hints initial = record hints { initial_threads = some initial }

  unfoldable pub with_fixed_threads : ThreadPolicyHints fl → ℕ → ThreadPolicyHints fl
  with_fixed_threads hints count = record hints { fixed_threads = some count }

  unfoldable pub thread_policy_kind : ResolvedThreadPolicy fl → NodeThreadPolicyKind
  thread_policy_kind (fixed count) = fixed_kind
  thread_policy_kind (scalable policy) = scalable_kind
  thread_policy_kind implicit_support = implicit_support_kind

  unfoldable pub fixed_thread_count : ResolvedThreadPolicy fl → Option ℕ
  fixed_thread_count (fixed count) = some count
  fixed_thread_count _ = none

  unfoldable pub max_thread_count : ResolvedThreadPolicy fl → Option ℕ
  max_thread_count (scalable policy) = some policy.max_threads
  max_thread_count _ = none

  unfoldable pub target_queue_seconds : ResolvedThreadPolicy fl → Option fl.F
  target_queue_seconds (scalable policy) = some policy.target_queue_seconds
  target_queue_seconds _ = none

  unfoldable pub low_queue_seconds : ResolvedThreadPolicy fl → Option fl.F
  low_queue_seconds (scalable policy) = some policy.low_queue_seconds
  low_queue_seconds _ = none

  unfoldable pub startup_worker_count : ResolvedThreadPolicy fl → ℕ × ℕ
  startup_worker_count (fixed count) = (count, 0)
  startup_worker_count (scalable policy) = (1, policy.initial_threads - 1)
  startup_worker_count implicit_support = (1, 0)

-- The cap on all workers: `configured`, or twice the parallelism, and never below what the nodes
-- and their first workers need.
unfoldable pub resolve_global_worker_cap : Option ℕ → Option ℕ → ℕ → ℕ → ℕ
resolve_global_worker_cap parallelism configured node_count required_base =
    let available = available_threads parallelism in
    max (max (unwrap_or configured (max (saturating_mul available 2) node_count)) node_count)
      required_base

module _ {fl : Float} where
  needs_scalable : Bool → ThreadPolicyHints fl → Bool
  needs_scalable is_anchor hints =
      is_some hints.scale_policy
      || (is_some hints.max_threads || (is_some hints.initial_threads || is_anchor))

module _ {fl : Float} (parallelism : Option ℕ) where
  -- The two assignments to `policy` of `resolve_scale_policy`.
  filled_max : NodeScalePolicy fl → ℕ
  filled_max policy =
      if policy.max_threads == 0 then available_threads parallelism else policy.max_threads

  filled_initial : NodeScalePolicy fl → ℕ
  unfolding filled_max
  filled_initial policy =
      if policy.initial_threads == 0
      then max (div_ceil (filled_max policy) 2) 1
      else policy.initial_threads

  -- The policy that the hints ask for, where some hint or the anchor mark makes a node scalable.
  hinted_policy : ThreadPolicyHints fl → NodeScalePolicy fl
  unfolding default_scale_policy
  hinted_policy hints =
      let policy = unwrap_or hints.scale_policy (default_scale_policy fl parallelism) in
      record policy {
        max_threads = unwrap_or hints.max_threads policy.max_threads;
        initial_threads = unwrap_or hints.initial_threads policy.initial_threads;
      }

module _ {fl : Float} {E : Type 0} (parallelism : Option ℕ) where
  pub resolve_scale_policy : NodeScalePolicy fl → Result (PiperError E) (ResolvedScalePolicy fl)
  unfolding filled_initial
  resolve_scale_policy policy = do
    let max_threads = filled_max parallelism policy
    let initial_threads = filled_initial parallelism policy
    fail_if (max_threads == 0 || initial_threads == 0) invalid_thread_count
    ok (record {
      initial_threads = min initial_threads max_threads;
      max_threads = max_threads;
      target_queue_seconds = policy.target_queue_seconds;
      low_queue_seconds = policy.low_queue_seconds;
      scale_down_after = policy.scale_down_after;
      underutilized_busy_ratio = policy.underutilized_busy_ratio;
    })

  resolve_unfixed : Bool → ThreadPolicyHints fl → Result (PiperError E) (ResolvedThreadPolicy fl)
  unfolding needs_scalable hinted_policy resolve_scale_policy
  resolve_unfixed is_anchor hints =
      if needs_scalable is_anchor hints
      then (resolve_scale_policy (hinted_policy parallelism hints) >>= λ policy.
          ok (scalable policy))
      else ok implicit_support

  unfoldable pub resolve_thread_policy :
      Bool → ThreadPolicyHints fl → Result (PiperError E) (ResolvedThreadPolicy fl)
  unfolding resolve_unfixed
  resolve_thread_policy is_anchor hints = elim hints.fixed_threads [
    | some count ↦ if count == 0 then err invalid_thread_count else ok (fixed count)
    | none ↦ resolve_unfixed is_anchor hints
  ]
