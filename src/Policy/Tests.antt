-- ===== src/Policy/Tests.antt =====
-- The theorems about the thread policies, applied to an anchor on a machine of four threads.
use accumulator.Common.{ℕ, ◌+◌, ◌≤◌, ◌<◌, ◌≡◌, true, none, some, arith}
use accumulator.Float.Milli.{milli}
use accumulator.Policy.{
  no_hints, resolve_thread_policy, scalable, startup_worker_count, resolve_global_worker_cap,
}
use accumulator.Policy.Bounds.{
  ResolvesTo, initial_workers, resolve_thread_policy-ResolvesTo, startup_worker_count_sum,
  resolve_global_worker_cap_least,
}
use accumulator.Samples.{worker_policy}

resolve_thread_policy-ResolvesTo_example :
    ResolvesTo none (resolve_thread_policy {fl = milli} {E = ℕ} (some 4) true no_hints)
unfolding no_hints
resolve_thread_policy-ResolvesTo_example = resolve_thread_policy-ResolvesTo ℕ (some 4) true no_hints

startup_worker_count_sum_example :
    let counts = startup_worker_count (scalable worker_policy) in
    (0 < counts.0) × (counts.0 + counts.1 ≡ initial_workers (scalable worker_policy))
startup_worker_count_sum_example = startup_worker_count_sum (scalable worker_policy) (omega arith)

resolve_global_worker_cap_least_example :
    let resolved = resolve_global_worker_cap (some 4) (some 3) 2 5 in
    (2 ≤ resolved)
    × (5 ≤ resolved)
    × (3 ≤ resolved)
    × ((bound : ℕ) → 3 ≤ bound → 2 ≤ bound → 5 ≤ bound → resolved ≤ bound)
resolve_global_worker_cap_least_example = resolve_global_worker_cap_least (some 4) (some 3) 2 5
