-- ===== src/Policy/Bounds.antt =====
-- src/lib.rs: which thread policies come out of `resolve_thread_policy`, how many workers they
-- start with, and what the global cap leaves room for.
use accumulator.Common.{
  ℕ, ◌+◌, ◌≤◌, ◌<◌, ◌≡◌, refl, ◌≢◌, inl, inr, Bool, Option, none, some, arith, Option-cases, ◌==◌,
  if◌then◌else◌, Bool-cases, unwrap_or, zero, suc,
}
use accumulator.Common.Results.{Result, ok, err, ◌>>=◌}
use accumulator.Common.Words.{saturating_mul}
use accumulator.Errors.{PiperError, invalid_thread_count}
use accumulator.Float.{Float}
use accumulator.Policy.{
  NodeScalePolicy, ThreadPolicyHints, ResolvedScalePolicy, ResolvedThreadPolicy, fixed, scalable,
  implicit_support, resolve_thread_policy, resolve_scale_policy, resolve_unfixed, needs_scalable,
  hinted_policy, available_threads, resolve_global_worker_cap, startup_worker_count,
}

-- A node with the policy has a first worker, and a limit that its first workers keep.
abbrev pub IsStartable : {fl : Float} → ResolvedThreadPolicy fl → Type 0
IsStartable (fixed count) = 0 < count
IsStartable (scalable policy) =
    (0 < policy.initial_threads) × (policy.initial_threads ≤ policy.max_threads)
IsStartable implicit_support = Unit {0}

abbrev pub ResolvesTo :
    {fl : Float} {E : Type 0} → Option ℕ → Result (PiperError E) (ResolvedThreadPolicy fl) → Type 0
ResolvesTo fixed_threads (ok policy) = (fixed_threads ≢ some 0) × IsStartable policy
ResolvesTo fixed_threads (err e) = (fixed_threads ≡ some 0) × (e ≡ invalid_thread_count)

abbrev ResolvesScale :
    {fl : Float} {E : Type 0} → Result (PiperError E) (ResolvedScalePolicy fl) → Type 0
ResolvesScale (ok policy) =
    (0 < policy.initial_threads) × (policy.initial_threads ≤ policy.max_threads)
ResolvesScale (err e) = ⊥

module _ {fl : Float} (E : Type 0) (parallelism : Option ℕ) where
  -- The second check of `resolve_scale_policy` never fails, since the gaps are filled above it.
  resolve_scale_policy_total :
      (policy : NodeScalePolicy fl)
      → ResolvesScale (resolve_scale_policy {E = E} parallelism policy)
  unfolding resolve_scale_policy
  resolve_scale_policy_total policy = ground arith

  scalable-ResolvesTo :
      (r : Result (PiperError E) (ResolvedScalePolicy fl))
      → ResolvesScale r
      → ResolvesTo none (r >>= λ policy. ok (scalable policy))
  scalable-ResolvesTo (ok policy) s = ((λ e. cc), s)
  scalable-ResolvesTo (err e) s = absurd s

  resolve_unfixed-ResolvesTo :
      (is_anchor : Bool) (hints : ThreadPolicyHints fl)
      → ResolvesTo none (resolve_unfixed {E = E} parallelism is_anchor hints)
  unfolding resolve_unfixed
  resolve_unfixed-ResolvesTo is_anchor hints = elim (Bool-cases (needs_scalable is_anchor hints)) [
    | inl e ↦
        rw (e, resolve_unfixed)
          (scalable-ResolvesTo _ (resolve_scale_policy_total (hinted_policy parallelism hints)))
    | inr e ↦ rw (e, resolve_unfixed) ((λ h. cc), tt)
  ]

  -- Resolution fails on `fixed_threads = Some(0)` and on nothing else; what it returns otherwise
  -- has at least one first thread, and a scalable policy no more of them than its maximum.
  pub resolve_thread_policy-ResolvesTo :
      (is_anchor : Bool) (hints : ThreadPolicyHints fl)
      → ResolvesTo hints.fixed_threads (resolve_thread_policy {E = E} parallelism is_anchor hints)
  unfolding resolve_thread_policy
  resolve_thread_policy-ResolvesTo is_anchor hints = elim (Option-cases hints.fixed_threads) [
    | inl e ↦ rw (e, resolve_thread_policy) (resolve_unfixed-ResolvesTo is_anchor hints)
    | inr (count, e) ↦ rw (e, resolve_thread_policy) (given count)
  ]
    where
      given :
          (count : ℕ)
          → ResolvesTo {fl = fl} {E = E}
              (some count)
              (if count == 0 then err invalid_thread_count else ok (fixed count))
      given zero = (refl, refl)
      given (suc n) = ground arith

-- The threads that a policy asks for at the start.
abbrev pub initial_workers : {fl : Float} → ResolvedThreadPolicy fl → ℕ
initial_workers (fixed count) = count
initial_workers (scalable policy) = policy.initial_threads
initial_workers implicit_support = 1

-- A startable node begins with one worker at least, and its base and extra workers together are
-- the threads that its policy asks for.
pub startup_worker_count_sum :
    {fl : Float} (policy : ResolvedThreadPolicy fl)
    → IsStartable policy
    → let counts = startup_worker_count policy in
      (0 < counts.0) × (counts.0 + counts.1 ≡ initial_workers policy)
unfolding startup_worker_count
startup_worker_count_sum policy s = ground arith

-- The cap is the least number that is no less than the number of nodes, the number of first
-- workers and the configured cap, or twice the parallelism where none is configured.
pub resolve_global_worker_cap_least :
    (parallelism configured : Option ℕ) (node_count required_base : ℕ)
    → let resolved = resolve_global_worker_cap parallelism configured node_count required_base in
      let wanted = unwrap_or configured (saturating_mul (available_threads parallelism) 2) in
      (node_count ≤ resolved)
      × (required_base ≤ resolved)
      × (wanted ≤ resolved)
      × ((bound : ℕ)
          → wanted ≤ bound
          → node_count ≤ bound
          → required_base ≤ bound
          → resolved ≤ bound)
unfolding resolve_global_worker_cap
resolve_global_worker_cap_least parallelism configured node_count required_base = ground arith
