-- ===== src/Outputs/Lease.antt =====
-- src/lib.rs: `BufferLease` and `RecycleAcquireBuilder::build`. The pool is the content of the recycle
-- channel, with the number of buffers that the factory has made. A lease without a value has given it
-- away. The send of a drop succeeds if `accepts`, and the pipeline's failures are in `Runtime`.
use accumulator.Common.{
  ℕ, ◌+◌, Option, none, some, List, [], ◌∷◌, ◌++◌, if◌then◌else◌, Run, returns, panics,
}
use accumulator.Errors.{recycle_channel_closed}
use accumulator.Outputs.Emit.{Seen, Runtime, report_closed}

pub record BufferPool (V : Type 0) : Type 0 where
  pub waiting : List V
  pub made : ℕ

module _ {V : Type 0} (factory : V) (recycle : V → V) where
  -- The closure that `build` makes.
  unfoldable pub acquire_from : List V → BufferPool V → Option V × BufferPool V
  acquire_from [] pool = (some factory, record pool { made = pool.made + 1 })
  acquire_from (value ∷ rest) pool = (some value, record pool { waiting = rest })

  unfoldable pub acquire : BufferPool V → Option V × BufferPool V
  unfolding acquire_from
  acquire pool = acquire_from pool.waiting pool

  -- `BufferLease::drop`.
  unfoldable pub drop_lease :
      {E : Type 0} → Seen → Option V → BufferPool V × Runtime E → BufferPool V × Runtime E
  unfolding report_closed
  drop_lease seen none (pool, runtime) = (pool, runtime)
  drop_lease seen (some value) (pool, runtime) =
      if seen.accepts
      then (record pool { waiting = pool.waiting ++ recycle value ∷ [] }, runtime)
      else (pool, report_closed seen recycle_channel_closed runtime)

  -- `BufferLease::into_inner`: the value, and the lease that is dropped after it.
  unfoldable pub into_inner : Option V → Run (V × Option V)
  into_inner none = panics
  into_inner (some value) = returns (value, none)
