-- ===== src/Outputs/Recycled.antt =====
-- src/lib.rs, `BufferLease`: what a reusable output holds when it is acquired.
use accumulator.Common.{ℕ, zero, suc, Option, none, some, List, [], ◌∷◌, ◌++◌, All, if-both, set}
use accumulator.Outputs.Emit.{Seen, Runtime}
use accumulator.Outputs.Lease.{BufferPool, acquire_from, acquire, drop_lease}

-- What the holders of an output factory and of its leases do, in the order in which it takes effect.
-- A lease has the number at which it was acquired.
pub data LeaseAction (V : Type 0) : Type 0 where
  acquires : LeaseAction V
  writes : (lease : ℕ) → (V → V) → LeaseAction V
  drops : (lease : ℕ) → Seen → LeaseAction V
  gives_away : (lease : ℕ) → LeaseAction V

-- The leases by their numbers; a lease that was dropped or given away holds no value.
pub record Leases (V E : Type 0) : Type 0 where
  pub pool : BufferPool V
  pub held : List (Option V)
  pub runtime : Runtime E

module _ {V : Type 0} where
  abbrev pub held_by : List (Option V) → ℕ → Option V
  held_by [] n = none
  held_by (lease ∷ leases) zero = lease
  held_by (lease ∷ leases) (suc n) = held_by leases n

  abbrev pub written : (V → V) → Option V → Option V
  written f none = none
  written f (some value) = some (f value)

module _ {V : Type 0} (IsClean : V → Type 0) where
  -- It holds a clean value.
  abbrev pub HoldsClean : Option V → Type 0
  HoldsClean none = ⊥
  HoldsClean (some value) = IsClean value

  clean-append : (xs : List V) (v : V) → All IsClean xs → IsClean v → All IsClean (xs ++ v ∷ [])
  clean-append [] v c d = (d, tt)
  clean-append (x ∷ xs) v c d = (c.0, clean-append xs v c.1 d)

  acquire_from-clean :
      (factory : V) (recycle : V → V) (waiting : List V) (pool : BufferPool V)
      → IsClean factory
      → All IsClean waiting
      → All IsClean pool.waiting
      → HoldsClean (acquire_from factory recycle waiting pool).0
        × All IsClean (acquire_from factory recycle waiting pool).1.waiting
  unfolding acquire_from
  acquire_from-clean factory recycle [] pool fresh c d = (fresh, d)
  acquire_from-clean factory recycle (value ∷ rest) pool fresh c d = (c.0, c.1)

module _ {V E : Type 0} (factory : V) (recycle : V → V) where
  -- The state after an action, and the value of a lease that was acquired.
  abbrev pub act : LeaseAction V → Leases V E → Option V × Leases V E
  act acquires s =
      let (value, pool) = acquire factory recycle s.pool in
      (value, record s { pool = pool; held = s.held ++ value ∷ [] })
  act (writes lease f) s =
      (none, record s { held = set s.held lease (written f (held_by s.held lease)) })
  act (drops lease seen) s =
      let (pool, runtime) =
        drop_lease factory recycle seen (held_by s.held lease) (s.pool, s.runtime) in
      (none, record s { pool = pool; held = set s.held lease none; runtime = runtime })
  act (gives_away lease) s = (none, record s { held = set s.held lease none })

  -- The values of the leases that were acquired, when they were.
  abbrev pub acquired : List (LeaseAction V) → Leases V E → List (Option V)
  acquired [] s = []
  acquired (acquires ∷ actions) s =
      let (value, after) = act acquires s in value ∷ acquired actions after
  acquired (action ∷ actions) s = acquired actions (act action s).1

  module _ (IsClean : V → Type 0) (fresh : IsClean factory)
      (cleans : (v : V) → IsClean (recycle v)) where
    drop_lease-clean :
        (seen : Seen) (lease : Option V) (pool : BufferPool V) (runtime : Runtime E)
        → All IsClean pool.waiting
        → All IsClean (drop_lease factory recycle seen lease (pool, runtime)).0.waiting
    unfolding drop_lease
    drop_lease-clean seen none pool runtime c = c
    drop_lease-clean seen (some value) pool runtime c =
        if-both (λ (p : BufferPool V × Runtime E). All IsClean p.0.waiting) seen.accepts
          (clean-append IsClean pool.waiting (recycle value) c (cleans value)) c

    -- If recycling cleans a buffer and the factory makes clean ones, then every buffer is clean when it
    -- is acquired, whatever the leases' holders have written to the buffers, and however the leases
    -- were dropped or given away before.
    pub acquired-clean :
        (actions : List (LeaseAction V)) (s : Leases V E)
        → All IsClean s.pool.waiting
        → All (HoldsClean IsClean) (acquired actions s)
    unfolding acquire
    acquired-clean [] s c = tt
    acquired-clean (acquires ∷ actions) s c =
        let (value, waiting) =
          acquire_from-clean IsClean factory recycle s.pool.waiting s.pool fresh c c in
        (value, acquired-clean actions (act acquires s).1 waiting)
    acquired-clean (writes lease f ∷ actions) s c = acquired-clean actions _ c
    acquired-clean (drops lease seen ∷ actions) s c =
        acquired-clean actions (act (drops lease seen) s).1
          (drop_lease-clean seen (held_by s.held lease) s.pool s.runtime c)
    acquired-clean (gives_away lease ∷ actions) s c = acquired-clean actions _ c
