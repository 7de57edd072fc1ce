-- ===== src/Supervisor/Startup.antt =====
-- src/lib.rs, `run_supervisor`: how many workers each node has after the start.
use accumulator.Common.{
  ℕ, zero, suc, ◌+◌, ◌≤◌, ◌<◌, ◌≡◌, sym, ap, ◌∙◌, Bool, true, List, [], ◌∷◌, map, arith, sum, ltb,
  lt→ltb, length, if◌then◌else◌,
}
use accumulator.Common.Outcomes.{done, >>=-eq-done, done-injective}
use accumulator.Float.{Float}
use accumulator.Graph.{RuntimeNode}
use accumulator.Control.{
  active_worker_count, startup_counts, required_workers, required_base_workers,
}
use accumulator.Supervisor.State.{Supervisor}
use accumulator.Supervisor.Assign.{
  start_worker, start_base, start_bases, start_extra, start_extras, start_workers,
}
use accumulator.Supervisor.Counts.{start_worker-pushes}
use accumulator.Supervisor.Rounds.{
  add_at, add_from, add_at-zero, add_at-add_at, add_from-map, lengths-push, sum-add_at, sum-map-add,
  lengths_of_empty, map-same,
}

module _ {fl : Float} where
  base_of : RuntimeNode fl → ℕ
  base_of node = (startup_counts node).0

  extra_of : RuntimeNode fl → ℕ
  extra_of node = (startup_counts node).1

  base-extra : (node : RuntimeNode fl) → base_of node + extra_of node ≡ required_workers node
  unfolding required_workers base_of extra_of startup_counts
  base-extra node = ground arith

module _ {fl : Float} {E M : Type 0} (nodes : List (RuntimeNode fl)) (link_count : ℕ)
    (spawns accepts : ℕ → Bool) where
  abbrev counts : Supervisor fl E M → List ℕ
  counts s = map length s.active_by_node

  start_worker-counts :
      (s t : Supervisor fl E M) (i : ℕ)
      → start_worker nodes link_count spawns accepts s i ≡ done t
      → counts t ≡ add_at (counts s) i 1
  start_worker-counts s t i h =
      let (w, e) = start_worker-pushes nodes link_count spawns accepts s t i h in
      lengths-push s.active_by_node t.active_by_node i w e

  start_base-counts :
      (n : ℕ) (s t : Supervisor fl E M) (i : ℕ)
      → start_base nodes link_count spawns accepts n s i ≡ done t
      → counts t ≡ add_at (counts s) i n
  unfolding start_base
  start_base-counts zero s t i h =
      ap counts (sym (done-injective h)) ∙ sym (add_at-zero (counts s) i)
  start_base-counts (suc n) s t i h =
      let (next, e, d) = >>=-eq-done (start_worker nodes link_count spawns accepts s i) _ h in
      start_base-counts n next t i d
      ∙ ap (λ l. add_at l i n) (start_worker-counts s next i e)
      ∙ add_at-add_at (counts s) i n

  start_bases-counts :
      (rest : List (RuntimeNode fl)) (i : ℕ) (s t : Supervisor fl E M)
      → start_bases nodes link_count spawns accepts rest i s ≡ done t
      → counts t ≡ add_from (counts s) i (map base_of rest)
  unfolding start_bases base_of
  start_bases-counts [] i s t h = ap counts (sym (done-injective h))
  start_bases-counts (node ∷ rest) i s t h =
      let (next, e, d) =
        >>=-eq-done (start_base nodes link_count spawns accepts (startup_counts node).0 s i) _ h in
      start_bases-counts rest (suc i) next t d
      ∙ ap (λ l. add_from l (suc i) (map base_of rest))
          (start_base-counts (startup_counts node).0 s next i e)

  start_extra-counts :
      (cap remaining : ℕ) (s t : Supervisor fl E M) (i : ℕ)
      → sum (counts s) + remaining ≤ cap
      → start_extra nodes link_count spawns accepts cap remaining s i ≡ done t
      → counts t ≡ add_at (counts s) i remaining
  unfolding start_extra
  start_extra-counts cap zero s t i room h =
      ap counts (sym (done-injective h)) ∙ sym (add_at-zero (counts s) i)
  start_extra-counts cap (suc remaining) s t i room h =
      let below : ltb (active_worker_count s.active_by_node) cap ≡ true =
        lt→ltb (active_worker_count s.active_by_node) cap (omega (arith, room)) in
      let (next, e, d) =
        >>=-eq-done (start_worker nodes link_count spawns accepts s i) _
          (rw (below, if◌then◌else◌) at h) in
      let one = start_worker-counts s next i e in
      let more = ap sum one in
      let bound = sum-add_at (counts s) i 1 in
      start_extra-counts cap remaining next t i (omega (arith, more, bound, room)) d
      ∙ ap (λ l. add_at l i remaining) one
      ∙ add_at-add_at (counts s) i remaining

  start_extras-counts :
      (cap : ℕ) (rest : List (RuntimeNode fl)) (i : ℕ) (s t : Supervisor fl E M)
      → sum (counts s) + sum (map extra_of rest) ≤ cap
      → start_extras nodes link_count spawns accepts cap rest i s ≡ done t
      → counts t ≡ add_from (counts s) i (map extra_of rest)
  unfolding start_extras extra_of
  start_extras-counts cap [] i s t room h = ap counts (sym (done-injective h))
  start_extras-counts cap (node ∷ rest) i s t room h =
      let (next, e, d) =
        >>=-eq-done (start_extra nodes link_count spawns accepts cap (startup_counts node).1 s i) _
          h in
      let first = start_extra-counts cap (startup_counts node).1 s next i (omega (arith, room)) e in
      let more = ap sum first in
      let bound = sum-add_at (counts s) i (startup_counts node).1 in
      start_extras-counts cap rest (suc i) next t (omega (arith, more, bound, room)) d
      ∙ ap (λ l. add_from l (suc i) (map extra_of rest)) first

  -- If no worker is active before, the cap is no less than the number of first workers and that
  -- number is a machine word, then after a start that succeeds each node has exactly its own first
  -- workers, and all of them are as many as the supervisor has required.
  pub start_workers-required :
      (cap : ℕ) (s t : Supervisor fl E M)
      → s.active_by_node ≡ map (λ node. []) nodes
      → sum (map required_workers nodes) < 18446744073709551616
      → required_base_workers nodes ≤ cap
      → start_workers nodes link_count spawns accepts cap s ≡ done t
      → (map length t.active_by_node ≡ map required_workers nodes)
        × (active_worker_count t.active_by_node ≡ required_base_workers nodes)
  unfolding start_workers required_base_workers
  start_workers-required cap s t empty small room h =
      let (next, e, d) = >>=-eq-done (start_bases nodes link_count spawns accepts nodes 0 s) _ h in
      let zeros : counts s ≡ map (λ node. 0) nodes =
        lengths_of_empty nodes s.active_by_node empty in
      let bases : counts next ≡ map base_of nodes =
        start_bases-counts nodes 0 s next e
        ∙ ap (λ l. add_from l 0 (map base_of nodes)) zeros
        ∙ add_from-map (λ node. 0) base_of nodes
        ∙ map-same _ base_of (λ node. omega arith) nodes in
      let all : map (λ node. base_of node + extra_of node) nodes ≡ map required_workers nodes =
        map-same _ required_workers base-extra nodes in
      let parts = sum-map-add base_of extra_of nodes in
      let first = ap sum bases in
      let total = ap sum all in
      let each : counts t ≡ map required_workers nodes =
        start_extras-counts cap nodes 0 next t (omega (arith, first, parts, total, room, small)) d
        ∙ ap (λ l. add_from l 0 (map extra_of nodes)) bases
        ∙ add_from-map base_of extra_of nodes
        ∙ all in
      let same = ap sum each in (each, omega (arith, same, small))
