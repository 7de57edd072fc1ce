-- ===== src/Supervisor/Places.antt =====
-- src/lib.rs, `drain_worker_events`: at how many places a worker stands, on the nodes' lists and on
-- the list of parked workers.
use accumulator.Common.{
  ℕ, ◌+◌, ◌≤◌, Bool, true, false, ◌≡◌, refl, sym, subst, ap, ◌∙◌, Option, List, [], ◌∷◌, map, sum,
  arith, Bool-cases, ==_iff, zero, suc, contains, ◌==◌, ◌||◌, if◌then◌else◌, returns,
  >>=-eq-returns, returns-injective, index, modify_at, inl, inr,
}
use accumulator.Float.{Float}
use accumulator.Supervisor.State.{
  Supervisor, last_of, before_last, last_to_front, swap_remove_id, remove_worker_from_node,
  idle_slot,
}
use accumulator.Supervisor.Events.{
  NodeFailure, WorkerEvent, started, parked, merge_completed, failed, stopped, vacate, on_parked,
  on_failed, handle_event,
}
use accumulator.Supervisor.Quiet.{
  on_started-Carries, after_parking-Carries, on_merge_completed-Carries, unchanged-Carries,
}

abbrev pub hit : ℕ → ℕ → ℕ
hit id x = if x == id then 1 else 0

abbrev pub count : ℕ → List ℕ → ℕ
count id [] = 0
count id (x ∷ xs) = hit id x + count id xs

count-last :
    (id x : ℕ) (xs : List ℕ) → count id (last_of x xs ∷ before_last x xs) ≡ count id (x ∷ xs)
count-last id x [] = refl
count-last id x (y ∷ ys) = omega (arith, count-last id y ys)

count-last_to_front : (id : ℕ) (xs : List ℕ) → count id (last_to_front xs) ≡ count id xs
unfolding last_to_front
count-last_to_front id [] = refl
count-last_to_front id (x ∷ xs) = count-last id x xs

count-swap_remove_id :
    (id w : ℕ) (xs : List ℕ)
    → contains xs w ≡ true
    → count id (swap_remove_id w xs) + hit id w ≡ count id xs
unfolding swap_remove_id
count-swap_remove_id id w [] h = cc
count-swap_remove_id id w (x ∷ xs) h = elim (Bool-cases (x == w)) [
  | inl e ↦
      let same : x ≡ w = (==_iff x w).0 e in
      rw (e, if◌then◌else◌) omega (arith, count-last_to_front id xs, ap (hit id) same)
  | inr e ↦
      let rest : contains xs w ≡ true = rw (e, ◌||◌) at h in
      rw (e, if◌then◌else◌) omega (arith, count-swap_remove_id id w xs rest)
]

-- One list of several loses the worker.
count-remove_worker_from_node :
    (id w i : ℕ) (lists lists' : List (List ℕ)) (xs : List ℕ)
    → index lists i ≡ returns xs
    → contains xs w ≡ true
    → remove_worker_from_node lists i w ≡ returns lists'
    → sum (map (count id) lists') + hit id w ≡ sum (map (count id) lists)
unfolding remove_worker_from_node
count-remove_worker_from_node id w i [] lists' xs at here h = cc
count-remove_worker_from_node id w zero (ys ∷ lists) lists' xs at here h =
    let same : ys ≡ xs = returns-injective at in
    subst (λ l. sum (map (count id) l) + hit id w ≡ sum (map (count id) (ys ∷ lists)))
      (returns-injective h) omega
      (arith, count-swap_remove_id id w ys (ap (λ l. contains l w) same ∙ here))
count-remove_worker_from_node id w (suc i) (ys ∷ lists) lists' xs at here h =
    let (rest, e, d) = >>=-eq-returns (modify_at lists i (swap_remove_id w)) _ h in
    subst (λ l. sum (map (count id) l) + hit id w ≡ sum (map (count id) (ys ∷ lists)))
      (returns-injective d) omega
      (arith, count-remove_worker_from_node id w i lists rest xs at here e)

count-contains : (id : ℕ) (xs : List ℕ) → contains xs id ≡ true → 1 ≤ count id xs
count-contains id [] h = cc
count-contains id (x ∷ xs) h = elim (Bool-cases (x == id)) [
  | inl e ↦ rw (e, if◌then◌else◌) omega arith
  | inr e ↦
      let rest : 1 ≤ count id xs = count-contains id xs (rw (e, ◌||◌) at h) in
      rw (e, if◌then◌else◌) omega (arith, rest)
]

contains-eq-false : (id : ℕ) (xs : List ℕ) → count id xs ≡ 0 → contains xs id ≡ false
contains-eq-false id xs h = elim (Bool-cases (contains xs id)) [
  | inl e ↦
      let many : 1 ≤ count id xs = count-contains id xs e in
      let no : ⊥ = omega (arith, h, many) in elim no [ ]
  | inr e ↦ e
]

module _ {fl : Float} {E M : Type 0} where
  -- How often a worker stands on the nodes' lists and on the list of parked workers.
  abbrev pub places : Supervisor fl E M → ℕ → ℕ
  places s id = count id s.parked + sum (map (count id) s.active_by_node)

  abbrev pub StandsAt : Supervisor fl E M → ℕ → ℕ → Type 0
  StandsAt s w i = (xs : List ℕ) × (index s.active_by_node i ≡ returns xs) × (contains xs w ≡ true)

  -- A worker that reports the end of its run stands on the list of the node it ran.
  abbrev pub IsInformed : Supervisor fl E M → WorkerEvent E M → Type 0
  IsInformed s (parked w i state) = StandsAt s w i
  IsInformed s (failed w i failure) = StandsAt s w i
  IsInformed s event = Unit

  places-vacate :
      (s left : Supervisor fl E M) (w i id : ℕ)
      → StandsAt s w i
      → vacate s w i ≡ returns left
      → (left.parked ≡ s.parked)
        × (sum (map (count id) left.active_by_node) + hit id w
            ≡ sum (map (count id) s.active_by_node))
  unfolding vacate
  places-vacate s left w i id (xs, at, here) h =
      let (active, e, h1) = >>=-eq-returns (remove_worker_from_node s.active_by_node i w) _ h in
      let (workers, d, h2) = >>=-eq-returns (modify_at s.workers w (λ slot. idle_slot)) _ h1 in
      subst
        (λ (x : Supervisor fl E M).
          (x.parked ≡ s.parked)
          × (sum (map (count id) x.active_by_node) + hit id w
              ≡ sum (map (count id) s.active_by_node)))
        (returns-injective h2)
        (refl, count-remove_worker_from_node id w i s.active_by_node active xs at here e)

  places-eq :
      (t : Supervisor fl E M) (id : ℕ) {ids : List ℕ} {lists : List (List ℕ)}
      → t.parked ≡ ids
      → t.active_by_node ≡ lists
      → places t id ≡ count id ids + sum (map (count id) lists)
  places-eq t id p a = rw (p, a) refl

  places-on_parked :
      (s t : Supervisor fl E M) (now : ℕ) (delivered : Bool) (w i id : ℕ) (state : Option M)
      → StandsAt s w i
      → on_parked s now delivered w i state ≡ returns t
      → places t id ≡ places s id
  unfolding on_parked
  places-on_parked s t now delivered w i id state stands h =
      let (left, e, h1) = >>=-eq-returns (vacate s w i) _ h in
      let (p, a) = places-vacate s left w i id stands e in
      let c = after_parking-Carries _ t now delivered w left.pending_scale h1 in
      let same : hit id w + count id left.parked + sum (map (count id) left.active_by_node)
          ≡ places s id =
        omega (arith, ap (count id) p, a) in
      places-eq t id c.1 c.2 ∙ same

  places-on_failed :
      (s t : Supervisor fl E M) (w i id : ℕ) (failure : NodeFailure E)
      → StandsAt s w i
      → count w s.parked ≡ 0
      → on_failed s w i failure ≡ returns t
      → places t id ≡ places s id
  unfolding on_failed
  places-on_failed s t w i id failure stands free h =
      let (left, e, h1) = >>=-eq-returns (vacate s w i) _ h in
      let (p, a) = places-vacate s left w i id stands e in
      let new : contains left.parked w ≡ false =
        contains-eq-false w left.parked (ap (count w) p ∙ free) in
      let ids : t.parked ≡ w ∷ left.parked =
        sym (ap (λ (x : Supervisor fl E M). x.parked) (returns-injective h1))
        ∙ rw (new, if◌then◌else◌) refl in
      let lists : t.active_by_node ≡ left.active_by_node =
        sym (ap (λ (x : Supervisor fl E M). x.active_by_node) (returns-injective h1)) in
      let same : hit id w + count id left.parked + sum (map (count id) left.active_by_node)
          ≡ places s id =
        omega (arith, ap (count id) p, a) in
      places-eq t id ids lists ∙ same

  -- A worker that stands on a list is counted there.
  stands-count :
      (s : Supervisor fl E M) (w i : ℕ) → StandsAt s w i → 1 ≤ sum (map (count w) s.active_by_node)
  stands-count s w i (xs, at, here) = go s.active_by_node i at
    where
      go :
          (lists : List (List ℕ)) (j : ℕ)
          → index lists j ≡ returns xs
          → 1 ≤ sum (map (count w) lists)
      go [] j at = cc
      go (ys ∷ lists) zero at =
          let many : 1 ≤ count w ys =
            count-contains w ys (ap (λ l. contains l w) (returns-injective at) ∙ here) in
          omega (arith, many)
      go (ys ∷ lists) (suc j) at = omega (arith, go lists j at)

  -- If no worker stands at two places, and a worker that reports the end of its run is on the list
  -- of the node it names, then handling the report changes for no worker at how many places it
  -- stands: none is lost, and none is doubled.
  pub places-handle_event :
      (s t : Supervisor fl E M) (now : ℕ) (delivered : Bool) (event : WorkerEvent E M)
      → ((w : ℕ) → places s w ≤ 1)
      → IsInformed s event
      → handle_event s now delivered event ≡ returns t
      → (id : ℕ) → places t id ≡ places s id
  unfolding handle_event
  places-handle_event s t now delivered (started w) once informed h id =
      let c = on_started-Carries s t now w s.pending_scale h in places-eq t id c.1 c.2
  places-handle_event s t now delivered (parked w i state) once informed h id =
      places-on_parked s t now delivered w i id state informed h
  places-handle_event s t now delivered (merge_completed w i source) once informed h id =
      let c = on_merge_completed-Carries s t now w i source s.pending_scale h in
      places-eq t id c.1 c.2
  places-handle_event s t now delivered (failed w i failure) once informed h id =
      places-on_failed s t w i id failure informed
        (omega (arith, once w, stands-count s w i informed)) h
  places-handle_event s t now delivered stopped once informed h id =
      let c = unchanged-Carries s t h in places-eq t id c.1 c.2
