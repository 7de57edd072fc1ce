-- ===== src/Join/Tests.antt =====
-- src/lib.rs: joining a pipeline whose node sums, on concrete states.
use accumulator.Common.{ℕ, ◌+◌, ◌≡◌, ◌↔◌, refl, true, Option, some, List, [], ◌∷◌, map}
use accumulator.Common.Results.{ok}
use accumulator.Worker.{Stage}
use accumulator.Join.Handle.{
  Joined, returned_result, ReturnStage, join_supervisor, join_returned_states, join_merged_state,
}
use accumulator.Join.Merged.{ReturnsMerged, join_merged_state_iff, join_returned_states-some}

abbrev summing : Stage ℕ ℕ ℕ
summing = record {
  init_box = ok 0;
  process_box = λ sum n. ok (sum + n);
  cleanup_box = λ sum. ok tt;
  merge_box = λ sum other. ok (sum + other);
}

abbrev returning : Option (ReturnStage ℕ ℕ ℕ)
returning = some (record { stage = summing; can_merge_state = true })

abbrev handle : Option (Joined ℕ ℕ)
handle = some (returned_result (ok (3 ∷ 4 ∷ 5 ∷ [])))

abbrev as_number : ℕ → Option ℕ
as_number n = some n

merges_all : join_merged_state as_number returning handle ≡ ok 12
unfolding join_merged_state
merges_all = refl

join_merged_state_iff_example :
    (join_merged_state as_number returning handle ≡ ok 12)
    ↔ ReturnsMerged as_number returning handle 12
join_merged_state_iff_example = join_merged_state_iff as_number returning handle 12

returns_all : join_returned_states as_number handle ≡ ok (3 ∷ 4 ∷ 5 ∷ [])
unfolding join_returned_states
returns_all = refl

join_returned_states-some_example :
    (states : List ℕ) × (join_supervisor handle ≡ ok states)
    × (map as_number states ≡ map some (3 ∷ 4 ∷ 5 ∷ []))
join_returned_states-some_example =
    join_returned_states-some as_number handle (3 ∷ 4 ∷ 5 ∷ []) returns_all
