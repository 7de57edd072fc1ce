-- ===== src/Outputs/Tests.antt =====
-- src/lib.rs: outputs of numbers, and reusable lists of numbers.
use accumulator.Common.{ℕ, ◌≡◌, refl, true, false, some, List, [], ◌∷◌, All}
use accumulator.Errors.{output_channel_closed}
use accumulator.Outputs.Emit.{Seen, Emitter, put_out}
use accumulator.Outputs.Lease.{acquire, drop_lease}
use accumulator.Outputs.Once.{put_out_all, taken, Tells, put_out_all-Tells}
use accumulator.Outputs.Recycled.{
  LeaseAction, acquires, writes, drops, Leases, HoldsClean, acquired, acquired-clean,
}

abbrev opened : Seen
opened = record { accepts = true; shutdown = false; abort = false }

abbrev closed : Seen
closed = record { accepts = false; shutdown = false; abort = false }

-- The link closes after the first output.
abbrev calls : List (Seen × ℕ)
calls = (opened, 5) ∷ (closed, 6) ∷ (closed, 7) ∷ []

abbrev silent : Emitter ℕ ℕ
silent = record { sent = []; arrivals = 0; runtime = record { aborted = false; failures = [] } }

sends_first : (put_out_all output_channel_closed calls silent).sent ≡ 5 ∷ []
unfolding put_out
sends_first = refl

put_out_all-Tells_example :
    ((put_out_all output_channel_closed calls silent).sent ≡ taken calls)
    × Tells output_channel_closed silent.runtime
        (put_out_all output_channel_closed calls silent).runtime
put_out_all-Tells_example = put_out_all-Tells output_channel_closed calls silent

-- `Vec::clear`.
abbrev clear : List ℕ → List ℕ
clear xs = []

abbrev no_leases : Leases (List ℕ) ℕ
no_leases = record {
  pool = record { waiting = []; made = 0 };
  held = [];
  runtime = record { aborted = false; failures = [] };
}

-- A buffer is written and dropped, and then acquired again.
abbrev actions : List (LeaseAction (List ℕ))
actions = acquires ∷ writes 0 (λ xs. 9 ∷ xs) ∷ drops 0 opened ∷ acquires ∷ []

acquires_empty : acquired [] clear actions no_leases ≡ some [] ∷ some [] ∷ []
unfolding acquire drop_lease
acquires_empty = refl

acquired-clean_example :
    All (HoldsClean (λ (xs : List ℕ). xs ≡ [])) (acquired [] clear actions no_leases)
acquired-clean_example =
    acquired-clean [] clear (λ xs. xs ≡ []) refl (λ xs. refl) actions no_leases tt
