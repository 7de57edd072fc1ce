-- ===== src/Join/Handle.antt =====
-- src/lib.rs: `join_supervisor`, `join`, `join_returned_states`, `join_merged_state` and
-- `node_failure_to_piper_error`. A `Handle` is what joining the supervisor's thread gives: the message
-- of its panic, or its result. `downcast` is `Box<dyn Any>::downcast`.
use Prim.Native.String.{String}
use accumulator.Common.{Bool, not, Option, none, some, List, [], ◌∷◌}
use accumulator.Common.Results.{Result, ok, err, ◌>>=◌, fail_if}
use accumulator.Errors.{
  PiperError, Thread, supervisor, worker_panicked, missing_state_merge, internal, user_init,
  user_process, user_cleanup, user_merge, no_returned_state_node, no_state_collected,
  state_type_mismatch,
}
use accumulator.Supervisor.{
  NodeFailure, init_failure, process_failure, cleanup_failure, merge_failure, internal_failure,
}
use accumulator.Worker.{Stage}

pub data Joined (E M : Type 0) : Type 0 where
  thread_panicked : (message : String) → Joined E M
  returned_result : Result (PiperError E) (List M) → Joined E M

-- The node that returns its states, if the graph has one.
pub record ReturnStage (E M I : Type 0) : Type 0 where
  pub stage : Stage E M I
  pub can_merge_state : Bool

unfoldable pub node_failure_to_piper_error : {E : Type 0} → Thread → NodeFailure E → PiperError E
node_failure_to_piper_error thread (init_failure error) = user_init thread error
node_failure_to_piper_error thread (process_failure error) = user_process thread error
node_failure_to_piper_error thread (cleanup_failure error) = user_cleanup thread error
node_failure_to_piper_error thread (merge_failure error) = user_merge thread error
node_failure_to_piper_error thread (internal_failure fault) = internal thread fault

abbrev pub ok_or : {E A : Type 0} → PiperError E → Option A → Result (PiperError E) A
ok_or error none = err error
ok_or error (some a) = ok a

abbrev pub map_err : {X Y A : Type 0} → (X → Y) → Result X A → Result Y A
map_err wrap (err x) = err (wrap x)
map_err wrap (ok a) = ok a

module _ {E M : Type 0} where
  -- The handle is gone when the supervisor was joined before.
  unfoldable pub join_supervisor : Option (Joined E M) → Result (PiperError E) (List M)
  join_supervisor none = ok []
  join_supervisor (some (thread_panicked message)) = err (worker_panicked supervisor message)
  join_supervisor (some (returned_result result)) = result

  unfoldable pub join : Option (Joined E M) → Result (PiperError E) (Unit {0})
  unfolding join_supervisor
  join handle = join_supervisor handle >>= λ states. ok tt

module _ {E M S : Type 0} (downcast : M → Option S) where
  unfoldable pub typed_state : M → Result (PiperError E) S
  typed_state state = ok_or (internal supervisor state_type_mismatch) (downcast state)

  -- `map` and `collect`, which stops at the first error.
  unfoldable pub typed_states : List M → Result (PiperError E) (List S)
  unfolding typed_state
  typed_states [] = ok []
  typed_states (state ∷ states) = do
    first ← typed_state state
    rest ← typed_states states
    ok (first ∷ rest)

  unfoldable pub join_returned_states : Option (Joined E M) → Result (PiperError E) (List S)
  unfolding join_supervisor typed_states
  join_returned_states handle = join_supervisor handle >>= λ states. typed_states states

  -- The loop over the remaining states.
  unfoldable pub merge_states : {I : Type 0} → Stage E M I → M → List M → Result (PiperError E) M
  unfolding node_failure_to_piper_error
  merge_states stage merged [] = ok merged
  merge_states stage merged (state ∷ states) =
      map_err (node_failure_to_piper_error supervisor) (stage.merge_box merged state) >>= λ next.
      merge_states stage next states

  unfoldable pub merge_first : {I : Type 0} → Stage E M I → List M → Result (PiperError E) M
  unfolding merge_states
  merge_first stage [] = err (internal supervisor no_state_collected)
  merge_first stage (state ∷ states) = merge_states stage state states

  unfoldable pub join_merged_state :
      {I : Type 0} → Option (ReturnStage E M I) → Option (Joined E M) → Result (PiperError E) S
  unfolding join_supervisor merge_first typed_state
  join_merged_state state_return_stage handle = do
    stage ← ok_or (internal supervisor no_returned_state_node) state_return_stage
    _ ← fail_if (not stage.can_merge_state) (missing_state_merge "returned-state node")
    states ← join_supervisor handle
    merged ← merge_first stage.stage states
    typed_state merged
