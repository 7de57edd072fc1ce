-- ===== src/Outputs/Emit.antt =====
-- src/lib.rs: `NodeContext::emit`, `ExternalNode::send`, `ExternalNode::fail` and
-- `BufferLease::internal_failure`. An `Emitter` is the link's output and its counter, with what the
-- caller has done with the abort flag and sent to the supervisor; `Seen` is what other threads have
-- stored when the flags are read, and whether the link takes the message.
use Prim.Native.String.{String}
use accumulator.Common.{
  ℕ, Bool, true, false, not, ◌&&◌, ◌||◌, some, List, [], ◌∷◌, ◌++◌, if◌then◌else◌,
}
use accumulator.Common.Words.{fetch_add}
use accumulator.Errors.{output_channel_closed, external_output_channel_closed, InternalFault}
use accumulator.Supervisor.{InternalFailure, internal_message, external}

pub record Seen : Type 0 where
  pub accepts : Bool
  pub shutdown : Bool
  pub abort : Bool

-- `aborted` tells whether the holder has stored to the abort flag.
pub record Runtime (E : Type 0) : Type 0 where
  pub aborted : Bool
  pub failures : List (InternalFailure E)

pub record Emitter (E T : Type 0) : Type 0 where
  pub sent : List T
  pub arrivals : ℕ
  pub runtime : Runtime E

-- Unless the pipeline is stopping, the abort flag is set and the failure is sent.
unfoldable pub report_closed : {E : Type 0} → Seen → InternalFault → Runtime E → Runtime E
report_closed seen fault r =
    if not seen.shutdown && not (r.aborted || seen.abort)
    then record r { aborted = true; failures = r.failures ++ internal_message fault ∷ [] }
    else r

unfoldable pub external_fail : {E : Type 0} → String → E → Runtime E → Runtime E
external_fail name error r = record r {
  aborted = true;
  failures = r.failures ++ external name (some error) ∷ [];
}

module _ {E T : Type 0} where
  -- The send of both: whether the message was taken.
  unfoldable pub put_out : Seen → InternalFault → T → Emitter E T → Bool × Emitter E T
  unfolding report_closed
  put_out seen fault output e =
      if seen.accepts
      then (true, record e { sent = e.sent ++ output ∷ []; arrivals = fetch_add e.arrivals 1 })
      else (false, record e { runtime = report_closed seen fault e.runtime })

  unfoldable pub emit : Seen → T → Emitter E T → Emitter E T
  unfolding put_out
  emit seen output e = (put_out seen output_channel_closed output e).1

  unfoldable pub external_send : String → Seen → T → Emitter E T → Bool × Emitter E T
  unfolding put_out
  external_send name seen output e = put_out seen (external_output_channel_closed name) output e
