-- ===== src/Channel/CrossbeamBackend.antt =====
-- src/channel/mod.rs: `backend` on the library crossbeam_channel, whose calls are the record
-- `Crossbeam`.
use accumulator.Common.{ℕ, Bool, ◌&&◌, ◌||◌, ◌==◌, Option, List}
use accumulator.Common.Results.{Result, ok, err}
use accumulator.Channel.Counts.{
  new_counts, sender_clone, receiver_clone, drop_sender, drop_receiver, counts_terminated,
  counts_closed,
}
use accumulator.Channel.Interface.{
  TryRecvError, empty_error, closed_at_try, RecvTimeoutError, timeout_error, closed_at_timeout,
  Endpoint, with_inner, Channel,
}

pub data CrossbeamTryRecvError : Type 0 where
  crossbeam_empty : CrossbeamTryRecvError
  disconnected_at_try : CrossbeamTryRecvError

pub data CrossbeamRecvTimeoutError : Type 0 where
  crossbeam_timeout : CrossbeamRecvTimeoutError
  disconnected_at_timeout : CrossbeamRecvTimeoutError

pub record Crossbeam (Q X : Type 0) : Type 0 where
  pub unbounded : Q
  pub clone_sender : Q → Q
  pub clone_receiver : Q → Q
  pub drop_sender : Q → Q
  pub drop_receiver : Q → Q
  pub send : Q → X → Bool × Q
  pub recv : Q → Option X × Q
  pub try_recv : Q → Result CrossbeamTryRecvError X × Q
  pub recv_timeout : Q → ℕ → Result CrossbeamRecvTimeoutError X × Q
  pub len : Q → ℕ
  pub is_empty : Q → Bool
  -- The messages in its queue, the oldest first: no call reads them.
  pub contents : Q → List X

module _ {Q X : Type 0} (crossbeam : Crossbeam Q X) where
  unfoldable pub unbounded : Endpoint Q
  unbounded = record { inner = crossbeam.unbounded; counts = new_counts }

  -- `Clone for Sender`.
  unfoldable pub clone_of_sender : Endpoint Q → Endpoint Q
  clone_of_sender e = record {
    inner = crossbeam.clone_sender e.inner;
    counts = sender_clone e.counts;
  }

  -- `Clone for Receiver`.
  unfoldable pub clone_of_receiver : Endpoint Q → Endpoint Q
  clone_of_receiver e = record {
    inner = crossbeam.clone_receiver e.inner;
    counts = receiver_clone e.counts;
  }

  -- `Drop for Sender`, and the drop of its library's sender.
  unfoldable pub drop_of_sender : Endpoint Q → Endpoint Q
  drop_of_sender e = record { inner = crossbeam.drop_sender e.inner; counts = drop_sender e.counts }

  -- `Drop for Receiver`, and the drop of its library's receiver.
  unfoldable pub drop_of_receiver : Endpoint Q → Endpoint Q
  drop_of_receiver e = record {
    inner = crossbeam.drop_receiver e.inner;
    counts = drop_receiver e.counts;
  }

  unfoldable pub send : Endpoint Q → X → Bool × Endpoint Q
  send e value = with_inner e (crossbeam.send e.inner value)

  unfoldable pub sender_is_closed : Endpoint Q → Bool
  sender_is_closed e = (e.counts.receivers == 0) || counts_terminated e.counts

  unfoldable pub recv : Endpoint Q → Option X × Endpoint Q
  recv e = with_inner e (crossbeam.recv e.inner)

  abbrev pub try_error : CrossbeamTryRecvError → TryRecvError
  try_error crossbeam_empty = empty_error
  try_error disconnected_at_try = closed_at_try

  abbrev pub try_answer : Result CrossbeamTryRecvError X × Q → Result TryRecvError X × Q
  try_answer (ok value, q) = (ok value, q)
  try_answer (err error, q) = (err (try_error error), q)

  unfoldable pub try_recv : Endpoint Q → Result TryRecvError X × Endpoint Q
  try_recv e = with_inner e (try_answer (crossbeam.try_recv e.inner))

  abbrev pub timeout_error_as : CrossbeamRecvTimeoutError → RecvTimeoutError
  timeout_error_as crossbeam_timeout = timeout_error
  timeout_error_as disconnected_at_timeout = closed_at_timeout

  abbrev pub timeout_answer : Result CrossbeamRecvTimeoutError X × Q → Result RecvTimeoutError X × Q
  timeout_answer (ok value, q) = (ok value, q)
  timeout_answer (err error, q) = (err (timeout_error_as error), q)

  unfoldable pub recv_timeout : Endpoint Q → ℕ → Result RecvTimeoutError X × Endpoint Q
  recv_timeout e duration = with_inner e (timeout_answer (crossbeam.recv_timeout e.inner duration))

  unfoldable pub len : Endpoint Q → ℕ
  len e = crossbeam.len e.inner

  unfoldable pub is_empty : Endpoint Q → Bool
  is_empty e = crossbeam.is_empty e.inner

  unfoldable pub is_terminated : Endpoint Q → Bool
  is_terminated e = counts_terminated e.counts

  unfoldable pub is_closed : Endpoint Q → Bool
  unfolding is_empty
  is_closed e = counts_closed e.counts || (counts_terminated e.counts && is_empty e)

  unfoldable pub crossbeam_channel : Channel (Endpoint Q) X
  crossbeam_channel = record {
    clone_sender = clone_of_sender;
    clone_receiver = clone_of_receiver;
    drop_sender = drop_of_sender;
    drop_receiver = drop_of_receiver;
    send = send;
    recv = recv;
    recv_timeout = recv_timeout;
    try_recv = try_recv;
    contents = λ e. crossbeam.contents e.inner;
  }
