-- ===== src/Channel/KanalBackend.antt =====
-- src/channel/mod.rs: `backend` on the library kanal, whose calls are the record `Kanal`.
use accumulator.Common.{ℕ, Bool, ◌&&◌, ◌||◌, ◌==◌, Option, none, some, List, if◌then◌else◌}
use accumulator.Common.Results.{Result, ok, err}
use accumulator.Channel.Counts.{
  EndpointCounts, new_counts, sender_clone, receiver_clone, drop_sender, drop_receiver,
  counts_terminated, counts_closed,
}
use accumulator.Channel.Interface.{
  TryRecvError, empty_error, closed_at_try, RecvTimeoutError, timeout_error, closed_at_timeout,
  Endpoint, with_inner, Channel,
}

pub data ReceiveError : Type 0 where
  receive_closed : ReceiveError
  receive_send_closed : ReceiveError

pub data ReceiveErrorTimeout : Type 0 where
  receive_timeout : ReceiveErrorTimeout
  timeout_closed : ReceiveErrorTimeout
  timeout_send_closed : ReceiveErrorTimeout

pub record Kanal (Q X : Type 0) : Type 0 where
  pub unbounded : Q
  pub clone_sender : Q → Q
  pub clone_receiver : Q → Q
  pub drop_sender : Q → Q
  pub drop_receiver : Q → Q
  pub send : Q → X → Bool × Q
  pub recv : Q → Option X × Q
  pub try_recv : Q → Result ReceiveError (Option X) × Q
  pub recv_timeout : Q → ℕ → Result ReceiveErrorTimeout X × Q
  pub len : Q → ℕ
  pub is_empty : Q → Bool
  pub is_terminated : Q → Bool
  pub is_closed : Q → Bool
  -- The messages in its queue, the oldest first: no call reads them.
  pub contents : Q → List X

module _ {Q X : Type 0} (kanal : Kanal Q X) where
  unfoldable pub unbounded : Endpoint Q
  unbounded = record { inner = kanal.unbounded; counts = new_counts }

  -- `Clone for Sender`.
  unfoldable pub clone_of_sender : Endpoint Q → Endpoint Q
  clone_of_sender e = record { inner = kanal.clone_sender e.inner; counts = sender_clone e.counts }

  -- `Clone for Receiver`.
  unfoldable pub clone_of_receiver : Endpoint Q → Endpoint Q
  clone_of_receiver e = record {
    inner = kanal.clone_receiver e.inner;
    counts = receiver_clone e.counts;
  }

  -- `Drop for Sender`, and the drop of its library's sender.
  unfoldable pub drop_of_sender : Endpoint Q → Endpoint Q
  drop_of_sender e = record { inner = kanal.drop_sender e.inner; counts = drop_sender e.counts }

  -- `Drop for Receiver`, and the drop of its library's receiver.
  unfoldable pub drop_of_receiver : Endpoint Q → Endpoint Q
  drop_of_receiver e = record {
    inner = kanal.drop_receiver e.inner;
    counts = drop_receiver e.counts;
  }

  unfoldable pub send : Endpoint Q → X → Bool × Endpoint Q
  send e value = with_inner e (kanal.send e.inner value)

  unfoldable pub sender_is_closed : Endpoint Q → Bool
  sender_is_closed e =
      (e.counts.receivers == 0) || (counts_terminated e.counts || kanal.is_closed e.inner)

  unfoldable pub recv : Endpoint Q → Option X × Endpoint Q
  recv e = with_inner e (kanal.recv e.inner)

  unfoldable pub len : Endpoint Q → ℕ
  len e = kanal.len e.inner

  unfoldable pub is_empty : Endpoint Q → Bool
  is_empty e = kanal.is_empty e.inner

  unfoldable pub is_terminated : Endpoint Q → Bool
  is_terminated e = counts_terminated e.counts || kanal.is_terminated e.inner

  unfoldable pub is_closed : Endpoint Q → Bool
  is_closed e = counts_closed e.counts || (counts_terminated e.counts && kanal.is_empty e.inner)

  -- After the library's answer.
  unfoldable pub try_answer :
      EndpointCounts → Result ReceiveError (Option X) × Q → Result TryRecvError X × Endpoint Q
  try_answer counts (ok (some value), q) = (ok value, record { inner = q; counts = counts })
  try_answer counts (ok none, q) = (
    err (if counts_terminated counts && kanal.is_empty q then closed_at_try else empty_error),
    record { inner = q; counts = counts },
  )
  try_answer counts (err receive_closed, q) =
      (err closed_at_try, record { inner = q; counts = counts })
  try_answer counts (err receive_send_closed, q) =
      (err closed_at_try, record { inner = q; counts = counts })

  unfoldable pub try_recv : Endpoint Q → Result TryRecvError X × Endpoint Q
  unfolding try_answer
  try_recv e = try_answer e.counts (kanal.try_recv e.inner)

  -- After the library's answer.
  unfoldable pub timeout_answer :
      EndpointCounts → Result ReceiveErrorTimeout X × Q → Result RecvTimeoutError X × Endpoint Q
  unfolding is_terminated is_empty
  timeout_answer counts (ok value, q) = (ok value, record { inner = q; counts = counts })
  timeout_answer counts (err receive_timeout, q) =
      let e : Endpoint Q = record { inner = q; counts = counts } in
      (err (if is_terminated e && is_empty e then closed_at_timeout else timeout_error), e)
  timeout_answer counts (err timeout_closed, q) =
      (err closed_at_timeout, record { inner = q; counts = counts })
  timeout_answer counts (err timeout_send_closed, q) =
      (err closed_at_timeout, record { inner = q; counts = counts })

  unfoldable pub recv_timeout : Endpoint Q → ℕ → Result RecvTimeoutError X × Endpoint Q
  unfolding is_terminated is_empty timeout_answer
  recv_timeout e duration =
      if is_terminated e && is_empty e
      then (err closed_at_timeout, e)
      else timeout_answer e.counts (kanal.recv_timeout e.inner duration)

  unfoldable pub kanal_channel : Channel (Endpoint Q) X
  kanal_channel = record {
    clone_sender = clone_of_sender;
    clone_receiver = clone_of_receiver;
    drop_sender = drop_of_sender;
    drop_receiver = drop_of_receiver;
    send = send;
    recv = recv;
    recv_timeout = recv_timeout;
    try_recv = try_recv;
    contents = λ e. kanal.contents e.inner;
  }
