-- ===== src/Channel/Interface.antt =====
-- src/channel/mod.rs: what its module `backend` offers, with either library below. A channel is its
-- queue in the library and its counters; a call that blocks is seen at the instant at which it returns.
use accumulator.Common.{ℕ, Bool, true, false, Option, none, some, List, [], ◌∷◌, ◌++◌, ◌≡◌}
use accumulator.Common.Results.{Result, ok, err}
use accumulator.Channel.Counts.{EndpointCounts}

pub data TryRecvError : Type 0 where
  empty_error : TryRecvError
  closed_at_try : TryRecvError

pub data RecvTimeoutError : Type 0 where
  timeout_error : RecvTimeoutError
  closed_at_timeout : RecvTimeoutError

pub record Endpoint (Q : Type 0) : Type 0 where
  pub inner : Q
  pub counts : EndpointCounts

-- The state that a call of the library leaves is put back.
abbrev pub with_inner : {Q A : Type 0} → Endpoint Q → A × Q → A × Endpoint Q
with_inner e (answer, q) = (answer, record e { inner = q })

pub record Channel (Q X : Type 0) : Type 0 where
  pub clone_sender : Q → Q
  pub clone_receiver : Q → Q
  pub drop_sender : Q → Q
  pub drop_receiver : Q → Q
  -- Whether the message was taken.
  pub send : Q → X → Bool × Q
  -- `none` when the channel is closed.
  pub recv : Q → Option X × Q
  pub recv_timeout : Q → ℕ → Result RecvTimeoutError X × Q
  pub try_recv : Q → Result TryRecvError X × Q
  -- The messages in the channel, the oldest first.
  pub contents : Q → List X

-- What a call may do to the messages in the channel.
module _ {Q X : Type 0} (contents : Q → List X) where
  abbrev pub Sent : Q → X → Bool × Q → Type 0
  Sent q x (true, q') = contents q' ≡ contents q ++ x ∷ []
  Sent q x (false, q') = contents q' ≡ contents q

  -- A closed channel is empty.
  abbrev pub Drained : Q → Q → Type 0
  Drained q q' = (contents q ≡ []) × (contents q' ≡ [])

  abbrev pub Taken : Q → Option X × Q → Type 0
  Taken q (some x, q') = contents q ≡ x ∷ contents q'
  Taken q (none, q') = Drained q q'

  abbrev pub Timed : Q → Result RecvTimeoutError X × Q → Type 0
  Timed q (ok x, q') = contents q ≡ x ∷ contents q'
  Timed q (err timeout_error, q') = contents q' ≡ contents q
  Timed q (err closed_at_timeout, q') = Drained q q'

  abbrev pub Tried : Q → Result TryRecvError X × Q → Type 0
  Tried q (ok x, q') = contents q ≡ x ∷ contents q'
  Tried q (err empty_error, q') = contents q' ≡ contents q
  Tried q (err closed_at_try, q') = Drained q q'

-- Messages come out in the order in which they went in, and a channel is not closed before it is empty.
pub record IsFifo {Q X : Type 0} (channel : Channel Q X) : Type 0 where
  pub sends : (q : Q) (x : X) → Sent channel.contents q x (channel.send q x)
  pub receives : (q : Q) → Taken channel.contents q (channel.recv q)
  pub waits : (q : Q) (duration : ℕ) → Timed channel.contents q (channel.recv_timeout q duration)
  pub tries : (q : Q) → Tried channel.contents q (channel.try_recv q)
  pub sender_cloned : (q : Q) → channel.contents (channel.clone_sender q) ≡ channel.contents q
  pub receiver_cloned : (q : Q) → channel.contents (channel.clone_receiver q) ≡ channel.contents q
  pub sender_dropped : (q : Q) → channel.contents (channel.drop_sender q) ≡ channel.contents q
  pub receiver_dropped : (q : Q) → channel.contents (channel.drop_receiver q) ≡ channel.contents q
