-- ===== src/Ports/Ends.antt =====
-- src/lib.rs: `LinkSender` and `LinkReceiver` on a standard channel, `PiperSender` and
-- `PiperReceiver`. A link is its channel and its two counters. `into_message` boxes an item, and
-- `downcast` is `Box<dyn Any>::downcast`. `shutdown` is the flag as it is read.
use accumulator.Common.{ℕ, Bool, true, false, Option, none, some, if◌then◌else◌}
use accumulator.Common.Words.{fetch_add}
use accumulator.Common.Results.{Result, ok, err}
use accumulator.Channel.{
  Channel, RecvTimeoutError, timeout_error, closed_at_timeout, TryRecvError, empty_error,
  closed_at_try,
}

pub data LinkRecvError : Type 0 where
  link_timeout : LinkRecvError
  link_closed : LinkRecvError

pub data LinkTryRecvError : Type 0 where
  link_empty : LinkTryRecvError
  link_closed_at_try : LinkTryRecvError

pub data RecvOutputError : Type 0 where
  output_closed : RecvOutputError
  output_timeout : RecvOutputError
  output_mismatch : RecvOutputError

pub data TryRecvOutputError : Type 0 where
  try_output_closed : TryRecvOutputError
  try_output_empty : TryRecvOutputError
  try_output_mismatch : TryRecvOutputError

pub record Wire (Q : Type 0) : Type 0 where
  pub queue : Q
  pub arrivals : ℕ
  pub drains : ℕ

-- `downcast(..).map_err(..)`.
unfoldable pub typed : {X T Err : Type 0} → (X → Option T) → Err → X → Result Err T
typed downcast mismatch message = elim (downcast message) [
  | some output ↦ ok output
  | none ↦ err mismatch
]

abbrev pub map_err : {X Y A : Type 0} → (X → Y) → Result X A → Result Y A
map_err wrap (ok a) = ok a
map_err wrap (err x) = err (wrap x)

abbrev pub ok_or : {Y A : Type 0} → Y → Option A → Result Y A
ok_or error (some a) = ok a
ok_or error none = err error

abbrev pub timeout_as : RecvTimeoutError → LinkRecvError
timeout_as timeout_error = link_timeout
timeout_as closed_at_timeout = link_closed

abbrev pub try_as : TryRecvError → LinkTryRecvError
try_as empty_error = link_empty
try_as closed_at_try = link_closed_at_try

abbrev pub recv_error : LinkRecvError → RecvOutputError
recv_error link_timeout = output_timeout
recv_error link_closed = output_closed

abbrev pub try_recv_error : LinkTryRecvError → TryRecvOutputError
try_recv_error link_empty = try_output_empty
try_recv_error link_closed_at_try = try_output_closed

-- After the call of the channel: the counter moves only if the message was taken.
unfoldable pub after_send : {Q : Type 0} → Wire Q → Bool × Q → Bool × Wire Q
after_send w (true, q) = (true, record w { queue = q; arrivals = fetch_add w.arrivals 1 })
after_send w (false, q) = (false, record w { queue = q })

-- After the call of the link: a message counts, whatever its type.
unfoldable pub after_recv :
    {Q X T LinkErr Err : Type 0}
    → (X → Option T)
    → Err
    → (LinkErr → Err)
    → Wire Q
    → Result LinkErr X × Q
    → Result Err T × Wire Q
unfolding typed
after_recv downcast mismatch wrap w (ok message, q) =
    (typed downcast mismatch message, record w { queue = q; drains = fetch_add w.drains 1 })
after_recv downcast mismatch wrap w (err error, q) = (err (wrap error), record w { queue = q })

module _ {Q X T : Type 0} (channel : Channel Q X) (into_message : T → X)
    (downcast : X → Option T) where
  unfoldable pub link_recv : Q → Result LinkRecvError X × Q
  link_recv q = let (answer, q') = channel.recv q in (ok_or link_closed answer, q')

  unfoldable pub link_recv_timeout : Q → ℕ → Result LinkRecvError X × Q
  link_recv_timeout q duration =
      let (answer, q') = channel.recv_timeout q duration in (map_err timeout_as answer, q')

  unfoldable pub link_try_recv : Q → Result LinkTryRecvError X × Q
  link_try_recv q = let (answer, q') = channel.try_recv q in (map_err try_as answer, q')

  -- `PiperSender::send`: whether the input was sent.
  unfoldable pub send_input : Bool → T → Wire Q → Bool × Wire Q
  unfolding after_send
  send_input shutdown input w =
      if shutdown then (false, w) else after_send w (channel.send w.queue (into_message input))

  -- `PiperReceiver::recv`.
  unfoldable pub recv_output : Wire Q → Result RecvOutputError T × Wire Q
  unfolding link_recv after_recv
  recv_output w = after_recv downcast output_mismatch (λ error. output_closed) w (link_recv w.queue)

  -- `PiperReceiver::recv_timeout`.
  unfoldable pub recv_output_timeout : ℕ → Wire Q → Result RecvOutputError T × Wire Q
  unfolding link_recv_timeout after_recv
  recv_output_timeout duration w =
      after_recv downcast output_mismatch recv_error w (link_recv_timeout w.queue duration)

  -- `PiperReceiver::try_recv`.
  unfoldable pub try_recv_output : Wire Q → Result TryRecvOutputError T × Wire Q
  unfolding link_try_recv after_recv
  try_recv_output w =
      after_recv downcast try_output_mismatch try_recv_error w (link_try_recv w.queue)
