-- ===== src/Ports/Log.antt =====
-- src/lib.rs: the calls of a link that are made by `PiperSender` and `PiperReceiver`, with their replies.
use accumulator.Common.{
  ℕ, ◌+◌, ◌%◌, ◌≡◌, sym, ◌∙◌, Bool, true, false, Option, none, some, List, [], ◌∷◌, ◌++◌, map,
  length,
}
use accumulator.Common.Results.{Result, ok, err}
use accumulator.Channel.{
  Channel, Taken, Timed, Tried, IsFifo, RecvTimeoutError, timeout_error, closed_at_timeout,
  TryRecvError, empty_error, closed_at_try,
}
use accumulator.Ports.Ends.{
  LinkRecvError, link_timeout, link_closed, LinkTryRecvError, link_empty, link_closed_at_try,
  output_closed, try_output_closed, map_err, ok_or, timeout_as, try_as, RecvOutputError,
  TryRecvOutputError, Wire, link_recv, link_recv_timeout, link_try_recv, send_input, recv_output,
  recv_output_timeout, try_recv_output,
}

-- A call of one of the link's senders or receivers, or an end that is cloned or dropped.
pub data Call (T : Type 0) : Type 0 where
  sends : (shutdown : Bool) → T → Call T
  receives : Call T
  receives_for : (duration : ℕ) → Call T
  tries : Call T
  clones_sender : Call T
  clones_receiver : Call T
  drops_sender : Call T
  drops_receiver : Call T

pub data Reply (T : Type 0) : Type 0 where
  was_sent : Bool → Reply T
  received : Result RecvOutputError T → Reply T
  tried : Result TryRecvOutputError T → Reply T
  no_reply : Reply T

module _ {T : Type 0} where
  -- The inputs that the calls have put into the link.
  abbrev pub inputs : List (Call T × Reply T) → List T
  inputs [] = []
  inputs ((sends shutdown input, was_sent true) ∷ rest) = input ∷ inputs rest
  inputs (_ ∷ rest) = inputs rest

  abbrev pub ok_list : {X : Type 0} → Result X T → List T
  ok_list (ok output) = output ∷ []
  ok_list (err error) = []

  abbrev pub reply_outputs : Reply T → List T
  reply_outputs (was_sent done) = []
  reply_outputs (received result) = ok_list result
  reply_outputs (tried result) = ok_list result
  reply_outputs no_reply = []

  -- The receiver is told that the link is closed.
  abbrev pub tells_closed : Reply T → Bool
  tells_closed (received (err output_closed)) = true
  tells_closed (tried (err try_output_closed)) = true
  tells_closed _ = false

  -- The outputs that the calls have taken from it.
  abbrev pub outputs : List (Call T × Reply T) → List T
  outputs [] = []
  outputs ((call, reply) ∷ rest) = reply_outputs reply ++ outputs rest

-- Whether an error of a link tells that it is closed.
abbrev pub closes_recv : LinkRecvError → Bool
closes_recv link_timeout = false
closes_recv link_closed = true

abbrev pub closes_try : LinkTryRecvError → Bool
closes_try link_empty = false
closes_try link_closed_at_try = true

module _ {Q X T : Type 0} (channel : Channel Q X) (into_message : T → X)
    (downcast : X → Option T) where
  abbrev pub answer : Call T → Wire Q → Reply T × Wire Q
  answer (sends shutdown input) w =
      let (done, w') = send_input channel into_message downcast shutdown input w in
      (was_sent done, w')
  answer receives w =
      let (result, w') = recv_output channel into_message downcast w in (received result, w')
  answer (receives_for duration) w =
      let (result, w') = recv_output_timeout channel into_message downcast duration w in
      (received result, w')
  answer tries w =
      let (result, w') = try_recv_output channel into_message downcast w in (tried result, w')
  answer clones_sender w = (no_reply, record w { queue = channel.clone_sender w.queue })
  answer clones_receiver w = (no_reply, record w { queue = channel.clone_receiver w.queue })
  answer drops_sender w = (no_reply, record w { queue = channel.drop_sender w.queue })
  answer drops_receiver w = (no_reply, record w { queue = channel.drop_receiver w.queue })

  -- The calls of all the senders and receivers, in the order in which they take effect.
  abbrev pub answers : List (Call T) → Wire Q → List (Call T × Reply T) × Wire Q
  answers [] w = ([], w)
  answers (call ∷ calls) w =
      let (reply, w') = answer call w in
      let (rest, w'') = answers calls w' in ((call, reply) ∷ rest, w'')

  -- The link holds the items, and its counters tell how many.
  pub record Holds (w : Wire Q) (items : List T) : Type 0 where
    pub holds : channel.contents w.queue ≡ map into_message items
    pub counts :
        (w.drains + length items) % 18446744073709551616 ≡ w.arrivals % 18446744073709551616

  -- The link's answer, and whether an error of it says that the link is closed.
  abbrev pub Popped : {LinkErr : Type 0} → (LinkErr → Bool) → Q → Result LinkErr X × Q → Type 0
  Popped closes q (ok message, q') = channel.contents q ≡ message ∷ channel.contents q'
  Popped closes q (err error, q') =
      (channel.contents q' ≡ channel.contents q) × (closes error ≡ true → channel.contents q ≡ [])

  module _ (fifo : IsFifo channel) (boxed : (x : T) → downcast (into_message x) ≡ some x) where
    pub link_recv-Popped :
        (q : Q) → Popped closes_recv q (link_recv channel into_message downcast q)
    unfolding link_recv
    link_recv-Popped q = go (channel.recv q) (fifo.receives q)
      where
        go :
            (p : Option X × Q)
            → Taken channel.contents q p
            → Popped closes_recv q (ok_or link_closed p.0, p.1)
        go (some message, q') h = h
        go (none, q') (empty, after) = (after ∙ sym empty, λ same. empty)

    pub link_recv_timeout-Popped :
        (q : Q) (duration : ℕ)
        → Popped closes_recv q (link_recv_timeout channel into_message downcast q duration)
    unfolding link_recv_timeout
    link_recv_timeout-Popped q duration =
        go (channel.recv_timeout q duration) (fifo.waits q duration)
      where
        go :
            (p : Result RecvTimeoutError X × Q)
            → Timed channel.contents q p
            → Popped closes_recv q (map_err timeout_as p.0, p.1)
        go (ok message, q') h = h
        go (err timeout_error, q') h = (h, λ same. cc)
        go (err closed_at_timeout, q') (empty, after) = (after ∙ sym empty, λ same. empty)

    pub link_try_recv-Popped :
        (q : Q) → Popped closes_try q (link_try_recv channel into_message downcast q)
    unfolding link_try_recv
    link_try_recv-Popped q = go (channel.try_recv q) (fifo.tries q)
      where
        go :
            (p : Result TryRecvError X × Q)
            → Tried channel.contents q p
            → Popped closes_try q (map_err try_as p.0, p.1)
        go (ok message, q') h = h
        go (err empty_error, q') h = (h, λ same. cc)
        go (err closed_at_try, q') (empty, after) = (after ∙ sym empty, λ same. empty)
