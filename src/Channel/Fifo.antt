-- ===== src/Channel/Fifo.antt =====
-- src/channel/mod.rs: the order of the messages through either backend, by what the library below it
-- documents: messages come out in the order in which they went in, a call that fails takes none, and
-- the library tells that a channel is closed only when it is empty. The ends do not hold messages.
use accumulator.Common.{
  ℕ, ◌≡◌, refl, sym, ◌∙◌, Bool, true, false, ◌&&◌, Option, none, some, List, [], ◌∷◌, if◌then◌else◌,
}
use accumulator.Common.Results.{Result, ok, err}
use accumulator.Channel.Counts.{counts_terminated}
use accumulator.Channel.Interface.{
  empty_error, closed_at_try, timeout_error, closed_at_timeout, Endpoint, Sent, Drained, Taken,
  Timed, Tried, IsFifo,
}
use accumulator.Channel.KanalBackend.{
  ReceiveError, receive_closed, receive_send_closed, ReceiveErrorTimeout, receive_timeout,
  timeout_closed, timeout_send_closed, Kanal, kanal_channel,
}
use accumulator.Channel.KanalBackend as KanalEnd
use accumulator.Channel.CrossbeamBackend as CrossbeamEnd
use accumulator.Channel.CrossbeamBackend.{
  CrossbeamTryRecvError, crossbeam_empty, disconnected_at_try, CrossbeamRecvTimeoutError,
  crossbeam_timeout, disconnected_at_timeout, Crossbeam, crossbeam_channel,
}

module _ {Q X : Type 0} (contents : Q → List X) where
  abbrev pub KanalTried : Q → Result ReceiveError (Option X) × Q → Type 0
  KanalTried q (ok (some x), q') = contents q ≡ x ∷ contents q'
  KanalTried q (ok none, q') = contents q' ≡ contents q
  KanalTried q (err error, q') = Drained contents q q'

  abbrev pub KanalTimed : Q → Result ReceiveErrorTimeout X × Q → Type 0
  KanalTimed q (ok x, q') = contents q ≡ x ∷ contents q'
  KanalTimed q (err receive_timeout, q') = contents q' ≡ contents q
  KanalTimed q (err timeout_closed, q') = Drained contents q q'
  KanalTimed q (err timeout_send_closed, q') = Drained contents q q'

  abbrev pub CrossbeamTried : Q → Result CrossbeamTryRecvError X × Q → Type 0
  CrossbeamTried q (ok x, q') = contents q ≡ x ∷ contents q'
  CrossbeamTried q (err crossbeam_empty, q') = contents q' ≡ contents q
  CrossbeamTried q (err disconnected_at_try, q') = Drained contents q q'

  abbrev pub CrossbeamTimed : Q → Result CrossbeamRecvTimeoutError X × Q → Type 0
  CrossbeamTimed q (ok x, q') = contents q ≡ x ∷ contents q'
  CrossbeamTimed q (err crossbeam_timeout, q') = contents q' ≡ contents q
  CrossbeamTimed q (err disconnected_at_timeout, q') = Drained contents q q'

pub record KanalDocumented {Q X : Type 0} (kanal : Kanal Q X) : Type 0 where
  pub starts : kanal.contents kanal.unbounded ≡ []
  pub sends : (q : Q) (x : X) → Sent kanal.contents q x (kanal.send q x)
  pub receives : (q : Q) → Taken kanal.contents q (kanal.recv q)
  pub tries : (q : Q) → KanalTried kanal.contents q (kanal.try_recv q)
  pub waits : (q : Q) (duration : ℕ) → KanalTimed kanal.contents q (kanal.recv_timeout q duration)
  pub empties : (q : Q) → kanal.is_empty q ≡ true → kanal.contents q ≡ []
  pub sender_cloned : (q : Q) → kanal.contents (kanal.clone_sender q) ≡ kanal.contents q
  pub receiver_cloned : (q : Q) → kanal.contents (kanal.clone_receiver q) ≡ kanal.contents q
  pub sender_dropped : (q : Q) → kanal.contents (kanal.drop_sender q) ≡ kanal.contents q
  pub receiver_dropped : (q : Q) → kanal.contents (kanal.drop_receiver q) ≡ kanal.contents q

pub record CrossbeamDocumented {Q X : Type 0} (crossbeam : Crossbeam Q X) : Type 0 where
  pub starts : crossbeam.contents crossbeam.unbounded ≡ []
  pub sends : (q : Q) (x : X) → Sent crossbeam.contents q x (crossbeam.send q x)
  pub receives : (q : Q) → Taken crossbeam.contents q (crossbeam.recv q)
  pub tries : (q : Q) → CrossbeamTried crossbeam.contents q (crossbeam.try_recv q)
  pub waits :
      (q : Q) (duration : ℕ)
      → CrossbeamTimed crossbeam.contents q (crossbeam.recv_timeout q duration)
  pub sender_cloned : (q : Q) → crossbeam.contents (crossbeam.clone_sender q) ≡ crossbeam.contents q
  pub receiver_cloned :
      (q : Q) → crossbeam.contents (crossbeam.clone_receiver q) ≡ crossbeam.contents q
  pub sender_dropped : (q : Q) → crossbeam.contents (crossbeam.drop_sender q) ≡ crossbeam.contents q
  pub receiver_dropped :
      (q : Q) → crossbeam.contents (crossbeam.drop_receiver q) ≡ crossbeam.contents q

module _ {Q X : Type 0} (kanal : Kanal Q X) (documented : KanalDocumented kanal) where
  abbrev held : Endpoint Q → List X
  held e = kanal.contents e.inner

  and-right : (a b : Bool) → (a && b) ≡ true → b ≡ true
  and-right true b h = h
  and-right false b h = cc

  try_answer-Tried :
      (e : Endpoint Q) (p : Result ReceiveError (Option X) × Q)
      → KanalTried kanal.contents e.inner p
      → Tried held e (KanalEnd.try_answer kanal e.counts p)
  unfolding KanalEnd.try_answer
  try_answer-Tried e (ok (some x), q) h = h
  try_answer-Tried e (ok none, q) h = go (counts_terminated e.counts && kanal.is_empty q) refl
    where
      go :
          (test : Bool)
          → (counts_terminated e.counts && kanal.is_empty q) ≡ test
          → Tried held e (
            err (if test then closed_at_try else empty_error),
            record { inner = q; counts = e.counts },
          )
      go true same =
          let empty = documented.empties q (and-right (counts_terminated e.counts) _ same) in
          (sym h ∙ empty, empty)
      go false same = h
  try_answer-Tried e (err receive_closed, q) h = h
  try_answer-Tried e (err receive_send_closed, q) h = h

  timeout_answer-Timed :
      (e : Endpoint Q) (p : Result ReceiveErrorTimeout X × Q)
      → KanalTimed kanal.contents e.inner p
      → Timed held e (KanalEnd.timeout_answer kanal e.counts p)
  unfolding KanalEnd.timeout_answer KanalEnd.is_empty
  timeout_answer-Timed e (ok x, q) h = h
  timeout_answer-Timed e (err receive_timeout, q) h =
      go (KanalEnd.is_terminated kanal after && kanal.is_empty q) refl
    where
      after : Endpoint Q
      after = record { inner = q; counts = e.counts }

      go :
          (test : Bool)
          → (KanalEnd.is_terminated kanal (record { inner = q; counts = e.counts })
              && kanal.is_empty q)
            ≡ test
          → Timed held e (
            err (if test then closed_at_timeout else timeout_error),
            record { inner = q; counts = e.counts },
          )
      go true same = let empty = documented.empties q (and-right _ _ same) in (sym h ∙ empty, empty)
      go false same = h
  timeout_answer-Timed e (err timeout_closed, q) h = h
  timeout_answer-Timed e (err timeout_send_closed, q) h = h

  recv_timeout-Timed :
      (e : Endpoint Q) (duration : ℕ) → Timed held e (KanalEnd.recv_timeout kanal e duration)
  unfolding KanalEnd.recv_timeout KanalEnd.is_empty
  recv_timeout-Timed e duration = go (KanalEnd.is_terminated kanal e && kanal.is_empty e.inner) refl
    where
      go :
          (test : Bool)
          → (KanalEnd.is_terminated kanal e && kanal.is_empty e.inner) ≡ test
          → Timed held e (
              if test
              then (err closed_at_timeout, e)
              else KanalEnd.timeout_answer kanal e.counts (kanal.recv_timeout e.inner duration))
      go true same = let empty = documented.empties e.inner (and-right _ _ same) in (empty, empty)
      go false same = timeout_answer-Timed e _ (documented.waits e.inner duration)

  send-Sent :
      (e : Endpoint Q) (x : X) (p : Bool × Q)
      → Sent kanal.contents e.inner x p
      → Sent held e x (p.0, record e { inner = p.1 })
  send-Sent e x (true, q) h = h
  send-Sent e x (false, q) h = h

  recv-Taken :
      (e : Endpoint Q) (p : Option X × Q)
      → Taken kanal.contents e.inner p
      → Taken held e (p.0, record e { inner = p.1 })
  recv-Taken e (some x, q) h = h
  recv-Taken e (none, q) h = h

  pub kanal_channel-IsFifo : IsFifo (kanal_channel kanal)
  unfolding kanal_channel KanalEnd.send KanalEnd.recv KanalEnd.try_recv KanalEnd.clone_of_sender
      KanalEnd.clone_of_receiver KanalEnd.drop_of_sender KanalEnd.drop_of_receiver
  kanal_channel-IsFifo = record {
    sends = λ e x. send-Sent e x _ (documented.sends e.inner x);
    receives = λ e. recv-Taken e _ (documented.receives e.inner);
    waits = recv_timeout-Timed;
    tries = λ e. try_answer-Tried e _ (documented.tries e.inner);
    sender_cloned = λ e. documented.sender_cloned e.inner;
    receiver_cloned = λ e. documented.receiver_cloned e.inner;
    sender_dropped = λ e. documented.sender_dropped e.inner;
    receiver_dropped = λ e. documented.receiver_dropped e.inner;
  }

module _ {Q X : Type 0} (crossbeam : Crossbeam Q X)
    (documented : CrossbeamDocumented crossbeam) where
  abbrev queued : Endpoint Q → List X
  queued e = crossbeam.contents e.inner

  crossbeam_send-Sent :
      (e : Endpoint Q) (x : X) (p : Bool × Q)
      → Sent crossbeam.contents e.inner x p
      → Sent queued e x (p.0, record e { inner = p.1 })
  crossbeam_send-Sent e x (true, q) h = h
  crossbeam_send-Sent e x (false, q) h = h

  crossbeam_recv-Taken :
      (e : Endpoint Q) (p : Option X × Q)
      → Taken crossbeam.contents e.inner p
      → Taken queued e (p.0, record e { inner = p.1 })
  crossbeam_recv-Taken e (some x, q) h = h
  crossbeam_recv-Taken e (none, q) h = h

  crossbeam_try-Tried :
      (e : Endpoint Q) (p : Result CrossbeamTryRecvError X × Q)
      → CrossbeamTried crossbeam.contents e.inner p
      → let (answer, q) = CrossbeamEnd.try_answer crossbeam p in
        Tried queued e (answer, record e { inner = q })
  crossbeam_try-Tried e (ok x, q) h = h
  crossbeam_try-Tried e (err crossbeam_empty, q) h = h
  crossbeam_try-Tried e (err disconnected_at_try, q) h = h

  crossbeam_timeout-Timed :
      (e : Endpoint Q) (p : Result CrossbeamRecvTimeoutError X × Q)
      → CrossbeamTimed crossbeam.contents e.inner p
      → let (answer, q) = CrossbeamEnd.timeout_answer crossbeam p in
        Timed queued e (answer, record e { inner = q })
  crossbeam_timeout-Timed e (ok x, q) h = h
  crossbeam_timeout-Timed e (err crossbeam_timeout, q) h = h
  crossbeam_timeout-Timed e (err disconnected_at_timeout, q) h = h

  pub crossbeam_channel-IsFifo : IsFifo (crossbeam_channel crossbeam)
  unfolding crossbeam_channel CrossbeamEnd.send CrossbeamEnd.recv CrossbeamEnd.try_recv
      CrossbeamEnd.recv_timeout CrossbeamEnd.clone_of_sender CrossbeamEnd.clone_of_receiver
      CrossbeamEnd.drop_of_sender CrossbeamEnd.drop_of_receiver
  crossbeam_channel-IsFifo = record {
    sends = λ e x. crossbeam_send-Sent e x _ (documented.sends e.inner x);
    receives = λ e. crossbeam_recv-Taken e _ (documented.receives e.inner);
    waits = λ e duration. crossbeam_timeout-Timed e _ (documented.waits e.inner duration);
    tries = λ e. crossbeam_try-Tried e _ (documented.tries e.inner);
    sender_cloned = λ e. documented.sender_cloned e.inner;
    receiver_cloned = λ e. documented.receiver_cloned e.inner;
    sender_dropped = λ e. documented.sender_dropped e.inner;
    receiver_dropped = λ e. documented.receiver_dropped e.inner;
  }
