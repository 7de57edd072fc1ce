-- ===== src/Ports/Tests.antt =====
-- src/lib.rs and src/channel/mod.rs: a link on a backend whose library is a list. The library does not
-- know when a channel ends, so that only the counted ends close it.
use accumulator.Common.{
  ℕ, ◌≡◌, refl, Bool, true, false, Option, none, some, List, [], ◌∷◌, ◌++◌, length,
}
use accumulator.Common.Results.{Result, ok, err}
use accumulator.Channel.{new_counts, sender_clone, drop_sender, counts_terminated, Endpoint}
use accumulator.Channel.KanalBackend.{
  Kanal, kanal_channel, ReceiveError, ReceiveErrorTimeout, receive_timeout,
}
use accumulator.Channel.KanalBackend as KanalEnd
use accumulator.Channel.Backends.{Backend, on_kanal, backend_channel}
use accumulator.Ports.Ends.{Wire, send_input, recv_output, try_recv_output}
use accumulator.Ports.Log.{
  Call, sends, receives, tries, drops_sender, clones_sender, Reply, outputs, tells_closed, answer,
}
use accumulator.Ports.Delivered.{logged}

data Message : Type 0 where
  number : ℕ → Message
  other : Message

abbrev downcast : Message → Option ℕ
downcast (number n) = some n
downcast other = none

abbrev first_of : List Message → Option Message × List Message
first_of [] = (none, [])
first_of (x ∷ xs) = (some x, xs)

abbrev try_first : List Message → Result ReceiveError (Option Message) × List Message
try_first [] = (ok none, [])
try_first (x ∷ xs) = (ok (some x), xs)

abbrev wait_first : List Message → Result ReceiveErrorTimeout Message × List Message
wait_first [] = (err receive_timeout, [])
wait_first (x ∷ xs) = (ok x, xs)

abbrev is_nil : List Message → Bool
is_nil [] = true
is_nil (x ∷ xs) = false

abbrev listed : Kanal (List Message) Message
listed = record {
  unbounded = [];
  clone_sender = λ q. q;
  clone_receiver = λ q. q;
  drop_sender = λ q. q;
  drop_receiver = λ q. q;
  send = λ q x. (true, q ++ x ∷ []);
  recv = first_of;
  try_recv = try_first;
  recv_timeout = λ q duration. wait_first q;
  len = length;
  is_empty = is_nil;
  is_terminated = λ q. false;
  is_closed = λ q. false;
  contents = λ q. q;
}

abbrev listed_link : Backend (List Message) Message
listed_link = on_kanal listed

-- Two senders send, and both are dropped.
abbrev some_calls : List (Call ℕ)
some_calls =
    sends false 5
    ∷ clones_sender
    ∷ sends true 6
    ∷ sends false 7
    ∷ drops_sender
    ∷ receives
    ∷ tries
    ∷ drops_sender
    ∷ []

abbrev log : List (Call ℕ × Reply ℕ)
log = (logged listed_link number downcast some_calls).0

abbrev after : Wire (Endpoint (List Message))
after = (logged listed_link number downcast some_calls).1

takes_in_order : outputs log ≡ 5 ∷ 7 ∷ []
unfolding send_input recv_output try_recv_output kanal_channel KanalEnd.try_recv
    KanalEnd.drop_of_sender KanalEnd.recv KanalEnd.send KanalEnd.clone_of_sender KanalEnd.unbounded
takes_in_order = refl

is_told : tells_closed (answer (backend_channel listed_link) number downcast tries after).0 ≡ true
unfolding send_input recv_output try_recv_output kanal_channel KanalEnd.try_recv
    KanalEnd.drop_of_sender KanalEnd.recv KanalEnd.send KanalEnd.clone_of_sender KanalEnd.unbounded
    counts_terminated drop_sender sender_clone new_counts
is_told = refl
