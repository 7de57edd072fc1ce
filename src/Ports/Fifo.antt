-- ===== src/Ports/Fifo.antt =====
-- src/lib.rs: what goes into a link by `PiperSender` and comes out of it by `PiperReceiver`.
use accumulator.Common.{
  ◌≡◌, refl, sym, ap, ◌∙◌, Bool, true, false, Option, some, List, [], ◌∷◌, ◌++◌, map, arith,
  length-append, append_assoc, append_nil,
}
use accumulator.Common.Results.{Result, ok, err}
use accumulator.Channel.{Channel, Sent, IsFifo}
use accumulator.Ports.Ends.{
  Wire, typed, after_send, after_recv, send_input, recv_output, recv_output_timeout,
  try_recv_output,
}
use accumulator.Ports.Log.{
  Call, sends, receives, receives_for, tries, clones_sender, clones_receiver, drops_sender,
  drops_receiver, Reply, was_sent, received, tried, no_reply, inputs, ok_list, reply_outputs,
  outputs, answer, answers, Holds, Popped, link_recv-Popped, link_recv_timeout-Popped,
  link_try_recv-Popped,
}

module _ {Q X T : Type 0} (channel : Channel Q X) (into_message : T → X)
    (downcast : X → Option T) where
  module _ (fifo : IsFifo channel) (boxed : (x : T) → downcast (into_message x) ≡ some x) where
    -- An item is taken and counted, or nothing happens.
    abbrev Shrinks : {Err : Type 0} → List T → Result Err T × Wire Q → Type 0
    Shrinks items (result, w) =
        (left : List T) × Holds channel into_message downcast w left
        × (ok_list result ++ left ≡ items)

    typed-boxed :
        {Err : Type 0} (mismatch : Err) (x : T) (message : X)
        → message ≡ into_message x
        → typed downcast mismatch message ≡ ok x
    unfolding typed
    typed-boxed mismatch x message e = let known = boxed x in rw (e, typed, known) refl

    after_recv-Shrinks :
        {LinkErr Err : Type 0} (mismatch : Err) (wrap : LinkErr → Err) (w : Wire Q) (items : List T)
        (closes : LinkErr → Bool) (p : Result LinkErr X × Q)
        → Holds channel into_message downcast w items
        → Popped channel into_message downcast closes w.queue p
        → Shrinks items (after_recv downcast mismatch wrap w p)
    unfolding after_recv
    after_recv-Shrinks mismatch wrap w [] closes (ok message, q) h popped =
        let none : message ∷ channel.contents q ≡ [] = sym popped ∙ h.holds in (cc)
    after_recv-Shrinks mismatch wrap w (x ∷ items) closes (ok message, q) h popped =
        let same : message ∷ channel.contents q ≡ into_message x ∷ map into_message items =
          sym popped ∙ h.holds in
        let first : message ≡ into_message x = cc in
        let rest : channel.contents q ≡ map into_message items = cc in
        let counts = h.counts in
        (
          items,
          record { holds = rest; counts = omega (arith, counts) },
          ap (λ r. ok_list r ++ items) (typed-boxed mismatch x message first),
        )
    after_recv-Shrinks mismatch wrap w items closes (err error, q) h popped =
        (items, record { holds = popped.0 ∙ h.holds; counts = h.counts }, refl)

    map-append :
        (xs ys : List T) → map into_message (xs ++ ys) ≡ map into_message xs ++ map into_message ys
    map-append [] ys = refl
    map-append (x ∷ xs) ys = ap (◌∷◌ (into_message x)) (map-append xs ys)

    -- The items after a call are those before it without what it has taken and with what it has sent.
    abbrev Steps : List T → Call T → Reply T × Wire Q → Type 0
    Steps items call (reply, w) =
        (left : List T) × Holds channel into_message downcast w left
        × (reply_outputs reply ++ left ≡ items ++ inputs ((call, reply) ∷ []))

    after_send-Steps :
        (shutdown : Bool) (input : T) (w : Wire Q) (items : List T) (p : Bool × Q)
        → Holds channel into_message downcast w items
        → Sent channel.contents w.queue (into_message input) p
        → let (done, w') = after_send w p in Steps items (sends shutdown input) (was_sent done, w')
    unfolding after_send
    after_send-Steps shutdown input w items (true, q) h e =
        let counts = h.counts in
        let longer = length-append items (input ∷ []) in
        (
          items ++ input ∷ [],
          record {
            holds =
                e
                ∙ ap (λ l. l ++ into_message input ∷ []) h.holds
                ∙ sym (map-append items (input ∷ []));
            counts = rw longer omega (arith, counts);
          },
          refl,
        )
    after_send-Steps shutdown input w items (false, q) h e =
        (items, record { holds = e ∙ h.holds; counts = h.counts }, sym (append_nil items))

    Shrinks-Steps :
        {Err : Type 0} (items : List T) (call : Call T) (reply : Result Err T → Reply T)
        (p : Result Err T × Wire Q)
        → ((r : Result Err T) → reply_outputs (reply r) ≡ ok_list r)
        → inputs ((call, reply p.0) ∷ []) ≡ []
        → Shrinks items p
        → Steps items call (reply p.0, p.1)
    Shrinks-Steps items call reply p same quiet (left, h, e) = (
      left,
      h,
      ap (λ l. l ++ left) (same p.0) ∙ e ∙ sym (append_nil items) ∙ ap (◌++◌ items) (sym quiet),
    )

    moved-Steps :
        (w : Wire Q) (items : List T) (q : Q)
        → Holds channel into_message downcast w items
        → channel.contents q ≡ channel.contents w.queue
        → (left : List T) × Holds channel into_message downcast (record w { queue = q }) left
          × (left ≡ items ++ [])
    moved-Steps w items q h e =
        (items, record { holds = e ∙ h.holds; counts = h.counts }, sym (append_nil items))

    answer-Steps :
        (call : Call T) (w : Wire Q) (items : List T)
        → Holds channel into_message downcast w items
        → Steps items call (answer channel into_message downcast call w)
    unfolding send_input recv_output recv_output_timeout try_recv_output
    answer-Steps (sends true input) w items h = (items, h, sym (append_nil items))
    answer-Steps (sends false input) w items h =
        after_send-Steps false input w items _ h (fifo.sends w.queue (into_message input))
    answer-Steps receives w items h =
        Shrinks-Steps items receives received _ (λ r. refl) refl
          (after_recv-Shrinks _ _ w items _ _ h
            (link_recv-Popped channel into_message downcast fifo boxed w.queue))
    answer-Steps (receives_for duration) w items h =
        Shrinks-Steps items (receives_for duration) received _ (λ r. refl) refl
          (after_recv-Shrinks _ _ w items _ _ h
            (link_recv_timeout-Popped channel into_message downcast fifo boxed w.queue duration))
    answer-Steps tries w items h =
        Shrinks-Steps items tries tried _ (λ r. refl) refl
          (after_recv-Shrinks _ _ w items _ _ h
            (link_try_recv-Popped channel into_message downcast fifo boxed w.queue))
    answer-Steps clones_sender w items h = moved-Steps w items _ h (fifo.sender_cloned w.queue)
    answer-Steps clones_receiver w items h = moved-Steps w items _ h (fifo.receiver_cloned w.queue)
    answer-Steps drops_sender w items h = moved-Steps w items _ h (fifo.sender_dropped w.queue)
    answer-Steps drops_receiver w items h = moved-Steps w items _ h (fifo.receiver_dropped w.queue)

    inputs-append :
        (call : Call T) (reply : Reply T) (rest : List (Call T × Reply T))
        → inputs ((call, reply) ∷ []) ++ inputs rest ≡ inputs ((call, reply) ∷ rest)
    inputs-append (sends shutdown input) (was_sent true) rest = refl
    inputs-append (sends shutdown input) (was_sent false) rest = refl
    inputs-append (sends shutdown input) (received r) rest = refl
    inputs-append (sends shutdown input) (tried r) rest = refl
    inputs-append (sends shutdown input) no_reply rest = refl
    inputs-append clones_sender reply rest = refl
    inputs-append clones_receiver reply rest = refl
    inputs-append drops_sender reply rest = refl
    inputs-append drops_receiver reply rest = refl
    inputs-append receives reply rest = refl
    inputs-append (receives_for duration) reply rest = refl
    inputs-append tries reply rest = refl

    pub answers-Holds :
        (calls : List (Call T)) (w : Wire Q) (items : List T)
        → Holds channel into_message downcast w items
        → (left : List T) × Holds channel into_message downcast
            (answers channel into_message downcast calls w).1
            left
          × (outputs (answers channel into_message downcast calls w).0 ++ left
              ≡ items ++ inputs (answers channel into_message downcast calls w).0)
    answers-Holds [] w items h = (items, h, sym (append_nil items))
    answers-Holds (call ∷ calls) w items h =
        let (between, held, e) = answer-Steps call w items h in
        let (left, holds, d) =
          answers-Holds calls (answer channel into_message downcast call w).1 between held in
        let reply = (answer channel into_message downcast call w).0 in
        let rest =
          (answers channel into_message downcast calls
            (answer channel into_message downcast call w).1).0 in
        (
          left,
          holds,
          append_assoc (reply_outputs reply) (outputs rest) left
              ∙ ap (◌++◌ (reply_outputs reply)) d
              ∙ sym (append_assoc (reply_outputs reply) between (inputs rest))
              ∙ ap (λ l. l ++ inputs rest) e
              ∙ append_assoc items (inputs ((call, reply) ∷ [])) (inputs rest)
              ∙ ap (◌++◌ items) (inputs-append call reply rest),
        )
