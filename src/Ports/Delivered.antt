-- ===== src/Ports/Delivered.antt =====
-- src/lib.rs and src/channel/mod.rs: what a receiver has got when it is told that its link is closed.
use accumulator.Common.{◌≡◌, ◌⊎◌, false, Option, some, List, []}
use accumulator.Channel.{Endpoint, Channel, IsFifo}
use accumulator.Channel.Backends.{Backend, backend_channel, backend_unbounded}
use accumulator.Ports.Ends.{Wire}
use accumulator.Ports.Log.{Call, Reply, tells_closed, answers}

module _ {Q X T : Type 0} (channel : Channel Q X) (into_message : T → X) (downcast : X → Option T)
    (fifo : IsFifo channel) (boxed : (x : T) → downcast (into_message x) ≡ some x) where
  -- The reply does not tell that the link is closed, or the link is empty.
  abbrev OpenOrEmpty : Wire Q → Reply T → Type 0
  OpenOrEmpty w reply = (tells_closed reply ≡ false) ⊎ (channel.contents w.queue ≡ [])

module _ {Q X T : Type 0} (backend : Backend Q X) (into_message : T → X)
    (downcast : X → Option T) where
  abbrev pub new_wire : Wire (Endpoint Q)
  new_wire = record { queue = backend_unbounded backend; arrivals = 0; drains = 0 }

  -- The log of the calls on a new link, and the link after them.
  abbrev pub logged : List (Call T) → List (Call T × Reply T) × Wire (Endpoint Q)
  logged calls = answers (backend_channel backend) into_message downcast calls new_wire
