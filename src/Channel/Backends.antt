-- ===== src/Channel/Backends.antt =====
-- src/channel/mod.rs: the module `backend` that a build has, on kanal or on crossbeam_channel.
use accumulator.Common.{[], ◌≡◌}
use accumulator.Channel.Interface.{Endpoint, Channel, IsFifo}
use accumulator.Channel.KanalBackend as KanalEnd
use accumulator.Channel.KanalBackend.{Kanal, kanal_channel}
use accumulator.Channel.CrossbeamBackend as CrossbeamEnd
use accumulator.Channel.CrossbeamBackend.{Crossbeam, crossbeam_channel}
use accumulator.Channel.Fifo.{
  KanalDocumented, CrossbeamDocumented, kanal_channel-IsFifo, crossbeam_channel-IsFifo,
}

pub data Backend (Q X : Type 0) : Type 0 where
  on_kanal : Kanal Q X → Backend Q X
  on_crossbeam : Crossbeam Q X → Backend Q X

module _ {Q X : Type 0} where
  abbrev pub backend_channel : Backend Q X → Channel (Endpoint Q) X
  backend_channel (on_kanal kanal) = kanal_channel kanal
  backend_channel (on_crossbeam crossbeam) = crossbeam_channel crossbeam

  -- `unbounded()`.
  abbrev pub backend_unbounded : Backend Q X → Endpoint Q
  backend_unbounded (on_kanal kanal) = KanalEnd.unbounded kanal
  backend_unbounded (on_crossbeam crossbeam) = CrossbeamEnd.unbounded crossbeam

  -- The library does what it documents.
  abbrev pub IsDocumented : Backend Q X → Type 0
  IsDocumented (on_kanal kanal) = KanalDocumented kanal
  IsDocumented (on_crossbeam crossbeam) = CrossbeamDocumented crossbeam

  pub backend-IsFifo :
      (backend : Backend Q X) → IsDocumented backend → IsFifo (backend_channel backend)
  backend-IsFifo (on_kanal kanal) documented = kanal_channel-IsFifo kanal documented
  backend-IsFifo (on_crossbeam crossbeam) documented = crossbeam_channel-IsFifo crossbeam documented

  pub contents-unbounded :
      (backend : Backend Q X)
      → IsDocumented backend
      → (backend_channel backend).contents (backend_unbounded backend) ≡ []
  unfolding kanal_channel crossbeam_channel KanalEnd.unbounded CrossbeamEnd.unbounded
  contents-unbounded (on_kanal kanal) documented = documented.starts
  contents-unbounded (on_crossbeam crossbeam) documented = documented.starts
