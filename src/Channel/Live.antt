-- ===== src/Channel/Live.antt =====
-- src/channel/mod.rs: `EndpointCounts` against the ends that are alive.
use accumulator.Common.{ℕ, suc}
use accumulator.Channel.Counts.{
  EndpointCounts, new_counts, sender_clone, receiver_clone, drop_sender, drop_receiver,
}

-- The counters of a channel, and how many senders and receivers are alive: an end is cloned or dropped
-- only while it is alive.
pub data Counted : EndpointCounts → ℕ → ℕ → Type 0 where
  made : Counted new_counts 1 1
  sender_cloned :
      {counts : EndpointCounts} {senders receivers : ℕ}
      → Counted counts (suc senders) receivers
      → Counted (sender_clone counts) (suc (suc senders)) receivers
  receiver_cloned :
      {counts : EndpointCounts} {senders receivers : ℕ}
      → Counted counts senders (suc receivers)
      → Counted (receiver_clone counts) senders (suc (suc receivers))
  sender_dropped :
      {counts : EndpointCounts} {senders receivers : ℕ}
      → Counted counts (suc senders) receivers
      → Counted (drop_sender counts) senders receivers
  receiver_dropped :
      {counts : EndpointCounts} {senders receivers : ℕ}
      → Counted counts senders (suc receivers)
      → Counted (drop_receiver counts) senders receivers
