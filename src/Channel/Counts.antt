-- ===== src/Channel/Counts.antt =====
-- src/channel/mod.rs: `EndpointCounts`. The two atomic counters are shared by all ends of a channel,
-- so that one record stands for all of them.
use accumulator.Common.{ℕ, Bool, ◌&&◌, ◌==◌}
use accumulator.Common.Words.{fetch_add, fetch_sub}

pub record EndpointCounts : Type 0 where
  pub senders : ℕ
  pub receivers : ℕ

unfoldable pub new_counts : EndpointCounts
new_counts = record { senders = 1; receivers = 1 }

unfoldable pub sender_clone : EndpointCounts → EndpointCounts
sender_clone counts = record counts { senders = fetch_add counts.senders 1 }

unfoldable pub receiver_clone : EndpointCounts → EndpointCounts
receiver_clone counts = record counts { receivers = fetch_add counts.receivers 1 }

unfoldable pub drop_sender : EndpointCounts → EndpointCounts
drop_sender counts = record counts { senders = fetch_sub counts.senders 1 }

unfoldable pub drop_receiver : EndpointCounts → EndpointCounts
drop_receiver counts = record counts { receivers = fetch_sub counts.receivers 1 }

unfoldable pub counts_terminated : EndpointCounts → Bool
counts_terminated counts = counts.senders == 0

unfoldable pub counts_closed : EndpointCounts → Bool
counts_closed counts = (counts.senders == 0) && (counts.receivers == 0)
