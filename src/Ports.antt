-- ===== src/Ports.antt =====
-- src/lib.rs: the ends of a link that clients hold, `PiperSender` and `PiperReceiver`, over a channel of
-- src/channel/mod.rs.
mod Ends
mod Log
mod Fifo
pub mod Delivered
mod Tests
unfoldable pub use Ends.*
