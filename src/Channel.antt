-- ===== src/Channel.antt =====
-- src/channel/mod.rs: the channels of the runtime. `EndpointCounts` counts the ends that are alive,
-- and each of the two backends wraps an end of the library below it.
mod Counts
mod Interface
pub mod KanalBackend
pub mod CrossbeamBackend
pub mod Fifo
pub mod Backends
pub mod Live
unfoldable pub use Counts.*
unfoldable pub use Interface.*
