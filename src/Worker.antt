-- ===== src/Worker.antt =====
-- src/lib.rs: the worker threads. `Assignment` is what a thread does with a node that it was given.
mod Assignment
pub mod Protocol
pub mod Absorbed
pub mod Passes
pub mod Conserved
mod Tests
unfoldable pub use Assignment.*
