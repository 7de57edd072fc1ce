-- ===== src/Thread.antt =====
-- src/lib.rs: `worker_loop`, the body of a worker's thread.
mod Jobs
pub mod Orderly
mod Tests
unfoldable pub use Jobs.*
