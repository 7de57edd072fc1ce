-- ===== src/Branch.antt =====
-- src/lib.rs: the weighted branch, a node that routes its items to the shorter of two queues.
-- `Controller` is its choice of an output, `Run` the loop of its one worker.
mod Controller
mod Run
pub mod Routing
pub mod Dealt
mod Tests
unfoldable pub use Controller.*
unfoldable pub use Run.*
