-- ===== src/Supervisor.antt =====
-- src/lib.rs: the supervisor's threads. `State` has its record, `Events` what it does with the
-- workers' reports, `Assign` how it starts workers and gives them nodes, and `Retire` how it asks one
-- to leave a node. The other children have the theorems.
mod State
mod Events
mod Retire
mod Assign
mod Quiet
mod Counts
mod Kept
mod Rounds
pub mod Startup
pub mod Cap
pub mod Places
pub mod Placed
pub mod Begun
pub mod Failures
pub mod Sizes
pub mod Total
mod Loop
mod Finish
mod Whole
mod Stored
pub mod Doomed
pub mod Ends
pub mod Stops
pub mod Failing
mod Tests
mod LoopTests
unfoldable pub use State.*
unfoldable pub use Retire.*
unfoldable pub use Assign.*
unfoldable pub use Events.*
unfoldable pub use Loop.*
unfoldable pub use Finish.*
unfoldable pub use Whole.*
