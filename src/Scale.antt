-- ===== src/Scale.antt =====
-- src/lib.rs: how the supervisor scales. `Desired` samples the nodes and sets how many workers each
-- should have, `Basics` and `Choose` pick the next operation, and the other children have the
-- theorems about the choice.
mod Basics
mod Choose
pub mod Desired
pub mod Sanction
pub mod Pressure
pub mod Safety
pub mod Total
pub mod Backpressure
mod Tests
unfoldable pub use Basics.*
unfoldable pub use Choose.*
