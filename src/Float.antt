-- ===== src/Float.antt =====
-- The `f64` operations that src/lib.rs uses, as an interface: there are no floating-point numbers
-- here, so the carrier and its operations are a parameter of every definition that uses them.
mod Defs
pub mod Milli
pub use Defs.{Float, as_secs_f64, IsIeee}
