-- ===== src/Graph.antt =====
-- src/lib.rs: the description of a pipeline's graph, from the builder to the checks of
-- `Piper::start`. `Build` has `PipelineGraphBuilder`, `Acyclic` the cycle check, and `Start` the
-- rest of the checks and the nodes that they hand to the supervisor.
mod Specs
pub mod Acyclic
pub mod Build
pub mod Start
mod Tests
pub use Specs.*
