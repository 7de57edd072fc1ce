-- ===== src/Join.antt =====
-- src/lib.rs: how `Piper` is joined: `Handle` has `join_supervisor`, `join`, `join_returned_states` and
-- `join_merged_state`.
mod Handle
pub mod Merged
mod Tests
unfoldable pub use Handle.*
