-- ===== src/Outputs.antt =====
-- src/lib.rs: how a node and an external node put out what they make: `NodeContext::emit`,
-- `ExternalNode::send` and `ExternalNode::fail` in `Emit`, and the reusable outputs, `BufferLease`, in
-- `Lease`.
mod Emit
mod Lease
pub mod Once
pub mod Recycled
mod Tests
unfoldable pub use Emit.*
unfoldable pub use Lease.*
