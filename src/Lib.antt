-- ===== src/Lib.antt =====
-- The pipeline runtime `piper`: a graph of nodes that are joined by links (queues), run by a
-- supervisor that moves worker threads between the nodes. This development is about the runtime's
-- crate, src/lib.rs and src/channel/mod.rs.
--
-- The parts, and the files that model them:
-- - Errors: `PiperError`, with a constructor for each message.
-- - Policy: `NodeScalePolicy`, `ThreadPolicyHints`, `resolve_scale_policy`,
--   `resolve_thread_policy`, `startup_worker_count`, `resolve_global_worker_cap`.
-- - Graph.Specs, Graph.Build: the records of a graph and `PipelineGraphBuilder`, each method a
--   function from the builder to its result and the next builder.
-- - Graph.Acyclic: `validate_graph_is_acyclic` with its nested `visit`. Graph.Start: the checks of
--   `Piper::start` in their order, up to the `RuntimeNode`s that the supervisor gets.
-- - Trend: `LinkControl` and how `sample_links` classifies a link. Control: `NodeControl`.
-- - Scale.Desired: `collect_node_samples` and `update_desired_workers`. Scale.Basics and
--   Scale.Choose: `choose_scale_operation` and everything that it calls.
-- - Supervisor: the local variables of `run_supervisor` as a record, `drain_worker_events` with a
--   function for each report of a worker, `RetireControl`, `spawn_worker`, `assign_worker`, the two
--   rounds of the start and the part of the loop that carries out an operation.
--   Supervisor.Loop has the main loop, Supervisor.Finish what follows it, and Supervisor.Whole
--   `run_supervisor` from its start to its result.
-- - Links: `LinkKind`, and what the supervisor does with a link.
-- - Channel: src/channel/mod.rs, its `EndpointCounts` and its `Sender` and `Receiver` with either
--   backend. Channel.KanalBackend and Channel.CrossbeamBackend take the calls of the library as a
--   record, and Channel.Fifo what it documents of them.
-- - Ports: `PiperSender` and `PiperReceiver` over a channel of src/channel/mod.rs.
-- - Outputs: `NodeContext::emit`, `ExternalNode::send` and `fail`, and `BufferLease` with its pool.
-- - Thread: `worker_loop`, over the commands that a thread receives.
-- - Join: `join_supervisor`, `join`, `join_returned_states` and `join_merged_state`.
-- - Worker: `run_assignment` with `drain_merge_requests`, over a node's implementation (`DynNode`)
--   as an interface.
-- - Branch: `WeightedBranchController`, and `run_weighted_branch_assignment`.
-- `Piper::start` resolves the policies and hands the nodes to the supervisor, which samples the
-- links and the nodes, updates the number of workers that each node wants, and picks one operation.
--
-- How the code is read. Common.Results has code that returns an error, Common.Runs code that may
-- panic by an index out of range; where the source indexes behind a test, the model does too. A
-- `usize` is a natural number, with saturating additions and multiplications cut at 2^64 - 1, and
-- atomic counters and the sum of the first workers wrapped around at 2^64. A `Duration` and an
-- `Instant` are counts of nanoseconds. A length is below 2^63, so that a difference of lengths as
-- `isize` is the difference. `f64` is the record of operations Float.Defs that every definition takes;
-- Float.Milli is the instance that the tests run on. The answer of `thread::available_parallelism()`
-- and the clock are arguments. In the supervisor a channel is a number, and whether a merge request
-- finds its receiver is an argument of the event's handler. In Channel and Ports a call is seen at one
-- instant, a call that blocks at the one at which it returns. Whether a thread starts and whether a
-- worker's command channel is open are parameters of the calls that ask it.
-- `visit` recurses along the graph and takes as fuel the number of nodes and one more: every call
-- below another marks one more node as temporary.
--
-- The supervisor's loop and a worker's loop take a list of what their passes meet, one entry for each:
-- the flags and counters as they are read, the clock, the messages in their channels and the answer of
-- the input link. When the list ends the loop is still running.
--
-- Not modelled here: feeder links, the receiving methods of external nodes (they have the text of
-- `PiperReceiver`'s), snapshots and telemetry, the older `Pipe`, the macro crate and the benchmark.
-- The threads, the feeders and the channels kanal and crossbeam_channel are libraries that are not in
-- the repository; snapshots and telemetry copy and print fields.
pub mod Common
pub mod Float
pub mod Errors
pub mod Policy
pub mod Graph
pub mod Trend
pub mod Control
pub mod Links
pub mod Scale
pub mod Supervisor
pub mod Worker
pub mod Branch
pub mod Thread
pub mod Channel
pub mod Ports
pub mod Outputs
pub mod Join
pub mod Samples
