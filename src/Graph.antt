-- ===== src/Graph.antt =====
-- packages/core/src/capability-graph: the execution-capability graph. A method of
-- `CapabilityGraphEngine` takes the engine and returns the new one. The ids that it draws from
-- `generateId` are the arguments `node_id` and `edge_id`, and `now` is the request's time or the
-- clock's. The text of a `reason` is kept as data: a constructor for each template.
pub mod Types
pub mod Store
pub mod Evaluate
pub mod Record
pub mod Verdict
pub mod Paths
pub mod Wellformed
mod Tests
