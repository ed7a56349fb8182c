-- ===== src/Orchestrator.antt =====
-- packages/core/src/runtime-orchestrator: the arbitration of the signals that the gates of a request
-- emit. A method of `RuntimePolicyOrchestrator` takes the orchestrator and returns the new one.
pub mod Types
pub mod Conflicts
pub mod Merge
pub mod State
pub mod Verdict
pub mod Outcome
pub mod Buffer
mod Tests
