-- ===== src/Agents.antt =====
-- packages/core/src/multi-agent: the runtime of several agents. The registry is one object that the
-- quota manager, the isolation engine and the scheduler share by reference; here it is a value that
-- each of their methods takes and returns. `now` is the clock, read once for each call.
pub mod Registry
pub mod Quotas
pub mod Isolation
pub mod Scheduler
pub mod Runtime
pub mod Capacity
pub mod Closure
pub mod Health
pub mod Eviction
pub mod Leases
pub mod Pairing
pub mod OneLease
mod Tests
