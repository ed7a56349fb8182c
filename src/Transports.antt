-- ===== src/Transports.antt =====
-- packages/core/src/transport-policy and transport-registry: which transport an execution takes, and
-- whether that transport may run in the sandbox.
pub mod Policy
pub mod Registry
pub mod Routing
pub mod Sandbox
mod Tests
