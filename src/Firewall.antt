-- ===== src/Firewall.antt =====
-- packages/core/src/sanitizer, policy-engine and capability-firewall: the decisions on requests.
pub mod Sanitizer
pub mod Texts
pub mod Plain
pub mod Clean
pub mod Accept
pub mod Policy
pub mod Permits
pub mod Decisions
mod Tests
