-- ===== src/Audit.antt =====
-- packages/core/src/audit: the audit trail of security events.
pub mod Types
pub mod Store
pub mod Window
pub mod Listing
mod Tests
