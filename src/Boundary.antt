-- ===== src/Boundary.antt =====
-- packages/core/src/privacy-boundary: the decisions on flows between compartments.
pub mod Engine
pub mod Verdict
pub mod Rules
mod Tests
