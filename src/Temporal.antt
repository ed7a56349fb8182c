-- ===== src/Temporal.antt =====
-- packages/core/src/temporal-obfuscation: the budgets of requests over time.
pub mod Budget
pub mod Balance
pub mod Burst
pub mod Detection
mod Tests
