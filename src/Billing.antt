-- ===== src/Billing.antt =====
-- assessment-api/src/services/billing.service.js and src/config/plans.js: what a college has paid
-- for, and what that allows.
pub mod Plans
pub mod Service
pub mod Lifecycle
pub mod Allowance
pub mod Seats
mod Tests
