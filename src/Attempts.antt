-- ===== src/Attempts.antt =====
-- assessment-api/src/services/assessments.service.js, the life of an attempt: starting it, scoring
-- it, submitting it, its events, grace time and challenges, and what holds of them over any history.
pub mod Expiry
pub mod Score
pub mod Start
pub mod Submit
pub mod Events
pub mod Cases
pub mod Evolution
pub mod Calls
pub mod Kept
pub mod History
pub mod Outcomes
pub mod Unique
pub mod Tenancy
mod Tests
