-- ===== src/Submissions.antt =====
-- assessment-api/src/services/submissions.service.js: which solutions an assessment accepts, what the
-- judge is sent, and who sees what of a result.
pub mod Gate
pub mod Acceptance
pub mod Sanitize
pub mod Secrecy
pub mod Judge
pub mod Intake
pub mod Access
pub mod Rejudge
pub mod Endings
pub mod Outcome
pub mod Backlog
pub mod Reading
mod Tests
mod ResultTests
mod QueueTests
