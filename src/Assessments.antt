-- ===== src/Assessments.antt =====
-- The administration of assessments in assessment-api/src/services/assessments.service.js, and the
-- lists that are read page by page.
pub mod Payload
pub mod Manage
pub mod Listing
pub mod Wellformed
pub mod Ownership
pub mod Paging
mod Tests
