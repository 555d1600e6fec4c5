-- ===== src/Arventiq.antt =====
-- assessment-api/src/services/arventiq.service.js: what another platform reads of a result.
pub mod Verdict
pub mod Shape
pub mod Sync
pub mod Submit
pub mod Saved
pub mod Synced
mod Tests
mod SyncTests
