-- ===== src/Shim.antt =====
-- assessment-api/src/services/codeAssessShim.service.js: one program run on one input, answered in
-- the shape of Judge0.
pub mod Run
pub mod Status
mod Tests
