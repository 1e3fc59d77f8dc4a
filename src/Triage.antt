-- ===== src/Triage.antt =====
-- The triage of new applications in frontend/src/pages/admin.
pub mod Queue
pub mod Page
mod Tests
