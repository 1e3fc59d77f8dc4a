-- ===== src/Admin.antt =====
-- The filters of the administrator's lists: frontend/src/pages/admin/AdminJobsPage.tsx and
-- frontend/src/pages/admin/AdminApplicationsPage.tsx.
pub mod Jobs
pub mod Applications
mod Tests
