-- ===== src/Candidate.antt =====
-- The candidate's own pages: an application, frontend/src/pages/candidate/CandidateApplicationDetailPage.tsx,
-- and the resume's card, frontend/src/pages/candidate/components/ResumeCard.tsx.
pub mod Application
pub mod Resume
mod Tests
