-- ===== src/Lib.antt =====
-- The recruitment site's frontend (frontend/src): the logic of its forms, lists and sessions.
--
-- The parts and how they meet. The API client sends every request with the stored token and, on a
-- 401, refreshes it once for all requests. The session starts from the stored token, probes the
-- refresh cookie, and is what the route guards ask. The public application wizard validates its
-- fields with the form rules and posts one application. The admin's triage loads a queue of new
-- applications page by page, and saves decisions in the background while the screen moves on. Other
-- lists load by the cursor-paginated hook.
--
-- Where each part is:
-- - Base: JavaScript strings as lists of UTF-16 code units, lists over native numbers, Boolean tests,
--   integers, association lists. Regex: regular expressions by derivatives; Regex.Language gives
--   their language.
-- - Validation: frontend/src/utils/validators.ts (validateCompanyProfile is
--   validate_company_profile, validateJob is validate_job, sanitizeLinkedInUrl is
--   sanitize_linkedin_url; a map of errors is a list of pairs). Its children hold the laws.
-- - Password: frontend/src/utils/passwordComplexity.ts.
-- - ApplyForm: frontend/src/pages/public/components/applicationUtils.ts (validateField,
--   validateClaimPassword; ApplyForm.ServerError is describeServerError).
-- - Wizard: frontend/src/pages/public/ApplicationPage.tsx. The record Wizard is the page's state;
--   validateStep returns its verdict and its writes (Check), as a handler reads the state of the last
--   render. Wizard.Steps has handleNext, handleBack and jumpTo, Wizard.Submit handleFormSubmit and
--   doFinalSubmit, Wizard.Events the inputs (handleChange, handleBlur, ingestResume, …) and runs.
-- - Feed: frontend/src/hooks/useInfiniteList.ts. Hook is the state with the refs and the requests
--   under way; fetchPage is cut at its await into fetch_page and page_arrives or page_fails.
-- - Triage.Queue: frontend/src/pages/admin/components/useTriageQueue.ts, with a result type for the
--   services' exceptions. Triage.Page: frontend/src/pages/admin/AdminApplicationsTriagePage.tsx; a
--   save under way carries what its error handler has closed over. Triage.Page.Keys is onKey, and
--   Triage.Page.Sync sets the screen against the server's statuses.
-- - Auth.Token: frontend/src/utils/token.ts. Auth.Api: the interceptors of
--   frontend/src/services/api.ts. Auth.Session: frontend/src/contexts/AuthContext.tsx with what
--   login, refreshTokens and logout of frontend/src/services/auth.ts do to the stored token,
--   and the interceptor's writes of it; a run is one load of the page.
--   Auth.Guards: frontend/src/components/guards, the redirect of frontend/src/pages/LoginPage.tsx
--   and the routes of frontend/src/App.tsx.
-- - Register: the pages for visitors without a session. Register.Company is
--   frontend/src/pages/RegisterPage.tsx: the fields' checks, Register.Company.Page its state and
--   handlers, Register.Company.Events the submission and runs. Register.Candidate is
--   frontend/src/pages/RegisterCandidatePage.tsx, Register.Reset
--   frontend/src/pages/ResetPasswordPage.tsx and Register.Login frontend/src/pages/LoginPage.tsx. Their
--   requests are kept in a list, the last one first.
-- - Candidate.Application: frontend/src/pages/candidate/CandidateApplicationDetailPage.tsx, with its
--   events and runs in Candidate.Application.Events. Candidate.Resume:
--   frontend/src/pages/candidate/components/ResumeCard.tsx.
-- - Admin.Jobs and Admin.Applications: the client-side filters of
--   frontend/src/pages/admin/AdminJobsPage.tsx and AdminApplicationsPage.tsx. Admin.Jobs.Page has the
--   handlers of the jobs' approval, rejection and deletion over the list of Feed, Admin.Jobs.Sync sets
--   the list against the server's statuses. Admin.Applications.Dialogs has the dialogs of a status and
--   of notes, frontend/src/pages/admin/components/ApplicationStatusDialog.tsx and
--   ApplicationNotesDialog.tsx.
-- - Toasts: frontend/src/contexts/ToastContext.tsx; a timer under way is the id of its toast. Lazy:
--   frontend/src/utils/lazyWithRetry.ts; a visit is the loads of one page up to the last reload.
-- - JobBoard: the filters of frontend/src/pages/public/JobBoardPage.tsx, getSalaryBounds of
--   frontend/src/pages/public/components/jobBoardUtils.ts and the slider of
--   frontend/src/components/ui/RangeSlider.tsx. Amounts are natural numbers; Infinity is none.
-- - JobTags: frontend/src/components/ui/JobTagsInput.tsx. A handler gives the list that the parent
--   is told of, or the present one where it tells nothing. Sortable is the contract of the arrayMove
--   that both inputs call at the end of a drag.
-- - JobReqs: frontend/src/components/ui/JobRequirementsInput.tsx, with the effect that keeps the
--   rows' keys in step run after each event.
--
-- Asynchronous code is a state with events: what happens up to an await is one step, what follows the
-- answer another, and a run is a list of events in any order. A handler sees the state that the
-- events before it left, as it does once React has rendered.
--
-- Bounds. The loop of the triage queue runs at most four times after the first page, which is
-- MAX_PAGES; a forward jump of the wizard takes as many rounds as there are steps to the target. A visit
-- counts the reloads it may still make. No other definition counts fuel.
--
-- Parameters: arrayMove of the drag library, i18next's t, new URL, jwtDecode, toLowerCase in the searches, the tags and the
-- candidate's e-mail, the services
-- and the server's pages. Times are milliseconds since the epoch, and an expiry is a whole number of
-- seconds.
--
-- The saves of the triage screen are answered in the order in which they were sent.
--
-- Not modelled: rendering, animation and focus, the observer's life cycle, the movement of a drag, the
-- loading of the job in the wizard, analytics, content and locales, the remaining pages and
-- utilities, and the backend.
pub mod Base
pub mod Regex
pub mod Validation
pub mod Password
pub mod ApplyForm
pub mod Feed
pub mod Triage
pub mod Auth
pub mod Wizard
pub mod Admin
pub mod Candidate
pub mod JobBoard
pub mod JobReqs
pub mod JobTags
pub mod Lazy
pub mod Register
pub mod Sortable
pub mod Toasts
