-- ===== src/Wizard/Events/Invariant.antt =====
-- The step and the resume in a run of the events of ApplicationPage.tsx.
use rs_recruitment.Base.{ℕ, ◌≤◌, Text, true, ◌≡◌, Option, none, some}
use rs_recruitment.Wizard.{Wizard}
use rs_recruitment.ApplyForm.ServerError.{ServerError}
use rs_recruitment.Wizard.Events.{is_allowed, extension, resume_max_file_size_bytes}

-- A file that the page holds has an allowed extension and is not too big.
pub FitsResume : Option (Text × ℕ) → Type 0
FitsResume none = Unit
FitsResume (some (name, size)) =
    (is_allowed (extension name) ≡ true) × (size ≤ resume_max_file_size_bytes)
