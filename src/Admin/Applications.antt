-- ===== src/Admin/Applications.antt =====
-- The filters of frontend/src/pages/admin/AdminApplicationsPage.tsx and its two sections. A parameter of
-- the address bar is `none` when it is missing; `number` is `Number(s)`, `none` for NaN.
pub mod Wanted
pub mod Sections
pub mod Dialogs
use text.Mathlib.Text.{◌==◌ as str_eq}
use rs_recruitment.Base.{
  ℕ, ◌+◌, ◌==◌, String, Text, is_empty, any, keep, Bool, true, false, not, ◌&&◌, ◌||◌, Option, none,
  some, List, [], ◌∷◌, ◌++◌, length, if◌then◌else◌,
}
unfoldable use rs_recruitment.Base.{trim, includes}

pub data ApplicationStatus : Type 0 where
  new : ApplicationStatus
  approved_by_admin : ApplicationStatus
  rejected : ApplicationStatus
  hired : ApplicationStatus
  withdrawn : ApplicationStatus
  job_closed : ApplicationStatus

-- The fields of `ApplicationWithDetails` that the page reads.
pub record Application : Type 0 where
  pub id : ℕ
  pub status : ApplicationStatus
  pub job_id : ℕ
  pub company_id : ℕ
  pub full_name : Text
  pub email : Text
  pub phone : Option Text
  pub title : Text
  pub location : Text
  pub admin_notes : Option Text

-- The status filter that the address bar asks for: `none` is "ALL".
abbrev pub status_filter : Option String → Option ApplicationStatus
status_filter none = none
status_filter (some s) =
    if str_eq s "NEW"
    then some new
    else if str_eq s "APPROVED_BY_ADMIN"
    then some approved_by_admin
    else if str_eq s "REJECTED"
    then some rejected
    else if str_eq s "HIRED"
    then some hired
    else if str_eq s "WITHDRAWN"
    then some withdrawn
    else none

-- `val && !Number.isNaN(Number(val)) ? Number(val) : undefined`
abbrev pub candidate_filter : (Text → Option ℕ) → Option Text → Option ℕ
candidate_filter number none = none
candidate_filter number (some val) = if is_empty val then none else number val

abbrev pub job_filter : (Text → Option ℕ) → Option Text → List ℕ
job_filter number val = elim (candidate_filter number val) [ none ↦ [] | some n ↦ n ∷ [] ]

abbrev pub is_some : {A : Type 0} → List A → Bool
is_some [] = false
is_some (x ∷ xs) = true

abbrev pub has : List ℕ → ℕ → Bool
has ids id = any (λ i. i == id) ids

abbrev pub or_blank : Option Text → Text
or_blank none = []
or_blank (some s) = s

abbrev pub searched : Application → List Text
searched a =
    a.full_name ∷ a.email ∷ or_blank a.phone ∷ a.title ∷ a.location ∷ or_blank a.admin_notes ∷ []

-- The callback of `applications.filter`.
unfoldable pub passes : (Text → Text) → Text → List ℕ → List ℕ → Application → Bool
unfolding includes
passes lower q jobs companies a =
    if is_some jobs && not (has jobs a.job_id)
    then false
    else if is_some companies && not (has companies a.company_id)
    then false
    else if is_empty q
    then true
    else any (λ s. includes (lower s) q) (searched a)

unfoldable pub filtered_applications :
    (Text → Text) → Text → List ℕ → List ℕ → List Application → List Application
unfolding trim passes
filtered_applications lower query jobs companies applications =
    let q = lower (trim query) in keep (passes lower q jobs companies) applications

abbrev pub one_if : Bool → ℕ
one_if true = 1
one_if false = 0

abbrev pub is_set : {A : Type 0} → Option A → Bool
is_set none = false
is_set (some x) = true

unfoldable pub active_filter_count :
    Text → Option ApplicationStatus → List ℕ → Option ℕ → List ℕ → ℕ
unfolding trim
active_filter_count query status jobs candidate companies =
    one_if (not (is_empty (trim query)))
    + one_if (is_set status)
    + length jobs
    + one_if (is_set candidate)
    + length companies

-- `CLOSED_STATUSES`
abbrev pub is_closed : ApplicationStatus → Bool
is_closed job_closed = true
is_closed withdrawn = true
is_closed _ = false

-- The loop that fills `active` and `closed`.
unfoldable pub split_closed :
    List Application → List Application × List Application → List Application × List Application
split_closed [] acc = acc
split_closed (a ∷ as') (active, closed) =
    split_closed as'
      (if is_closed a.status then (active, closed ++ a ∷ []) else (active ++ a ∷ [], closed))

-- `[activeFiltered, closedFiltered]`
unfoldable pub sections :
    (Text → Text) → Text → List ℕ → List ℕ → List Application → List Application × List Application
unfolding filtered_applications split_closed
sections lower query jobs companies applications =
    split_closed (filtered_applications lower query jobs companies applications) ([], [])
