-- ===== src/Wizard.antt =====
-- The application wizard: frontend/src/pages/public/ApplicationPage.tsx. A handler reads the state
-- of the last render and then writes; a check of a step is therefore a value that is computed from
-- that state, and its writes are applied one after the other.
pub mod Steps
pub mod Submit
pub mod Events
mod Tests
use text.Mathlib.Text.{◌==◌ as str_eq}
use rs_recruitment.Base.{
  String, ℕ, zero, suc, ◌+◌, ◌-◌, min, ltb, ◌==◌, Text, codes, text_eq, is_empty, Bool, true, false,
  not, ◌&&◌, ◌||◌, Option, none, some, List, [], ◌∷◌, if◌then◌else◌,
}
use rs_recruitment.Validation.{TFunction, ParseUrl}
use rs_recruitment.ApplyForm.{validate_field, validate_claim_password}

pub record Form : Type 0 where
  pub full_name : Text
  pub email : Text
  pub phone : Text
  pub linkedin_url : Text
  pub service_concept : Text
  pub salary_expectations : Text
  pub growth_area : Text
  pub strength : Text

-- `form[name] ?? ""`
abbrev pub field : String → Form → Text
field name form =
    if str_eq name "full_name"
    then form.full_name
    else if str_eq name "email"
    then form.email
    else if str_eq name "phone"
    then form.phone
    else if str_eq name "linkedin_url"
    then form.linkedin_url
    else if str_eq name "service_concept"
    then form.service_concept
    else if str_eq name "salary_expectations"
    then form.salary_expectations
    else if str_eq name "growth_area"
    then form.growth_area
    else if str_eq name "strength"
    then form.strength
    else []

abbrev pub FieldErrors : Type 0
FieldErrors = String → Option String

-- `errors[name] = err` or `delete errors[name]`
abbrev pub assign : String → Option String → FieldErrors → FieldErrors
assign name err errors k = if str_eq name k then err else errors k

-- `resume_file` is the name and the size of the file; a `…_error` of `none` is null.
pub record Wizard : Type 0 where
  pub step : ℕ
  pub max_step : ℕ
  pub form : Form
  pub field_errors : FieldErrors
  pub resume_file : Option (Text × ℕ)
  pub resume_error : Option String
  pub saved_resume_filename : Option Text
  pub is_candidate : Bool
  pub privacy_accepted : Bool
  pub terms_accepted : Bool
  pub claim_account : Bool
  pub claim_password : Text
  pub claim_password_confirm : Text
  pub claim_error : Option String
  pub submitting : Bool
  pub submit_error : Option String
  pub success : Bool
  -- Calls of `submitApplication`.
  pub posts : ℕ

abbrev pub total_steps : ℕ
total_steps = 3

abbrev pub step_1_fields : List String
step_1_fields = "full_name" ∷ "email" ∷ "phone" ∷ "linkedin_url" ∷ []

abbrev pub step_3_fields : List String
step_3_fields = "service_concept" ∷ "salary_expectations" ∷ "strength" ∷ "growth_area" ∷ []

-- `if (err)`: null and the empty message are falsy.
abbrev pub truthy : Option String → Option String
truthy none = none
truthy (some m) = if str_eq m "" then none else some m

abbrev pub is_null : Option String → Bool
is_null none = true
is_null (some m) = false

-- `!resumeFile && !savedResumeFilename`, where an empty file name is falsy too.
abbrev pub no_file : Option (Text × ℕ) → Bool
no_file none = true
no_file (some f) = false

abbrev pub no_name : Option Text → Bool
no_name none = true
no_name (some s) = is_empty s

-- The result of `validateStep`, and what it writes, if anything.
pub record Check : Type 0 where
  pub is_ok : Bool
  pub field_errors : Option FieldErrors
  pub resume_error : Option String

abbrev or_keep : {A : Type 0} → Option A → A → A
or_keep none old = old
or_keep (some new) old = new

abbrev or_keep_error : Option String → Option String → Option String
or_keep_error none old = old
or_keep_error (some m) old = some m

unfoldable pub apply : Check → Wizard → Wizard
apply c w = record w {
  field_errors = or_keep c.field_errors w.field_errors;
  resume_error = or_keep_error c.resume_error w.resume_error;
}

module _ (parse : ParseUrl) (t : TFunction) where
  -- The error of one field, `none` if it is valid.
  abbrev pub error_of : String → Form → Option String
  error_of name form = truthy (validate_field parse t name (field name form))

  -- The loop over the fields of a step.
  unfoldable pub check_fields : List String → Form → FieldErrors → FieldErrors × Bool
  check_fields [] form errors = (errors, true)
  check_fields (name ∷ names) form errors =
      let err = error_of name form in
      let (errors', ok) = check_fields names form (assign name err errors) in
      (errors', is_null err && ok)

  abbrev pub consent_error : Bool → String → Option String
  consent_error accepted key = if accepted then none else some (t key [])

  unfoldable pub check_consent : Wizard → FieldErrors → FieldErrors × Bool
  check_consent w errors =
      if w.is_candidate then (assign "terms" none (assign "privacy" none errors), true) else (
        assign "terms"
            (consent_error w.terms_accepted "publicJobs:application.validation.termsRequired")
            (assign "privacy"
              (consent_error w.privacy_accepted "publicJobs:application.validation.privacyRequired")
              errors),
        w.privacy_accepted && w.terms_accepted,
      )

  -- `validateStep(target)` in the state of the last render.
  unfoldable pub validate_step : ℕ → Wizard → Check
  validate_step target w =
      if target == 1
      then (let (errors, ok) = check_fields step_1_fields w.form w.field_errors in
          record { is_ok = ok; field_errors = some errors; resume_error = none })
      else if target == 2
      then (if no_file w.resume_file && no_name w.saved_resume_filename
          then record {
            is_ok = false;
            field_errors = none;
            resume_error = some (t "publicJobs:application.resumeErrors.required" []);
          }
          else record {
            is_ok = is_null (truthy w.resume_error);
            field_errors = none;
            resume_error = none;
          })
      else (let (errors, ok) = check_fields step_3_fields w.form w.field_errors in
          let (errors', agreed) = check_consent w errors in
          record { is_ok = ok && agreed; field_errors = some errors'; resume_error = none })
