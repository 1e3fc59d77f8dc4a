-- ===== src/Register/Candidate.antt =====
-- The candidate's registration, frontend/src/pages/RegisterCandidatePage.tsx. `to_lower_case` is
-- JavaScript's `toLowerCase`, whose Unicode tables are not part of the program.
pub mod Laws
use rs_recruitment.Base.{
  ℕ, Bool, true, false, not, ◌&&◌, ◌||◌, ◌==◌, ltb, Option, none, some, List, [], ◌∷◌, Text,
  is_empty, is_digit, is_upper, is_lower, text_eq, length, any, all, if◌then◌else◌,
}
unfoldable use rs_recruitment.Base.{trim}
use rs_recruitment.Regex.{matches}
use rs_recruitment.Validation.{email_re}
use rs_recruitment.Register.{
  Message, check, is_fine, has_special, RequestError, axios_error, other_error,
}

pub data FieldName : Type 0 where
  full_name : FieldName
  email : FieldName
  password : FieldName
  password_confirm : FieldName
  privacy : FieldName
  terms : FieldName

pub record CandidateForm : Type 0 where
  pub full_name : Text
  pub email : Text
  pub password : Text
  pub password_confirm : Text

-- What `registerCandidate` is called with.
pub record Signup : Type 0 where
  pub email : Text
  pub password : Text
  pub full_name : Text
  pub privacy_accepted : Bool
  pub terms_accepted : Bool

-- `signups` are the requests sent, the last one first.
pub record CandidatePage : Type 0 where
  pub form : CandidateForm
  pub privacy_accepted : Bool
  pub terms_accepted : Bool
  pub field_errors : FieldName → Message
  pub form_error : Message
  pub submitting : Bool
  pub submitted : Bool
  pub terms_open : Bool
  pub privacy_open : Bool
  pub signups : List Signup

abbrev pub start : CandidatePage
start = record {
  form = record { full_name = []; email = []; password = []; password_confirm = [] };
  privacy_accepted = false;
  terms_accepted = false;
  field_errors = λ name. none;
  form_error = none;
  submitting = false;
  submitted = false;
  terms_open = false;
  privacy_open = false;
  signups = [];
}

-- `PASSWORD_RE`: one of the four classes is missing.
unfoldable pub is_simple : Text → Bool
is_simple v =
    not (any is_upper v) || not (any is_lower v) || not (any is_digit v) || not (has_special v)

-- `validateField`, where `pw` is the form's password.
unfoldable pub validate_field : Text → FieldName → Text → Message
unfolding is_simple
validate_field pw full_name v =
    check (is_empty (trim v)) "auth:registerCandidate.validation.fullNameRequired"
      (check (ltb (length (trim v)) 2) "auth:registerCandidate.validation.fullNameMin" none)
validate_field pw email v =
    check (is_empty (trim v)) "auth:register.validation.emailRequired"
      (check (not (matches email_re v)) "auth:register.validation.emailInvalid" none)
validate_field pw password v = check (is_empty v) "auth:register.validation.passwordRequired" (
    check (ltb (length v) 8) "auth:register.validation.passwordMin"
      (check (is_simple v) "auth:registerCandidate.validation.passwordComplexity" none))
validate_field pw password_confirm v =
    check (is_empty v) "auth:register.validation.confirmRequired"
      (check (not (text_eq v pw)) "auth:register.validation.confirmMismatch" none)
validate_field pw _ v = none

abbrev pub same_name : FieldName → FieldName → Bool
same_name full_name full_name = true
same_name email email = true
same_name password password = true
same_name password_confirm password_confirm = true
same_name privacy privacy = true
same_name terms terms = true
same_name _ _ = false

-- `{ ...prev, [name]: message }`
abbrev pub assign : FieldName → Message → (FieldName → Message) → FieldName → Message
assign name message errors n = if same_name name n then message else errors n

abbrev pub with_field : FieldName → Text → CandidateForm → CandidateForm
with_field full_name value form = record form { full_name = value }
with_field email value form = record form { email = value }
with_field password value form = record form { password = value }
with_field password_confirm value form = record form { password_confirm = value }
with_field _ value form = form

unfoldable pub handle_change : FieldName → Text → CandidatePage → CandidatePage
handle_change name value w = record w {
  form = with_field name value w.form;
  field_errors =
      if is_fine (w.field_errors name) then w.field_errors else assign name none w.field_errors;
}

unfoldable pub handle_blur : FieldName → Text → CandidatePage → CandidatePage
unfolding validate_field
handle_blur name value w = record w {
  field_errors = assign name (validate_field w.form.password name value) w.field_errors;
}

-- The `errs` of `validateAll`.
unfoldable pub all_errors : CandidatePage → FieldName → Message
unfolding validate_field
all_errors w full_name = validate_field w.form.password full_name w.form.full_name
all_errors w email = validate_field w.form.password email w.form.email
all_errors w password = validate_field w.form.password password w.form.password
all_errors w password_confirm =
    validate_field w.form.password password_confirm w.form.password_confirm
all_errors w privacy =
    check (not w.privacy_accepted) "auth:register.validation.privacyRequired" none
all_errors w terms = check (not w.terms_accepted) "auth:register.validation.termsRequired" none

abbrev pub names : List FieldName
names = full_name ∷ email ∷ password ∷ password_confirm ∷ privacy ∷ terms ∷ []

-- What `validateAll` returns.
unfoldable pub validate_all : CandidatePage → Bool
unfolding all_errors
validate_all w = all (λ n. is_fine (all_errors w n)) names

unfoldable pub accept_terms : Bool → CandidatePage → CandidatePage
accept_terms v w = record w {
  terms_accepted = v;
  field_errors = if v then assign terms none w.field_errors else w.field_errors;
}

unfoldable pub accept_privacy : Bool → CandidatePage → CandidatePage
accept_privacy v w = record w {
  privacy_accepted = v;
  field_errors = if v then assign privacy none w.field_errors else w.field_errors;
}

unfoldable pub signed_up : CandidatePage → CandidatePage
signed_up w = record w { submitted = true; submitting = false }

abbrev pub status_message : ℕ → Message
status_message status =
    if status == 409
    then some "auth:registerCandidate.errors.emailExists"
    else if status == 429
    then some "auth:registerCandidate.errors.tooManyAttempts"
    else if status == 422
    then some "auth:registerCandidate.errors.validation"
    else some "auth:registerCandidate.errors.generic"

abbrev pub failure_message : RequestError → Message
failure_message (axios_error (some status) detail) = status_message status
failure_message (axios_error none detail) = some "auth:registerCandidate.errors.generic"
failure_message other_error = some "auth:registerCandidate.errors.generic"

unfoldable pub signup_fails : RequestError → CandidatePage → CandidatePage
signup_fails err w = record w { form_error = failure_message err; submitting = false }

pub data CandidateEvent : Type 0 where
  change : FieldName → Text → CandidateEvent
  blur : FieldName → Text → CandidateEvent
  tick_terms : Bool → CandidateEvent
  tick_privacy : Bool → CandidateEvent
  open_terms : Bool → CandidateEvent
  open_privacy : Bool → CandidateEvent
  agree_terms : CandidateEvent
  agree_privacy : CandidateEvent
  submit : CandidateEvent
  answered : CandidateEvent
  failed : RequestError → CandidateEvent

module _ (to_lower_case : Text → Text) where
  unfoldable pub signup_of : CandidatePage → Signup
  signup_of w = record {
    email = to_lower_case (trim w.form.email);
    password = w.form.password;
    full_name = trim w.form.full_name;
    privacy_accepted = w.privacy_accepted;
    terms_accepted = w.terms_accepted;
  }

  -- `handleSubmit` up to its `await`.
  unfoldable pub handle_submit : CandidatePage → CandidatePage
  unfolding all_errors validate_all signup_of
  handle_submit w =
      let w' = record w { form_error = none; field_errors = all_errors w } in
      if validate_all w
      then record w' { submitting = true; signups = signup_of w ∷ w.signups }
      else w'

  -- The submit button is disabled during a request.
  unfoldable pub handle : CandidateEvent → CandidatePage → CandidatePage
  unfolding handle_change handle_blur accept_terms accept_privacy handle_submit signed_up
      signup_fails
  handle (change name value) w = handle_change name value w
  handle (blur name value) w = handle_blur name value w
  handle (tick_terms v) w = accept_terms v w
  handle (tick_privacy v) w = accept_privacy v w
  handle (open_terms b) w = record w { terms_open = b }
  handle (open_privacy b) w = record w { privacy_open = b }
  handle agree_terms w = let w' = accept_terms true w in record w' { terms_open = false }
  handle agree_privacy w = let w' = accept_privacy true w in record w' { privacy_open = false }
  handle submit w = let w' = handle_submit w in if w.submitting then w else w'
  handle answered w = let w' = signed_up w in if w.submitting then w' else w
  handle (failed err) w = let w' = signup_fails err w in if w.submitting then w' else w

  -- Once submitted, the page is a notice without controls.
  unfoldable pub step : CandidateEvent → CandidatePage → CandidatePage
  unfolding handle
  step e w = let w' = handle e w in if w.submitted then w else w'

  unfoldable pub run : List CandidateEvent → CandidatePage → CandidatePage
  unfolding step
  run [] w = w
  run (e ∷ es) w = run es (step e w)
