-- ===== src/Wizard/Events.antt =====
-- The handlers of the form's inputs, and a run of the page's events.
pub mod Invariant
use text.Mathlib.Text.{◌==◌ as str_eq}
use rs_recruitment.Base.{
  String, ℕ, zero, suc, ◌+◌, ◌*◌, ltb, leb, any, ◌==◌, Text, codes, text_eq, is_empty, Bool, true,
  false, not, ◌&&◌, ◌||◌, Option, none, some, List, [], ◌∷◌, map, if◌then◌else◌,
}
unfoldable use rs_recruitment.Base.{is_upper}
use rs_recruitment.Validation.{TFunction, ParseUrl}
use rs_recruitment.ApplyForm.{validate_field}
use rs_recruitment.ApplyForm.ServerError.{ServerError}
use rs_recruitment.Wizard.{Wizard, Form, assign, truthy, is_null}
use rs_recruitment.Wizard.Steps.{handle_next, handle_back, jump_to}
use rs_recruitment.Wizard.Submit.{handle_form_submit, submitted, submit_fails}

abbrev pub resume_max_file_size_bytes : ℕ
resume_max_file_size_bytes = 10 * 1024 * 1024

abbrev pub resume_allowed_extensions : List Text
resume_allowed_extensions = codes ".pdf" ∷ codes ".doc" ∷ codes ".docx" ∷ []

-- `s.split(sep).pop()`: what stands after the last separator.
unfoldable pub last_part : ℕ → Text → Text
last_part sep [] = []
last_part sep (c ∷ s) =
    let rest = last_part sep s in
    if any (λ d. d == sep) s then rest else if c == sep then s else c ∷ s

-- `toLowerCase` of the letters of ASCII; no other code unit gives a letter of an allowed extension.
unfoldable pub to_lower : ℕ → ℕ
unfolding is_upper
to_lower c = if is_upper c then c + 32 else c

unfoldable pub extension : Text → Text
extension name = b'.' ∷ map to_lower (last_part b'.' name)

unfoldable pub is_allowed : Text → Bool
is_allowed ext = any (text_eq ext) resume_allowed_extensions

-- The answer of `/api/candidate/me`; an `Option` of `none` is null.
pub record Me : Type 0 where
  pub full_name : Text
  pub email : Text
  pub phone : Option Text
  pub linkedin_url : Option Text
  pub resume_path : Option Text

abbrev set_field : String → Text → Form → Form
set_field name value form = record {
  full_name = if str_eq name "full_name" then value else form.full_name;
  email = if str_eq name "email" then value else form.email;
  phone = if str_eq name "phone" then value else form.phone;
  linkedin_url = if str_eq name "linkedin_url" then value else form.linkedin_url;
  service_concept = if str_eq name "service_concept" then value else form.service_concept;
  salary_expectations =
      if str_eq name "salary_expectations" then value else form.salary_expectations;
  growth_area = if str_eq name "growth_area" then value else form.growth_area;
  strength = if str_eq name "strength" then value else form.strength;
}

abbrev or_default : {A : Type 0} → Option A → A → A
or_default none old = old
or_default (some new) old = new

unfoldable pub handle_change : String → Text → Wizard → Wizard
handle_change name value w =
    let w' = record w { form = set_field name value w.form } in
    if is_null (truthy (w.field_errors name))
    then w'
    else record w' { field_errors = assign name (some "") w.field_errors }

unfoldable pub clear_resume : Wizard → Wizard
clear_resume w = record w { resume_file = none; resume_error = none }

-- The saved resume's name: the old one, unless the profile has a path that is not empty.
abbrev saved_name : Option Text → Option Text → Option Text
saved_name none old = old
saved_name (some []) old = old
saved_name (some (c ∷ path)) old = some (last_part b'/' (c ∷ path))

unfoldable pub prefill : Me → Wizard → Wizard
unfolding last_part
prefill me w = record w {
  form = record w.form {
    full_name = if is_empty me.full_name then w.form.full_name else me.full_name;
    email = me.email;
    phone = or_default me.phone w.form.phone;
    linkedin_url = or_default me.linkedin_url w.form.linkedin_url;
  };
  saved_resume_filename = saved_name me.resume_path w.saved_resume_filename;
}

-- A step the stepper offers.
pub data Target : Type 0 where
  identity : Target
  resume : Target
  answers : Target

abbrev pub number : Target → ℕ
number identity = 1
number resume = 2
number answers = 3

pub data Event : Type 0 where
  change : String → Text → Event
  blur : String → Text → Event
  pick : Option (Text × ℕ) → Event
  clear : Event
  clear_saved : Event
  privacy : Bool → Event
  terms : Bool → Event
  toggle_claim : Bool → Event
  password : Text → Event
  password_confirm : Text → Event
  profile : Me → Event
  next : Event
  back : Event
  jump : Target → Event
  submit : Bool → Event
  answered : Event
  failed : ServerError → Event

-- The state of the first render.
abbrev pub start : Option Text → Wizard
start candidate = record {
  step = 1;
  max_step = 1;
  form = record {
    full_name = [];
    email = or_default candidate [];
    phone = [];
    linkedin_url = [];
    service_concept = [];
    salary_expectations = [];
    growth_area = [];
    strength = [];
  };
  field_errors = λ name. none;
  resume_file = none;
  resume_error = none;
  saved_resume_filename = none;
  is_candidate = elim candidate [ some email ↦ true | none ↦ false ];
  privacy_accepted = false;
  terms_accepted = false;
  claim_account = false;
  claim_password = [];
  claim_password_confirm = [];
  claim_error = none;
  submitting = false;
  submit_error = none;
  success = false;
  posts = 0;
}

module _ (parse : ParseUrl) (t : TFunction) where
  unfoldable pub handle_blur : String → Text → Wizard → Wizard
  handle_blur name value w = record w {
    field_errors =
        assign name (some (or_default (validate_field parse t name value) "")) w.field_errors;
  }

  unfoldable pub ingest_resume : Option (Text × ℕ) → Wizard → Wizard
  ingest_resume none w = record w { resume_error = none; resume_file = none }
  ingest_resume (some (name, size)) w =
      if not (is_allowed (extension name))
      then record w {
        resume_error = some (t "publicJobs:application.resumeErrors.invalidExtension" []);
      }
      else if ltb resume_max_file_size_bytes size
      then record w {
        resume_error =
            some (t "publicJobs:application.resumeErrors.fileTooBig" (("maxSize", 10) ∷ []));
      }
      else record w { resume_error = none; resume_file = some (name, size) }

  unfoldable pub handle : Event → Wizard → Wizard
  unfolding handle_blur handle_change clear_resume ingest_resume prefill
  handle (change name value) w = handle_change name value w
  handle (blur name value) w = handle_blur name value w
  handle (pick file) w = ingest_resume file w
  handle clear w = clear_resume w
  handle clear_saved w = record w { saved_resume_filename = none }
  handle (privacy accepted) w = record w { privacy_accepted = accepted }
  handle (terms accepted) w = record w { terms_accepted = accepted }
  handle (toggle_claim on) w = record w { claim_account = on }
  handle (password s) w = record w { claim_password = s }
  handle (password_confirm s) w = record w { claim_password_confirm = s }
  handle (profile me) w = prefill me w
  handle next w = handle_next parse t w
  handle back w = handle_back w
  handle (jump target) w = jump_to parse t (number target) w
  handle (submit job_ok) w = handle_form_submit parse t job_ok w
  handle answered w = submitted parse t w
  handle (failed err) w = submit_fails parse t err w

  unfoldable pub run : List Event → Wizard → Wizard
  unfolding handle
  run [] w = w
  run (e ∷ es) w = run es (handle e w)
