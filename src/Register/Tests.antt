-- ===== src/Register/Tests.antt =====
-- The pages at single values and runs.
use rs_recruitment.Base.{
  Option, length, ◌++◌, IsGiven, ◌≡◌, ◌↔◌, ◌⊎◌, ◌≢◌, true, false, not, any, All, refl, List, [],
  ◌∷◌, Text, codes, some, none, is_space, is_digit, is_upper, is_lower, is_alnum, trim, trim_start,
  text_eq,
}
use rs_recruitment.Regex.{matches}
use rs_recruitment.Validation.{is_plain}
use rs_recruitment.Register.{RequestError}
use rs_recruitment.Password.{check_password_complexity}
use rs_recruitment.Register.{is_fine, axios_error}
use rs_recruitment.Register.Agreement.{validate_password-agree}
use rs_recruitment.Register.Company.{
  Key, FormState, password, confirm, company_name, company_id, address, contact_first_name,
  contact_last_name, contact_mobile_phone, with_field, every_fine, step_1_errors, is_separator,
  validate_email, validate_password, validate_confirm, validate_company_name, validate_company_id,
  validate_contact_first_name, validate_contact_last_name, validate_mobile_phone, validate_address,
}
use rs_recruitment.Register.Company.Fields.{IsComplete, step_1_iff}
use rs_recruitment.Register.Company.Page.{
  Page, start, form_data, metadata_arrives, handle_change, handle_logo_change, handle_next,
  step_2_fine,
}
use rs_recruitment.Register.Company.Events.{
  Event, step, handle, reacts, accept_terms, accept_privacy, handle_submit as submit_company,
  metadata, change, pick_logo, next, draw, tick_terms, tick_privacy, submit, shows_page, run,
  register_fails,
}
use rs_recruitment.Register.Company.Signed.{IsSigned}
use rs_recruitment.Register.Company.Run.{run-IsSigned}
use rs_recruitment.Register.Company.Answers.{IsPassword, run-sends, register_fails-silent_iff}
use rs_recruitment.Password.Laws.{IsComplex}
use rs_recruitment.Register.Candidate.{
  names, CandidatePage, handle_submit, validate_field, start as candidate_start,
  password as candidate_password,
}
use rs_recruitment.Register.Reset.{
  validate_password as reset_validate_password, run as reset_run, start as reset_start,
  token_checked, change as reset_change, change_confirm, submit as reset_submit,
}
use rs_recruitment.Register.Reset.Run.{run-resets}
use rs_recruitment.Register.Login.{
  LoginEvent, change_email, change_password, submit as login_submit, failed as login_failed,
  axios_error as login_axios_error, resend, run as login_run, start as login_start,
}
use rs_recruitment.Register.Login.Run.{IsLogin, IsTried, run-logins}
use rs_recruitment.Register.Candidate.Laws.{IsReady, handle_submit_cases}

abbrev filled : FormState
filled = record {
  email = codes "hr@acme.co";
  password = codes "Secret-12";
  confirm = codes "Secret-12";
  company_name = codes "Acme";
  company_id = codes "514123456";
  address = codes "Haifa";
  contact_first_name = codes "Dana";
  contact_last_name = codes "Levi";
  contact_mobile_phone = codes "052-123 4567";
  contact_landline_phone = [];
}

abbrev at_step_1 : Page
at_step_1 = record (start true) {
  metadata_loading = false;
  form = filled;
  logo_file = some (codes "logo.png");
}

filled-IsComplete : IsComplete filled (some (codes "logo.png"))
unfolding every_fine step_1_errors is_separator validate_email validate_password validate_confirm
    validate_company_name validate_company_id validate_contact_first_name validate_contact_last_name
    validate_mobile_phone validate_address trim trim_start is_space is_digit is_upper is_lower
    is_alnum is_plain text_eq matches
filled-IsComplete = (step_1_iff filled (some (codes "logo.png"))).0 refl

abbrev signing : List Event
signing =
    next
    ∷ draw (codes "data:x" ++ b',' ∷ codes "ab")
    ∷ tick_terms true
    ∷ tick_privacy true
    ∷ submit
    ∷ []

run-sends_example :
    (landline : Option Text) × IsGiven filled.contact_landline_phone
      (trim filled.contact_landline_phone)
      landline
    × ((run signing at_step_1).posts
        ≡ record {
          email = trim filled.email;
          password = codes "Secret-12";
          company_name = trim filled.company_name;
          company_id = trim filled.company_id;
          address = trim filled.address;
          contact_first_name = trim filled.contact_first_name;
          contact_last_name = trim filled.contact_last_name;
          contact_mobile_phone = trim filled.contact_mobile_phone;
          contact_landline_phone = landline;
          agreement_signature = codes "ab";
          privacy_accepted = true;
          terms_accepted = true;
          logo = some (codes "logo.png");
        }
          ∷ [])
    × ((run signing at_step_1).submitting ≡ true)
unfolding shows_page
run-sends_example =
    run-sends at_step_1 (codes "data:x") (codes "ab") refl refl refl refl filled-IsComplete

-- The whole way from the invitation to a request.
abbrev journey : List Event
journey =
    metadata (some (codes "hr@acme.co"))
    ∷ change password filled.password
    ∷ change confirm filled.confirm
    ∷ change company_name filled.company_name
    ∷ change company_id filled.company_id
    ∷ change address filled.address
    ∷ change contact_first_name filled.contact_first_name
    ∷ change contact_last_name filled.contact_last_name
    ∷ change contact_mobile_phone filled.contact_mobile_phone
    ∷ pick_logo (some (codes "logo.png"))
    ∷ signing

run-IsSigned_example : All (IsSigned (codes "data:x,ab" ∷ [])) (run journey (start true)).posts
run-IsSigned_example = run-IsSigned true journey

journey_sends : length (run journey (start true)).posts ≡ 1
unfolding run step handle reacts shows_page metadata_arrives handle_change handle_logo_change
    handle_next accept_terms accept_privacy submit_company step_2_fine form_data every_fine
    step_1_errors is_separator validate_email validate_password validate_confirm
    validate_company_name validate_company_id validate_contact_first_name validate_contact_last_name
    validate_mobile_phone validate_address trim trim_start is_space is_digit is_upper is_lower
    is_alnum is_plain text_eq matches with_field
journey_sends = refl

abbrev weak_password : RequestError
weak_password = axios_error (some 422) (some (some ("body" ∷ "password" ∷ []) ∷ []))

register_fails-silent_iff_example :
    (((register_fails weak_password at_step_1).submit_error ≡ none) ↔ IsPassword weak_password)
    × ((register_fails weak_password at_step_1).step ≡ 1)
    × ((k : Key)
        → k ≢ password
        → (register_fails weak_password at_step_1).field_errors k ≡ at_step_1.field_errors k)
register_fails-silent_iff_example = register_fails-silent_iff weak_password at_step_1 refl

validate_password-agree_example :
    ((validate_password (codes "Secret-12") ≡ none) ↔ IsComplex (codes "Secret-12"))
    × ((validate_field (codes "Secret-12") candidate_password (codes "Secret-12") ≡ none)
        ↔ IsComplex (codes "Secret-12"))
    × ((reset_validate_password (codes "Secret-12") ≡ none) ↔ IsComplex (codes "Secret-12"))
    × ((check_password_complexity (codes "Secret-12") ≡ none) ↔ IsComplex (codes "Secret-12"))
validate_password-agree_example = validate_password-agree (codes "Secret-12")

same_text : Text → Text
same_text s = s

abbrev blank_page : CandidatePage
blank_page = candidate_start

handle_submit_cases_example :
    (IsReady blank_page
      × ((handle_submit same_text blank_page).signups
          ≡ record {
            email = same_text (trim []);
            password = [];
            full_name = trim [];
            privacy_accepted = true;
            terms_accepted = true;
          }
            ∷ [])
      × ((handle_submit same_text blank_page).submitting ≡ true))
    ⊎ ((¬ (IsReady blank_page))
        × ((handle_submit same_text blank_page).signups ≡ [])
        × ((handle_submit same_text blank_page).submitting ≡ false)
        × (any (λ n. not (is_fine ((handle_submit same_text blank_page).field_errors n))) names
            ≡ true))
handle_submit_cases_example = handle_submit_cases same_text blank_page

run-resets_example :
    All IsComplex
      (reset_run
        (token_checked true
          ∷ reset_change (codes "Secret-12")
          ∷ change_confirm (codes "Secret-12")
          ∷ reset_submit
          ∷ [])
        (reset_start true)).resets
    × (true ≡ false
        → (reset_run
            (token_checked true
              ∷ reset_change (codes "Secret-12")
              ∷ change_confirm (codes "Secret-12")
              ∷ reset_submit
              ∷ [])
            (reset_start true)).resets
          ≡ [])
run-resets_example = run-resets true (
    token_checked true
    ∷ reset_change (codes "Secret-12")
    ∷ change_confirm (codes "Secret-12")
    ∷ reset_submit
    ∷ [])

abbrev attempt : List LoginEvent
attempt =
    change_email (codes "a@b.c")
    ∷ change_password (codes "Secret-12")
    ∷ login_submit
    ∷ login_failed (login_axios_error (some 401) (some "account_pending_activation"))
    ∷ resend
    ∷ []

run-logins_example :
    All IsLogin (login_run attempt login_start).logins
    × All (IsTried (login_run attempt login_start).logins) (login_run attempt login_start).resent
    × ((a : Text)
        → (login_run attempt login_start).pending_activation_email ≡ some a
        → IsTried (login_run attempt login_start).logins a
          × ((login_run attempt login_start).error ≡ some "auth:login.errors.pendingActivation"))
run-logins_example = run-logins attempt
