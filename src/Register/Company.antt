-- ===== src/Register/Company.antt =====
-- The company's registration in two steps, frontend/src/pages/RegisterPage.tsx: the fields' checks and
-- the page's state. The signature canvas stands only in the form of step 2 and is lost with it;
-- `drawing` is its data URL, `none` while it is empty or absent.
pub mod Page
pub mod Fields
pub mod Signature
pub mod Signed
pub mod Run
pub mod Answers
pub mod Events
use rs_recruitment.Base.{
  ℕ, ◌&&◌, String, Bool, true, false, not, ◌||◌, ◌==◌, ltb, Option, none, some, List, [], ◌∷◌, Text,
  is_empty, is_space, is_digit, is_upper, is_lower, trim, text_eq, length, keep, any, all,
  if◌then◌else◌,
}
use rs_recruitment.Regex.{matches}
use rs_recruitment.Validation.{email_re, mobile_re, company_id_re}
use rs_recruitment.Register.{Message, check, is_fine, has_special}

pub data Key : Type 0 where
  email : Key
  password : Key
  confirm : Key
  company_name : Key
  company_id : Key
  address : Key
  contact_first_name : Key
  contact_last_name : Key
  contact_mobile_phone : Key
  contact_landline_phone : Key
  logo : Key
  signature : Key
  privacy : Key
  terms : Key

pub record FormState : Type 0 where
  pub email : Text
  pub password : Text
  pub confirm : Text
  pub company_name : Text
  pub company_id : Text
  pub address : Text
  pub contact_first_name : Text
  pub contact_last_name : Text
  pub contact_mobile_phone : Text
  pub contact_landline_phone : Text

abbrev pub empty_form : FormState
empty_form = record {
  email = [];
  password = [];
  confirm = [];
  company_name = [];
  company_id = [];
  address = [];
  contact_first_name = [];
  contact_last_name = [];
  contact_mobile_phone = [];
  contact_landline_phone = [];
}

-- `{ ...prev, [field]: value }`
unfoldable pub with_field : Key → Text → FormState → FormState
with_field email value form = record form { email = value }
with_field password value form = record form { password = value }
with_field confirm value form = record form { confirm = value }
with_field company_name value form = record form { company_name = value }
with_field company_id value form = record form { company_id = value }
with_field address value form = record form { address = value }
with_field contact_first_name value form = record form { contact_first_name = value }
with_field contact_last_name value form = record form { contact_last_name = value }
with_field contact_mobile_phone value form = record form { contact_mobile_phone = value }
with_field contact_landline_phone value form = record form { contact_landline_phone = value }
with_field _ value form = form

unfoldable pub validate_email : Text → Message
unfolding trim
validate_email v =
    check (is_empty (trim v)) "auth:register.validation.emailRequired"
      (check (not (matches email_re v)) "auth:register.validation.emailInvalid" none)

unfoldable pub validate_password : Text → Message
validate_password v = check (is_empty v) "auth:register.validation.passwordRequired" (
    check (ltb (length v) 8) "auth:register.validation.passwordMin" (
      check (not (any is_upper v)) "auth:register.validation.passwordUppercase" (
        check (not (any is_lower v)) "auth:register.validation.passwordLowercase" (
          check (not (any is_digit v)) "auth:register.validation.passwordDigit"
            (check (not (has_special v)) "auth:register.validation.passwordSpecial" none)))))

unfoldable pub validate_confirm : Text → Text → Message
validate_confirm v pw =
    check (is_empty v) "auth:register.validation.confirmRequired"
      (check (not (text_eq v pw)) "auth:register.validation.confirmMismatch" none)

unfoldable pub validate_company_name : Text → Message
validate_company_name v =
    check (is_empty (trim v)) "auth:register.validation.companyNameRequired"
      (check (ltb 100 (length v)) "auth:register.validation.companyNameMax" none)

unfoldable pub validate_company_id : Text → Message
validate_company_id v =
    check (is_empty (trim v)) "auth:register.validation.companyIdRequired"
      (check (not (matches company_id_re v)) "auth:register.validation.companyIdInvalid" none)

unfoldable pub validate_contact_first_name : Text → Message
validate_contact_first_name v =
    check (is_empty (trim v)) "auth:register.validation.contactFirstNameRequired" none

unfoldable pub validate_contact_last_name : Text → Message
validate_contact_last_name v =
    check (is_empty (trim v)) "auth:register.validation.contactLastNameRequired" none

-- `[-\s]`
unfoldable pub is_separator : ℕ → Bool
unfolding is_space
is_separator c = c == b'-' || is_space c

-- `v.replace(/[-\s]/g, "")`
abbrev pub strip : Text → Text
strip v = keep (λ c. not (is_separator c)) v

unfoldable pub validate_mobile_phone : Text → Message
validate_mobile_phone v =
    check (is_empty (trim v)) "auth:register.validation.mobilePhoneRequired"
      (check (not (matches mobile_re (strip v))) "auth:register.validation.mobilePhoneInvalid" none)

abbrev pub is_null : {A : Type 0} → Option A → Bool
is_null none = true
is_null (some file) = false

abbrev pub validate_logo : Option Text → Message
validate_logo f = check (is_null f) "auth:register.validation.logoRequired" none

abbrev pub validate_signature : Bool → Message
validate_signature empty = check empty "auth:register.validation.signatureRequired" none

unfoldable pub validate_address : Text → Message
validate_address v =
    check (is_empty (trim v)) "auth:register.validation.addressRequired"
      (check (ltb 200 (length v)) "auth:register.validation.addressMax" none)

abbrev pub validate_privacy : Bool → Message
validate_privacy accepted = check (not accepted) "auth:register.validation.privacyRequired" none

abbrev pub validate_terms : Bool → Message
validate_terms accepted = check (not accepted) "auth:register.validation.termsRequired" none

abbrev pub FieldErrors : Type 0
FieldErrors = Key → Message

-- `validateStep1`'s errors.
unfoldable pub step_1_errors : FormState → Option Text → FieldErrors
unfolding validate_email validate_password validate_confirm validate_company_name
    validate_company_id validate_contact_first_name validate_contact_last_name validate_mobile_phone
    validate_address
step_1_errors form file company_name = validate_company_name form.company_name
step_1_errors form file company_id = validate_company_id form.company_id
step_1_errors form file address = validate_address form.address
step_1_errors form file contact_first_name = validate_contact_first_name form.contact_first_name
step_1_errors form file contact_last_name = validate_contact_last_name form.contact_last_name
step_1_errors form file contact_mobile_phone = validate_mobile_phone form.contact_mobile_phone
step_1_errors form file email = validate_email form.email
step_1_errors form file password = validate_password form.password
step_1_errors form file confirm = validate_confirm form.confirm form.password
step_1_errors form file logo = validate_logo file
step_1_errors form file _ = none

abbrev pub keys : List Key
keys =
    company_name ∷ company_id ∷ address ∷ contact_first_name ∷ contact_last_name
    ∷ contact_mobile_phone ∷ email ∷ password ∷ confirm ∷ logo ∷ []

-- `Object.values(errors).every((e) => !e)`, for the keys of the first step.
unfoldable pub every_fine : FieldErrors → Bool
every_fine errors = all (λ k. is_fine (errors k)) keys
