-- ===== src/ApplyForm.antt =====
-- The field checks of the application wizard:
-- frontend/src/pages/public/components/applicationUtils.ts.
pub mod Fields
pub mod Messages
pub mod ServerError
mod Tests
use text.Mathlib.Text.{◌==◌ as str_eq}
use rs_recruitment.Base.{
  ℕ, ℤ, pos, ltb_ℤ, String, Bool, true, false, not, ◌&&◌, ◌||◌, ◌==◌, ltb, leb, Option, none, some,
  List, [], ◌∷◌, ◌++◌, Text, codes, is_empty, is_space, is_digit, is_upper, is_lower, is_alnum,
  trim, text_eq, ends_with, length, keep, any, if◌then◌else◌,
}
use rs_recruitment.Regex.{Regex, cls, chr, seq, plus, repeat, star, matches}
use rs_recruitment.Validation.{TFunction, ParseUrl, Url, email_re, mobile_re, linkedin_host}
use rs_recruitment.Password.{check_password_complexity}

abbrev pub text_field_max : ℕ
text_field_max = 2000

abbrev pub is_step_3_field : String → Bool
is_step_3_field name =
    str_eq name "service_concept"
    || str_eq name "salary_expectations"
    || str_eq name "strength"
    || str_eq name "growth_area"

-- An early return, or what follows it.
infixr 30 ◌or_else◌
abbrev pub ◌or_else◌ : Option String → Option String → Option String
none or_else k = k
some m or_else k = some m

abbrev pub only_if : Bool → Option String → Option String
only_if true m = m
only_if false m = none

module _ (parse : ParseUrl) (t : TFunction) where
  abbrev pub fails : Bool → String → Option String
  fails b key = if b then some (t key []) else none

  unfoldable pub full_name_error : Text → Option String
  full_name_error value =
      fails (is_empty (trim value)) "publicJobs:application.validation.fullNameRequired"
      or_else fails (ltb (length (trim value)) 2) "publicJobs:application.validation.fullNameMin"
      or_else fails (ltb 100 (length value)) "publicJobs:application.validation.fullNameMax"

  unfoldable pub email_error : Text → Option String
  email_error value =
      fails (is_empty (trim value)) "publicJobs:application.validation.emailRequired"
      or_else fails (ltb 255 (length value)) "publicJobs:application.validation.emailMax"
      or_else fails (not (matches email_re value)) "publicJobs:application.validation.emailInvalid"

  -- `value.replace(/\D/g, "")` keeps the digits.
  unfoldable pub phone_error : Text → Option String
  phone_error value =
      fails (is_empty (trim value)) "publicJobs:application.validation.phoneRequired"
      or_else fails (not (matches mobile_re (keep is_digit value)))
          "publicJobs:application.validation.phoneFormat"

  unfoldable pub linkedin_error : Text → Option String
  linkedin_error value = elim (parse value) [
    | none ↦ some (t "publicJobs:application.validation.urlInvalid" [])
    | some parsed ↦
        fails
          (not (text_eq parsed.protocol (codes "http:"))
            && not (text_eq parsed.protocol (codes "https:")))
          "publicJobs:application.validation.urlProtocol"
        or_else fails (not (ends_with parsed.hostname linkedin_host))
            "publicJobs:application.validation.urlLinkedin"
  ]

  unfoldable pub validate_field : String → Text → Option String
  unfolding full_name_error email_error phone_error
  validate_field name value =
      only_if (str_eq name "full_name") (full_name_error value)
      or_else only_if (str_eq name "email") (email_error value)
      or_else only_if (str_eq name "phone") (phone_error value)
      or_else only_if (str_eq name "linkedin_url" && not (is_empty (trim value)))
          (linkedin_error value)
      or_else fails (is_step_3_field name && ltb text_field_max (length value))
          "publicJobs:application.validation.textMax"

-- `validateClaimPassword`
unfoldable pub validate_claim_password : TFunction → Text → Option String
unfolding check_password_complexity
validate_claim_password t val = elim (check_password_complexity val) [
  | none ↦ none
  | some key ↦ some (t key [])
]
