-- ===== src/ApplyForm/ServerError.antt =====
-- What the wizard tells the candidate about an error: `describeServerError` of
-- frontend/src/pages/public/components/applicationUtils.ts.
use text.Mathlib.Text.{◌==◌ as str_eq}
use rs_recruitment.Base.{String, ℕ, ◌==◌, Bool, false, Option, none, some, [], if◌then◌else◌}
use rs_recruitment.Validation.{TFunction}

-- `response.data.detail`: absent, a text, or an object with its error code and application id.
pub data Detail : Type 0 where
  missing : Detail
  plain : String → Detail
  coded : Option String → Option ℕ → Detail

-- Not of axios, or of axios with the response's status and detail.
pub data ServerError : Type 0 where
  other : ServerError
  axios : Option ℕ → Detail → ServerError

abbrev pub is_text : String → Detail → Bool
is_text s missing = false
is_text s (plain d) = str_eq d s
is_text s (coded c i) = false

abbrev pub has_code : String → Detail → Bool
has_code s missing = false
has_code s (plain d) = false
has_code s (coded none i) = false
has_code s (coded (some c) i) = str_eq c s

module _ (t : TFunction) where
  unfoldable pub describe_conflict : Detail → String
  describe_conflict d =
      if has_code "already_applied_locked" d
      then t "publicJobs:application.errors.alreadyApplied" []
      else if has_code "email_already_registered" d
      then t "publicJobs:application.errors.emailAlreadyRegistered" []
      else t "publicJobs:application.errors.alreadyApplied" []

  unfoldable pub describe_bad_request : Detail → String
  describe_bad_request d =
      if is_text "privacy_consent_required" d
      then t "publicJobs:application.validation.privacyRequired" []
      else if is_text "terms_consent_required" d
      then t "publicJobs:application.validation.termsRequired" []
      else if is_text "passwords_do_not_match" d
      then t "publicJobs:application.validation.passwordMismatch" []
      else t "publicJobs:application.errors.generic" []

  unfoldable pub describe_server_error : ServerError → String
  unfolding describe_conflict describe_bad_request
  describe_server_error other = t "publicJobs:application.errors.generic" []
  describe_server_error (axios none d) = t "publicJobs:application.errors.generic" []
  describe_server_error (axios (some status) d) =
      if status == 409
      then describe_conflict d
      else if status == 404
      then t "publicJobs:application.errors.jobUnavailable" []
      else if status == 400
      then describe_bad_request d
      else t "publicJobs:application.errors.generic" []
