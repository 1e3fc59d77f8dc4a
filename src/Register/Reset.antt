-- ===== src/Register/Reset.antt =====
-- Choosing a new password, frontend/src/pages/ResetPasswordPage.tsx. `token_given` tells whether the
-- page's address has a token.
pub mod Run
use rs_recruitment.Base.{
  ℕ, Bool, true, false, not, ◌&&◌, ◌||◌, ◌==◌, ltb, Option, none, some, List, [], ◌∷◌, Text,
  is_empty, is_digit, is_upper, is_lower, text_eq, length, any, if◌then◌else◌,
}
use rs_recruitment.Register.{
  Message, check, is_fine, has_special, RequestError, axios_error, other_error, finds,
}

pub data TokenState : Type 0 where
  checking : TokenState
  valid : TokenState
  invalid : TokenState

-- `resets` are the passwords sent with the token, the last one first.
pub record ResetPage : Type 0 where
  pub password : Text
  pub confirm : Text
  pub password_error : Message
  pub confirm_error : Message
  pub submitting : Bool
  pub success : Bool
  pub token_state : TokenState
  pub error : Message
  pub resets : List Text

abbrev pub start : Bool → ResetPage
start token_given = record {
  password = [];
  confirm = [];
  password_error = none;
  confirm_error = none;
  submitting = false;
  success = false;
  token_state = if token_given then checking else invalid;
  error = none;
  resets = [];
}

unfoldable pub validate_password : Text → Message
validate_password v = check (is_empty v) "auth:resetPassword.validation.passwordRequired" (
    check (ltb (length v) 8) "auth:resetPassword.validation.passwordMin" (
      check (not (any is_upper v)) "auth:resetPassword.validation.passwordUppercase" (
        check (not (any is_lower v)) "auth:resetPassword.validation.passwordLowercase" (
          check (not (any is_digit v)) "auth:resetPassword.validation.passwordDigit"
            (check (not (has_special v)) "auth:resetPassword.validation.passwordSpecial" none)))))

unfoldable pub validate_confirm : Text → Text → Message
validate_confirm v pw =
    check (is_empty v) "auth:resetPassword.validation.confirmRequired"
      (check (not (text_eq v pw)) "auth:resetPassword.validation.confirmMismatch" none)

unfoldable pub handle_password_change : Text → ResetPage → ResetPage
handle_password_change v w = record w { password = v; password_error = none }

unfoldable pub handle_confirm_change : Text → ResetPage → ResetPage
handle_confirm_change v w = record w { confirm = v; confirm_error = none }

-- `onBlur` of the two inputs.
unfoldable pub handle_blur : Text → ResetPage → ResetPage
unfolding validate_password
handle_blur v w = record w { password_error = validate_password v }

unfoldable pub handle_confirm_blur : Text → ResetPage → ResetPage
unfolding validate_confirm
handle_confirm_blur v w = record w { confirm_error = validate_confirm v w.password }

-- `handleSubmit` up to its `await`.
unfoldable pub handle_submit : ResetPage → ResetPage
unfolding validate_password validate_confirm
handle_submit w =
    let w' = record w {
      password_error = validate_password w.password;
      confirm_error = validate_confirm w.confirm w.password;
    } in
    if is_fine (validate_password w.password) && is_fine (validate_confirm w.confirm w.password)
    then record w' { submitting = true; error = none; resets = w.password ∷ w.resets }
    else w'

unfoldable pub password_reset : ResetPage → ResetPage
password_reset w = record w { success = true; submitting = false }

unfoldable pub refused : ℕ → Bool → ResetPage → ResetPage
refused status names_password w =
    if status == 400
    then record w { token_state = invalid }
    else if status == 429
    then record w { error = some "auth:resetPassword.errors.tooManyAttempts" }
    else if status == 422 && names_password
    then record w { password_error = some "auth:resetPassword.validation.passwordComplexity" }
    else record w { error = some "auth:resetPassword.errors.failed" }

unfoldable pub reset_fails : RequestError → ResetPage → ResetPage
unfolding refused
reset_fails (axios_error (some status) detail) w =
    let w' = refused status (finds "new_password" detail) w in record w' { submitting = false }
reset_fails (axios_error none detail) w = record w {
  error = some "auth:resetPassword.errors.failed";
  submitting = false;
}
reset_fails other_error w = record w {
  error = some "auth:resetPassword.errors.unexpected";
  submitting = false;
}

pub data ResetEvent : Type 0 where
  token_checked : Bool → ResetEvent
  change : Text → ResetEvent
  change_confirm : Text → ResetEvent
  blur : Text → ResetEvent
  blur_confirm : Text → ResetEvent
  submit : ResetEvent
  answered : ResetEvent
  failed : RequestError → ResetEvent

abbrev pub is_checking : TokenState → Bool
is_checking checking = true
is_checking valid = false
is_checking invalid = false

abbrev pub is_valid : TokenState → Bool
is_valid checking = false
is_valid valid = true
is_valid invalid = false

-- The form stands there while the token is valid and no password has been set.
abbrev pub shows_form : ResetPage → Bool
shows_form w = is_valid w.token_state && not w.success

unfoldable pub handle : ResetEvent → ResetPage → ResetPage
unfolding handle_password_change handle_confirm_change handle_blur handle_confirm_blur handle_submit
    password_reset reset_fails
handle (token_checked ok) w =
    if is_checking w.token_state
    then record w { token_state = if ok then valid else invalid }
    else w
handle (change v) w = let w' = handle_password_change v w in if shows_form w then w' else w
handle (change_confirm v) w = let w' = handle_confirm_change v w in if shows_form w then w' else w
handle (blur v) w = let w' = handle_blur v w in if shows_form w then w' else w
handle (blur_confirm v) w = let w' = handle_confirm_blur v w in if shows_form w then w' else w
handle submit w = let w' = handle_submit w in if shows_form w && not w.submitting then w' else w
handle answered w = let w' = password_reset w in if w.submitting then w' else w
handle (failed err) w = let w' = reset_fails err w in if w.submitting then w' else w

unfoldable pub run : List ResetEvent → ResetPage → ResetPage
unfolding handle
run [] w = w
run (e ∷ es) w = run es (handle e w)
