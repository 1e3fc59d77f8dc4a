-- ===== src/Register/Login.antt =====
-- Logging in, frontend/src/pages/LoginPage.tsx, and the resending of a candidate's activation. A call
-- in progress keeps the address that its handler holds; `resent` are the addresses that the page
-- has had an activation sent to, `logins` what it has logged in with, the last one first.
pub mod Run
use text.Mathlib.Text.{◌==◌ as str_eq}
use rs_recruitment.Base.{
  ℕ, zero, suc, String, Bool, true, false, not, ◌&&◌, ◌||◌, ◌==◌, ltb, Option, none, some, List, [],
  ◌∷◌, Text, is_empty, length, if◌then◌else◌,
}
unfoldable use rs_recruitment.Base.{trim}
use rs_recruitment.Regex.{matches}
use rs_recruitment.Validation.{email_re}
use rs_recruitment.Register.{Message, check, is_fine}

pub data ResendState : Type 0 where
  idle : ResendState
  sending : ResendState
  sent : ResendState
  error : ResendState

-- What `login` is called with.
pub record Credentials : Type 0 where
  pub email : Text
  pub password : Text
  pub remember_me : Bool

-- `logging_in` is the e-mail of the login under way, `resending` the number of resendings under
-- way.
pub record LoginPage : Type 0 where
  pub email : Text
  pub password : Text
  pub remember_me : Bool
  pub error : Message
  pub submitting : Bool
  pub email_error : Message
  pub password_error : Message
  pub pending_activation_email : Option Text
  pub resend_state : ResendState
  pub logging_in : Option Text
  pub logins : List Credentials
  pub resending : ℕ
  pub resent : List Text

abbrev pub start : LoginPage
start = record {
  email = [];
  password = [];
  remember_me = false;
  error = none;
  submitting = false;
  email_error = none;
  password_error = none;
  pending_activation_email = none;
  resend_state = idle;
  logging_in = none;
  logins = [];
  resending = 0;
  resent = [];
}

-- `validateField("email", …)` and `validateField("password", …)`.
unfoldable pub email_message : Text → Message
email_message v =
    check (is_empty (trim v)) "auth:login.validation.emailRequired"
      (check (not (matches email_re v)) "auth:login.validation.emailInvalid" none)

unfoldable pub password_message : Text → Message
password_message v =
    check (is_empty (trim v)) "auth:login.validation.passwordRequired"
      (check (ltb (length v) 8) "auth:login.validation.passwordMin" none)

abbrev pub is_sending : ResendState → Bool
is_sending sending = true
is_sending idle = false
is_sending sent = false
is_sending error = false

-- `handleResendActivation` up to its `await`; an empty address is falsy.
abbrev pub resend_to : Option Text → LoginPage → LoginPage
resend_to none w = w
resend_to (some address) w = if is_empty address || is_sending w.resend_state then w else record w {
  resend_state = sending;
  resending = suc w.resending;
  resent = address ∷ w.resent;
}

unfoldable pub handle_resend_activation : LoginPage → LoginPage
handle_resend_activation w = resend_to w.pending_activation_email w

-- … and after it, if a call is under way.
unfoldable pub resend_answers : Bool → ℕ → LoginPage → LoginPage
resend_answers ok zero w = w
resend_answers ok (suc n) w = record w { resend_state = if ok then sent else error; resending = n }

unfoldable pub handle_email_change : Text → LoginPage → LoginPage
handle_email_change v w = record w { email = v; email_error = none }

unfoldable pub handle_password_change : Text → LoginPage → LoginPage
handle_password_change v w = record w { password = v; password_error = none }

-- What `handleSubmit` clears before it validates.
abbrev pub cleared : LoginPage → LoginPage
cleared w = record w { error = none; pending_activation_email = none; resend_state = idle }

-- `handleSubmit` up to its `await`.
unfoldable pub handle_submit : LoginPage → LoginPage
unfolding email_message password_message
handle_submit w =
    let w' = record (cleared w) {
      email_error = email_message w.email;
      password_error = password_message w.password;
    } in
    if is_fine (email_message w.email) && is_fine (password_message w.password)
    then record w' {
      submitting = true;
      logging_in = some w.email;
      logins =
          record { email = w.email; password = w.password; remember_me = w.remember_me } ∷ w.logins;
    }
    else w'

-- What `login` fails with: an axios error with the response's status and its `detail`, or another.
pub data LoginError : Type 0 where
  axios_error : Option ℕ → Option String → LoginError
  other_error : LoginError

abbrev pub is_detail : String → Option String → Bool
is_detail name none = false
is_detail name (some detail) = str_eq name detail

abbrev pub unauthorized_message : Option String → String
unauthorized_message detail =
    if is_detail "account_pending_activation" detail
    then "auth:login.errors.pendingActivation"
    else if is_detail "account_pending_approval" detail
    then "auth:login.errors.pendingApproval"
    else if is_detail "account_inactive" detail
    then "auth:login.errors.accountInactive"
    else "auth:login.errors.loginFailed"

abbrev pub error_message : LoginError → String
error_message (axios_error (some status) detail) =
    if status == 429
    then "auth:login.errors.tooManyAttempts"
    else if status == 401
    then unauthorized_message detail
    else "auth:login.errors.loginFailed"
error_message (axios_error none detail) = "auth:login.errors.loginFailed"
error_message other_error = "auth:login.errors.unexpectedError"

-- The server has answered 401 and `account_pending_activation`.
abbrev pub is_pending : LoginError → Bool
is_pending (axios_error (some status) detail) =
    status == 401 && is_detail "account_pending_activation" detail
is_pending (axios_error none detail) = false
is_pending other_error = false

-- The `catch` and `finally` of `handleSubmit`, where `email` is the one it was called with.
unfoldable pub login_fails : LoginError → LoginPage → LoginPage
login_fails err w = record w {
  error = some (error_message err);
  pending_activation_email = if is_pending err then w.logging_in else w.pending_activation_email;
  submitting = false;
  logging_in = none;
}

pub data LoginEvent : Type 0 where
  change_email : Text → LoginEvent
  change_password : Text → LoginEvent
  blur_email : Text → LoginEvent
  blur_password : Text → LoginEvent
  remember : Bool → LoginEvent
  submit : LoginEvent
  failed : LoginError → LoginEvent
  resend : LoginEvent
  resend_answered : Bool → LoginEvent

-- The submit button is disabled during a login; a login that succeeds leaves the page.
unfoldable pub handle : LoginEvent → LoginPage → LoginPage
unfolding email_message password_message handle_email_change handle_password_change handle_submit
    login_fails handle_resend_activation resend_answers
handle (change_email v) w = handle_email_change v w
handle (change_password v) w = handle_password_change v w
handle (blur_email v) w = record w { email_error = email_message v }
handle (blur_password v) w = record w { password_error = password_message v }
handle (remember b) w = record w { remember_me = b }
handle submit w = let w' = handle_submit w in if w.submitting then w else w'
handle (failed err) w = let w' = login_fails err w in if w.submitting then w' else w
handle resend w = handle_resend_activation w
handle (resend_answered ok) w = resend_answers ok w.resending w

unfoldable pub run : List LoginEvent → LoginPage → LoginPage
unfolding handle
run [] w = w
run (e ∷ es) w = run es (handle e w)
