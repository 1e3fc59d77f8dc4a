-- ===== src/Auth/Session.antt =====
-- The session: frontend/src/contexts/AuthContext.tsx with `login`, `refreshTokens` and `logout` of
-- frontend/src/services/auth.ts. `decode` is `jwtDecode`; an event carries the time at which it is
-- handled, in milliseconds. A run is one load of the page; the response interceptor of
-- frontend/src/services/api.ts writes the stored token too.
pub mod Start
pub mod Logout
use text.Mathlib.Text.{◌==◌ as str_eq}
use rs_recruitment.Base.{
  String, ℕ, Bool, true, false, not, ◌&&◌, Option, none, some, List, [], ◌∷◌, ◌++◌, if◌then◌else◌,
}
use rs_recruitment.Auth.Token.{
  Decode, UserRole, JwtPayload, TokenInspection, valid, expired, invalid, inspect_token,
}

pub record AuthUser : Type 0 where
  pub id : String
  pub email : String
  pub role : UserRole

abbrev pub payload_to_user : JwtPayload → AuthUser
payload_to_user p = record { id = p.sub; email = p.email; role = p.role }

-- The provider's state and the stored access token; whether the probe of the refresh cookie and
-- its safety timer, and the timer of `logout`, are pending; and, for each call of `logout` of the
-- service, the token that it sends for revocation.
pub record Session : Type 0 where
  pub user : Option AuthUser
  pub initializing : Bool
  pub logging_out : Bool
  pub stored : Option String
  pub probing : Bool
  pub safety_armed : Bool
  pub logout_armed : Bool
  pub revoked : List (Option String)

-- The result of `computeInitialAuth`, and the stored token after it.
pub record InitialAuth : Type 0 where
  pub user : Option AuthUser
  pub initializing : Bool
  pub stored : Option String

unfoldable pub probe_failed : Session → Session
probe_failed s =
    if not s.probing
    then s
    else record s { probing = false; safety_armed = false; initializing = false }

unfoldable pub safety_fires : Session → Session
safety_fires s =
    if not s.safety_armed then s else record s { safety_armed = false; initializing = false }

unfoldable pub logout : Session → Session
logout s = record s {
  logging_out = true;
  revoked = s.revoked ++ s.stored ∷ [];
  stored = none;
  user = none;
  logout_armed = true;
}

unfoldable pub logout_timer_fires : Session → Session
logout_timer_fires s =
    if not s.logout_armed then s else record s { logout_armed = false; logging_out = false }

module _ (decode : Decode) where
  unfoldable pub compute_initial_auth : ℕ → Option String → InitialAuth
  compute_initial_auth now none = record { user = none; initializing = false; stored = none }
  compute_initial_auth now (some token) =
      if str_eq token ""
      then record { user = none; initializing = false; stored = some token }
      else elim (inspect_token decode now token) [
        | valid payload ↦ record {
          user = some (payload_to_user payload);
          initializing = false;
          stored = some token;
        }
        | expired ↦ record { user = none; initializing = true; stored = some token }
        | invalid ↦ record { user = none; initializing = false; stored = none }
      ]

  -- The first render, and its effect: an expired token is removed and the cookie is probed.
  unfoldable pub mount : ℕ → Option String → Session
  unfolding compute_initial_auth
  mount now stored =
      let a = compute_initial_auth now stored in
      record {
        user = a.user;
        initializing = a.initializing;
        logging_out = false;
        stored = if a.initializing then none else a.stored;
        probing = a.initializing;
        safety_armed = a.initializing;
        logout_armed = false;
        revoked = [];
      }

  -- A new token, which `setToken` has stored, is taken for the session or refused.
  abbrev pub user_of : TokenInspection → Option AuthUser → Option AuthUser
  user_of (valid payload) old = some (payload_to_user payload)
  user_of expired old = old
  user_of invalid old = old

  abbrev pub is_valid : TokenInspection → Bool
  is_valid (valid payload) = true
  is_valid expired = false
  is_valid invalid = false

  -- The probe is answered with a token: `refreshTokens`, `.then` and `.finally`.
  unfoldable pub probe_answered : ℕ → String → Session → Session
  probe_answered now token s =
      let i = inspect_token decode now token in
      if not s.probing then s else record s {
        user = user_of i s.user;
        stored = if is_valid i then some token else none;
        probing = false;
        safety_armed = false;
        initializing = false;
      }

  -- The server accepts the credentials; a token that does not pass is revoked, and `login` throws.
  unfoldable pub login : ℕ → String → Session → Session × Bool
  login now token s = elim (inspect_token decode now token) [
    | valid payload ↦
        (record s { user = some (payload_to_user payload); stored = some token }, true)
    | expired ↦ (record s { stored = none; revoked = s.revoked ++ some token ∷ [] }, false)
    | invalid ↦ (record s { stored = none; revoked = s.revoked ++ some token ∷ [] }, false)
  ]

pub data Event : Type 0 where
  answered logged_in : ℕ → String → Event
  unanswered stalled logged_out timed_out : Event
  -- The response interceptor of api.ts: a refresh's `setToken`, and the `removeToken` of its
  -- `clearSession`.
  token_set : String → Event
  cleared : Event

module _ (decode : Decode) where
  unfoldable pub step : Event → Session → Session
  step (answered now token) s = probe_answered decode now token s
  step unanswered s = probe_failed s
  step stalled s = safety_fires s
  step (logged_in now token) s = (login decode now token s).0
  step logged_out s = logout s
  step timed_out s = logout_timer_fires s
  step (token_set token) s = record s { stored = some token }
  step cleared s = record s { stored = none }

  unfoldable pub run : List Event → Session → Session
  run [] s = s
  run (e ∷ es) s = run es (step e s)
