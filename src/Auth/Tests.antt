-- ===== src/Auth/Tests.antt =====
-- Runs of the interceptor, the session and the guards.
use text.Mathlib.Text.{◌==◌ as str_eq}
use rs_recruitment.Base.{
  ℕ, ◌≡◌, ◌≢◌, ◌⊎◌, ◌↔◌, refl, Bool, true, false, codes, Option, some, none, List, [], ◌∷◌, ◌++◌,
  All, length, if◌then◌else◌,
}
use rs_recruitment.Feed.Flight.{flag}
use rs_recruitment.Auth.Token.{inspect_token, Decode, JwtPayload, admin, company}
use rs_recruitment.Auth.Api
use rs_recruitment.Auth.Api.{
  Request, ApiError, Client, failed, refreshed, refresh_failed, init, on_error, on_refresh_failed,
}
use rs_recruitment.Auth.Api.Flight.{placed, errors, run-counts}
use rs_recruitment.Auth.Api.Retry.{run-once}
use rs_recruitment.Auth.Session
use rs_recruitment.Auth.Session.{
  AuthUser, Session, InitialAuth, compute_initial_auth, mount, answered, logged_in, unanswered,
  stalled, logged_out, timed_out, token_set, cleared,
}
use rs_recruitment.Auth.Session.Start.{run-settled}
use rs_recruitment.Auth.Session.Logout.{IsGenuine, left_stored, run-logout, run-IsGenuine}
use rs_recruitment.Auth.Guards.{
  AuthContext, login, protected, admin_only, children, login_path, dashboard_path, view,
}
use rs_recruitment.Auth.Guards.Laws.{view-children_iff, view-navigate}

abbrev jobs : ℕ → Request
jobs id = record { id = id; url = some (codes "/api/jobs"); retry = false; authorization = none }

abbrev unauthorized : ℕ → ApiError
unauthorized id = record { is_axios = true; status = some 401; request = jobs id }

abbrev traffic : List Api.Event
traffic =
    failed (unauthorized 1)
    ∷ failed (unauthorized 2)
    ∷ refreshed 0 "new"
    ∷ failed (unauthorized 3)
    ∷ []

run-counts_example :
    let s = Api.run traffic (init (some "old") false) in
    (length s.awaiting ≡ flag s.is_refreshing) × ((id : ℕ) → placed id s ≡ errors id traffic)
run-counts_example = run-counts traffic (some "old") false

run-once_example :
    let s = Api.run traffic (init (some "old") false) in
    All
      (λ r.
        (r.authorization ≢ none)
        × ((is_axios : Bool) (status : Option ℕ)
            → on_error (record { is_axios = is_axios; status = status; request = r }) s
              ≡ record s { rejected = s.rejected ++ r ∷ [] }))
      s.sent
run-once_example = run-once traffic (some "old") false

abbrev waiting : Client
waiting = record (init (some "old") true) {
  is_refreshing = true;
  refresh_queue = jobs 2 ∷ [];
  awaiting = jobs 1 ∷ [];
}

abbrev payload : JwtPayload
payload = record { sub = "7"; email = "dana@acme.co.il"; role = company; exp = some 2000 }

abbrev decode_good : Decode
decode_good token =
    if str_eq token "good"
    then some payload
    else if str_eq token "old"
    then some (record payload { exp = some 1 })
    else none

run-settled_example :
    (Session.run decode_good
      (stalled ∷ answered 6000 "good" ∷ [])
      (mount decode_good 5000 (some "old"))).initializing
    ≡ false
run-settled_example =
    run-settled decode_good 5000 (some "old") (stalled ∷ answered 6000 "good" ∷ []) refl

-- A refresh that was under way at the logout is answered, and its token is stored after it.
run-logout_example :
    let s = mount decode_good 5000 (some "good") in
    let s' =
      Session.run decode_good
        (timed_out ∷ token_set "good" ∷ unanswered ∷ [])
        (Session.step decode_good logged_out s) in
    ((Session.step decode_good logged_out s).revoked ≡ s.revoked ++ s.stored ∷ [])
    × (s'.user ≡ none)
    × (s'.stored ≡ left_stored (timed_out ∷ token_set "good" ∷ unanswered ∷ []) none)
unfolding mount inspect_token
run-logout_example =
    run-logout decode_good (mount decode_good 5000 (some "good"))
      (timed_out ∷ token_set "good" ∷ unanswered ∷ []) refl refl

run-IsGenuine_example :
    IsGenuine decode_good
      ((5000, "old") ∷ (6000, "good") ∷ [])
      (Session.run decode_good
        (cleared ∷ logged_in 6000 "good" ∷ [])
        (mount decode_good 5000 (some "old"))).user
run-IsGenuine_example =
    run-IsGenuine decode_good 5000 (some "old") (cleared ∷ logged_in 6000 "good" ∷ [])

abbrev visitor : AuthContext
visitor = record { user = none; initializing = false; logging_out = false }

abbrev employer : AuthContext
employer = record {
  user = some (record { id = "7"; email = "dana@acme.co.il"; role = company });
  initializing = false;
  logging_out = false;
}

view-children_iff_example : (view (admin_only (codes "/admin")) employer ≡ children) ↔ (
    (false ≡ false)
    × (false ≡ false)
    × (u : AuthUser) × (employer.user ≡ some u)
    × (u.role ≡ admin))
view-children_iff_example = view-children_iff (admin_only (codes "/admin")) admin employer refl

view-navigate_example :
    ((login_path ≡ login_path) × (view (login none (some (codes "/jobs"))) visitor ≡ children))
    ⊎ ((login_path ≡ dashboard_path) × (view (protected login_path) visitor ≡ children))
unfolding view
view-navigate_example =
    view-navigate (protected (codes "/jobs")) visitor login_path (some (codes "/jobs"))
      (λ from state e. cc) refl
