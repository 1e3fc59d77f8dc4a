-- ===== src/Auth/Guards.antt =====
-- The route guards: frontend/src/components/guards, and the redirect of
-- frontend/src/pages/LoginPage.tsx.
pub mod Laws
use rs_recruitment.Base.{
  String, Text, codes, starts_with, Bool, true, false, not, ◌&&◌, ◌||◌, Option, none, some,
  if◌then◌else◌, List, [], ◌∷◌,
}
use rs_recruitment.Auth.Token.{UserRole, admin, company, candidate}
use rs_recruitment.Auth.Session.{AuthUser}

-- What `useAuth` gives; `isAuthenticated` is `user !== null`.
pub record AuthContext : Type 0 where
  pub user : Option AuthUser
  pub initializing : Bool
  pub logging_out : Bool

-- Nothing, the page, or a redirect, with the path to come back to.
pub data View : Type 0 where
  nothing children : View
  navigate : Text → Option Text → View

abbrev pub is_authenticated : AuthContext → Bool
is_authenticated c = elim c.user [ none ↦ false | some u ↦ true ]

abbrev pub is_role : UserRole → UserRole → Bool
is_role admin admin = true
is_role company company = true
is_role candidate candidate = true
is_role _ _ = false

-- `user?.role === role`
abbrev pub has_role : UserRole → Option AuthUser → Bool
has_role role none = false
has_role role (some u) = is_role role u.role

abbrev pub login_path : Text
login_path = codes "/login"

abbrev pub dashboard_path : Text
dashboard_path = codes "/dashboard"

unfoldable pub protected_route : Text → AuthContext → View
protected_route pathname c =
    if c.logging_out || c.initializing
    then nothing
    else if not (is_authenticated c)
    then navigate login_path (some pathname)
    else children

unfoldable pub admin_route : Text → AuthContext → View
admin_route pathname c =
    if c.logging_out || c.initializing
    then nothing
    else if not (is_authenticated c)
    then navigate login_path (some pathname)
    else if not (has_role admin c.user)
    then navigate dashboard_path none
    else children

unfoldable pub candidate_route : Text → AuthContext → View
candidate_route pathname c =
    if c.logging_out || c.initializing
    then nothing
    else if not (is_authenticated c)
    then navigate login_path none
    else if not (has_role candidate c.user)
    then navigate dashboard_path none
    else children

unfoldable pub company_route : Text → AuthContext → View
company_route pathname c =
    if c.logging_out || c.initializing
    then nothing
    else if not (is_authenticated c)
    then navigate login_path none
    else if not (has_role company c.user)
    then navigate dashboard_path none
    else children

-- `from`: the query's redirect if it starts with "/", else the path in the state.
unfoldable pub login_from : Option Text → Option Text → Text
login_from none none = dashboard_path
login_from none (some from) = from
login_from (some redirect) state =
    if starts_with redirect (codes "/")
    then redirect
    else elim state [ none ↦ dashboard_path | some from ↦ from ]

-- The login page without and with a session.
unfoldable pub login_page : Option Text → Option Text → AuthContext → View
login_page redirect state c =
    if c.initializing
    then nothing
    else if is_authenticated c
    then navigate (login_from redirect state) none
    else children

-- The routes of App.tsx by the guard around the page.
pub data Route : Type 0 where
  login : Option Text → Option Text → Route
  protected admin_only candidate_only company_only : Text → Route

unfoldable pub view : Route → AuthContext → View
unfolding protected_route admin_route candidate_route company_route login_page
view (login redirect state) c = login_page redirect state c
view (protected path) c = protected_route path c
view (admin_only path) c = admin_route path c
view (candidate_only path) c = candidate_route path c
view (company_only path) c = company_route path c

-- The routes of App.tsx behind a guard: the pattern of the path, and the guard at a path.
abbrev pub guarded_routes : List (String × (Text → Route))
guarded_routes =
    ("/dashboard", protected)
    ∷ ("/admin/companies", admin_only)
    ∷ ("/admin/jobs", admin_only)
    ∷ ("/admin/applications", admin_only)
    ∷ ("/admin/applications/triage", admin_only)
    ∷ ("/admin/candidates", admin_only)
    ∷ ("/company/jobs", company_only)
    ∷ ("/candidate/profile", candidate_only)
    ∷ ("/candidate/applications", candidate_only)
    ∷ ("/candidate/applications/:id", candidate_only)
    ∷ []
