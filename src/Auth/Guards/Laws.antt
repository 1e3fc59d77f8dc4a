-- ===== src/Auth/Guards/Laws.antt =====
-- Who sees which page of App.tsx.
use rs_recruitment.Base.{
  inl, inr, Text, Bool, true, false, not, ◌≡◌, ◌≢◌, ◌↔◌, ◌⊎◌, refl, Option-cases, ◌&&◌, ◌||◌,
  Option, none, some, arith, All,
}
use rs_recruitment.Auth.Token.{UserRole, admin, company, candidate}
use rs_recruitment.Auth.Session.{AuthUser}
use rs_recruitment.Auth.Guards.{
  is_role, has_role, is_authenticated, AuthContext, children, navigate, Route, login, protected,
  admin_only, candidate_only, company_only, view, login_path, dashboard_path, guarded_routes,
}

-- The role that a guarded page asks for.
abbrev pub asks : Route → Option UserRole
asks (admin_only path) = some admin
asks (candidate_only path) = some candidate
asks (company_only path) = some company
asks (protected path) = none
asks (login redirect state) = none

is_role_sound : (a b : UserRole) → is_role a b ≡ true → b ≡ a
is_role_sound admin admin h = refl
is_role_sound company company h = refl
is_role_sound candidate candidate h = refl
is_role_sound admin company h = cc
is_role_sound admin candidate h = cc
is_role_sound company admin h = cc
is_role_sound company candidate h = cc
is_role_sound candidate admin h = cc
is_role_sound candidate company h = cc

-- The test of the three guards, whatever they do otherwise.
abbrev passes : UserRole → AuthContext → Bool
passes role c =
    not (c.logging_out || c.initializing) && (is_authenticated c && has_role role c.user)

abbrev MaySee : UserRole → AuthContext → Type 0
MaySee role c =
    (c.logging_out ≡ false)
    × (c.initializing ≡ false)
    × (u : AuthUser) × (c.user ≡ some u)
    × (u.role ≡ role)

passes_sound : (role : UserRole) (c : AuthContext) → passes role c ≡ true → MaySee role c
passes_sound role c h = elim (Option-cases c.user) [
  | inl nobody ↦ ground arith
  | inr (u, there) ↦
      (ground arith, ground arith, u, there, is_role_sound role u.role (ground arith))
]

passes_complete : (role : UserRole) (c : AuthContext) → MaySee role c → passes role c ≡ true
passes_complete role c (out, init, u, there, same) = ground arith

-- A page behind a role guard is shown exactly to a user of that role, while the session neither
-- starts nor ends.
pub view-children_iff :
    (r : Route) (role : UserRole) (c : AuthContext)
    → asks r ≡ some role
    → (view r c ≡ children) ↔ (
        (c.logging_out ≡ false)
        × (c.initializing ≡ false)
        × (u : AuthUser) × (c.user ≡ some u)
        × (u.role ≡ role))
unfolding view
view-children_iff (admin_only path) role c h =
    (λ v. passes_sound role c (ground arith), λ m. let p = passes_complete role c m in ground arith)
view-children_iff (candidate_only path) role c h =
    (λ v. passes_sound role c (ground arith), λ m. let p = passes_complete role c m in ground arith)
view-children_iff (company_only path) role c h =
    (λ v. passes_sound role c (ground arith), λ m. let p = passes_complete role c m in ground arith)
view-children_iff (protected path) role c h = cc
view-children_iff (login redirect state) role c h = cc

-- The guards agree on where a redirect leads: the login page shows itself to a visitor who was sent
-- there, and the dashboard to a user who was sent there, so no guard's redirect is followed by
-- another one.
pub view-navigate :
    (r : Route) (c : AuthContext) (path : Text) (back : Option Text)
    → ((from state : Option Text) → r ≢ login from state)
    → view r c ≡ navigate path back
    → ((path ≡ login_path) × (view (login none back) c ≡ children))
      ⊎ ((path ≡ dashboard_path) × (view (protected path) c ≡ children))
unfolding view
view-navigate (login redirect state) c path back guarded h = absurd (guarded redirect state refl)
view-navigate (admin_only here) c path back guarded h = ground arith
view-navigate (candidate_only here) c path back guarded h = ground arith
view-navigate (company_only here) c path back guarded h = ground arith
view-navigate (protected here) c path back guarded h = ground arith

-- A guard that hides its page from a visitor, whatever the path.
abbrev IsHiding : AuthContext → (Text → Route) → Type 0
IsHiding c guard = (path : Text) → view (guard path) c ≢ children

hides :
    (c : AuthContext)
    → c.user ≡ none
    → IsHiding c protected
      × IsHiding c admin_only
      × IsHiding c company_only
      × IsHiding c candidate_only
unfolding view
hides c nobody = (
  λ path e. absurd (ground arith),
  λ path e. absurd (ground arith),
  λ path e. absurd (ground arith),
  λ path e. absurd (ground arith),
)

-- Without a user, none of the guarded routes shows its page.
guarded_routes-hide : (c : AuthContext) → c.user ≡ none → All (λ r. IsHiding c r.1) guarded_routes
guarded_routes-hide c nobody =
    let (p, a, co, ca) = hides c nobody in (p, (a, (a, (a, (a, (a, (co, (ca, (ca, (ca, tt))))))))))
