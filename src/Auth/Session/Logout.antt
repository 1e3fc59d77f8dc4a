-- ===== src/Auth/Session/Logout.antt =====
-- Who is logged in: the user and the stored token of AuthContext.tsx.
use mathlib.Core.Path.{subst}
use mathlib.Core.List.{append_assoc}
use rs_recruitment.Base.{
  inl, inr, String, ℕ, ◌*◌, ◌≤◌, ltb, Bool, true, false, not, any, ◌≡◌, ◌⊎◌, refl, sym, ap, ◌∙◌,
  Option, none, some, List, [], ◌∷◌, ◌++◌, arith, Bool-cases, Option-cases, if_case,
}
use rs_recruitment.Auth.Token.{
  Decode, JwtPayload, TokenInspection, valid, expired, invalid, inspect_token,
}
use rs_recruitment.Auth.Session.{
  user_of, AuthUser, payload_to_user, Session, mount, probe_answered, probe_failed, safety_fires,
  login, logout, logout_timer_fires, Event, answered, logged_in, unanswered, stalled, logged_out,
  timed_out, token_set, cleared, step, run,
}

abbrev pub is_login : Event → Bool
is_login (logged_in now token) = true
is_login _ = false

-- The token that the interceptor and later logouts leave stored.
abbrev pub left_by : Event → Option String → Option String
left_by (token_set token) stored = some token
left_by cleared stored = none
left_by logged_out stored = none
left_by _ stored = stored

abbrev pub left_stored : List Event → Option String → Option String
left_stored [] stored = stored
left_stored (e ∷ es) stored = left_stored es (left_by e stored)

-- A time and a token that were inspected together.
abbrev pub Seen : Type 0
Seen = ℕ × String

-- The tokens that came with an event, with their times.
abbrev pub seen : List Event → List Seen
seen [] = []
seen (answered now token ∷ es) = (now, token) ∷ seen es
seen (logged_in now token ∷ es) = (now, token) ∷ seen es
seen (_ ∷ es) = seen es

abbrev pub seen_first : ℕ → Option String → List Seen
seen_first now none = []
seen_first now (some token) = (now, token) ∷ []

module _ (decode : Decode) where
  -- Nobody is logged in, and no probe can bring a token.
  abbrev IsOut : Session → Type 0
  IsOut s = (s.user ≡ none) × (s.probing ≡ false)

  step-IsOut :
      (e : Event) (s : Session)
      → is_login e ≡ false
      → IsOut s
      → IsOut (step decode e s) × ((step decode e s).stored ≡ left_by e s.stored)
  unfolding step probe_answered probe_failed safety_fires logout logout_timer_fires
  step-IsOut e s h v = ground arith

  run-IsOut :
      (es : List Event) (s : Session)
      → any is_login es ≡ false
      → IsOut s
      → IsOut (run decode es s) × ((run decode es s).stored ≡ left_stored es s.stored)
  unfolding run
  run-IsOut [] s h v = (v, refl)
  run-IsOut (e ∷ es) s h v =
      let (out, left) = step-IsOut e s (ground arith) v in
      let (still, stored) = run-IsOut es (step decode e s) (ground arith) out in
      (still, stored ∙ ap (left_stored es) left)

  -- A logout while no probe is under way sends the stored token for revocation, and from then on,
  -- until the next login, nobody is logged in, whatever timers fire, and the token that is stored
  -- is the one that the interceptor has last stored since, if neither it nor a later logout has
  -- removed it: none if no refresh is answered.
  pub run-logout :
      (s : Session) (es : List Event)
      → s.probing ≡ false
      → any is_login es ≡ false
      → let s' = run decode es (step decode logged_out s) in
        ((step decode logged_out s).revoked ≡ s.revoked ++ s.stored ∷ [])
        × (s'.user ≡ none)
        × (s'.stored ≡ left_stored es none)
  unfolding step logout
  run-logout s es quiet none_after =
      let (out, left) = run-IsOut es (logout s) none_after (refl, quiet) in (refl, out.0, left)

  -- The token decodes to the payload, and it has not expired at the time.
  abbrev pub IsFresh : ℕ → String → JwtPayload → Type 0
  IsFresh now token p =
      (decode token ≡ some p) × (exp : ℕ) × (p.exp ≡ some exp) × (now ≤ exp * 1000)

  -- The user of one of these tokens.
  abbrev pub IsUserOf : List Seen → AuthUser → Type 0
  IsUserOf [] u = ⊥
  IsUserOf ((now, token) ∷ ts) u =
      ((p : JwtPayload) × IsFresh now token p × (u ≡ payload_to_user p)) ⊎ IsUserOf ts u

  abbrev pub IsGenuine : List Seen → Option AuthUser → Type 0
  IsGenuine ts user = (user ≡ none) ⊎ ((u : AuthUser) × (user ≡ some u) × IsUserOf ts u)

  inspection_cases :
      (now : ℕ) (token : String)
      → ((p : JwtPayload) × (inspect_token decode now token ≡ valid p) × IsFresh now token p)
        ⊎ ((old : Option AuthUser) → user_of decode (inspect_token decode now token) old ≡ old)
  unfolding inspect_token
  inspection_cases now token = elim (Option-cases (decode token)) [
    | inl missing ↦ refused invalid (rw (missing, inspect_token) refl) (λ old. refl)
    | inr (p, found) ↦ elim (Option-cases p.exp) [
      | inl endless ↦ refused invalid (rw (found, endless, inspect_token) refl) (λ old. refl)
      | inr (exp, dated) ↦ elim (Bool-cases (ltb (exp * 1000) now)) [
        | inl late ↦ refused expired (rw (found, dated, late, inspect_token) refl) (λ old. refl)
        | inr fresh ↦ inl (p, ground arith, (found, exp, dated, ground arith))
      ]
    ]
  ]
    where
      refused :
          (i : TokenInspection)
          → inspect_token decode now token ≡ i
          → ((old : Option AuthUser) → user_of decode i old ≡ old)
          → ((p : JwtPayload) × (inspect_token decode now token ≡ valid p) × IsFresh now token p)
            ⊎ ((old : Option AuthUser) → user_of decode (inspect_token decode now token) old ≡ old)
      refused i e same = inr (λ old. ap (λ i. user_of decode i old) e ∙ same old)

  IsUserOf-append :
      (ts ts' : List Seen) (u : AuthUser) → IsUserOf ts u ⊎ IsUserOf ts' u → IsUserOf (ts ++ ts') u
  IsUserOf-append [] ts' u (inl h) = absurd h
  IsUserOf-append [] ts' u (inr h) = h
  IsUserOf-append (t ∷ ts) ts' u (inl (inl h)) = inl h
  IsUserOf-append (t ∷ ts) ts' u (inl (inr h)) = inr (IsUserOf-append ts ts' u (inl h))
  IsUserOf-append (t ∷ ts) ts' u (inr h) = inr (IsUserOf-append ts ts' u (inr h))

  IsGenuine-later :
      (ts ts' : List Seen) (user : Option AuthUser) → IsGenuine ts user → IsGenuine (ts ++ ts') user
  IsGenuine-later ts ts' user (inl out) = inl out
  IsGenuine-later ts ts' user (inr (u, e, h)) = inr (u, e, IsUserOf-append ts ts' u (inl h))

  user_of-IsGenuine :
      (now : ℕ) (token : String) (ts : List Seen) (old : Option AuthUser)
      → IsGenuine ts old
      → IsGenuine (ts ++ (now, token) ∷ []) (user_of decode (inspect_token decode now token) old)
  user_of-IsGenuine now token ts old g = elim (inspection_cases now token) [
    | inl (p, e, fresh) ↦ rw e (
        inr (
          payload_to_user p,
          refl,
          IsUserOf-append ts ((now, token) ∷ []) (payload_to_user p) (inr (inl (p, fresh, refl))),
        ))
    | inr same ↦ rw (same old) (IsGenuine-later ts ((now, token) ∷ []) old g)
  ]

  step-IsGenuine :
      (e : Event) (ts : List Seen) (s : Session)
      → IsGenuine ts s.user
      → IsGenuine (ts ++ seen (e ∷ [])) (step decode e s).user
  unfolding step probe_answered probe_failed safety_fires login logout logout_timer_fires
  step-IsGenuine (answered now token) ts s g = elim (Bool-cases s.probing) [
    | inl asked ↦ rw asked (user_of-IsGenuine now token ts s.user g)
    | inr quiet ↦ rw quiet (IsGenuine-later ts ((now, token) ∷ []) s.user g)
  ]
  step-IsGenuine (logged_in now token) ts s g =
      let taken : (login decode now token s).0.user
          ≡ user_of decode (inspect_token decode now token) s.user =
        ground arith in
      rw taken (user_of-IsGenuine now token ts s.user g)
  step-IsGenuine unanswered ts s g =
      IsGenuine-later ts [] _
        (if_case (λ (s' : Session). IsGenuine ts s'.user) (not s.probing) s _ (λ e. g) (λ e. g))
  step-IsGenuine stalled ts s g =
      IsGenuine-later ts [] _ (
        if_case (λ (s' : Session). IsGenuine ts s'.user) (not s.safety_armed) s _ (λ e. g) (λ e. g))
  step-IsGenuine logged_out ts s g = inl refl
  step-IsGenuine timed_out ts s g =
      IsGenuine-later ts [] _ (
        if_case (λ (s' : Session). IsGenuine ts s'.user) (not s.logout_armed) s _ (λ e. g) (λ e. g))
  step-IsGenuine (token_set token) ts s g = IsGenuine-later ts [] _ g
  step-IsGenuine cleared ts s g = IsGenuine-later ts [] _ g

  mount-IsGenuine :
      (now : ℕ) (stored : Option String)
      → IsGenuine (seen_first now stored) (mount decode now stored).user
  unfolding mount
  mount-IsGenuine now none = inl refl
  mount-IsGenuine now (some token) =
      let taken : ((mount decode now (some token)).user ≡ none)
          ⊎ ((mount decode now (some token)).user
              ≡ user_of decode (inspect_token decode now token) none) =
        ground arith in
      elim taken [
        | inl out ↦ inl out
        | inr e ↦ rw e (user_of-IsGenuine now token [] none (inl refl))
      ]

  seen-cons : (e : Event) (es : List Event) → seen (e ∷ es) ≡ seen (e ∷ []) ++ seen es
  seen-cons (answered now token) es = refl
  seen-cons (logged_in now token) es = refl
  seen-cons unanswered es = refl
  seen-cons stalled es = refl
  seen-cons logged_out es = refl
  seen-cons timed_out es = refl
  seen-cons (token_set token) es = refl
  seen-cons cleared es = refl

  run-IsGenuine_from :
      (es : List Event) (ts : List Seen) (s : Session)
      → IsGenuine ts s.user
      → IsGenuine (ts ++ seen es) (run decode es s).user
  unfolding run
  run-IsGenuine_from [] ts s g = IsGenuine-later ts [] s.user g
  run-IsGenuine_from (e ∷ es) ts s g =
      let later =
        run-IsGenuine_from es (ts ++ seen (e ∷ [])) (step decode e s) (step-IsGenuine e ts s g) in
      let whole : (ts ++ seen (e ∷ [])) ++ seen es ≡ ts ++ seen (e ∷ es) =
        append_assoc ts (seen (e ∷ [])) (seen es) ∙ ap (λ t. ts ++ t) (sym (seen-cons e es)) in
      subst (λ t. IsGenuine t (run decode es (step decode e s)).user) whole later

  -- Whatever has happened since the first render, there is no user, or the user is the one of a
  -- token that was stored at the start, or that came with an answer to the probe or with a login
  -- since; it decodes, and when it came, or at the start, it had not expired.
  pub run-IsGenuine :
      (now : ℕ) (stored : Option String) (es : List Event)
      → IsGenuine (seen_first now stored ++ seen es) (run decode es (mount decode now stored)).user
  run-IsGenuine now stored es =
      run-IsGenuine_from es (seen_first now stored) (mount decode now stored)
        (mount-IsGenuine now stored)
