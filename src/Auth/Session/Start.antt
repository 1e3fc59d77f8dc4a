-- ===== src/Auth/Session/Start.antt =====
-- Starting up: the stored token, and the probe of the refresh cookie.
use rs_recruitment.Base.{
  inl, inr, String, ℕ, Bool, true, false, ◌≡◌, ◌⊎◌, refl, Option, none, some, List, [], ◌∷◌, arith,
  Bool-cases, any,
}
use rs_recruitment.Auth.Token.{Decode}
use rs_recruitment.Auth.Session.{
  Session, compute_initial_auth, mount, probe_answered, probe_failed, safety_fires, login, logout,
  logout_timer_fires, Event, answered, unanswered, stalled, step, run,
}

module _ (decode : Decode) where
  -- `computeInitialAuth` may be called twice, as React's strict mode does: the second call finds
  -- what the first one left and gives the same user, the same flag and the same stored token.
  pub compute_initial_auth_twice :
      (now : ℕ) (stored : Option String)
      → compute_initial_auth decode now (compute_initial_auth decode now stored).stored
        ≡ compute_initial_auth decode now stored
  unfolding compute_initial_auth
  compute_initial_auth_twice now none = refl
  compute_initial_auth_twice now (some token) = ground arith

  -- While the provider initializes, the probe is under way and its safety timer runs.
  abbrev IsWatched : Session → Type 0
  IsWatched s = s.initializing ≡ true → (s.probing ≡ true) × (s.safety_armed ≡ true)

  mount-IsWatched : (now : ℕ) (stored : Option String) → IsWatched (mount decode now stored)
  unfolding mount
  mount-IsWatched now stored h = (h, h)

  step-IsWatched : (e : Event) (s : Session) → IsWatched s → IsWatched (step decode e s)
  unfolding step probe_answered probe_failed safety_fires login logout logout_timer_fires
  step-IsWatched e s v = ground arith

  -- The answer to the probe, its failure, or the ten seconds of the safety timer.
  abbrev pub is_settling : Event → Bool
  is_settling (answered now token) = true
  is_settling unanswered = true
  is_settling stalled = true
  is_settling _ = false

  step-settles :
      (e : Event) (s : Session)
      → IsWatched s
      → (is_settling e ≡ true) ⊎ (s.initializing ≡ false)
      → (step decode e s).initializing ≡ false
  unfolding step probe_answered probe_failed safety_fires login logout logout_timer_fires
  step-settles e s v h = ground arith

  run-settled_from :
      (es : List Event) (s : Session)
      → IsWatched s
      → (any is_settling es ≡ true) ⊎ (s.initializing ≡ false)
      → (run decode es s).initializing ≡ false
  unfolding run
  run-settled_from [] s v h = ground arith
  run-settled_from (e ∷ es) s v h = elim (Bool-cases (is_settling e)) [
    | inl now ↦
        run-settled_from es (step decode e s) (step-IsWatched e s v)
          (inr (step-settles e s v (inl now)))
    | inr later ↦ elim (Bool-cases s.initializing) [
      | inl waits ↦
          run-settled_from es (step decode e s) (step-IsWatched e s v) (inl (ground arith))
      | inr done ↦
          run-settled_from es (step decode e s) (step-IsWatched e s v)
            (inr (step-settles e s v (inr done)))
    ]
  ]

  -- Whatever token was stored at the start, the provider is not initializing any more once the
  -- probe has been answered or has failed or its safety timer has fired, whatever else happened
  -- before or happens after.
  pub run-settled :
      (now : ℕ) (stored : Option String) (es : List Event)
      → any is_settling es ≡ true
      → (run decode es (mount decode now stored)).initializing ≡ false
  run-settled now stored es h =
      run-settled_from es (mount decode now stored) (mount-IsWatched now stored) (inl h)
