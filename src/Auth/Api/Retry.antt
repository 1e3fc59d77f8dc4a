-- ===== src/Auth/Api/Retry.antt =====
-- The second failure of a request in frontend/src/services/api.ts.
use rs_recruitment.Base.{
  inl, inr, ℕ, zero, suc, String, Bool, true, ◌≡◌, ◌≢◌, ◌⊎◌, refl, Option, none, some, List, [],
  ◌∷◌, ◌++◌, map, All, All-append, get_elem?, Option-cases, arith,
}
use mathlib.Core.Path.{subst}
use rs_recruitment.Feed.{delete_at}
use rs_recruitment.Auth.Api.{
  Request, ApiError, Client, Event, failed, refreshed, refresh_failed, init, marked, with_token,
  gives_up, on_error, on_refreshed, on_refresh_failed, step, run,
}

abbrev IsMarked : Request → Type 0
IsMarked r = r.retry ≡ true

-- Sent again: marked, and with an Authorization header.
abbrev IsResent : Request → Type 0
IsResent r = (r.retry ≡ true) × (r.authorization ≢ none)

All-get_elem? :
    {A : Type 0} (P : A → Type 0) (i : ℕ) (xs : List A) {x : A}
    → All P xs
    → get_elem? xs i ≡ some x
    → P x
All-get_elem? P i [] h e = cc
All-get_elem? P zero (x ∷ xs) h e = subst P (cc) h.0
All-get_elem? P (suc i) (x ∷ xs) h e = All-get_elem? P i xs h.1 e

All-delete_at :
    {A : Type 0} (P : A → Type 0) (i : ℕ) (xs : List A) → All P xs → All P (delete_at i xs)
All-delete_at P i [] h = tt
All-delete_at P zero (x ∷ xs) h = h.1
All-delete_at P (suc i) (x ∷ xs) h = (h.0, All-delete_at P i xs h.1)

All-with_token :
    (token : String) (rs : List Request)
    → All IsMarked rs
    → All IsResent (map (with_token token) rs)
All-with_token token [] h = tt
All-with_token token (r ∷ rs) h = ((h.0, (λ e. cc)), All-with_token token rs h.1)

record IsOnce (s : Client) : Type 0 where
  queued : All IsMarked s.refresh_queue
  waiting : All IsMarked s.awaiting
  resent : All IsResent s.sent

Grows : List Request → List Request → Request → Type 0
Grows xs ys r = (ys ≡ xs) ⊎ (ys ≡ xs ++ r ∷ [])

Grows-All :
    (xs ys : List Request) (r : Request)
    → IsMarked r
    → Grows xs ys r
    → All IsMarked xs
    → All IsMarked ys
unfolding Grows
Grows-All xs ys r m (inl e) h = rw e h
Grows-All xs ys r m (inr e) h = rw e (All-append IsMarked xs (r ∷ []) h (m, tt))

on_error-Grows :
    (e : ApiError) (s : Client)
    → Grows s.refresh_queue (on_error e s).refresh_queue (marked e.request)
      × Grows s.awaiting (on_error e s).awaiting (marked e.request)
      × ((on_error e s).sent ≡ s.sent)
unfolding on_error Grows
on_error-Grows e s = ground arith

on_error-IsOnce : (e : ApiError) (s : Client) → IsOnce s → IsOnce (on_error e s)
on_error-IsOnce e s v =
    let (queue, wait, same) = on_error-Grows e s in
    record {
      queued =
          Grows-All s.refresh_queue (on_error e s).refresh_queue (marked e.request) refl queue
            v.queued;
      waiting = Grows-All s.awaiting (on_error e s).awaiting (marked e.request) refl wait v.waiting;
      resent = rw same v.resent;
    }

on_refreshed-IsOnce :
    (i : ℕ) (token : String) (s : Client) → IsOnce s → IsOnce (on_refreshed i token s)
unfolding on_refreshed
on_refreshed-IsOnce i token s v = elim (Option-cases (get_elem? s.awaiting i)) [
  | inl missing ↦ rw (missing, on_refreshed) v
  | inr (original, found) ↦
      rw (found, on_refreshed)
        (record {
          queued = tt;
          waiting = All-delete_at IsMarked i s.awaiting v.waiting;
          resent =
              All-append IsResent (s.sent ++ map (with_token token) s.refresh_queue)
                (with_token token original ∷ [])
                (All-append IsResent s.sent (map (with_token token) s.refresh_queue) v.resent
                  (All-with_token token s.refresh_queue v.queued))
                ((All-get_elem? IsMarked i s.awaiting v.waiting found, (λ e. cc)), tt);
        })
]

on_refresh_failed-IsOnce : (i : ℕ) (s : Client) → IsOnce s → IsOnce (on_refresh_failed i s)
unfolding on_refresh_failed
on_refresh_failed-IsOnce i s v = elim (Option-cases (get_elem? s.awaiting i)) [
  | inl missing ↦ rw (missing, on_refresh_failed) v
  | inr (original, found) ↦
      rw (found, on_refresh_failed)
        (record {
          queued = v.queued;
          waiting = All-delete_at IsMarked i s.awaiting v.waiting;
          resent = v.resent;
        })
]

step-IsOnce : (e : Event) (s : Client) → IsOnce s → IsOnce (step e s)
unfolding step
step-IsOnce (failed e) s v = on_error-IsOnce e s v
step-IsOnce (refreshed i token) s v = on_refreshed-IsOnce i token s v
step-IsOnce (refresh_failed i) s v = on_refresh_failed-IsOnce i s v

run-IsOnce : (es : List Event) (s : Client) → IsOnce s → IsOnce (run es s)
unfolding run
run-IsOnce [] s v = v
run-IsOnce (e ∷ es) s v = run-IsOnce es (step e s) (step-IsOnce e s v)

on_error-marked :
    (e : ApiError) (s : Client)
    → e.request.retry ≡ true
    → on_error e s ≡ record s { rejected = s.rejected ++ e.request ∷ [] }
unfolding on_error gives_up
on_error-marked e s h = ground arith

once_rejected :
    (s : Client) (rs : List Request)
    → All IsResent rs
    → All
        (λ r.
          (r.authorization ≢ none)
          × ((is_axios : Bool) (status : Option ℕ)
              → on_error (record { is_axios = is_axios; status = status; request = r }) s
                ≡ record s { rejected = s.rejected ++ r ∷ [] }))
        rs
once_rejected s [] h = tt
once_rejected s (r ∷ rs) h = (
  (
    h.0.1,
    λ is_axios status.
        on_error-marked (record { is_axios = is_axios; status = status; request = r }) s h.0.0,
  ),
  once_rejected s rs h.1,
)

-- Whatever has happened since the start, each request that was sent again carries a token, and if
-- it fails once more, for whatever reason, it is just rejected: no second refresh is asked for and
-- the queue stays as it is.
pub run-once :
    (es : List Event) (token : Option String) (at_login : Bool)
    → let s = run es (init token at_login) in
      All
        (λ r.
          (r.authorization ≢ none)
          × ((is_axios : Bool) (status : Option ℕ)
              → on_error (record { is_axios = is_axios; status = status; request = r }) s
                ≡ record s { rejected = s.rejected ++ r ∷ [] }))
        s.sent
run-once es token at_login =
    let s = run es (init token at_login) in
    once_rejected s s.sent
      (run-IsOnce es (init token at_login)
        (record { queued = tt; waiting = tt; resent = tt })).resent
