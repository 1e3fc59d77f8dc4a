-- ===== src/Auth/Api/Flight.antt =====
-- The refreshes under way in frontend/src/services/api.ts, and where a failed request is.
use rs_recruitment.Base.{
  inl, inr, ℕ, zero, suc, ap, some, none, true, ◌==◌, ◌+◌, String, Bool, false, ◌≡◌, refl, Option,
  List, [], ◌∷◌, ◌++◌, map, length, length-append, get_elem?, Option-cases, arith,
}
use rs_recruitment.Feed.{delete_at}
use rs_recruitment.Feed.Flight.{length-delete_at, flag}
use rs_recruitment.Auth.Api.{
  Request, ApiError, Client, Event, failed, refreshed, refresh_failed, init, marked, with_token,
  on_error, on_refreshed, on_refresh_failed, step, run,
}

abbrev one_if : Bool → ℕ
one_if true = 1
one_if false = 0

-- How often the request with the identifier is in the list.
abbrev pub times : ℕ → List Request → ℕ
times id [] = 0
times id (r ∷ rs) = one_if (r.id == id) + times id rs

-- … and in its places: waiting, sent again or rejected.
abbrev pub placed : ℕ → Client → ℕ
placed id s = times id s.refresh_queue + times id s.awaiting + times id s.sent + times id s.rejected

-- How often it has failed.
abbrev is_error : ℕ → Event → ℕ
is_error id (failed e) = one_if (e.request.id == id)
is_error id _ = 0

abbrev pub errors : ℕ → List Event → ℕ
errors id [] = 0
errors id (failed e ∷ es) = one_if (e.request.id == id) + errors id es
errors id (_ ∷ es) = errors id es

times-append : (id : ℕ) (rs rs' : List Request) → times id (rs ++ rs') ≡ times id rs + times id rs'
times-append id [] rs' = omega arith
times-append id (r ∷ rs) rs' = omega (arith, times-append id rs rs')

times-map :
    (id : ℕ) (token : String) (rs : List Request)
    → times id (map (with_token token) rs) ≡ times id rs
times-map id token [] = refl
times-map id token (r ∷ rs) = omega (arith, times-map id token rs)

id_or_zero : Option Request → ℕ
id_or_zero none = 0
id_or_zero (some r) = r.id

times-delete_at :
    (id i : ℕ) (rs : List Request) {r : Request}
    → get_elem? rs i ≡ some r
    → times id (delete_at i rs) + one_if (r.id == id) ≡ times id rs
unfolding id_or_zero
times-delete_at id i [] h = cc
times-delete_at id zero (r' ∷ rs) {r} h =
    let same : r'.id ≡ r.id = ap id_or_zero h in rw same (omega arith)
times-delete_at id (suc i) (r' ∷ rs) h = omega (arith, times-delete_at id i rs h)

module _ (id : ℕ) where
  on_error-counts :
      (e : ApiError) (s : Client)
      → length s.awaiting ≡ flag s.is_refreshing
      → (length (on_error e s).awaiting ≡ flag (on_error e s).is_refreshing)
        × (placed id (on_error e s) ≡ placed id s + one_if (e.request.id == id))
  unfolding on_error
  on_error-counts e s h = ground (
    arith,
    times-append id s.rejected (e.request ∷ []),
    times-append id s.refresh_queue (marked e.request ∷ []),
    times-append id s.awaiting (marked e.request ∷ []),
    length-append s.awaiting (marked e.request ∷ []),
  )

  on_refreshed-counts :
      (i : ℕ) (token : String) (s : Client)
      → length s.awaiting ≡ flag s.is_refreshing
      → (length (on_refreshed i token s).awaiting ≡ flag (on_refreshed i token s).is_refreshing)
        × (placed id (on_refreshed i token s) ≡ placed id s)
  unfolding on_refreshed
  on_refreshed-counts i token s h = elim (Option-cases (get_elem? s.awaiting i)) [
    | inl missing ↦ ground arith
    | inr (original, found) ↦
        let fewer = length-delete_at i s.awaiting found in
        let one : length s.awaiting ≡ 1 = ground arith in
        let taken = times-delete_at id i s.awaiting found in
        let queued = map (with_token token) s.refresh_queue in
        let last = times-append id (s.sent ++ queued) (with_token token original ∷ []) in
        let drained = times-append id s.sent queued in
        let as_often = times-map id token s.refresh_queue in ground arith
  ]

  on_refresh_failed-counts :
      (i : ℕ) (s : Client)
      → length s.awaiting ≡ flag s.is_refreshing
      → (length (on_refresh_failed i s).awaiting ≡ flag (on_refresh_failed i s).is_refreshing)
        × (placed id (on_refresh_failed i s) ≡ placed id s)
  unfolding on_refresh_failed
  on_refresh_failed-counts i s h = elim (Option-cases (get_elem? s.awaiting i)) [
    | inl missing ↦ ground arith
    | inr (original, found) ↦
        let fewer = length-delete_at i s.awaiting found in
        let one : length s.awaiting ≡ 1 = ground arith in
        let taken = times-delete_at id i s.awaiting found in
        let last = times-append id s.rejected (original ∷ []) in ground arith
  ]

  step-counts :
      (e : Event) (s : Client)
      → length s.awaiting ≡ flag s.is_refreshing
      → (length (step e s).awaiting ≡ flag (step e s).is_refreshing)
        × (placed id (step e s) ≡ placed id s + is_error id e)
  unfolding step
  step-counts (failed e) s h = on_error-counts e s h
  step-counts (refreshed i token) s h = omega (arith, on_refreshed-counts i token s h)
  step-counts (refresh_failed i) s h = omega (arith, on_refresh_failed-counts i s h)

  errors-cons : (e : Event) (es : List Event) → errors id (e ∷ es) ≡ is_error id e + errors id es
  errors-cons (failed e) es = omega arith
  errors-cons (refreshed i t) es = omega arith
  errors-cons (refresh_failed i) es = omega arith

  run-counts_from :
      (es : List Event) (s : Client)
      → length s.awaiting ≡ flag s.is_refreshing
      → (length (run es s).awaiting ≡ flag (run es s).is_refreshing)
        × (placed id (run es s) ≡ placed id s + errors id es)
  unfolding run
  run-counts_from [] s h = (h, omega arith)
  run-counts_from (e ∷ es) s h =
      let (one, count) = step-counts e s h in
      let (still, counted) = run-counts_from es (step e s) one in
      (still, omega (arith, errors-cons e es))

-- Whatever errors and answers come in, and in any order, at most one refresh is under way, exactly
-- while `isRefreshing` is set, and no request is lost or doubled: each identifier stands as often
-- among the requests that wait for the refresh, were sent again or were rejected as requests with
-- it have failed.
pub run-counts :
    (es : List Event) (token : Option String) (at_login : Bool)
    → let s = run es (init token at_login) in
      (length s.awaiting ≡ flag s.is_refreshing) × ((id : ℕ) → placed id s ≡ errors id es)
run-counts es token at_login = (
  (run-counts_from 0 es (init token at_login) refl).0,
  λ id. let (one, count) = run-counts_from id es (init token at_login) refl in omega arith,
)

-- When the refresh fails, the requests in its queue stay there: none is sent or rejected, no
-- refresh is under way any more, and only the request that had asked for it is rejected.
pub refresh_failed-queue :
    (s : Client) (original : Request)
    → s.awaiting ≡ original ∷ []
    → let s' = on_refresh_failed 0 s in
      (s'.refresh_queue ≡ s.refresh_queue)
      × (s'.sent ≡ s.sent)
      × (s'.rejected ≡ s.rejected ++ original ∷ [])
      × (s'.awaiting ≡ [])
      × (s'.is_refreshing ≡ false)
unfolding on_refresh_failed
refresh_failed-queue s original waits = ground arith
