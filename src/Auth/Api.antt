-- ===== src/Auth/Api.antt =====
-- The response interceptor of frontend/src/services/api.ts: one token refresh for all requests
-- that fail with 401. A request carries its `_retry` mark and its Authorization header; a request
-- is `sent` when it is passed to `api(…)` again, and `rejected` when its promise is rejected.
pub mod Flight
pub mod Retry
use rs_recruitment.Base.{
  ℕ, zero, suc, ◌+◌, Bool, true, false, not, ◌&&◌, ◌||◌, ◌==◌, String, Text, codes, includes,
  Option, none, some, List, [], ◌∷◌, ◌++◌, map, get_elem?, if◌then◌else◌,
}
use rs_recruitment.Feed.{delete_at}

pub record Request : Type 0 where
  pub id : ℕ
  pub url : Option Text
  pub retry : Bool
  pub authorization : Option String

-- What the interceptor is called with: whether axios made the error, and the response's status.
pub record ApiError : Type 0 where
  pub is_axios : Bool
  pub status : Option ℕ
  pub request : Request

-- The module's variables, the stored token, and the refreshes that have no answer yet, each with
-- the request whose handler awaits it.
pub record Client : Type 0 where
  pub token : Option String
  pub is_refreshing : Bool
  pub refresh_queue : List Request
  pub awaiting : List Request
  pub sent : List Request
  pub rejected : List Request
  pub at_login : Bool

abbrev pub init : Option String → Bool → Client
init token at_login = record {
  token = token;
  is_refreshing = false;
  refresh_queue = [];
  awaiting = [];
  sent = [];
  rejected = [];
  at_login = at_login;
}

-- `url?.includes(part)`
unfoldable pub url_includes : Option Text → String → Bool
unfolding includes
url_includes none part = false
url_includes (some url) part = includes url (codes part)

abbrev pub is_401 : Option ℕ → Bool
is_401 none = false
is_401 (some n) = n == 401

-- The condition of the early return.
unfoldable pub gives_up : ApiError → Bool
gives_up e =
    not e.is_axios
    || not (is_401 e.status)
    || e.request.retry
    || url_includes e.request.url "/auth/refresh"
    || url_includes e.request.url "/auth/login"
    || url_includes e.request.url "/auth/logout"

abbrev pub marked : Request → Request
marked r = record r { retry = true }

-- `originalRequest.headers.Authorization = …; api(originalRequest)`: the request interceptor puts
-- the stored token into the header, which is the same one.
abbrev pub with_token : String → Request → Request
with_token token r = record r { authorization = some token }

-- The interceptor up to its `await`.
unfoldable pub on_error : ApiError → Client → Client
on_error e s =
    if gives_up e
    then record s { rejected = s.rejected ++ e.request ∷ [] }
    else if s.is_refreshing
    then record s { refresh_queue = s.refresh_queue ++ marked e.request ∷ [] }
    else record s { is_refreshing = true; awaiting = s.awaiting ++ marked e.request ∷ [] }

-- The i-th refresh is answered: `setToken`, `drainQueue`, the original request, `finally`.
unfoldable pub on_refreshed : ℕ → String → Client → Client
on_refreshed i token s = elim (get_elem? s.awaiting i) [
  | none ↦ s
  | some original ↦ record s {
    token = some token;
    sent = (s.sent ++ map (with_token token) s.refresh_queue) ++ with_token token original ∷ [];
    refresh_queue = [];
    awaiting = delete_at i s.awaiting;
    is_refreshing = false;
  }
]

-- The i-th refresh fails: `clearSession`, which leaves for the login page, and the rejection of
-- the original request, `finally`.
unfoldable pub on_refresh_failed : ℕ → Client → Client
on_refresh_failed i s = elim (get_elem? s.awaiting i) [
  | none ↦ s
  | some original ↦ record s {
    token = none;
    at_login = true;
    rejected = s.rejected ++ original ∷ [];
    awaiting = delete_at i s.awaiting;
    is_refreshing = false;
  }
]

pub data Event : Type 0 where
  failed : ApiError → Event
  refreshed : ℕ → String → Event
  refresh_failed : ℕ → Event

unfoldable pub step : Event → Client → Client
step (failed e) s = on_error e s
step (refreshed i token) s = on_refreshed i token s
step (refresh_failed i) s = on_refresh_failed i s

unfoldable pub run : List Event → Client → Client
run [] s = s
run (e ∷ es) s = run es (step e s)
