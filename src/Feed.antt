-- ===== src/Feed.antt =====
-- The cursor-paginated list: frontend/src/hooks/useInfiniteList.ts. `T` is the type of the items,
-- `C` of the cursors, `X` of the errors and `F` of the fetchers, known by their identity. A request
-- is sent at once and answered by a later event; `state_ref` is taken to hold the last state, as
-- it does once React has run the effects.
pub mod Pages
pub mod Flight
mod Tests
use rs_recruitment.Base.{
  ℕ, zero, suc, Bool, true, false, not, ◌&&◌, Option, none, some, List, [], ◌∷◌, ◌++◌, map,
  get_elem?, keep, if◌then◌else◌,
}

pub record CursorPage (T C : Type 0) : Type 0 where
  pub items : List T
  pub next_cursor : Option C

pub record State (T C X : Type 0) : Type 0 where
  pub items : List T
  pub cursor : Option C
  pub has_more : Bool
  pub is_loading : Bool
  pub is_fetching_more : Bool
  pub error : Option X

-- A request under way: the fetcher that was called, and the arguments of `fetchPage`.
pub record Call (C F : Type 0) : Type 0 where
  pub fetcher : F
  pub next_cursor : Option C
  pub replace : Bool

-- The state and the refs of the hook, and the requests that have no answer yet.
pub record Hook (T C X F : Type 0) : Type 0 where
  pub state : State T C X
  pub fetcher : F
  pub in_flight : Bool
  pub pending : List (Call C F)

-- `next != null`
abbrev pub is_set : {C : Type 0} → Option C → Bool
is_set none = false
is_set (some c) = true

-- The list without its i-th element.
abbrev pub delete_at : {A : Type 0} → ℕ → List A → List A
delete_at i [] = []
delete_at zero (x ∷ xs) = xs
delete_at (suc i) (x ∷ xs) = x ∷ delete_at i xs

module _ {T C X : Type 0} where
  abbrev pub initial_state : State T C X
  initial_state = record {
    items = [];
    cursor = none;
    has_more = true;
    is_loading = true;
    is_fetching_more = false;
    error = none;
  }

module _ {T C X F : Type 0} where
  -- The state of the first render, before its effects.
  abbrev pub first_render : F → Hook T C X F
  first_render f = record { state = initial_state; fetcher = f; in_flight = false; pending = [] }

  -- `fetchPage` up to its `await`.
  unfoldable pub fetch_page : Option C → Bool → Hook T C X F → Hook T C X F
  fetch_page next replace h = if h.in_flight then h else record h {
    in_flight = true;
    state =
        if replace
        then record h.state { is_loading = true; error = none }
        else record h.state { is_fetching_more = true; error = none };
    pending =
        h.pending ++ record { fetcher = h.fetcher; next_cursor = next; replace = replace } ∷ [];
  }

  abbrev pub settle : Call C F → CursorPage T C → State T C X → State T C X
  settle call page s = record s {
    items = if call.replace then page.items else s.items ++ page.items;
    cursor = page.next_cursor;
    has_more = is_set page.next_cursor;
    is_loading = false;
    is_fetching_more = false;
    error = none;
  }

  -- `fetchPage` after its `await`: the i-th request is answered by a page, or throws.
  unfoldable pub page_arrives : ℕ → CursorPage T C → Hook T C X F → Hook T C X F
  page_arrives i page h = elim (get_elem? h.pending i) [
    | none ↦ h
    | some call ↦ record h {
      state = settle call page h.state;
      in_flight = false;
      pending = delete_at i h.pending;
    }
  ]

  unfoldable pub page_fails : ℕ → X → Hook T C X F → Hook T C X F
  page_fails i x h = elim (get_elem? h.pending i) [
    | none ↦ h
    | some call ↦ record h {
      state = record h.state { is_loading = false; is_fetching_more = false; error = some x };
      in_flight = false;
      pending = delete_at i h.pending;
    }
  ]

  -- The effects of a render with a new fetcher; on the first render, with its first one.
  unfoldable pub change_fetcher : F → Hook T C X F → Hook T C X F
  change_fetcher f h = fetch_page none true (record h { fetcher = f; state = initial_state })

  unfoldable pub reload : Hook T C X F → Hook T C X F
  reload h = fetch_page none true (record h { state = initial_state })

  -- The callback of the observer of the sentinel.
  unfoldable pub sentinel : Bool → Hook T C X F → Hook T C X F
  sentinel is_intersecting h =
      if not is_intersecting then h else if h.in_flight then h else elim h.state.cursor [
        | none ↦ h
        | some c ↦ if h.state.has_more then fetch_page (some c) false h else h
      ]

  abbrev set_items : List T → Hook T C X F → Hook T C X F
  set_items items h = record h { state = record h.state { items = items } }

  unfoldable pub prepend_item : T → Hook T C X F → Hook T C X F
  prepend_item item h = set_items (item ∷ h.state.items) h

  -- A value in place of the function `next` is a constant function.
  unfoldable pub update_item : (T → Bool) → (T → T) → Hook T C X F → Hook T C X F
  update_item predicate next h =
      set_items (map (λ item. if predicate item then next item else item) h.state.items) h

  unfoldable pub remove_item : (T → Bool) → Hook T C X F → Hook T C X F
  remove_item predicate h = set_items (keep (λ item. not (predicate item)) h.state.items) h

-- What can happen to the hook.
pub data Event (T C X F : Type 0) : Type 0 where
  changed : F → Event T C X F
  reloaded : Event T C X F
  scrolled : Bool → Event T C X F
  arrived : ℕ → CursorPage T C → Event T C X F
  failed : ℕ → X → Event T C X F
  prepended : T → Event T C X F
  updated : (T → Bool) → (T → T) → Event T C X F
  removed : (T → Bool) → Event T C X F

module _ {T C X F : Type 0} where
  unfoldable pub step : Event T C X F → Hook T C X F → Hook T C X F
  step (changed f) h = change_fetcher f h
  step reloaded h = reload h
  step (scrolled on) h = sentinel on h
  step (arrived i page) h = page_arrives i page h
  step (failed i x) h = page_fails i x h
  step (prepended item) h = prepend_item item h
  step (updated predicate next) h = update_item predicate next h
  step (removed predicate) h = remove_item predicate h

  unfoldable pub run : List (Event T C X F) → Hook T C X F → Hook T C X F
  run [] h = h
  run (e ∷ es) h = run es (step e h)
