-- ===== src/Feed/Flight.antt =====
-- The requests under way in useInfiniteList.ts.
use rs_recruitment.Base.{
  Option-cases, length-append, ◌+◌, inl, inr, ℕ, zero, suc, Bool, true, false, ◌≡◌, refl, List, [],
  ◌∷◌, arith, Option, some, none, length, get_elem?,
}
use rs_recruitment.Feed.{
  CursorPage, Hook, Event, changed, reloaded, scrolled, arrived, failed, prepended, updated,
  removed, initial_state, first_render, fetch_page, page_arrives, page_fails, change_fetcher,
  reload, sentinel, prepend_item, update_item, remove_item, step, run, delete_at,
}

pub length-delete_at :
    {A : Type 0} (i : ℕ) (xs : List A) {x : A}
    → get_elem? xs i ≡ some x
    → length (delete_at i xs) + 1 ≡ length xs
length-delete_at i [] h = cc
length-delete_at zero (x ∷ xs) h = omega arith
length-delete_at (suc i) (x ∷ xs) h = omega (arith, length-delete_at i xs h)

abbrev pub flag : Bool → ℕ
flag true = 1
flag false = 0

module _ {T C X F : Type 0} where
  -- `inFlight` is set exactly while one request waits for its answer, and no second one does.
  abbrev pub IsSingle : Hook T C X F → Type 0
  IsSingle h = length h.pending ≡ flag h.in_flight

  fetch_page-IsSingle :
      (next : Option C) (replace : Bool) (h : Hook T C X F)
      → IsSingle h
      → IsSingle (fetch_page next replace h)
  unfolding fetch_page
  fetch_page-IsSingle next replace h s = ground (
    arith,
    length-append h.pending
        (record { fetcher = h.fetcher; next_cursor = next; replace = replace } ∷ []),
  )

  sentinel-IsSingle : (on : Bool) (h : Hook T C X F) → IsSingle h → IsSingle (sentinel on h)
  unfolding sentinel
  sentinel-IsSingle on h s = elim (Option-cases h.state.cursor) [
    | inl missing ↦ ground arith
    | inr (c, found) ↦ ground (arith, fetch_page-IsSingle (some c) false h s)
  ]

  page_arrives-IsSingle :
      (i : ℕ) (page : CursorPage T C) (h : Hook T C X F)
      → IsSingle h
      → IsSingle (page_arrives i page h)
  unfolding page_arrives
  page_arrives-IsSingle i page h s = elim (Option-cases (get_elem? h.pending i)) [
    | inl missing ↦ ground arith
    | inr (call, found) ↦
        let fewer = length-delete_at i h.pending found in
        let waits : length h.pending ≡ 1 = ground arith in ground arith
  ]

  page_fails-IsSingle :
      (i : ℕ) (x : X) (h : Hook T C X F) → IsSingle h → IsSingle (page_fails i x h)
  unfolding page_fails
  page_fails-IsSingle i x h s = elim (Option-cases (get_elem? h.pending i)) [
    | inl missing ↦ ground arith
    | inr (call, found) ↦
        let fewer = length-delete_at i h.pending found in
        let waits : length h.pending ≡ 1 = ground arith in ground arith
  ]

  step-IsSingle : (e : Event T C X F) (h : Hook T C X F) → IsSingle h → IsSingle (step e h)
  unfolding step change_fetcher reload prepend_item update_item remove_item
  step-IsSingle (changed f) h s =
      fetch_page-IsSingle none true (record h { fetcher = f; state = initial_state }) s
  step-IsSingle reloaded h s = fetch_page-IsSingle none true (record h { state = initial_state }) s
  step-IsSingle (scrolled on) h s = sentinel-IsSingle on h s
  step-IsSingle (arrived i page) h s = page_arrives-IsSingle i page h s
  step-IsSingle (failed i x) h s = page_fails-IsSingle i x h s
  step-IsSingle (prepended item) h s = s
  step-IsSingle (updated predicate next) h s = s
  step-IsSingle (removed predicate) h s = s

  run-IsSingle_from :
      (es : List (Event T C X F)) (h : Hook T C X F) → IsSingle h → IsSingle (run es h)
  unfolding run
  run-IsSingle_from [] h s = s
  run-IsSingle_from (e ∷ es) h s = run-IsSingle_from es (step e h) (step-IsSingle e h s)

  -- Whatever happens after the first render, at most one request is under way at any time, and
  -- `inFlight` says whether one is.
  pub run-IsSingle : (es : List (Event T C X F)) (f : F) → IsSingle (run es (first_render f))
  run-IsSingle es f = run-IsSingle_from es (first_render f) refl
