-- ===== src/Feed/Tests.antt =====
-- Runs of a list of numbers, three to a page; a fetcher is a number, and an error a string.
use rs_recruitment.Base.{
  ℕ, ◌+◌, ltb, ◌≡◌, refl, true, false, String, Option, some, none, List, [], ◌∷◌, ◌++◌,
  if◌then◌else◌,
}
use rs_recruitment.Feed.{
  CursorPage, Call, Hook, fetch_page, Event, changed, scrolled, arrived, failed, first_render,
  change_fetcher, page_arrives, is_set, run,
}
use rs_recruitment.Feed.Flight.{IsSingle, run-IsSingle}
use rs_recruitment.Feed.Pages.{stale_page, chain, cursor_after, answer, scroll, scroll-items}

abbrev page_from : ℕ → CursorPage ℕ ℕ
page_from n = record {
  items = n ∷ (n + 1) ∷ (n + 2) ∷ [];
  next_cursor = if ltb n 6 then some (n + 3) else none;
}

abbrev serve : Option ℕ → CursorPage ℕ ℕ
serve none = page_from 0
serve (some n) = page_from n

abbrev fresh : Hook ℕ ℕ String ℕ
fresh = first_render 1

abbrev happenings : List (Event ℕ ℕ String ℕ)
happenings =
    changed 1 ∷ scrolled true ∷ arrived 0 (page_from 0) ∷ scrolled true ∷ failed 0 "lost" ∷ []

run-IsSingle_example : IsSingle (run happenings fresh)
run-IsSingle_example = run-IsSingle happenings 1

abbrev first_call : Call ℕ ℕ
first_call = record { fetcher = 1; next_cursor = none; replace = true }

stale_page_example :
    let h' = change_fetcher 2 (change_fetcher 1 fresh) in
    let late = page_arrives 0 (page_from 0) h' in
    (h'.pending ≡ first_call ∷ [])
    × (late.fetcher ≡ 2)
    × (late.pending ≡ [])
    × (late.in_flight ≡ false)
    × (late.state.items ≡ 0 ∷ 1 ∷ 2 ∷ [])
unfolding change_fetcher fetch_page
stale_page_example = stale_page 2 (change_fetcher 1 fresh) first_call (page_from 0) refl refl

scroll-items_example :
    let h' = scroll serve 2 (answer serve (change_fetcher 1 fresh)) in
    (h'.state.items ≡ (0 ∷ 1 ∷ 2 ∷ []) ++ chain serve 2 (some 3))
    × (h'.pending ≡ [])
    × (h'.state.has_more ≡ is_set (cursor_after serve 2 (some 3)))
scroll-items_example = scroll-items serve 2 1 fresh refl refl
