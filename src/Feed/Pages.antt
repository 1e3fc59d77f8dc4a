-- ===== src/Feed/Pages.antt =====
-- What useInfiniteList.ts shows of a server's pages.
use mathlib.Core.List.{append-nil, append_assoc}
use rs_recruitment.Base.{
  inl, inr, ℕ, zero, suc, true, false, ◌≡◌, sym, refl, List, [], ◌∷◌, ◌++◌, arith, Option, some,
  none, get_elem?, Option-cases,
}
use rs_recruitment.Feed.{
  CursorPage, Call, Hook, fetch_page, page_arrives, change_fetcher, sentinel, is_set,
}

module _ {T C X F : Type 0} where
  -- When the fetcher changes while a request is under way, none is sent for the new fetcher, and
  -- the page that answers the old request becomes the whole list.
  pub stale_page :
      (f : F) (h : Hook T C X F) (call : Call C F) (page : CursorPage T C)
      → h.in_flight ≡ true
      → h.pending ≡ call ∷ []
      → let h' = change_fetcher f h in
        let late = page_arrives 0 page h' in
        (h'.pending ≡ call ∷ [])
        × (late.fetcher ≡ f)
        × (late.pending ≡ [])
        × (late.in_flight ≡ false)
        × (late.state.items ≡ page.items)
  unfolding change_fetcher fetch_page page_arrives
  stale_page f h call page busy waits = ground arith

module _ {T C : Type 0} (server : Option C → CursorPage T C) where
  -- The items of the n pages from a cursor on, as the server links them.
  unfoldable pub chain : ℕ → Option C → List T
  chain zero c = []
  chain (suc n) none = []
  chain (suc n) (some c) = let p = server (some c) in p.items ++ chain n p.next_cursor

  -- The cursor behind those pages.
  unfoldable pub cursor_after : ℕ → Option C → Option C
  cursor_after zero c = c
  cursor_after (suc n) none = none
  cursor_after (suc n) (some c) = cursor_after n (server (some c)).next_cursor

  chain_done : (n : ℕ) → chain n none ≡ []
  unfolding chain
  chain_done zero = refl
  chain_done (suc n) = refl

  cursor_after_done : (n : ℕ) → cursor_after n none ≡ none
  unfolding cursor_after
  cursor_after_done zero = refl
  cursor_after_done (suc n) = refl

module _ {T C X F : Type 0} (server : Option C → CursorPage T C) where
  -- The server answers the request that has waited longest.
  pub answer : Hook T C X F → Hook T C X F
  answer h = elim (get_elem? h.pending 0) [
    | none ↦ h
    | some call ↦ page_arrives 0 (server call.next_cursor) h
  ]

  -- The sentinel comes into sight n times, and each request is answered.
  pub scroll : ℕ → Hook T C X F → Hook T C X F
  scroll zero h = h
  scroll (suc n) h = scroll n (answer (sentinel true h))

  record IsIdle (h : Hook T C X F) : Type 0 where
    free : h.in_flight ≡ false
    empty : h.pending ≡ []
    agrees : h.state.has_more ≡ is_set h.state.cursor

  round_none : (h : Hook T C X F) → IsIdle h → h.state.cursor ≡ none → answer (sentinel true h) ≡ h
  unfolding answer sentinel
  round_none h idle e = ground arith

  round_some :
      (h : Hook T C X F) (c : C)
      → IsIdle h
      → h.state.cursor ≡ some c
      → let h' = answer (sentinel true h) in
        IsIdle h'
        × (h'.state.items ≡ h.state.items ++ (server (some c)).items)
        × (h'.state.cursor ≡ (server (some c)).next_cursor)
  unfolding answer sentinel fetch_page page_arrives
  round_some h c idle e =
      let more : h.state.has_more ≡ true = ground arith in
      (
        record { free = ground arith; empty = ground arith; agrees = ground arith },
        ground arith,
        ground arith,
      )

  scroll_from :
      (n : ℕ) (h : Hook T C X F)
      → IsIdle h
      → ((scroll n h).state.items ≡ h.state.items ++ chain server n h.state.cursor)
        × ((scroll n h).state.cursor ≡ cursor_after server n h.state.cursor)
        × IsIdle (scroll n h)
  unfolding scroll chain cursor_after
  scroll_from zero h idle = (sym (append-nil _), refl, idle)
  scroll_from (suc n) h idle = elim (Option-cases h.state.cursor) [
    | inl e ↦
        let (items, cursor, still) = scroll_from n h idle in
        let same = round_none h idle e in
        (
          cc (chain_done server n, chain_done server (suc n)),
          cc (cursor_after_done server n, cursor_after_done server (suc n)),
          rw same still,
        )
    | inr (c, e) ↦
        let (idle', now, next) = round_some h c idle e in
        let (items, cursor, still) = scroll_from n (answer (sentinel true h)) idle' in
        (
          rw (items, now, next, e)
              (append_assoc h.state.items (server (some c)).items
                (chain server n (server (some c)).next_cursor)),
          rw (cursor, next, e),
          still,
        )
  ]

  changed-IsIdle :
      (f : F) (h : Hook T C X F)
      → h.in_flight ≡ false
      → h.pending ≡ []
      → let h' = answer (change_fetcher f h) in
        IsIdle h'
        × (h'.state.items ≡ (server none).items)
        × (h'.state.cursor ≡ (server none).next_cursor)
  unfolding answer change_fetcher fetch_page page_arrives
  changed-IsIdle f h free empty = (
    record { free = ground arith; empty = ground arith; agrees = ground arith },
    ground arith,
    ground arith,
  )

  -- When the fetcher is set while no request is under way, as on the first render, then after the
  -- first page and n sightings of the sentinel, each answered by the server, the list holds the
  -- items of the first n + 1 pages in the order in which the server links them (of all of them, if
  -- it has fewer), no request is under way, and more is on offer exactly if the server gave a
  -- further cursor.
  pub scroll-items :
      (n : ℕ) (f : F) (h : Hook T C X F)
      → h.in_flight ≡ false
      → h.pending ≡ []
      → let h' = scroll n (answer (change_fetcher f h)) in
        let first = server none in
        (h'.state.items ≡ first.items ++ chain server n first.next_cursor)
        × (h'.pending ≡ [])
        × (h'.state.has_more ≡ is_set (cursor_after server n first.next_cursor))
  scroll-items n f h free empty =
      let (idle, shown, next) = changed-IsIdle f h free empty in
      let (items, cursor, still) = scroll_from n (answer (change_fetcher f h)) idle in
      (cc, still.empty, cc (still.agrees))
