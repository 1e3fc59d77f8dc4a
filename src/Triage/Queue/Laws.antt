-- ===== src/Triage/Queue/Laws.antt =====
-- What the queue holds once it is loaded.
use mathlib.Core.List.{append_assoc, append-nil, map-append}
use rs_recruitment.Base.{
  All, if◌then◌else◌, if_case, ◌==◌, ==_iff, inl, inr, ℕ, zero, suc, ◌+◌, ◌*◌, ◌≤◌, String, Bool,
  false, Text, ◌≡◌, ◌≢◌, ◌⊎◌, refl, ap, ◌∙◌, Option, none, some, List, [], ◌∷◌, ◌++◌, map, length,
  length-append, length-map, arith,
}
use rs_recruitment.Feed.{CursorPage}
use rs_recruitment.Feed.Pages.{chain}
use rs_recruitment.Triage.Queue.{
  Result, ok, err, TriageItem, State, to_triage_item, map_get, fetch_pages, fetch_all, fetch_into,
  reload, page_size,
}

Result-cases {ℓ} :
    {X : Type 0} {A : Type ℓ} (r : Result X A) → ((a : A) × (r ≡ ok a)) ⊎ ((x : X) × (r ≡ err x))
Result-cases (ok a) = inl (a, refl)
Result-cases (err x) = inr (x, refl)

module _ {A : Type 0} (company_id : A → ℕ) (names : List (ℕ × String)) where
  abbrev pub show : List A → List (TriageItem A)
  show = map (to_triage_item company_id names)

-- No pair has the key.
abbrev pub AllOther : ℕ → List (ℕ × String) → Type 0
AllOther k [] = Unit
AllOther k ((j, v) ∷ m) = (j ≢ k) × AllOther k m

abbrev IsLast : List (ℕ × String) → ℕ → String → Type 0
IsLast m k v =
    (before : List (ℕ × String)) × (behind : List (ℕ × String)) × (m ≡ before ++ (k, v) ∷ behind)
    × AllOther k behind

-- The name of the last pair with the key, or a dash.
abbrev pub IsNamed : List (ℕ × String) → ℕ → String → Type 0
IsNamed names k name = AllOther k names × (name ≡ "—") ⊎ IsLast names k name

IsFound : List (ℕ × String) → ℕ → Option String → Type 0
IsFound m k none = AllOther k m
IsFound m k (some v) = IsLast m k v

map_get-IsFound : (m : List (ℕ × String)) (k : ℕ) → IsFound m k (map_get m k)
unfolding IsFound map_get
map_get-IsFound [] k = tt
map_get-IsFound ((j, v) ∷ m) k = more (map_get m k) (map_get-IsFound m k)
  where
    more :
        (r : Option String)
        → IsFound m k r
        → IsFound
            ((j, v) ∷ m)
            k
            (elim r [ none ↦ if j == k then some v else none | some w ↦ some w ])
    more (some w) (before, behind, whole, rest) =
        ((j, v) ∷ before, behind, ap (λ t. (j, v) ∷ t) whole, rest)
    more none h =
        if_case (IsFound ((j, v) ∷ m) k) (j == k) (some v) none
          (λ e. ([], m, ap (λ i. (i, v) ∷ m) ((==_iff j k).0 e), h))
          (λ e. ((λ same. let eq = (==_iff j k).1 same in absurd (ground arith)), h))

module _ {A : Type 0} (company_id : A → ℕ) (names : List (ℕ × String)) where
  to_triage_item-IsNamed :
      (app : A) → IsNamed names (company_id app) (to_triage_item company_id names app).company_name
  unfolding to_triage_item IsFound
  to_triage_item-IsNamed app =
      named (map_get names (company_id app)) (map_get-IsFound names (company_id app))
    where
      named :
          (r : Option String)
          → IsFound names (company_id app) r
          → IsNamed names (company_id app) (elim r [ none ↦ "—" | some name ↦ name ])
      named none h = inl (h, refl)
      named (some name) h = inr h

  show-apps : (apps : List A) → map (λ t. t.app) (show company_id names apps) ≡ apps
  unfolding to_triage_item
  show-apps [] = refl
  show-apps (app ∷ apps) = ap (λ t. app ∷ t) (show-apps apps)

  show-IsNamed :
      (apps : List A)
      → All (λ t. IsNamed names (company_id t.app) t.company_name) (show company_id names apps)
  unfolding to_triage_item
  show-IsNamed [] = tt
  show-IsNamed (app ∷ apps) = (to_triage_item-IsNamed app, show-IsNamed apps)

-- The server answers every request, and gives no empty cursor.
module _ {A X : Type 0} (company_id : A → ℕ) (server : Option Text → CursorPage A Text) where
  abbrev answers : Option Text → Result X (CursorPage A Text)
  answers c = ok (server c)

  fetch_pages_lem :
      (names : List (ℕ × String))
      → ((c : Option Text) → (server c).next_cursor ≢ some [])
      → (n : ℕ) (c : Option Text) (apps : List (TriageItem A)) → c ≢ some []
      → fetch_pages company_id answers (ok names) n names c apps
        ≡ ok (apps ++ show company_id names (chain server n c))
  unfolding fetch_pages chain
  fetch_pages_lem names full zero c apps h = rw append-nil refl
  fetch_pages_lem names full (suc n) none apps h = rw append-nil refl
  fetch_pages_lem names full (suc n) (some []) apps h = absurd (h refl)
  fetch_pages_lem names full (suc n) (some (u ∷ c)) apps h =
      let page = server (some (u ∷ c)) in
      fetch_pages_lem names full n page.next_cursor (apps ++ show company_id names page.items)
        (full (some (u ∷ c)))
      ∙ ap ok (simp (map-append, append_assoc))

  fetch_all_lem :
      (names : List (ℕ × String))
      → ((c : Option Text) → (server c).next_cursor ≢ some [])
      → fetch_all company_id answers (ok names)
        ≡ ok (
            show company_id names ((server none).items ++ chain server 4 (server none).next_cursor))
  unfolding fetch_all
  fetch_all_lem names full = rw (
    fetch_pages_lem names full 4 (server none).next_cursor
        (show company_id names (server none).items) (full none),
    map-append,
  )

  -- When every request is answered, and none with an empty cursor, the queue holds the applications
  -- of the first page and of the pages that its cursors lead to, five pages at most, in the
  -- server's order. Each has the name that the companies' answer, their first page of 100, gives for its
  -- company, the last one if there are several, and a dash if that page does not hold the company.
  -- Nothing is left loading.
  pub fetch_into_pages :
      (names : List (ℕ × String)) (aborted : Bool) (s : State A X)
      → ((c : Option Text) → (server c).next_cursor ≢ some [])
      → (items : List (TriageItem A)) × (fetch_into company_id answers (ok names) aborted s
          ≡ record { items = items; is_loading = false; error = none })
        × (map (λ t. t.app) items ≡ (server none).items ++ chain server 4 (server none).next_cursor)
        × All (λ t. IsNamed names (company_id t.app) t.company_name) items
  unfolding fetch_into
  fetch_into_pages names aborted s full =
      let apps = (server none).items ++ chain server 4 (server none).next_cursor in
      (
        show company_id names apps,
        rw (fetch_all_lem names full, fetch_into) refl,
        show-apps company_id names apps,
        show-IsNamed company_id names apps,
      )

module _ {A X : Type 0} (company_id : A → ℕ)
    (get_applications : Option Text → Result X (CursorPage A Text))
    (get_active_companies : Result X (List (ℕ × String)))
    (capped : (c : Option Text) (p : CursorPage A Text)
      → get_applications c ≡ ok p
      → length p.items ≤ page_size) where
  abbrev AtMost : ℕ → Result X (List (TriageItem A)) → Type 0
  AtMost n r = (apps : List (TriageItem A)) → r ≡ ok apps → length apps ≤ n

  fetch_pages-AtMost :
      (n : ℕ) (names : List (ℕ × String)) (c : Option Text) (apps : List (TriageItem A))
      → AtMost
          (length apps + page_size * n)
          (fetch_pages company_id get_applications get_active_companies n names c apps)
  unfolding fetch_pages
  fetch_pages-AtMost zero names c apps out e = ground arith
  fetch_pages-AtMost (suc n) names none apps out e = ground arith
  fetch_pages-AtMost (suc n) names (some []) apps out e = ground arith
  fetch_pages-AtMost (suc n) names (some (u ∷ c)) apps out e =
      elim (Result-cases (get_applications (some (u ∷ c)))) [
        | inl (page, found) ↦
            let more = apps ++ map (to_triage_item company_id names) page.items in
            let later : fetch_pages company_id get_applications get_active_companies n names
                  page.next_cursor more
                ≡ ok out =
              rw (found, fetch_pages) at e in
            omega (
              arith,
              fetch_pages-AtMost n names page.next_cursor more out later,
              length-append apps (map (to_triage_item company_id names) page.items),
              length-map (to_triage_item company_id names) page.items,
              capped (some (u ∷ c)) page found,
            )
        | inr (x, found) ↦ cc
      ]

  fetch_all-AtMost : AtMost 500 (fetch_all company_id get_applications get_active_companies)
  unfolding fetch_all
  fetch_all-AtMost out e = elim (Result-cases (get_applications none)) [
    | inl (first, found) ↦ elim (Result-cases get_active_companies) [
      | inl (names, named) ↦
          let shown = map (to_triage_item company_id names) first.items in
          let later : fetch_pages company_id get_applications get_active_companies 4 names
                first.next_cursor shown
              ≡ ok out =
            ground arith in
          omega (
            arith,
            fetch_pages-AtMost 4 names first.next_cursor shown out later,
            length-map (to_triage_item company_id names) first.items,
            capped none first found,
          )
      | inr (x, failed) ↦ ground arith
    ]
    | inr (x, failed) ↦ ground arith
  ]

  -- If the backend keeps to its page size of 100, the queue never holds more than 500
  -- applications, whatever it answers and whichever requests fail.
  pub reload-length :
      (s : State A X)
      → length (reload company_id get_applications get_active_companies s).items ≤ 500
  unfolding reload fetch_into
  reload-length s =
      elim (Result-cases (fetch_all company_id get_applications get_active_companies)) [
        | inl (apps, found) ↦ let few = fetch_all-AtMost apps found in ground arith
        | inr (x, failed) ↦ ground arith
      ]
