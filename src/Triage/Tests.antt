-- ===== src/Triage/Tests.antt =====
-- Runs of the queue and of the screen, over applications that are numbers.
use mathlib.Core.Path.{subst}
use rs_recruitment.Base.{
  All, map, ℕ, ◌≡◌, ◌≢◌, ◌≤◌, ◌<◌, refl, true, false, String, Text, codes, Option, some, none, List,
  [], ◌∷◌, ◌++◌, length, arith,
}
use rs_recruitment.Base.Dict.{lookup}
use rs_recruitment.Feed.{CursorPage}
use rs_recruitment.Feed.Pages.{chain}
use rs_recruitment.Triage.Queue.{TriageItem, State, Result, ok, fetch_into}
use rs_recruitment.Triage.Queue.Laws.{IsNamed, fetch_into_pages}
use rs_recruitment.Triage.Page.{
  Triage, Event, approved, rejected, jumped, chose, undone, committed, swap_ended, answered,
  decided, reverted, total, current, decide, undo, run,
}
use rs_recruitment.Triage.Page.Range.{run-current}
use rs_recruitment.Triage.Page.Undo.{undo-decide}
use rs_recruitment.Triage.Page.Sync.{World, shown, takes_all, world_run, world_run-shown}

abbrev company_of : ℕ → ℕ
company_of app = 1

abbrev companies : List (ℕ × String)
companies = (1, "Acme") ∷ []

-- One page after the first.
abbrev serve : Option Text → CursorPage ℕ Text
serve none = record { items = 11 ∷ 12 ∷ []; next_cursor = some (codes "c1") }
serve (some c) = record { items = 13 ∷ []; next_cursor = none }

abbrev loading : State ℕ String
loading = record { items = []; is_loading = true; error = none }

serve-full : (c : Option Text) → (serve c).next_cursor ≢ some []
serve-full none e = cc
serve-full (some c) e = cc

fetch_into_pages_example :
    (items : List (TriageItem ℕ)) × (fetch_into company_of
        (λ c. ok (serve c))
        (ok companies)
        false
        loading
      ≡ record { items = items; is_loading = false; error = none })
    × (map (λ t. t.app) items ≡ (11 ∷ 12 ∷ []) ++ chain serve 4 (some (codes "c1")))
    × All (λ t. IsNamed companies 1 t.company_name) items
fetch_into_pages_example = fetch_into_pages company_of serve companies false loading serve-full

abbrev ask : Option Text → Result String (CursorPage ℕ Text)
ask c = ok (serve c)

ask-capped :
    (c : Option Text) (page : CursorPage ℕ Text) → ask c ≡ ok page → length page.items ≤ 100
ask-capped none page e =
    let same : serve none ≡ page = cc in subst (λ p. length p.items ≤ 100) same (omega arith)
ask-capped (some c) page e =
    let same : serve (some c) ≡ page = cc in subst (λ p. length p.items ≤ 100) same (omega arith)

abbrev screen : Triage
screen = record {
  items = 11 ∷ 12 ∷ 13 ∷ [];
  index = 0;
  decisions = [];
  pending_undo = none;
  flying = none;
  is_swapping = false;
  show_help = false;
  show_resume = false;
  saves = [];
  errors = 0;
}

abbrev review : List Event
review =
    chose approved
    ∷ committed
    ∷ swap_ended
    ∷ answered true
    ∷ chose rejected
    ∷ undone
    ∷ jumped 2
    ∷ answered true
    ∷ []

run-current_example :
    let s' = run review screen in
    (total s' ≡ 3) × (s'.index < total s') × (app : ℕ) × (current s' ≡ some app)
run-current_example = run-current review screen (omega arith) refl

undo-decide_example :
    let s' = undo (decide approved screen) in
    ((j : ℕ) → lookup j s'.decisions ≡ lookup j screen.decisions)
    × (s'.index ≡ 0)
    × (s'.pending_undo ≡ none)
    × (s'.saves
        ≡ screen.saves
          ++ decided 11 approved
            ∷ reverted 11 (some (record { decision = approved; prev_index = 0 }))
            ∷ [])
unfolding lookup
undo-decide_example = undo-decide approved 11 screen refl refl refl

abbrev world : World
world = record { screen = screen; statuses = λ app. none }

world_run-shown_example :
    let w' = world_run review world in shown w'.screen 11 ≡ takes_all w'.screen.saves w'.statuses 11
unfolding takes_all lookup
world_run-shown_example =
    world_run-shown review world (refl, (refl, (refl, (refl, (refl, (refl, (refl, (refl, tt))))))))
      (λ a. refl) 11

-- The first candidate was approved, and the server has that.
abbrev approved_once : World
approved_once = record {
  screen = record screen { decisions = (11, record { decision = approved; prev_index = 0 }) ∷ [] };
  statuses = λ app.
      shown
        (record screen { decisions = (11, record { decision = approved; prev_index = 0 }) ∷ [] })
        app;
}
