-- ===== src/Triage/Queue.antt =====
-- Loading the queue: frontend/src/pages/admin/components/useTriageQueue.ts. `A` is the type of the
-- applications, `X` of the errors. The two services are parameters: a page of the NEW applications
-- from a cursor on, and the first page of the active companies as pairs of id and name.
pub mod Laws
use rs_recruitment.Base.{
  ℕ, zero, suc, String, Bool, true, false, Text, is_empty, Option, none, some, List, [], ◌∷◌, ◌++◌,
  map, ◌==◌, if◌then◌else◌,
}
use rs_recruitment.Feed.{CursorPage}

pub data Result {ℓ} (X : Type 0) (A : Type ℓ) : Type ℓ where
  ok : A → Result X A
  err : X → Result X A

infixl 5 ◌>>=◌
abbrev pub ◌>>=◌ {ℓ κ} :
    {X : Type 0} {A : Type ℓ} {B : Type κ} → Result X A → (A → Result X B) → Result X B
ok a >>= f = f a
err x >>= f = err x

pub record TriageItem (A : Type 0) : Type 0 where
  pub app : A
  pub company_name : String

pub record State (A X : Type 0) : Type 0 where
  pub items : List (TriageItem A)
  pub is_loading : Bool
  pub error : Option X

abbrev pub page_size : ℕ
page_size = 100

abbrev pub max_pages : ℕ
max_pages = 5

-- `new Map(pairs).get(k)`: the last pair of a key counts.
unfoldable pub map_get : {V : Type 0} → List (ℕ × V) → ℕ → Option V
map_get [] k = none
map_get ((j, v) ∷ m) k = elim (map_get m k) [
  | none ↦ if j == k then some v else none
  | some w ↦ some w
]

module _ {A : Type 0} (company_id : A → ℕ) where
  unfoldable pub to_triage_item : List (ℕ × String) → A → TriageItem A
  to_triage_item names app = record {
    app = app;
    company_name = elim (map_get names (company_id app)) [ none ↦ "—" | some name ↦ name ];
  }

module _ {A X : Type 0} (company_id : A → ℕ)
    (get_applications : Option Text → Result X (CursorPage A Text))
    (get_active_companies : Result X (List (ℕ × String))) where
  -- The `for` loop: `n` rounds are left, and an absent or empty cursor ends it.
  unfoldable pub fetch_pages :
      ℕ → List (ℕ × String) → Option Text → List (TriageItem A) → Result X (List (TriageItem A))
  fetch_pages zero names c apps = ok apps
  fetch_pages (suc n) names none apps = ok apps
  fetch_pages (suc n) names (some []) apps = ok apps
  fetch_pages (suc n) names (some (u ∷ c)) apps = do
    page ← get_applications (some (u ∷ c))
    fetch_pages n names page.next_cursor (apps ++ map (to_triage_item company_id names) page.items)

  -- The `try` block of `fetchInto`. `Promise.all` waits for both; which of two errors it reports
  -- is open, and the model takes the first.
  unfoldable pub fetch_all : Result X (List (TriageItem A))
  fetch_all = do
    first ← get_applications none
    names ← get_active_companies
    fetch_pages 4 names first.next_cursor (map (to_triage_item company_id names) first.items)

  -- `fetchInto`: what it leaves in the state, where `aborted` is the signal's state on an error.
  unfoldable pub fetch_into : Bool → State A X → State A X
  fetch_into aborted s = elim fetch_all [
    | ok apps ↦ record { items = apps; is_loading = false; error = none }
    | err x ↦ if aborted then s else record { items = []; is_loading = false; error = some x }
  ]

  -- `reload`, up to the end of its fetch, which nothing aborts.
  unfoldable pub reload : State A X → State A X
  reload s = fetch_into false (record s { is_loading = true; error = none })
