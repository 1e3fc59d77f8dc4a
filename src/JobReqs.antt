-- ===== src/JobReqs.antt =====
-- The requirements of a job: frontend/src/components/ui/JobRequirementsInput.tsx. The parent holds the
-- requirements, of which the model keeps the texts, and sets them to what `onChange` is called with.
-- The effect that keeps `ids` in step has run before the next event. `array_move` is the library's
-- `arrayMove`.
pub mod Move
pub mod Rows
pub mod Count
mod Tests
use rs_recruitment.Base.{
  ℕ, zero, suc, ◌+◌, ◌-◌, ltb, ◌==◌, length, take, get_elem?, Text, is_empty, Bool, true, false,
  not, ◌&&◌, Option, none, some, List, [], ◌∷◌, ◌++◌, if◌then◌else◌,
}
unfoldable use rs_recruitment.Base.{trim}
use rs_recruitment.Feed.{delete_at, is_set}
use rs_recruitment.Sortable.{ArrayMove}

abbrev pub job_req_min_count : ℕ
job_req_min_count = 3

abbrev pub job_req_max_count : ℕ
job_req_max_count = 15

pub record Reqs : Type 0 where
  pub value : List Text
  pub ids : List ℕ
  pub next_id : ℕ
  pub draft_new : Option Text

-- `k` numbers from `n` on: `nextId.current++`, k times.
abbrev pub fresh : ℕ → ℕ → List ℕ
fresh n zero = []
fresh n (suc k) = n ∷ fresh (suc n) k

-- The first render.
abbrev pub mounted : List Text → Reqs
mounted value = record {
  value = value;
  ids = fresh 0 (length value);
  next_id = length value;
  draft_new = none;
}

-- The effect.
unfoldable pub sync_ids : Reqs → Reqs
sync_ids s =
    if length s.ids == length s.value
    then s
    else if ltb (length s.value) (length s.ids)
    then record s { ids = take (length s.value) s.ids }
    else record s {
      ids = s.ids ++ fresh s.next_id (length s.value - length s.ids);
      next_id = s.next_id + (length s.value - length s.ids);
    }

-- `next[i] = …`, for a row that is there.
abbrev pub set_at : ℕ → Text → List Text → List Text
set_at i text [] = []
set_at zero text (r ∷ rs) = text ∷ rs
set_at (suc i) text (r ∷ rs) = r ∷ set_at i text rs

unfoldable pub update : ℕ → Text → Reqs → Reqs
update i text s = record s { value = set_at i text s.value }

unfoldable pub remove_row : ℕ → Reqs → Reqs
remove_row i s = record s { ids = delete_at i s.ids; value = delete_at i s.value }

abbrev pub can_add : Reqs → Bool
can_add s = ltb (length s.value) job_req_max_count

abbrev pub can_remove : Reqs → Bool
can_remove s = ltb job_req_min_count (length s.value)

-- `commit` of the i-th row, which is there only if the requirement is.
unfoldable pub commit_row : ℕ → Text → Reqs → Reqs
unfolding trim update remove_row
commit_row i draft s = elim (get_elem? s.value i) [
  | none ↦ s
  | some req ↦
      let trimmed = trim draft in
      if not (is_empty trimmed)
      then update i trimmed s
      else if is_empty req && can_remove s
      then remove_row i s
      else s
]

-- The button of a row that is there; it is disabled where no row may go.
unfoldable pub press_remove : ℕ → Reqs → Reqs
unfolding remove_row
press_remove i s = if can_remove s && is_set (get_elem? s.value i) then remove_row i s else s

-- The button is disabled where there is no room or an input is open.
unfoldable pub add : Reqs → Reqs
add s = if can_add s && not (is_set s.draft_new) then record s { draft_new = some [] } else s

unfoldable pub commit_new : Reqs → Reqs
unfolding trim
commit_new s = elim s.draft_new [
  | none ↦ s
  | some draft ↦
      let trimmed = trim draft in
      if ltb 0 (length trimmed)
      then record s {
        next_id = s.next_id + 1;
        ids = s.ids ++ s.next_id ∷ [];
        value = s.value ++ trimmed ∷ [];
        draft_new = none;
      }
      else record s { draft_new = none }
]

-- `xs.indexOf(x)`: `none` is -1.
abbrev pub next_index : Bool → Option ℕ → Option ℕ
next_index true rest = some 0
next_index false none = none
next_index false (some i) = some (suc i)

abbrev pub index_of : ℕ → List ℕ → Option ℕ
index_of k [] = none
index_of k (j ∷ ids) = next_index (j == k) (index_of k ids)

unfoldable pub render_ids : Reqs → List ℕ
render_ids s = if ltb (length s.value) (length s.ids) then take (length s.value) s.ids else s.ids

pub data Event : Type 0 where
  committed : ℕ → Text → Event
  removed : ℕ → Event
  opened added cancelled : Event
  typed : Text → Event
  seeded : List Text → Event
  -- The end of a drag: the row's key, and that of the row it is over.
  dragged : ℕ → Option ℕ → Event

module _ (array_move : ArrayMove) where
  abbrev pub moved : Option ℕ → Option ℕ → Reqs → Reqs
  moved (some old_index) (some new_index) s = record s {
    ids = array_move ℕ s.ids old_index new_index;
    value = array_move Text s.value old_index new_index;
  }
  moved _ _ s = s

  unfoldable pub handle_drag_end : ℕ → Option ℕ → Reqs → Reqs
  unfolding render_ids
  handle_drag_end active none s = s
  handle_drag_end active (some over) s =
      let s' = moved (index_of active (render_ids s)) (index_of over (render_ids s)) s in
      if active == over then s else s'

  -- The handler of an event; a draft can be typed only where the input is open.
  unfoldable pub handle : Event → Reqs → Reqs
  unfolding commit_row press_remove add commit_new handle_drag_end
  handle (committed i draft) s = commit_row i draft s
  handle (removed i) s = press_remove i s
  handle opened s = add s
  handle added s = commit_new s
  handle cancelled s = record s { draft_new = none }
  handle (typed draft) s = if is_set s.draft_new then record s { draft_new = some draft } else s
  handle (seeded value) s = record s { value = value }
  handle (dragged active over) s = handle_drag_end active over s

  unfoldable pub run : List Event → Reqs → Reqs
  unfolding sync_ids handle
  run [] s = s
  run (e ∷ es) s = run es (sync_ids (handle e s))
