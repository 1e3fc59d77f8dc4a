-- ===== src/JobReqs/Count.antt =====
-- How many requirements JobRequirementsInput.tsx leaves.
use rs_recruitment.Base.{
  if_case, get_elem?-lt_length, Option, none, some, ◌==◌, inl, inr, ◌⊎◌, ℕ, zero, suc, ◌≤◌, ◌<◌,
  any, length, length-append, get_elem?, Option-cases, Text, trim, ◌≡◌, refl, Bool, true, false,
  List, [], ◌∷◌, arith,
}
use rs_recruitment.Feed.{is_set}
use rs_recruitment.Feed.Flight.{length-delete_at}
use rs_recruitment.Sortable.{ArrayMove, Moves, length-move}
use rs_recruitment.JobReqs.Move.{IsRow, index_of-IsRow}
use rs_recruitment.JobReqs.{
  Reqs, mounted, sync_ids, set_at, update, remove_row, commit_row, add, commit_new, Event, removed,
  press_remove, committed, opened, added, cancelled, typed, seeded, dragged, moved, handle_drag_end,
  handle, run,
}

length-set_at : (i : ℕ) (text : Text) (rs : List Text) → length (set_at i text rs) ≡ length rs
length-set_at i text [] = refl
length-set_at zero text (r ∷ rs) = refl
length-set_at (suc i) text (r ∷ rs) = omega (arith, length-set_at i text rs)

-- The number of requirements, and room for one more while the input is open.
abbrev IsBounded : Reqs → Type 0
IsBounded s =
    (3 ≤ length s.value)
    × (length s.value ≤ 15)
    × ((is_set s.draft_new ≡ false) ⊎ (length s.value < 15))

abbrev pub is_seed : Event → Bool
is_seed (seeded value) = true
is_seed _ = false

sync_ids-value :
    (s : Reqs) → ((sync_ids s).value ≡ s.value) × ((sync_ids s).draft_new ≡ s.draft_new)
unfolding sync_ids
sync_ids-value s = ground arith

commit_row-IsBounded :
    (i : ℕ) (draft : Text) (s : Reqs) → IsBounded s → IsBounded (commit_row i draft s)
unfolding commit_row update remove_row
commit_row-IsBounded i draft s v = elim (Option-cases (get_elem? s.value i)) [
  | inl missing ↦ rw (missing, commit_row) v
  | inr (req, found) ↦
      let fewer = length-delete_at i s.value found in
      let as_many = length-set_at i (trim draft) s.value in ground arith
]

press_remove-IsBounded : (i : ℕ) (s : Reqs) → IsBounded s → IsBounded (press_remove i s)
unfolding press_remove remove_row
press_remove-IsBounded i s v = elim (Option-cases (get_elem? s.value i)) [
  | inl missing ↦ rw missing (ground arith)
  | inr (req, found) ↦ let fewer = length-delete_at i s.value found in ground arith
]

commit_new-IsBounded : (s : Reqs) → IsBounded s → IsBounded (commit_new s)
unfolding commit_new
commit_new-IsBounded s v = elim (Option-cases s.draft_new) [
  | inl missing ↦ ground arith
  | inr (draft, found) ↦ ground (arith, length-append s.value (trim draft ∷ []))
]

module _ (array_move : ArrayMove) (moves : Moves array_move) where
  moved-IsBounded :
      (k o : ℕ) (from to : Option ℕ) (s : Reqs)
      → IsRow k s from
      → IsRow o s to
      → IsBounded s
      → IsBounded (moved array_move from to s)
  moved-IsBounded k o none to s h h' v = v
  moved-IsBounded k o (some i) none s h h' v = v
  moved-IsBounded k o (some i) (some j) s h h' v =
      let (req, found) = get_elem?-lt_length s.value i h.2 in
      let same = length-move array_move moves Text s.value i j req found h'.2 in rw same v

  handle_drag_end-IsBounded :
      (k : ℕ) (over : Option ℕ) (s : Reqs)
      → IsBounded s
      → IsBounded (handle_drag_end array_move k over s)
  unfolding handle_drag_end
  handle_drag_end-IsBounded k none s v = v
  handle_drag_end-IsBounded k (some o) s v =
      if_case IsBounded (k == o) s _ (λ e. v)
        (λ e. moved-IsBounded k o _ _ s (index_of-IsRow k s) (index_of-IsRow o s) v)

  handle-IsBounded :
      (e : Event) (s : Reqs) → is_seed e ≡ false → IsBounded s → IsBounded (handle array_move e s)
  unfolding handle add
  handle-IsBounded (committed i draft) s own v = commit_row-IsBounded i draft s v
  handle-IsBounded (removed i) s own v = press_remove-IsBounded i s v
  handle-IsBounded added s own v = commit_new-IsBounded s v
  handle-IsBounded opened s own v = ground arith
  handle-IsBounded cancelled s own v = ground arith
  handle-IsBounded (typed draft) s own v = ground arith
  handle-IsBounded (seeded value) s own v = cc
  handle-IsBounded (dragged k over) s own v = handle_drag_end-IsBounded k over s v

  run-IsBounded :
      (es : List Event) (s : Reqs)
      → any is_seed es ≡ false
      → IsBounded s
      → IsBounded (run array_move es s)
  unfolding run
  run-IsBounded [] s own v = v
  run-IsBounded (e ∷ es) s own v =
      let next = handle-IsBounded e s (ground arith) v in
      let (value, draft) = sync_ids-value (handle array_move e s) in
      run-IsBounded es (sync_ids (handle array_move e s)) (ground arith) (rw (value, draft) next)

  -- From three to fifteen requirements, editing, adding, removing and dragging leave from three to fifteen, as
  -- long as the parent gives no list of its own.
  pub run-length :
      (value : List Text) (es : List Event)
      → 3 ≤ length value
      → length value ≤ 15
      → any is_seed es ≡ false
      → (3 ≤ length (run array_move es (mounted value)).value)
        × (length (run array_move es (mounted value)).value ≤ 15)
  run-length value es least most own =
      let bounded = run-IsBounded es (mounted value) own (least, most, inl refl) in
      (bounded.0, bounded.1)
