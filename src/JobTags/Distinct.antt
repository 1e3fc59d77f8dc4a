-- ===== src/JobTags/Distinct.antt =====
-- The tags that JobTagsInput.tsx leaves, compared without regard to case.
use rs_recruitment.Sortable.{ArrayMove, Moves, length-move}
use rs_recruitment.Feed.{delete_at}
use rs_recruitment.Base.{
  if_case, ℕ, ◌<◌, get_elem?, Option, none, some, ◌≤◌, length, length-append, length-map,
  length-keep, Text, text_eq, trim, ◌≢◌, ◌≡◌, refl, Bool, true, false, not, List, [], ◌∷◌, arith,
  if◌then◌else◌,
}
use rs_recruitment.JobTags.{
  uniq_value, add_tag, edit, edit_tag, Event, added, edited, removed, dragged, seeded, step,
  handle_drag_end, moved, index_of, next_index,
}
use rs_recruitment.JobTags.Lists.{
  AllDistinct, uniq_value-keeps, keep-AllDistinct, edit-AllDistinct, uniq_value-AllDistinct,
  add_tag-AllDistinct, delete_at-AllDistinct, others-any, insert_at-AllDistinct,
}

-- The index of a tag that is found.
abbrev IsFound : List Text → Option ℕ → Type 0
IsFound ts none = Unit
IsFound ts (some i) = (a : Text) × (get_elem? ts i ≡ some a) × (i < length ts)

next_index-IsFound :
    (t : Text) (ts : List Text) (b : Bool) (r : Option ℕ)
    → IsFound ts r
    → IsFound (t ∷ ts) (next_index b r)
next_index-IsFound t ts true r h = (t, refl, omega arith)
next_index-IsFound t ts false none h = tt
next_index-IsFound t ts false (some i) h = (h.0, h.1, omega (arith, h.2))

index_of-IsFound : (tag : Text) (ts : List Text) → IsFound ts (index_of tag ts)
index_of-IsFound tag [] = tt
index_of-IsFound tag (t ∷ ts) =
    next_index-IsFound t ts (text_eq t tag) (index_of tag ts) (index_of-IsFound tag ts)

module _ (lower : Text → Text) (array_move : ArrayMove) (moves : Moves array_move) where
  moved-AllDistinct :
      (from to : Option ℕ) (ts : List Text)
      → IsFound ts from
      → IsFound ts to
      → AllDistinct lower ts
      → AllDistinct lower (moved array_move from to ts)
  moved-AllDistinct none to ts h h' v = v
  moved-AllDistinct (some i) none ts h h' v = v
  moved-AllDistinct (some i) (some j) ts (a, found, inside) (b, found', inside') v =
      rw (moves Text ts i j a found inside') (
        insert_at-AllDistinct lower j a (delete_at i ts) (delete_at-AllDistinct lower i ts v)
          (others-any lower i ts a found v))

  handle_drag_end-AllDistinct :
      (active : Text) (over : Option Text) (ts : List Text)
      → AllDistinct lower ts
      → AllDistinct lower (handle_drag_end array_move active over ts)
  unfolding handle_drag_end
  handle_drag_end-AllDistinct active none ts v = v
  handle_drag_end-AllDistinct active (some over) ts v =
      if_case (AllDistinct lower) (text_eq active over) ts _ (λ e. v)
        (λ e. moved-AllDistinct _ _ ts (index_of-IsFound active ts) (index_of-IsFound over ts) v)

  moved-length :
      (from to : Option ℕ) (ts : List Text)
      → IsFound ts from
      → IsFound ts to
      → length (moved array_move from to ts) ≡ length ts
  moved-length none to ts h h' = refl
  moved-length (some i) none ts h h' = refl
  moved-length (some i) (some j) ts (a, found, inside) (b, found', inside') =
      length-move array_move moves Text ts i j a found inside'

  handle_drag_end-length :
      (active : Text) (over : Option Text) (ts : List Text)
      → length (handle_drag_end array_move active over ts) ≡ length ts
  unfolding handle_drag_end
  handle_drag_end-length active none ts = refl
  handle_drag_end-length active (some over) ts =
      if_case (λ us. length us ≡ length ts) (text_eq active over) ts _ (λ e. refl)
        (λ e. moved-length _ _ ts (index_of-IsFound active ts) (index_of-IsFound over ts))

  -- Whatever tags the parent holds, after adding, editing, removing or dragging a tag, with an
  -- `arrayMove` that takes an element out and puts it in where it is told, or after a new list from
  -- the parent, no two tags are the same but for case.
  pub step-AllDistinct :
      (e : Event) (value : List Text) → AllDistinct lower (step lower array_move e value)
  unfolding step edit_tag
  step-AllDistinct (added draft) value =
      add_tag-AllDistinct lower draft (uniq_value lower value) (uniq_value-AllDistinct lower value)
  step-AllDistinct (edited tag draft) value =
      let kept = uniq_value-AllDistinct lower value in
      let changed = edit-AllDistinct lower tag (trim draft) (uniq_value lower value) kept in
      ground arith
  step-AllDistinct (removed tag) value =
      keep-AllDistinct lower (λ t. not (text_eq t tag)) (uniq_value lower value)
        (uniq_value-AllDistinct lower value)
  step-AllDistinct (seeded tags) value = uniq_value-AllDistinct lower tags
  step-AllDistinct (dragged active over) value =
      handle_drag_end-AllDistinct active over (uniq_value lower value)
        (uniq_value-AllDistinct lower value)

  -- From at most six tags, adding, editing, removing and dragging leave at most six.
  pub step-length :
      (e : Event) (value : List Text)
      → length value ≤ 6
      → ((tags : List Text) → e ≢ seeded tags)
      → length (step lower array_move e value) ≤ 6
  unfolding step edit_tag edit add_tag
  step-length (added draft) value few own =
      let fewer = (uniq_value-keeps lower [] value).1 in
      ground (arith, length-append (uniq_value lower value) (trim draft ∷ []))
  step-length (edited tag draft) value few own =
      let fewer = (uniq_value-keeps lower [] value).1 in
      ground
        (arith, length-map (λ t. if text_eq t tag then trim draft else t) (uniq_value lower value))
  step-length (removed tag) value few own = omega (
    arith,
    (uniq_value-keeps lower [] value).1,
    length-keep (λ t. not (text_eq t tag)) (uniq_value lower value),
  )
  step-length (dragged active over) value few own = omega (
    arith,
    (uniq_value-keeps lower [] value).1,
    handle_drag_end-length active over (uniq_value lower value),
  )
  step-length (seeded tags) value few own = absurd (own tags refl)
