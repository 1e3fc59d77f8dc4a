-- ===== src/JobTags.antt =====
-- The tags of a job: frontend/src/components/ui/JobTagsInput.tsx. The parent holds the tags and sets
-- them to what `onChange` is called with. `lower` is `toLowerCase`, `array_move`
-- the library's `arrayMove`.
mod Lists
pub mod Distinct
mod Tests
use rs_recruitment.Base.{
  ℕ, suc, Option, none, some, ltb, leb, length, Text, text_eq, is_empty, any, keep, map, Bool, true,
  false, not, ◌&&◌, ◌||◌, List, [], ◌∷◌, ◌++◌, if◌then◌else◌,
}
unfoldable use rs_recruitment.Base.{trim}
use rs_recruitment.Sortable.{ArrayMove}

abbrev pub job_tag_max_len : ℕ
job_tag_max_len = 30

abbrev pub job_tag_max_count : ℕ
job_tag_max_count = 6

module _ (lower : Text → Text) where
  abbrev pub same : Text → Text → Bool
  same a b = text_eq (lower a) (lower b)

  -- The tags that no tag before them equals, where `before` stands before them in the array.
  unfoldable pub uniq_from : List Text → List Text → List Text
  uniq_from before [] = []
  uniq_from before (tag ∷ tags) =
      let rest = uniq_from (tag ∷ before) tags in if any (same tag) before then rest else tag ∷ rest

  unfoldable pub uniq_value : List Text → List Text
  unfolding uniq_from
  uniq_value value = uniq_from [] value

  -- `commit` of the pill that adds a tag, which is there only while there is room.
  unfoldable pub add_tag : Text → List Text → List Text
  unfolding trim
  add_tag draft tags =
      let trimmed = trim draft in
      if not (ltb (length tags) job_tag_max_count)
      then tags
      else if not (is_empty trimmed)
          && leb (length trimmed) job_tag_max_len
          && not (any (same trimmed) tags)
      then tags ++ trimmed ∷ []
      else tags

  unfoldable pub edit : Text → Text → List Text → List Text
  edit old_tag new_tag tags =
      if any (λ t. same new_tag t && not (text_eq t old_tag)) tags
      then tags
      else map (λ t. if text_eq t old_tag then new_tag else t) tags

  -- `commit` of a tag under edit.
  unfoldable pub edit_tag : Text → Text → List Text → List Text
  unfolding edit trim
  edit_tag tag draft tags =
      let trimmed = trim draft in
      if not (is_empty trimmed) && not (text_eq trimmed tag) then edit tag trimmed tags else tags

abbrev pub remove : Text → List Text → List Text
remove tag tags = keep (λ t. not (text_eq t tag)) tags

-- `uniqValue.indexOf(tag)`: `none` is -1.
abbrev pub next_index : Bool → Option ℕ → Option ℕ
next_index true rest = some 0
next_index false none = none
next_index false (some i) = some (suc i)

abbrev pub index_of : Text → List Text → Option ℕ
index_of tag [] = none
index_of tag (t ∷ ts) = next_index (text_eq t tag) (index_of tag ts)

abbrev pub moved : ArrayMove → Option ℕ → Option ℕ → List Text → List Text
moved array_move (some old_index) (some new_index) tags = array_move Text tags old_index new_index
moved array_move _ _ tags = tags

unfoldable pub handle_drag_end : ArrayMove → Text → Option Text → List Text → List Text
handle_drag_end array_move active none tags = tags
handle_drag_end array_move active (some over) tags =
    let tags' = moved array_move (index_of active tags) (index_of over tags) tags in
    if text_eq active over then tags else tags'

pub data Event : Type 0 where
  added : Text → Event
  edited : Text → Text → Event
  removed : Text → Event
  -- The end of a drag: the tag, and the one it is over.
  dragged : Text → Option Text → Event
  -- The parent is given tags from elsewhere.
  seeded : List Text → Event

module _ (lower : Text → Text) (array_move : ArrayMove) where
  -- Each handler starts from the distinct tags of the render.
  unfoldable pub step : Event → List Text → List Text
  unfolding uniq_value add_tag edit_tag handle_drag_end
  step (added draft) value = add_tag lower draft (uniq_value lower value)
  step (edited tag draft) value = edit_tag lower tag draft (uniq_value lower value)
  step (removed tag) value = remove tag (uniq_value lower value)
  step (dragged active over) value = handle_drag_end array_move active over (uniq_value lower value)
  step (seeded tags) value = uniq_value lower tags
