-- ===== src/Candidate/Tests.antt =====
-- The candidate's pages at single values and runs.
use rs_recruitment.Base.{
  any, is_ink, HasInk, ◌≡◌, ◌≢◌, ◌⊎◌, true, false, refl, none, some, List, [], ◌∷◌, Text, codes,
  trim,
}
use rs_recruitment.Candidate.Application.{MyAnswers, Detail, DetailPage, start, handle_save}
use rs_recruitment.Candidate.Application.Patch.{IsQuiet, IsSent, handle_save_cases}
use rs_recruitment.Candidate.Application.Events.{
  Event, loaded, edit, answer, save, strength, is_some, is_editable, step, run,
}
use rs_recruitment.Candidate.Application.Run.{run-editing}
use rs_recruitment.Candidate.Resume.{Card, start as card_start, commit_as}
use rs_recruitment.Candidate.Resume.Names.{IsRenamed, commit_as_cases}

abbrev answers : MyAnswers
answers = record {
  service_concept = some (codes "kind");
  salary_expectations = none;
  strength = none;
  growth_area = none;
}

abbrev application : Detail
application = record {
  id = 7;
  editable = true;
  my_answers = answers;
  resume = some (codes "cv.pdf");
}

abbrev bold : MyAnswers
bold = record answers { strength = some (codes "bold") }

abbrev editing : DetailPage
editing = record (start (some 7)) {
  detail = some application;
  loading = false;
  is_editing = true;
  edit_form = some bold;
}

handle_save_cases_example :
    ((bold ≡ answers) × (editing.staged_resume ≡ none) × IsQuiet editing (handle_save editing))
    ⊎ ((¬ ((bold ≡ answers) × (editing.staged_resume ≡ none)))
        × IsSent application bold editing (handle_save editing))
handle_save_cases_example = handle_save_cases editing application bold refl refl

abbrev edits : List Event
edits = loaded application ∷ edit ∷ answer strength (codes "bold") ∷ []

run-editing_example :
    ((run edits (start (some 7))).is_editing ≡ is_some (run edits (start (some 7))).edit_form)
    × ((run edits (start (some 7))).is_editing ≡ true
        → is_editable (run edits (start (some 7))).detail ≡ true)
    × (((step save (run edits (start (some 7)))).saves ≡ (run edits (start (some 7))).saves)
        ⊎ (is_editable (run edits (start (some 7))).detail ≡ true))
run-editing_example = run-editing (some 7) edits save

abbrev cv : Text
cv = codes "cv.old.pdf"

abbrev card : Card
card = record (card_start (record { resume_filename = some cv; resume_path = none })) {
  renaming = true;
  rename_value = codes " resume ";
}

commit_as_cases_example :
    (sent : Text) × IsRenamed cv (trim card.rename_value) sent
    × (((any is_ink card.rename_value ≡ false) ⊎ (sent ≡ cv))
          × ((commit_as cv card).renames ≡ [])
          × ((commit_as cv card).renaming ≡ false)
        ⊎ HasInk card.rename_value
          × (sent ≢ cv)
          × ((commit_as cv card).renames ≡ sent ∷ [])
          × ((commit_as cv card).renaming ≡ true)
          × ((commit_as cv card).busy ≡ true))
commit_as_cases_example = commit_as_cases cv card
