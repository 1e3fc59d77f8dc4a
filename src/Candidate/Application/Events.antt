-- ===== src/Candidate/Application/Events.antt =====
-- The events of CandidateApplicationDetailPage.tsx, each with the part of the page that holds its
-- control, and their runs.
use rs_recruitment.Base.{
  Bool, true, false, not, ◌&&◌, Option, none, some, List, [], ◌∷◌, Text, is_empty, if◌then◌else◌,
}
use rs_recruitment.Candidate.Application.{
  MyAnswers, Detail, DetailPage, Failure, load_fails, download_resume, start_editing,
  cancel_editing, handle_save, saved, save_fails, handle_withdraw, withdraw_fails,
}

pub data Question : Type 0 where
  service_concept : Question
  salary_expectations : Question
  strength : Question
  growth_area : Question

-- `{ ...editForm, [question]: v || null }`
unfoldable pub with_answer : Question → Text → MyAnswers → MyAnswers
with_answer q v form = let answer = if is_empty v then none else some v in answered q answer
  where
    answered : Question → Option Text → MyAnswers
    answered service_concept a = record form { service_concept = a }
    answered salary_expectations a = record form { salary_expectations = a }
    answered strength a = record form { strength = a }
    answered growth_area a = record form { growth_area = a }

pub data Event : Type 0 where
  loaded : Detail → Event
  load_failed : Failure → Event
  download : Event
  downloaded : Event
  download_failed : Event
  edit : Event
  answer : Question → Text → Event
  stage : Option Text → Event
  cancel : Event
  save : Event
  save_answered : Detail → Event
  save_failed : Failure → Event
  ask_withdraw : Bool → Event
  withdraw : Event
  withdrawn : Event
  withdraw_failed : Failure → Event

abbrev pub is_some : {A : Type 0} → Option A → Bool
is_some none = false
is_some (some x) = true

-- The page itself is shown: neither loading, nor an error, nor without data.
unfoldable pub shows_page : DetailPage → Bool
shows_page w = not w.loading && not (is_some w.error) && is_some w.detail

abbrev pub is_editable : Option Detail → Bool
is_editable none = false
is_editable (some d) = d.editable

unfoldable pub reacts : Event → DetailPage → Bool
unfolding shows_page
reacts (loaded d) w = w.loading
reacts (load_failed err) w = w.loading
reacts download w = shows_page w && not w.is_editing
reacts downloaded w = w.downloading
reacts download_failed w = w.downloading
reacts edit w = shows_page w && is_editable w.detail && not w.is_editing
reacts (answer q v) w = shows_page w && w.is_editing
reacts (stage file) w = shows_page w && w.is_editing
reacts cancel w = shows_page w && w.is_editing && not w.saving
reacts save w = shows_page w && w.is_editing && not w.saving
reacts (save_answered d) w = w.saving
reacts (save_failed err) w = w.saving
reacts (ask_withdraw true) w = shows_page w && is_editable w.detail && not w.is_editing
reacts (ask_withdraw false) w = shows_page w && not w.withdrawing
reacts withdraw w = shows_page w && w.withdraw_open && not w.withdrawing
reacts withdrawn w = w.withdrawing
reacts (withdraw_failed err) w = w.withdrawing

abbrev pub edited : Question → Text → Option MyAnswers → Option MyAnswers
edited q v none = none
edited q v (some form) = some (with_answer q v form)

unfoldable pub handle : Event → DetailPage → DetailPage
unfolding with_answer load_fails download_resume start_editing cancel_editing handle_save saved
    save_fails handle_withdraw withdraw_fails
handle (loaded d) w = record w { detail = some d; loading = false }
handle (load_failed err) w = load_fails err w
handle download w = download_resume w
handle downloaded w = record w { downloading = false }
handle download_failed w = record w {
  error = some "candidate:applications.errors.generic";
  downloading = false;
}
handle edit w = start_editing w
handle (answer q v) w = record w { edit_form = edited q v w.edit_form }
handle (stage file) w = record w { staged_resume = file }
handle cancel w = cancel_editing w
handle save w = handle_save w
handle (save_answered d) w = saved d w
handle (save_failed err) w = save_fails err w
handle (ask_withdraw b) w = record w { withdraw_open = b }
handle withdraw w = handle_withdraw w
handle withdrawn w = record w { left = true; withdrawing = false }
handle (withdraw_failed err) w = withdraw_fails err w

unfoldable pub step : Event → DetailPage → DetailPage
unfolding handle reacts
step e w = let w' = handle e w in if reacts e w then w' else w

unfoldable pub run : List Event → DetailPage → DetailPage
unfolding step
run [] w = w
run (e ∷ es) w = run es (step e w)
