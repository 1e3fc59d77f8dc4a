-- ===== src/Admin/Tests.antt =====
-- The administrator's filters over two jobs and two applications.
use rs_recruitment.Base.{
  Bool, ◌↔◌, Option, IsGiven, refl, ℕ, ◌==◌, if◌then◌else◌, ◌≡◌, Text, codes, trim, is_space, keep,
  map, true, false, none, some, List, [], ◌∷◌,
}
use rs_recruitment.JobBoard.{Job, filtered}
use rs_recruitment.Admin.Jobs.{AdminJob, published, pending_approval, filtered_jobs}
use rs_recruitment.Admin.Jobs.Board.{shared, filtered_jobs-board}
use rs_recruitment.Admin.Jobs.Page.{
  JobsPage, JobsEvent, approve, approved, ask_delete, confirm_delete, deleted, handle_jobs,
  handle_approved,
}
use rs_recruitment.Admin.Jobs.Sync.{Server, IsInSync, run_server, run_jobs, run_jobs-IsInSync}
use rs_recruitment.Admin.Applications.{Application, new, hired, withdrawn, sections}
use rs_recruitment.Admin.Applications.Wanted.{IsWanted, IsOver}
use rs_recruitment.Admin.Applications.Sections.{sections-keep}
use rs_recruitment.Admin.Applications.Dialogs.{
  NotesDialog, status_start, notes_start, pick, write, show_notes, save_notes, edit_notes,
  notes_saved,
}
use rs_recruitment.Admin.Applications.Dialogs.Drafts.{session_status, session_notes, sessions-sent}

same_text : Text → Text
same_text s = s

abbrev welder : Job
welder = record {
  title = codes "Welder";
  location = codes "Haifa";
  short_description = [];
  description = [];
  requirements = codes "steel" ∷ [];
  tags = [];
  salary_min = some 9000;
  salary_max = some 12000;
}

abbrev jobs : List AdminJob
jobs =
    record { id = 1; status = published; company_id = 1; is_featured = true; job = welder }
    ∷ record {
      id = 2;
      status = pending_approval;
      company_id = 2;
      is_featured = false;
      job = record welder { title = codes "Cook" };
    }
    ∷ []

filtered_jobs-board_example :
    map
      (λ j. j.job)
      (filtered_jobs same_text (shared same_text (codes "Cook") [] (some (9500, 12000))) jobs)
    ≡ filtered same_text (codes "Cook") [] (some (9500, 12000)) (map (λ j. j.job) jobs)
filtered_jobs-board_example =
    filtered_jobs-board same_text (codes "Cook") [] (some (9500, 12000)) jobs

abbrev dana : Application
dana = record {
  id = 1;
  status = new;
  job_id = 5;
  company_id = 2;
  full_name = codes "Dana";
  email = codes "d@e.f";
  phone = none;
  title = codes "Cook";
  location = codes "Haifa";
  admin_notes = none;
}

abbrev applications : List Application
applications = dana ∷ record dana { id = 2; status = withdrawn } ∷ []

sections-keep_example :
    (p : Application → Bool) × (q : Application → Bool) × (sections same_text
        (codes "cook")
        (5 ∷ [])
        []
        applications
      ≡ (keep p applications, keep q applications))
    × ((a : Application)
        → (p a ≡ true) ↔ (IsWanted same_text (codes "cook") (5 ∷ []) [] a × ¬ IsOver a.status))
    × ((a : Application)
        → (q a ≡ true) ↔ (IsWanted same_text (codes "cook") (5 ∷ []) [] a × IsOver a.status))
sections-keep_example = sections-keep same_text (codes "cook") (5 ∷ []) [] applications

abbrev job_list : JobsPage ℕ ℕ ℕ
job_list = record {
  list = record {
    state = record {
      items = jobs;
      cursor = none;
      has_more = false;
      is_loading = false;
      is_fetching_more = false;
      error = none;
    };
    fetcher = 0;
    in_flight = false;
    pending = [];
  };
  detail = none;
  job_in_url = none;
  delete_pending = none;
  reject_pending = none;
  pending_mutation = false;
  approving = [];
  rejecting = none;
  deleting = none;
  toasts = [];
}

abbrev cook : AdminJob
cook = record {
  id = 2;
  status = pending_approval;
  company_id = 2;
  is_featured = false;
  job = record welder { title = codes "Cook" };
}

abbrev served : Server
served i = if i == 1 then some published else if i == 2 then some pending_approval else none

abbrev clicks : List (JobsEvent ℕ ℕ ℕ)
clicks =
    approve cook
    ∷ approved 0 (record cook { status = published })
    ∷ ask_delete (some cook)
    ∷ confirm_delete
    ∷ deleted
    ∷ []

run_jobs-IsInSync_example :
    IsInSync (run_server clicks job_list served) (run_jobs clicks job_list).list.state.items
unfolding handle_jobs handle_approved
run_jobs-IsInSync_example =
    run_jobs-IsInSync clicks job_list served (tt, (refl, (tt, (tt, (tt, tt))))) (refl, (refl, tt))

-- The notes dialog after it has saved the notes of another application.
abbrev noted : NotesDialog
noted =
    notes_saved
      (session_notes (record dana { id = 7 }) (write (codes "call back") ∷ []) notes_start)

abbrev dana_noted : Application
dana_noted = record dana { admin_notes = some (codes "met on Monday") }

sessions-sent_example :
    ((notes : Option Text) × IsGiven (codes "met on Monday") (trim (codes "met on Monday")) notes
      × ((session_status dana_noted (pick hired ∷ []) status_start).sent
          ≡ record { id = 1; status = hired; admin_notes = notes } ∷ []))
    × ((notes : Option Text) × IsGiven (codes "call back") (codes "call back") notes
        × ((session_notes dana_noted (pick hired ∷ []) noted).sent
            ≡ record { id = 1; admin_notes = notes }
              ∷ record { id = 7; admin_notes = some (codes "call back") }
              ∷ []))
unfolding notes_saved show_notes save_notes edit_notes trim is_space
sessions-sent_example = sessions-sent dana_noted (pick hired ∷ []) status_start noted refl refl
