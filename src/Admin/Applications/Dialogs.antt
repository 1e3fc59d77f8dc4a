-- ===== src/Admin/Applications/Dialogs.antt =====
-- The two dialogs of AdminApplicationsPage.tsx that save an application:
-- frontend/src/pages/admin/components/ApplicationStatusDialog.tsx and ApplicationNotesDialog.tsx, both
-- of them mounted for as long as the page is, with the application that the page hands them. `sent`
-- are the requests, the last one first. The page closes a dialog once its save is answered.
pub mod Drafts
use rs_recruitment.Base.{
  ℕ, ◌==◌, Text, is_empty, Bool, true, false, not, ◌&&◌, Option, none, some, List, [], ◌∷◌,
  if◌then◌else◌,
}
unfoldable use rs_recruitment.Base.{trim}
use rs_recruitment.Feed.{Hook}
unfoldable use rs_recruitment.Feed.{update_item}
use rs_recruitment.Admin.Applications.{
  Application, ApplicationStatus, new, approved_by_admin, rejected, hired, withdrawn, job_closed,
  or_blank,
}

-- The arguments of `updateApplicationStatus`.
pub record StatusUpdate : Type 0 where
  pub id : ℕ
  pub status : ApplicationStatus
  pub admin_notes : Option Text

-- The arguments of `updateApplicationNotes`.
pub record NotesUpdate : Type 0 where
  pub id : ℕ
  pub admin_notes : Option Text

pub record StatusDialog : Type 0 where
  pub app : Option Application
  pub new_status : ApplicationStatus
  pub notes : Text
  pub saving : Bool
  pub last_app_id : Option ℕ
  pub sent : List StatusUpdate

pub record NotesDialog : Type 0 where
  pub app : Option Application
  pub notes : Text
  pub saving : Bool
  pub sent : List NotesUpdate

-- The first render: the page has no application for either.
abbrev pub status_start : StatusDialog
status_start = record {
  app = none;
  new_status = new;
  notes = [];
  saving = false;
  last_app_id = none;
  sent = [];
}

abbrev pub notes_start : NotesDialog
notes_start = record { app = none; notes = []; saving = false; sent = [] }

abbrev pub is_last : Option ℕ → ℕ → Bool
is_last none id = false
is_last (some last) id = last == id

-- The page hands the dialog an application, or takes it away; then the effect seeds the fields.
unfoldable pub show_status : Option Application → StatusDialog → StatusDialog
show_status none w = record w { app = none; last_app_id = none }
show_status (some a) w =
    if is_last w.last_app_id a.id then record w { app = some a } else record w {
      app = some a;
      last_app_id = some a.id;
      new_status = a.status;
      notes = or_blank a.admin_notes;
    }

unfoldable pub show_notes : Option Application → NotesDialog → NotesDialog
show_notes app v = record v { app = app }

-- `notes.trim() || null`
abbrev pub trimmed_or_null : Text → Option Text
trimmed_or_null s = let t = trim s in if is_empty t then none else some t

-- `notes.trim() ? notes : null`
abbrev pub inked_or_null : Text → Option Text
inked_or_null s = if is_empty (trim s) then none else some s

-- `handleSave` up to its `await`; its button is disabled while it is saving.
abbrev pub start_status : Option Application → StatusDialog → StatusDialog
start_status none w = w
start_status (some a) w = record w {
  saving = true;
  sent =
      record { id = a.id; status = w.new_status; admin_notes = trimmed_or_null w.notes } ∷ w.sent;
}

unfoldable pub save_status : StatusDialog → StatusDialog
save_status w = let w' = start_status w.app w in if w.saving then w else w'

abbrev pub start_notes : Option Application → NotesDialog → NotesDialog
start_notes none v = v
start_notes (some a) v = record v {
  saving = true;
  sent = record { id = a.id; admin_notes = inked_or_null v.notes } ∷ v.sent;
}

unfoldable pub save_notes : NotesDialog → NotesDialog
save_notes v = let v' = start_notes v.app v in if v.saving then v else v'

-- What the administrator types and picks while a dialog is open.
pub data Edit : Type 0 where
  pick : ApplicationStatus → Edit
  write : Text → Edit

unfoldable pub edit_status : Edit → StatusDialog → StatusDialog
edit_status (pick s) w = record w { new_status = s }
edit_status (write t) w = record w { notes = t }

-- The notes dialog has no status to pick.
unfoldable pub edit_notes : Edit → NotesDialog → NotesDialog
edit_notes (pick s) v = v
edit_notes (write t) v = record v { notes = t }

-- The save is answered, and the page takes the application away; or it fails.
unfoldable pub status_saved : StatusDialog → StatusDialog
unfolding show_status
status_saved w = record (show_status none w) { saving = false }

unfoldable pub notes_saved : NotesDialog → NotesDialog
unfolding show_notes
notes_saved v = record (show_notes none v) { saving = false }

abbrev pub is_terminal : ApplicationStatus → Bool
is_terminal rejected = true
is_terminal hired = true
is_terminal _ = false

-- `isRevert`: the dialog warns that the application has been decided already.
abbrev pub is_status : ApplicationStatus → ApplicationStatus → Bool
is_status new new = true
is_status approved_by_admin approved_by_admin = true
is_status rejected rejected = true
is_status hired hired = true
is_status withdrawn withdrawn = true
is_status job_closed job_closed = true
is_status _ _ = false

abbrev pub is_revert : StatusDialog → Bool
is_revert w = elim w.app [
  | none ↦ false
  | some a ↦ is_terminal a.status && not (is_status w.new_status a.status)
]

-- The page's `onSaved`: the row of the application takes the fields that were answered.
module _ {C X F : Type 0} where
  unfoldable pub show_status_saved : StatusUpdate → Hook Application C X F → Hook Application C X F
  unfolding update_item
  show_status_saved updated list =
      update_item (λ a. a.id == updated.id)
        (λ prev. record prev { status = updated.status; admin_notes = updated.admin_notes }) list

  unfoldable pub show_notes_saved : NotesUpdate → Hook Application C X F → Hook Application C X F
  unfolding update_item
  show_notes_saved updated list =
      update_item (λ a. a.id == updated.id)
        (λ prev. record prev { admin_notes = updated.admin_notes }) list
