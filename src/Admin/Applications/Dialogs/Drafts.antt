-- ===== src/Admin/Applications/Dialogs/Drafts.antt =====
-- What the two dialogs of the administrator's applications save when they are opened on an application.
use rs_recruitment.Base.{
  Option, trim, IsGiven, if_inked, ◌≡◌, refl, ap, Text, false, none, some, List, [], ◌∷◌,
}
use rs_recruitment.Admin.Applications.{Application, ApplicationStatus, or_blank}
use rs_recruitment.Admin.Applications.Dialogs.{
  StatusDialog, NotesDialog, Edit, pick, write, show_status, show_notes, save_status, save_notes,
  edit_status, edit_notes, trimmed_or_null, inked_or_null,
}

-- The last status picked and the last text typed, or the ones before.
abbrev pub picked : ApplicationStatus → List Edit → ApplicationStatus
picked before [] = before
picked before (pick s ∷ es) = picked s es
picked before (write t ∷ es) = picked before es

abbrev pub written : Text → List Edit → Text
written before [] = before
written before (pick s ∷ es) = written before es
written before (write t ∷ es) = written t es

abbrev pub edits_status : List Edit → StatusDialog → StatusDialog
edits_status [] w = w
edits_status (e ∷ es) w = edits_status es (edit_status e w)

abbrev pub edits_notes : List Edit → NotesDialog → NotesDialog
edits_notes [] v = v
edits_notes (e ∷ es) v = edits_notes es (edit_notes e v)

-- The page takes the application away and hands the dialog another, the edits are made, and it is saved.
abbrev pub session_status : Application → List Edit → StatusDialog → StatusDialog
session_status a es w = save_status (edits_status es (show_status (some a) (show_status none w)))

abbrev pub session_notes : Application → List Edit → NotesDialog → NotesDialog
session_notes a es v = save_notes (edits_notes es (show_notes (some a) (show_notes none v)))

edits_status_lem :
    (es : List Edit) (w : StatusDialog)
    → edits_status es w
      ≡ record w { new_status = picked w.new_status es; notes = written w.notes es }
unfolding edit_status
edits_status_lem [] w = refl
edits_status_lem (pick s ∷ es) w = edits_status_lem es (record w { new_status = s })
edits_status_lem (write t ∷ es) w = edits_status_lem es (record w { notes = t })

edits_notes_lem :
    (es : List Edit) (v : NotesDialog) → edits_notes es v ≡ record v { notes = written v.notes es }
unfolding edit_notes
edits_notes_lem [] v = refl
edits_notes_lem (pick s ∷ es) v = edits_notes_lem es v
edits_notes_lem (write t ∷ es) v = edits_notes_lem es (record v { notes = t })

session_status_lem :
    (a : Application) (es : List Edit) (w : StatusDialog)
    → w.saving ≡ false
    → let draft = written (or_blank a.admin_notes) es in
      (notes : Option Text) × IsGiven draft (trim draft) notes
      × ((session_status a es w).sent
          ≡ record { id = a.id; status = picked a.status es; admin_notes = notes } ∷ w.sent)
unfolding show_status save_status
session_status_lem a es w e =
    let seeded = show_status (some a) (show_status none w) in
    let draft = written (or_blank a.admin_notes) es in
    (
      trimmed_or_null draft,
      if_inked draft (trim draft),
      rw (ap (λ t. (save_status t).sent) (edits_status_lem es seeded), e) refl,
    )

session_notes_lem :
    (a : Application) (es : List Edit) (v : NotesDialog)
    → v.saving ≡ false
    → let draft = written v.notes es in
      (notes : Option Text) × IsGiven draft draft notes
      × ((session_notes a es v).sent ≡ record { id = a.id; admin_notes = notes } ∷ v.sent)
unfolding show_notes save_notes
session_notes_lem a es v e =
    let shown = show_notes (some a) (show_notes none v) in
    let draft = written v.notes es in
    (
      inked_or_null draft,
      if_inked draft draft,
      rw (ap (λ t. (save_notes t).sent) (edits_notes_lem es shown), e) refl,
    )

-- When neither dialog is saving, and the page closes each and opens it on the application a, and the
-- administrator makes the edits and saves, then the status dialog sends a's identifier with the last
-- status picked, else a's own, and the last notes typed, else a's own: trimmed, or null if they are
-- blank. The notes dialog sends a's identifier with the last notes typed, else the text that it held
-- before it was opened on a, which a's notes have no part in: as it stands, or null if it is blank.
pub sessions-sent :
    (a : Application) (es : List Edit) (w : StatusDialog) (v : NotesDialog)
    → w.saving ≡ false
    → v.saving ≡ false
    → let draft = written (or_blank a.admin_notes) es in
      let held = written v.notes es in
      ((notes : Option Text) × IsGiven draft (trim draft) notes
        × ((session_status a es w).sent
            ≡ record { id = a.id; status = picked a.status es; admin_notes = notes } ∷ w.sent))
      × ((notes : Option Text) × IsGiven held held notes
          × ((session_notes a es v).sent ≡ record { id = a.id; admin_notes = notes } ∷ v.sent))
sessions-sent a es w v e d = (session_status_lem a es w e, session_notes_lem a es v d)
