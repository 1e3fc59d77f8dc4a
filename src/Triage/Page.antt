-- ===== src/Triage/Page.antt =====
-- The triage screen: frontend/src/pages/admin/AdminApplicationsTriagePage.tsx. Applications are
-- their ids; a save is a call of `updateApplicationStatus` that has no answer yet, with the
-- snapshot that its error handler has closed over. Each event finds the state that the events
-- before it left, as the handlers do once React has rendered.
pub mod Keys
pub mod Range
pub mod Undo
pub mod Sync
use rs_recruitment.Base.{
  ℕ, zero, suc, ◌+◌, ◌-◌, ◌==◌, ltb, leb, min, Bool, true, false, not, ◌&&◌, ◌||◌, Option, none,
  some, List, [], ◌∷◌, ◌++◌, length, get_elem?, if◌then◌else◌,
}
use rs_recruitment.Base.Dict.{lookup, insert, delete}

pub data Decision : Type 0 where
  approved rejected : Decision

pub data Dir : Type 0 where
  next prev : Dir

pub record DecisionEntry : Type 0 where
  pub decision : Decision
  pub prev_index : ℕ

pub record PendingUndo : Type 0 where
  pub app_id : ℕ
  pub decision : Decision
  pub prev_index : ℕ

-- `status: decision`, or `status: NEW` with the snapshot for the rollback.
pub data Save : Type 0 where
  decided : ℕ → Decision → Save
  reverted : ℕ → Option DecisionEntry → Save

pub record Triage : Type 0 where
  pub items : List ℕ
  pub index : ℕ
  pub decisions : List (ℕ × DecisionEntry)
  pub pending_undo : Option PendingUndo
  pub flying : Option Dir
  pub is_swapping : Bool
  pub show_help : Bool
  pub show_resume : Bool
  pub saves : List Save
  pub errors : ℕ

abbrev pub total : Triage → ℕ
total s = length s.items

abbrev pub current : Triage → Option ℕ
current s = get_elem? s.items s.index

abbrev pub is_some : {A : Type 0} → Option A → Bool
is_some none = false
is_some (some a) = true

-- `flying || isSwapping`
abbrev pub moving : Triage → Bool
moving s = is_some s.flying || s.is_swapping

-- `index >= total - 1`, where `total - 1` may be negative.
abbrev pub at_end : Triage → Bool
at_end s = leb (total s) (s.index + 1)

unfoldable pub slide_to : Dir → Triage → Triage
slide_to next s = if moving s then s else if at_end s then s else record s { flying = some next }
slide_to prev s =
    if moving s then s else if s.index == 0 then s else record s { flying = some prev }

abbrev pub go_next : Triage → Triage
go_next = slide_to next

abbrev pub go_prev : Triage → Triage
go_prev = slide_to prev

-- A chip of the strip, which has one for each item.
unfoldable pub jump_to : ℕ → Triage → Triage
jump_to i s = if i == s.index then s else record s { index = i }

unfoldable pub decide : Decision → Triage → Triage
unfolding slide_to
decide d s = elim (current s) [
  | none ↦ s
  | some app ↦
      if moving s
      then s
      else let s' = go_next (record s {
        decisions = insert app (record { decision = d; prev_index = s.index }) s.decisions;
        pending_undo = some (record { app_id = app; decision = d; prev_index = s.index });
      }) in
        record s' { saves = s'.saves ++ decided app d ∷ [] }
]

-- `p?.appId === appId ? null : p`
abbrev pub unless_for : ℕ → Option PendingUndo → Option PendingUndo
unless_for app none = none
unless_for app (some p) = if p.app_id == app then none else some p

-- The two handlers of `.catch`.
unfoldable pub decide_failed : ℕ → Triage → Triage
decide_failed app s = record s {
  decisions = delete app s.decisions;
  pending_undo = unless_for app s.pending_undo;
  errors = s.errors + 1;
}

unfoldable pub revert_failed : ℕ → Option DecisionEntry → Triage → Triage
revert_failed app none s = record s { errors = s.errors + 1 }
revert_failed app (some e) s = record s {
  decisions = insert app e s.decisions;
  errors = s.errors + 1;
}

abbrev pub or_stay : Option ℕ → ℕ → ℕ
or_stay none i = i
or_stay (some j) i = j

unfoldable pub retract_decision : ℕ → Option ℕ → Triage → Triage
retract_decision app jump_back s = record s {
  decisions = delete app s.decisions;
  pending_undo = unless_for app s.pending_undo;
  index = or_stay jump_back s.index;
  saves = s.saves ++ reverted app (lookup app s.decisions) ∷ [];
}

unfoldable pub undo_with : Option PendingUndo → Triage → Triage
undo_with none s = s
undo_with (some p) s = retract_decision p.app_id (some p.prev_index) s

unfoldable pub undo : Triage → Triage
unfolding undo_with
undo s = undo_with s.pending_undo s

abbrev pub clear_decision_for : ℕ → Triage → Triage
clear_decision_for app s = retract_decision app none s

-- The end of the slide, and the end of the swap two frames later.
unfoldable pub commit : Triage → Triage
commit s = elim s.flying [
  | none ↦ s
  | some next ↦ record s {
    is_swapping = true;
    index = min (s.index + 1) (total s - 1);
    flying = none;
  }
  | some prev ↦ record s { is_swapping = true; index = s.index - 1; flying = none }
]

unfoldable pub swapped : Triage → Triage
swapped s = record s { is_swapping = false }

-- The end of a horizontal drag past the trigger: it sets `flying` whatever it was.
unfoldable pub swipe : Dir → Triage → Triage
swipe next s = if at_end s then s else record s { flying = some next }
swipe prev s = if s.index == 0 then s else record s { flying = some prev }

-- The toast closes after five seconds.
unfoldable pub dismiss_undo : Triage → Triage
dismiss_undo s = record s { pending_undo = none }

-- The answer to the save that has waited longest.
unfoldable pub saved_with : List Save → Bool → Triage → Triage
saved_with [] is_ok s = s
saved_with (decided app d ∷ rest) is_ok s =
    let s' = record s { saves = rest } in if is_ok then s' else decide_failed app s'
saved_with (reverted app e ∷ rest) is_ok s =
    let s' = record s { saves = rest } in if is_ok then s' else revert_failed app e s'

unfoldable pub saved : Bool → Triage → Triage
unfolding saved_with
saved is_ok s = saved_with s.saves is_ok s

-- `decidedCount === total && !pendingUndo`
unfoldable pub all_decided : Triage → Bool
all_decided s = (length s.decisions == total s) && not (is_some s.pending_undo)

pub data Event : Type 0 where
  slid swiped : Dir → Event
  jumped : ℕ → Event
  chose : Decision → Event
  undone committed swap_ended dismissed : Event
  cleared : ℕ → Event
  answered : Bool → Event

unfoldable pub step : Event → Triage → Triage
step (slid dir) s = slide_to dir s
step (swiped dir) s = swipe dir s
step (jumped i) s = if ltb i (total s) then jump_to i s else s
step (chose d) s = decide d s
step undone s = undo s
step committed s = commit s
step swap_ended s = swapped s
step dismissed s = dismiss_undo s
step (cleared app) s = clear_decision_for app s
step (answered is_ok) s = saved is_ok s

unfoldable pub run : List Event → Triage → Triage
run [] s = s
run (e ∷ es) s = run es (step e s)
