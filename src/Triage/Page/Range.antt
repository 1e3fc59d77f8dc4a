-- ===== src/Triage/Page/Range.antt =====
-- The index and the current candidate of the triage screen.
use mathlib.Core.Path.{subst, sym}
use rs_recruitment.Base.{
  ℕ, ◌<◌, Bool, ◌≡◌, refl, Option, none, some, List, [], ◌∷◌, get_elem?-lt_length, arith,
}
use rs_recruitment.Triage.Page.{
  decide_failed, revert_failed, saved_with, undo_with, Save, decided, reverted, Triage, Dir,
  Decision, Event, PendingUndo, slid, swiped, jumped, chose, undone, committed, swap_ended,
  dismissed, cleared, answered, total, current, step, run, slide_to, jump_to, decide, undo,
  retract_decision, commit, swapped, swipe, dismiss_undo, saved, unless_for, or_stay,
}

-- The index to go back to is one of the queue's.
abbrev UndoBelow : ℕ → Option PendingUndo → Type 0
UndoBelow n none = Unit
UndoBelow n (some p) = p.prev_index < n

record IsInRange (n : ℕ) (s : Triage) : Type 0 where
  same : total s ≡ n
  in_range : s.index < n
  back : UndoBelow n s.pending_undo

unless_for-UndoBelow :
    (n app : ℕ) (p : Option PendingUndo) → UndoBelow n p → UndoBelow n (unless_for app p)
unless_for-UndoBelow n app none h = tt
unless_for-UndoBelow n app (some p) h = ground arith

slide_to-IsInRange : (n : ℕ) (dir : Dir) (s : Triage) → IsInRange n s → IsInRange n (slide_to dir s)
unfolding slide_to
slide_to-IsInRange n dir s v = ground arith

decide-IsInRange : (n : ℕ) (d : Decision) (s : Triage) → IsInRange n s → IsInRange n (decide d s)
unfolding decide
decide-IsInRange n d s v = ground arith

retract-IsInRange :
    (n app : ℕ) (jump : Option ℕ) (s : Triage)
    → or_stay jump s.index < n
    → IsInRange n s
    → IsInRange n (retract_decision app jump s)
unfolding retract_decision
retract-IsInRange n app jump s below v = record {
  same = v.same;
  in_range = below;
  back = unless_for-UndoBelow n app s.pending_undo v.back;
}

undo_with-IsInRange :
    (n : ℕ) (p : Option PendingUndo) (s : Triage)
    → UndoBelow n p
    → IsInRange n s
    → IsInRange n (undo_with p s)
unfolding undo_with
undo_with-IsInRange n none s below v = v
undo_with-IsInRange n (some p) s below v =
    retract-IsInRange n p.app_id (some p.prev_index) s below v

commit-IsInRange : (n : ℕ) (s : Triage) → IsInRange n s → IsInRange n (commit s)
unfolding commit
commit-IsInRange n s v = ground arith

decide_failed-IsInRange :
    (n app : ℕ) (s : Triage) → IsInRange n s → IsInRange n (decide_failed app s)
unfolding decide_failed
decide_failed-IsInRange n app s v = record {
  same = v.same;
  in_range = v.in_range;
  back = unless_for-UndoBelow n app s.pending_undo v.back;
}

saved_with-IsInRange :
    (n : ℕ) (saves : List Save) (is_ok : Bool) (s : Triage)
    → IsInRange n s
    → IsInRange n (saved_with saves is_ok s)
unfolding saved_with revert_failed
saved_with-IsInRange n [] is_ok s v = v
saved_with-IsInRange n (decided app d ∷ rest) is_ok s v =
    let w : IsInRange n (record s { saves = rest }) = record {
      same = v.same;
      in_range = v.in_range;
      back = v.back;
    } in
    ground (arith, decide_failed-IsInRange n app (record s { saves = rest }) w)
saved_with-IsInRange n (reverted app none ∷ rest) is_ok s v = ground arith
saved_with-IsInRange n (reverted app (some e) ∷ rest) is_ok s v = ground arith

step-IsInRange : (n : ℕ) (e : Event) (s : Triage) → IsInRange n s → IsInRange n (step e s)
unfolding step undo saved swapped dismiss_undo swipe jump_to
step-IsInRange n (slid dir) s v = slide_to-IsInRange n dir s v
step-IsInRange n (swiped dir) s v = ground arith
step-IsInRange n (jumped i) s v = ground arith
step-IsInRange n (chose d) s v = decide-IsInRange n d s v
step-IsInRange n undone s v = undo_with-IsInRange n s.pending_undo s v.back v
step-IsInRange n committed s v = commit-IsInRange n s v
step-IsInRange n swap_ended s v = record { same = v.same; in_range = v.in_range; back = v.back }
step-IsInRange n dismissed s v = record { same = v.same; in_range = v.in_range; back = tt }
step-IsInRange n (cleared app) s v = retract-IsInRange n app none s v.in_range v
step-IsInRange n (answered is_ok) s v = saved_with-IsInRange n s.saves is_ok s v

run-IsInRange : (n : ℕ) (es : List Event) (s : Triage) → IsInRange n s → IsInRange n (run es s)
unfolding run
run-IsInRange n [] s v = v
run-IsInRange n (e ∷ es) s v = run-IsInRange n es (step e s) (step-IsInRange n e s v)

-- From a screen that shows a candidate and has nothing to undo, whatever the reviewer, the
-- animation, the timers and the server do, in any order but that saves are answered one after the
-- other, the index stays inside the queue, the queue keeps its length, and a candidate is on screen.
pub run-current :
    (es : List Event) (s : Triage)
    → s.index < total s
    → s.pending_undo ≡ none
    → let s' = run es s in
      (total s' ≡ total s) × (s'.index < total s') × (app : ℕ) × (current s' ≡ some app)
run-current es s below fresh =
    let start : IsInRange (total s) s = record {
      same = refl;
      in_range = below;
      back = subst (UndoBelow (total s)) (sym fresh) tt;
    } in
    let v = run-IsInRange (total s) es s start in
    let inside : (run es s).index < total (run es s) = omega arith in
    let (app, shown) = get_elem?-lt_length (run es s).items (run es s).index inside in
    (v.same, inside, app, shown)
