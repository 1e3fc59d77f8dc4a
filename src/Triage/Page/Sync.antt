-- ===== src/Triage/Page/Sync.antt =====
-- The screen's decisions against the server's statuses.
use rs_recruitment.Base.{
  inl, inr, ℕ, ◌==◌, Bool, true, false, not, ◌≡◌, ◌⊎◌, refl, ap, Option, none, some, List, [], ◌∷◌,
  ◌++◌, Option-cases, Bool-cases, arith, if◌then◌else◌,
}
use rs_recruitment.Base.Dict.{lookup, insert, lookup-insert, lookup-delete}
use rs_recruitment.Triage.Page.Undo.{after_decide, decide_lem}
use rs_recruitment.Triage.Page.{
  Triage, Dir, Decision, DecisionEntry, PendingUndo, Save, Event, decided, reverted, slid, swiped,
  jumped, chose, undone, committed, swap_ended, dismissed, cleared, answered, current, moving, step,
  slide_to, jump_to, decide, undo, undo_with, retract_decision, commit, swapped, swipe,
  dismiss_undo, saved, saved_with, decide_failed,
}

-- What the server has for each application: a decision, or NEW.
abbrev pub Statuses : Type 0
Statuses = ℕ → Option Decision

-- The server takes a save.
abbrev pub takes : Save → Statuses → Statuses
takes (decided app d) st a = if app == a then some d else st a
takes (reverted app e) st a = if app == a then none else st a

-- … and those that are under way, in their order.
unfoldable pub takes_all : List Save → Statuses → Statuses
takes_all [] st = st
takes_all (v ∷ vs) st = takes_all vs (takes v st)

abbrev decision_of : Option DecisionEntry → Option Decision
decision_of none = none
decision_of (some e) = some e.decision

-- The decision that the screen shows for an application.
abbrev pub shown : Triage → ℕ → Option Decision
shown s a = decision_of (lookup a s.decisions)

-- The screen shows what the server will have once the saves under way have reached it.
abbrev pub IsSynced : Triage → Statuses → Type 0
IsSynced s st = (a : ℕ) → shown s a ≡ takes_all s.saves st a

takes_all-concat :
    (vs : List Save) (v : Save) (st : Statuses) (a : ℕ)
    → takes_all (vs ++ v ∷ []) st a ≡ takes v (takes_all vs st) a
unfolding takes_all
takes_all-concat [] v st a = refl
takes_all-concat (w ∷ vs) v st a = takes_all-concat vs v (takes w st) a

-- The browser and the server: an answer that is not an error means that the server took the save.
pub record World : Type 0 where
  pub screen : Triage
  pub statuses : Statuses

unfoldable pub take_first : List Save → Statuses → Statuses
take_first [] st = st
take_first (v ∷ vs) st = takes v st

unfoldable pub world_step : Event → World → World
unfolding take_first
world_step (answered true) w = record {
  screen = step (answered true) w.screen;
  statuses = take_first w.screen.saves w.statuses;
}
world_step e w = record w { screen = step e w.screen }

unfoldable pub world_run : List Event → World → World
world_run [] w = w
world_run (e ∷ es) w = world_run es (world_step e w)

abbrev pub is_refusal : Event → Bool
is_refusal (answered is_ok) = not is_ok
is_refusal _ = false

-- No save is refused.
abbrev pub AllAnswered : List Event → Type 0
AllAnswered [] = Unit
AllAnswered (e ∷ es) = (is_refusal e ≡ false) × AllAnswered es

module _ (st : Statuses) where
  keeps :
      (s s' : Triage)
      → s'.decisions ≡ s.decisions
      → s'.saves ≡ s.saves
      → IsSynced s st
      → IsSynced s' st
  keeps s s' same waits v a = rw (same, waits) (v a)

  slide_to-IsSynced : (dir : Dir) (s : Triage) → IsSynced s st → IsSynced (slide_to dir s) st
  unfolding slide_to
  slide_to-IsSynced dir s = keeps s (slide_to dir s) (ground arith) (ground arith)

  swipe-IsSynced : (dir : Dir) (s : Triage) → IsSynced s st → IsSynced (swipe dir s) st
  unfolding swipe
  swipe-IsSynced dir s = keeps s (swipe dir s) (ground arith) (ground arith)

  commit-IsSynced : (s : Triage) → IsSynced s st → IsSynced (commit s) st
  unfolding commit
  commit-IsSynced s = keeps s (commit s) (ground arith) (ground arith)

  decided-IsSynced :
      (d : Decision) (app : ℕ) (s : Triage) → IsSynced s st → IsSynced (after_decide d app s) st
  decided-IsSynced d app s v a = ground (
    arith,
    v a,
    takes_all-concat s.saves (decided app d) st a,
    lookup-insert a app (record { decision = d; prev_index = s.index }) s.decisions,
  )

  decide_still :
      (d : Decision) (s : Triage) → (current s ≡ none) ⊎ (moving s ≡ true) → decide d s ≡ s
  unfolding decide
  decide_still d s h = ground arith

  decide-IsSynced : (d : Decision) (s : Triage) → IsSynced s st → IsSynced (decide d s) st
  decide-IsSynced d s v = elim (Option-cases (current s)) [
    | inl nobody ↦ rw (decide_still d s (inl nobody)) v
    | inr (app, shown) ↦ elim (Bool-cases (moving s)) [
      | inl busy ↦ rw (decide_still d s (inr busy)) v
      | inr still ↦ rw (decide_lem d app s still shown) (decided-IsSynced d app s v)
    ]
  ]

  retract-IsSynced :
      (app : ℕ) (jump : Option ℕ) (s : Triage)
      → IsSynced s st
      → IsSynced (retract_decision app jump s) st
  unfolding retract_decision
  retract-IsSynced app jump s v a = ground (
    arith,
    v a,
    takes_all-concat s.saves (reverted app (lookup app s.decisions)) st a,
    lookup-delete a app s.decisions,
  )

  undo_with-IsSynced :
      (p : Option PendingUndo) (s : Triage) → IsSynced s st → IsSynced (undo_with p s) st
  unfolding undo_with
  undo_with-IsSynced none s v = v
  undo_with-IsSynced (some p) s v = retract-IsSynced p.app_id (some p.prev_index) s v

  saved-IsSynced :
      (vs : List Save) (s : Triage)
      → ((a : ℕ) → shown s a ≡ takes_all vs st a)
      → s.saves ≡ vs
      → IsSynced (saved_with vs true s) (take_first vs st)
  unfolding saved_with take_first takes_all
  saved-IsSynced [] s v e a = rw e (v a)
  saved-IsSynced (decided app d ∷ vs) s v e a = v a
  saved-IsSynced (reverted app x ∷ vs) s v e a = v a

abbrev IsSyncedWorld : World → Type 0
IsSyncedWorld w = IsSynced w.screen w.statuses

world_step-IsSynced :
    (e : Event) (w : World)
    → is_refusal e ≡ false
    → IsSyncedWorld w
    → IsSyncedWorld (world_step e w)
unfolding world_step step undo saved swapped dismiss_undo jump_to
world_step-IsSynced (answered true) w h v = saved-IsSynced w.statuses w.screen.saves w.screen v refl
world_step-IsSynced (answered false) w h v = cc
world_step-IsSynced (slid dir) w h v = slide_to-IsSynced w.statuses dir w.screen v
world_step-IsSynced (swiped dir) w h v = swipe-IsSynced w.statuses dir w.screen v
world_step-IsSynced (jumped i) w h v =
    keeps w.statuses w.screen (step (jumped i) w.screen) (ground arith) (ground arith) v
world_step-IsSynced (chose d) w h v = decide-IsSynced w.statuses d w.screen v
world_step-IsSynced undone w h v = undo_with-IsSynced w.statuses w.screen.pending_undo w.screen v
world_step-IsSynced committed w h v = commit-IsSynced w.statuses w.screen v
world_step-IsSynced swap_ended w h v = v
world_step-IsSynced dismissed w h v = v
world_step-IsSynced (cleared app) w h v = retract-IsSynced w.statuses app none w.screen v

world_run-IsSynced :
    (es : List Event) (w : World)
    → AllAnswered es
    → IsSyncedWorld w
    → IsSyncedWorld (world_run es w)
unfolding world_run
world_run-IsSynced [] w h v = v
world_run-IsSynced (e ∷ es) w h v =
    world_run-IsSynced es (world_step e w) h.1 (world_step-IsSynced e w h.0 v)

-- As long as the server refuses no save and answers in order, then from a screen in step with the
-- server, whatever the reviewer decides, undoes or clears, the screen shows for each application
-- what the server has, or NEW, once the saves that are still under way have arrived.
pub world_run-shown :
    (es : List Event) (w : World)
    → AllAnswered es
    → IsSynced w.screen w.statuses
    → (a : ℕ)
    → let w' = world_run es w in shown w'.screen a ≡ takes_all w'.screen.saves w'.statuses a
world_run-shown es w h v a = world_run-IsSynced es w h v a

-- A second decision on a candidate whose save is refused leaves the candidate without a decision
-- on screen, while the server keeps the first one.
pub failed_redecision :
    (d : Decision) (app : ℕ) (e : DecisionEntry) (w : World)
    → moving w.screen ≡ false
    → current w.screen ≡ some app
    → lookup app w.screen.decisions ≡ some e
    → w.screen.saves ≡ []
    → IsSynced w.screen w.statuses
    → let w' = world_step (answered false) (world_step (chose d) w) in
      (w'.screen.saves ≡ []) × (shown w'.screen app ≡ none) × (w'.statuses app ≡ some e.decision)
unfolding world_step step saved decide_failed takes_all
failed_redecision d app e w still on_screen old idle v =
    let server : takes_all w.screen.saves w.statuses app ≡ w.statuses app =
      ap (λ vs. takes_all vs w.statuses app) idle in
    rw (decide_lem d app w.screen still on_screen) (
      ground arith,
      ground (
        arith,
        lookup-delete app app
            (insert app (record { decision = d; prev_index = w.screen.index }) w.screen.decisions),
      ),
      ground (arith, server, v app),
    )
