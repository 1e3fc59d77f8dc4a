-- ===== src/Triage/Page/Undo.antt =====
-- `decide` and `undo` of the triage screen.
use rs_recruitment.Base.{
  ℕ, ◌+◌, false, ◌≡◌, refl, none, some, List, [], ◌∷◌, ◌++◌, arith, if◌then◌else◌,
}
use mathlib.Core.List.{append_assoc}
use rs_recruitment.Base.Dict.{lookup, insert, delete, lookup-insert, lookup-delete}
use rs_recruitment.Triage.Page.{
  Triage, Decision, DecisionEntry, decided, reverted, next, current, moving, at_end, slide_to,
  decide, undo, retract_decision, commit,
}

-- What `decide` leaves when nothing moves.
abbrev pub after_decide : Decision → ℕ → Triage → Triage
after_decide d app s = record s {
  decisions = insert app (record { decision = d; prev_index = s.index }) s.decisions;
  pending_undo = some (record { app_id = app; decision = d; prev_index = s.index });
  flying = if at_end s then s.flying else some next;
  saves = s.saves ++ decided app d ∷ [];
}

pub decide_lem :
    (d : Decision) (app : ℕ) (s : Triage)
    → moving s ≡ false
    → current s ≡ some app
    → decide d s ≡ after_decide d app s
unfolding decide slide_to
decide_lem d app s still shown = ground arith

delete-insert-lookup :
    (j k : ℕ) (e : DecisionEntry) (m : List (ℕ × DecisionEntry))
    → lookup k m ≡ none
    → lookup j (delete k (insert k e m)) ≡ lookup j m
delete-insert-lookup j k e m fresh =
    ground (arith, lookup-delete j k (insert k e m), lookup-insert j k e m)

-- Deciding on an undecided candidate while nothing moves and undoing it at once leaves every
-- decision and the index as they were, offers nothing more to undo, and has sent the decision and
-- then NEW to the server.
pub undo-decide :
    (d : Decision) (app : ℕ) (s : Triage)
    → moving s ≡ false
    → current s ≡ some app
    → lookup app s.decisions ≡ none
    → let s' = undo (decide d s) in
      ((j : ℕ) → lookup j s'.decisions ≡ lookup j s.decisions)
      × (s'.index ≡ s.index)
      × (s'.pending_undo ≡ none)
      × (s'.saves
          ≡ s.saves
            ++ decided app d
              ∷ reverted app (some (record { decision = d; prev_index = s.index }))
              ∷ [])
unfolding undo retract_decision
undo-decide d app s still shown fresh = rw (decide_lem d app s still shown) (
  (λ j.
      delete-insert-lookup j app (record { decision = d; prev_index = s.index }) s.decisions fresh),
  refl,
  ground arith,
  ground (
    arith,
    lookup-insert app app (record { decision = d; prev_index = s.index }) s.decisions,
    append_assoc s.saves (decided app d ∷ [])
        (reverted app (some (record { decision = d; prev_index = s.index })) ∷ []),
  ),
)

-- If there is a next candidate, the slide that the decision began is still under way after the
-- undo, and its end leaves the screen on the next candidate and not on the one to decide again.
pub commit-undo-decide :
    (d : Decision) (app : ℕ) (s : Triage)
    → moving s ≡ false
    → current s ≡ some app
    → at_end s ≡ false
    → (commit (undo (decide d s))).index ≡ s.index + 1
unfolding undo retract_decision commit
commit-undo-decide d app s still shown more = rw (decide_lem d app s still shown) (ground arith)
