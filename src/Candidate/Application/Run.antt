-- ===== src/Candidate/Application/Run.antt =====
-- When CandidateApplicationDetailPage.tsx edits and saves, in a run of its events.
use rs_recruitment.Base.{
  if_case, ◌≡◌, refl, sym, ◌∙◌, inl, inr, ◌⊎◌, true, false, ℕ, Option, none, some, List, [], ◌∷◌,
  Text, arith, if◌then◌else◌,
}
use rs_recruitment.Candidate.Application.{
  MyAnswers, Detail, DetailPage, start, load_fails, download_of, download_resume, edit_of,
  start_editing, cancel_editing, patch_form, has_no_entries, save_of, handle_save, saved,
  save_fails, withdraw_of, handle_withdraw, withdraw_fails, not_editable,
}
use rs_recruitment.Candidate.Application.Events.{
  Event, Question, loaded, load_failed, download, edit, answer, cancel, save, save_answered,
  save_failed, withdraw, withdraw_failed, is_some, is_editable, shows_page, reacts, edited, handle,
  step, run,
}

-- The form is there while the page edits, which it does only once an editable application is
-- loaded.
record IsKept (w : DetailPage) : Type 0 where
  form : w.is_editing ≡ is_some w.edit_form
  early : w.loading ≡ true → w.is_editing ≡ false
  editable : w.is_editing ≡ true → is_editable w.detail ≡ true

IsKept-aside :
    (w w' : DetailPage)
    → w'.is_editing ≡ w.is_editing
    → w'.edit_form ≡ w.edit_form
    → w'.loading ≡ w.loading
    → w'.detail ≡ w.detail
    → IsKept w
    → IsKept w'
IsKept-aside w w' a b c d v = record {
  form = rw (a, b) v.form;
  early = rw (a, c) v.early;
  editable = rw (a, d) v.editable;
}

-- Where the page does not edit and has no form.
IsKept-idle : (w : DetailPage) → w.is_editing ≡ false → w.edit_form ≡ none → IsKept w
IsKept-idle w idle gone = record {
  form = rw (idle, gone) refl;
  early = λ h. idle;
  editable = λ h. cc;
}

idle_form : (w : DetailPage) → IsKept w → w.is_editing ≡ false → w.edit_form ≡ none
idle_form w v idle = empty w.edit_form (sym v.form ∙ idle)
  where
    empty : (f : Option MyAnswers) → is_some f ≡ false → f ≡ none
    empty none h = refl
    empty (some f) h = cc

download_of-IsKept : (d : Option Detail) (w : DetailPage) → IsKept w → IsKept (download_of d w)
download_of-IsKept none w v = v
download_of-IsKept (some d) w v = named d.resume
  where
    named :
        (r : Option Text)
        → IsKept (elim r [
          | none ↦ w
          | some name ↦
              if w.downloading
              then w
              else record w { downloading = true; downloads = d.id ∷ w.downloads }
        ])
    named none = v
    named (some name) =
        if_case IsKept w.downloading w _ (λ h. v) (λ h. IsKept-aside w _ refl refl refl refl v)

edit_of-IsKept :
    (d : Option Detail) (w : DetailPage)
    → w.detail ≡ d
    → is_editable d ≡ true
    → w.loading ≡ false
    → IsKept w
    → IsKept (edit_of d w)
edit_of-IsKept none w there ok shown v = v
edit_of-IsKept (some d) w there ok shown v = record {
  form = refl;
  early = λ h. cc;
  editable = λ h. rw there ok;
}

save_of-IsKept :
    (d : Option Detail) (f : Option MyAnswers) (w : DetailPage) → IsKept w → IsKept (save_of d f w)
unfolding save_of cancel_editing
save_of-IsKept none f w v = v
save_of-IsKept (some d) none w v = v
save_of-IsKept (some d) (some f) w v =
    if_case IsKept (has_no_entries (patch_form f d.my_answers w.staged_resume)) _ _
      (λ h. IsKept-idle _ refl refl) (λ h. IsKept-aside w _ refl refl refl refl v)

withdraw_of-IsKept : (d : Option Detail) (w : DetailPage) → IsKept w → IsKept (withdraw_of d w)
withdraw_of-IsKept none w v = v
withdraw_of-IsKept (some d) w v = IsKept-aside w _ refl refl refl refl v

answer-IsKept :
    (q : Question) (v : Text) (f : Option MyAnswers) → is_some (edited q v f) ≡ is_some f
answer-IsKept q v none = refl
answer-IsKept q v (some f) = refl

handle-IsKept : (e : Event) (w : DetailPage) → reacts e w ≡ true → IsKept w → IsKept (handle e w)
unfolding reacts shows_page handle load_fails download_resume start_editing cancel_editing
    handle_save saved save_fails handle_withdraw withdraw_fails
handle-IsKept (loaded d) w r v = IsKept-idle _ (v.early r) (idle_form w v (v.early r))
handle-IsKept (load_failed err) w r v = IsKept-idle _ (v.early r) (idle_form w v (v.early r))
handle-IsKept download w r v = download_of-IsKept w.detail w v
handle-IsKept edit w r v = edit_of-IsKept w.detail w refl (ground arith) (ground arith) v
handle-IsKept (answer q x) w r v = record {
  form = v.form ∙ sym (answer-IsKept q x w.edit_form);
  early = v.early;
  editable = v.editable;
}
handle-IsKept cancel w r v = IsKept-idle _ refl refl
handle-IsKept save w r v = save_of-IsKept w.detail w.edit_form w v
handle-IsKept (save_answered d) w r v = IsKept-idle _ refl refl
handle-IsKept (save_failed err) w r v =
    if_case IsKept (not_editable err) _ _ (λ h. IsKept-aside w _ refl refl refl refl v)
      (λ h. IsKept-aside w _ refl refl refl refl v)
handle-IsKept withdraw w r v = withdraw_of-IsKept w.detail w v
handle-IsKept (withdraw_failed err) w r v =
    if_case IsKept (not_editable err) _ _ (λ h. IsKept-aside w _ refl refl refl refl v)
      (λ h. IsKept-aside w _ refl refl refl refl v)
handle-IsKept e w r v = IsKept-aside w _ refl refl refl refl v

step-IsKept : (e : Event) (w : DetailPage) → IsKept w → IsKept (step e w)
unfolding step
step-IsKept e w v = if_case IsKept (reacts e w) _ w (λ r. handle-IsKept e w r v) (λ r. v)

run-IsKept : (es : List Event) (w : DetailPage) → IsKept w → IsKept (run es w)
unfolding run
run-IsKept [] w v = v
run-IsKept (e ∷ es) w v = run-IsKept es (step e w) (step-IsKept e w v)

-- Only a click on the save button sends a save, and only while the page edits.
handle-saves :
    (e : Event) (w : DetailPage)
    → reacts e w ≡ true
    → ((handle e w).saves ≡ w.saves) ⊎ (w.is_editing ≡ true)
unfolding handle reacts shows_page load_fails download_resume start_editing cancel_editing saved
    save_fails handle_withdraw withdraw_fails
handle-saves save w r = inr (ground arith)
handle-saves download w r = inl (kept w.detail)
  where
    kept : (d : Option Detail) → (download_of d w).saves ≡ w.saves
    kept none = refl
    kept (some d) = ground arith
handle-saves edit w r = inl (kept w.detail)
  where
    kept : (d : Option Detail) → (edit_of d w).saves ≡ w.saves
    kept none = refl
    kept (some d) = refl
handle-saves withdraw w r = inl (kept w.detail)
  where
    kept : (d : Option Detail) → (withdraw_of d w).saves ≡ w.saves
    kept none = refl
    kept (some d) = refl
handle-saves (save_failed err) w r = inl (ground arith)
handle-saves (withdraw_failed err) w r = inl (ground arith)
handle-saves e w r = inl refl

-- In every run the page has an edit form exactly while it edits, it edits only an application that
-- is loaded and editable, and an event sends a save only of such an application.
pub run-editing :
    (app_id : Option ℕ) (es : List Event) (e : Event)
    → let w = run es (start app_id) in
      (w.is_editing ≡ is_some w.edit_form)
      × (w.is_editing ≡ true → is_editable w.detail ≡ true)
      × (((step e w).saves ≡ w.saves) ⊎ (is_editable w.detail ≡ true))
unfolding step
run-editing app_id es e =
    let w = run es (start app_id) in
    let kept = run-IsKept es (start app_id) (IsKept-idle _ refl refl) in
    (
      kept.form,
      kept.editable,
      if_case (λ w'. (w'.saves ≡ w.saves) ⊎ (is_editable w.detail ≡ true)) (reacts e w) _ w
          (λ r. elim (handle-saves e w r) [ inl same ↦ inl same | inr h ↦ inr (kept.editable h) ])
          (λ r. inl refl),
    )
