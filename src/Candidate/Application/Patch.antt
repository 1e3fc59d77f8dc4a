-- ===== src/Candidate/Application/Patch.antt =====
-- What a save of CandidateApplicationDetailPage.tsx sends.
use rs_recruitment.Base.{
  ◌≡◌, ◌↔◌, ◌⊎◌, inl, inr, refl, ap, true, false, Option, none, some, [], ◌∷◌, Text, arith, text_eq,
  Bool-cases,
}
use rs_recruitment.Validation.LinkedIn.{text_eq_iff}
use rs_recruitment.Candidate.Application.{
  MyAnswers, Detail, PatchForm, DetailPage, changed, patch_form, has_no_entries, is_absent,
  handle_save, save_of, cancel_editing,
}

-- A text as it is shown: null is blank.
abbrev pub shown : Option Text → Text
shown none = []
shown (some s) = s

-- A field after a save: the text sent, or what stood there.
abbrev pub over : Option Text → Option Text → Option Text
over none old = old
over (some s) old = some s

-- The answers that a save asks for.
pub record IsAnswered (p : PatchForm) (orig edited : MyAnswers) : Type 0 where
  pub service_concept :
      shown (over p.service_concept orig.service_concept) ≡ shown edited.service_concept
  pub salary_expectations :
      shown (over p.salary_expectations orig.salary_expectations) ≡ shown edited.salary_expectations
  pub strength : shown (over p.strength orig.strength) ≡ shown edited.strength
  pub growth_area : shown (over p.growth_area orig.growth_area) ≡ shown edited.growth_area

changed-over : (a b : Option Text) → shown (over (changed a b) b) ≡ shown a
changed-over none none = refl
changed-over none (some t) = refl
changed-over (some s) none = refl
changed-over (some s) (some t) = elim (Bool-cases (text_eq s t)) [
  | inl e ↦ rw e (let same = (text_eq_iff s t).0 e in cc)
  | inr e ↦ rw e refl
]

changed-none : (a b : Option Text) → (is_absent (changed a b) ≡ true) ↔ (a ≡ b)
changed-none none none = (λ h. refl, λ h. refl)
changed-none none (some t) = (λ h. cc, λ h. cc)
changed-none (some s) none = (λ h. cc, λ h. cc)
changed-none (some s) (some t) = (
  λ h. ap some ((text_eq_iff s t).0 (ground arith)),
  λ h. let same : s ≡ t = cc in let e = (text_eq_iff s t).1 same in rw e refl,
)

answers_eq :
    (a b : MyAnswers)
    → a.service_concept ≡ b.service_concept
    → a.salary_expectations ≡ b.salary_expectations
    → a.strength ≡ b.strength
    → a.growth_area ≡ b.growth_area
    → a ≡ b
answers_eq a b p q r s = λ i. record {
  service_concept = p i;
  salary_expectations = q i;
  strength = r i;
  growth_area = s i;
}

-- Nothing is appended exactly if no answer differs and no file is staged.
has_no_entries_iff :
    (edited orig : MyAnswers) (file : Option Text)
    → (has_no_entries (patch_form edited orig file) ≡ true) ↔ ((edited ≡ orig) × (file ≡ none))
unfolding patch_form
has_no_entries_iff edited orig file = (
  λ h. (
    answers_eq edited orig
        ((changed-none edited.service_concept orig.service_concept).0 (ground arith))
        ((changed-none edited.salary_expectations orig.salary_expectations).0 (ground arith))
        ((changed-none edited.strength orig.strength).0 (ground arith))
        ((changed-none edited.growth_area orig.growth_area).0 (ground arith)),
    unstaged file (ground arith),
  ),
  λ h.
      let at = λ (a : Option Text). (changed-none a a).1 refl in
      rw
        (
          h.0,
          h.1,
          at orig.service_concept,
          at orig.salary_expectations,
          at orig.strength,
          at orig.growth_area,
        )
        refl,
)
  where
    unstaged : (f : Option Text) → is_absent f ≡ true → f ≡ none
    unstaged none h = refl
    unstaged (some s) h = cc

patch_form-IsAnswered :
    (edited orig : MyAnswers) (file : Option Text)
    → IsAnswered (patch_form edited orig file) orig edited
unfolding patch_form
patch_form-IsAnswered edited orig file = record {
  service_concept = changed-over edited.service_concept orig.service_concept;
  salary_expectations = changed-over edited.salary_expectations orig.salary_expectations;
  strength = changed-over edited.strength orig.strength;
  growth_area = changed-over edited.growth_area orig.growth_area;
}

handle_save-of :
    (w : DetailPage) (d : Detail) (edited : MyAnswers)
    → w.detail ≡ some d
    → w.edit_form ≡ some edited
    → handle_save w ≡ save_of (some d) (some edited) w
unfolding handle_save
handle_save-of w d edited there form = λ i. save_of (there i) (form i) w

-- What a save leaves behind.
abbrev pub IsQuiet : DetailPage → DetailPage → Type 0
IsQuiet w w' = (w'.saves ≡ w.saves) × (w'.edit_form ≡ none) × (w'.is_editing ≡ false)

abbrev pub IsSent : Detail → MyAnswers → DetailPage → DetailPage → Type 0
IsSent d edited w w' =
    (p : PatchForm) × (w'.saves ≡ (d.id, p) ∷ w.saves)
    × IsAnswered p d.my_answers edited
    × (p.resume ≡ w.staged_resume)
    × (w'.edit_form ≡ w.edit_form)
    × (w'.saving ≡ true)

module _ (w : DetailPage) (d : Detail) (edited : MyAnswers) where
  save_of-IsQuiet :
      has_no_entries (patch_form edited d.my_answers w.staged_resume) ≡ true
      → IsQuiet w (save_of (some d) (some edited) w)
  unfolding save_of cancel_editing
  save_of-IsQuiet e = (rw e refl, rw e refl, rw e refl)

  save_of-IsSent :
      has_no_entries (patch_form edited d.my_answers w.staged_resume) ≡ false
      → IsSent d edited w (save_of (some d) (some edited) w)
  unfolding save_of patch_form
  save_of-IsSent e = (
    patch_form edited d.my_answers w.staged_resume,
    rw e refl,
    patch_form-IsAnswered edited d.my_answers w.staged_resume,
    refl,
    rw e refl,
    rw e refl,
  )

  -- A save with the button ends the editing without a request exactly if no answer was changed and
  -- no file is staged. Otherwise it sends one request for the application: the staged file, and
  -- fields which, put over the answers loaded, read as the edited ones (null reads as blank); the
  -- editing goes on until the answer.
  pub handle_save_cases :
      w.detail ≡ some d
      → w.edit_form ≡ some edited
      → ((edited ≡ d.my_answers) × (w.staged_resume ≡ none) × IsQuiet w (handle_save w))
        ⊎ ((¬ ((edited ≡ d.my_answers) × (w.staged_resume ≡ none)))
            × IsSent d edited w (handle_save w))
  handle_save_cases there form =
      let sends = has_no_entries_iff edited d.my_answers w.staged_resume in
      let code = handle_save-of w d edited there form in
      elim (Bool-cases (has_no_entries (patch_form edited d.my_answers w.staged_resume))) [
        | inl e ↦ let h = sends.0 e in inl (h.0, h.1, rw code (save_of-IsQuiet e))
        | inr e ↦ inr (λ h. let quiet = sends.1 h in cc, rw code (save_of-IsSent e))
      ]
