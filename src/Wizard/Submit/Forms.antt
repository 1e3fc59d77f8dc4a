-- ===== src/Wizard/Submit/Forms.antt =====
-- What the checks before the submission in ApplicationPage.tsx let through.
use rs_recruitment.Base.{
  ℕ, ◌≤◌, ◌≢◌, ◌||◌, not, ap, some, Option, Text, length, trim, keep, is_digit, is_empty, any,
  is_ink, HasInk, Bool-cases, Option-cases, inl, inr, String, true, false, ◌≡◌, ◌↔◌, ◌⊎◌, refl,
  none, List, [], ◌∷◌, All, arith,
}
use text.Mathlib.TextEquality.{eq_iff}
use rs_recruitment.Validation.{TFunction, ParseUrl}
use rs_recruitment.Validation.Patterns.{IsEmail, IsMobile}
use rs_recruitment.Validation.LinkedIn.{text_eq_iff}
use rs_recruitment.Password.{check_password_complexity}
use rs_recruitment.Password.Laws.{IsComplex, check_password_complexity_iff}
use rs_recruitment.ApplyForm.{validate_field, validate_claim_password}
use rs_recruitment.ApplyForm.Fields.{IsProfileUrl, validate_field_iff}
use rs_recruitment.ApplyForm.Messages.{IsMessage, validate_field-IsMessage, answer_iff}
use rs_recruitment.Wizard.{
  Wizard, Form, field, FieldErrors, validate_step, check_fields, check_consent, error_of,
  step_1_fields, step_3_fields, no_file, no_name, truthy, assign,
}
use rs_recruitment.Wizard.Submit.{claim_problem}

-- The fields of the first and of the third step, a resume, the consents of an anonymous visitor, and
-- the password where an account is claimed. Fields are in order as the wizard asks for them.
pub record IsComplete (parse : ParseUrl) (w : Wizard) : Type 0 where
  pub name_min : 2 ≤ length (trim w.form.full_name)
  pub name_max : length w.form.full_name ≤ 100
  pub mail_max : length w.form.email ≤ 255
  pub mail_ink : HasInk w.form.email
  pub mail : IsEmail w.form.email
  pub phone_ink : HasInk w.form.phone
  pub phone : IsMobile (keep is_digit w.form.phone)
  pub profile : (any is_ink w.form.linkedin_url ≡ false) ⊎ IsProfileUrl parse w.form.linkedin_url
  pub concept : length w.form.service_concept ≤ 2000
  pub salary : length w.form.salary_expectations ≤ 2000
  pub strength : length w.form.strength ≤ 2000
  pub growth : length w.form.growth_area ≤ 2000
  pub resume :
      ((file : Text × ℕ) × (w.resume_file ≡ some file))
      ⊎ ((name : Text) × (w.saved_resume_filename ≡ some name) × (name ≢ []))
  pub resume_ok : (w.resume_error ≡ none) ⊎ (w.resume_error ≡ some "")
  pub privacy : (w.is_candidate ≡ true) ⊎ (w.privacy_accepted ≡ true)
  pub terms : (w.is_candidate ≡ true) ⊎ (w.terms_accepted ≡ true)
  pub claim :
      (w.is_candidate ≡ true)
      ⊎ (w.claim_account ≡ false)
      ⊎ ((w.claim_password ≡ w.claim_password_confirm) × IsComplex w.claim_password)

-- The fields of the first and of the third step.
abbrev pub InOrder : ParseUrl → Wizard → Type 0
InOrder parse w =
    ((2 ≤ length (trim w.form.full_name)) × (length w.form.full_name ≤ 100))
    × ((length w.form.email ≤ 255) × HasInk w.form.email × IsEmail w.form.email)
    × (HasInk w.form.phone × IsMobile (keep is_digit w.form.phone))
    × ((any is_ink w.form.linkedin_url ≡ false) ⊎ IsProfileUrl parse w.form.linkedin_url)
    × (length w.form.service_concept ≤ 2000)
    × (length w.form.salary_expectations ≤ 2000)
    × (length w.form.strength ≤ 2000)
    × (length w.form.growth_area ≤ 2000)

-- No translation is empty.
abbrev pub IsFull : TFunction → Type 0
IsFull t = (key : String) → t key [] ≢ ""

module _ (parse : ParseUrl) (t : TFunction) where
  check_fields_sound :
      (names : List String) (form : Form) (errors : FieldErrors)
      → (check_fields parse t names form errors).1 ≡ true
      → All (λ name. error_of parse t name form ≡ none) names
  unfolding check_fields
  check_fields_sound [] form errors h = tt
  check_fields_sound (name ∷ names) form errors h = (
    ground arith,
    check_fields_sound names form (assign name (error_of parse t name form) errors) (ground arith),
  )

  check_fields_complete :
      (names : List String) (form : Form) (errors : FieldErrors)
      → All (λ name. error_of parse t name form ≡ none) names
      → (check_fields parse t names form errors).1 ≡ true
  unfolding check_fields
  check_fields_complete [] form errors h = refl
  check_fields_complete (name ∷ names) form errors h =
      let rest =
        check_fields_complete names form (assign name (error_of parse t name form) errors) h.1 in
      let here = h.0 in ground arith

  pub identity_iff :
      (w : Wizard)
      → ((validate_step parse t 1 w).is_ok ≡ true)
        ↔ All (λ name. error_of parse t name w.form ≡ none) step_1_fields
  unfolding validate_step
  identity_iff w = (
    check_fields_sound step_1_fields w.form w.field_errors,
    check_fields_complete step_1_fields w.form w.field_errors,
  )

  pub resume_iff :
      (w : Wizard)
      → ((validate_step parse t 2 w).is_ok ≡ true) ↔ (
          ((no_file w.resume_file ≡ false) ⊎ (no_name w.saved_resume_filename ≡ false))
          × (truthy w.resume_error ≡ none))
  unfolding validate_step
  resume_iff w = (λ h. ground arith, λ h. ground arith)

  consent_iff :
      (w : Wizard) (errors : FieldErrors)
      → ((check_consent parse t w errors).1 ≡ true) ↔ (
          ((w.is_candidate ≡ true) ⊎ (w.privacy_accepted ≡ true))
          × ((w.is_candidate ≡ true) ⊎ (w.terms_accepted ≡ true)))
  unfolding check_consent
  consent_iff w errors = (λ h. ground arith, λ h. ground arith)

  pub answers_iff :
      (w : Wizard)
      → ((validate_step parse t 3 w).is_ok ≡ true) ↔ (
          All (λ name. error_of parse t name w.form ≡ none) step_3_fields
          × ((w.is_candidate ≡ true) ⊎ (w.privacy_accepted ≡ true))
          × ((w.is_candidate ≡ true) ⊎ (w.terms_accepted ≡ true)))
  unfolding validate_step
  answers_iff w =
      let errors = (check_fields parse t step_3_fields w.form w.field_errors).0 in
      let (to, from) = consent_iff w errors in
      (
        λ h. (
          check_fields_sound step_3_fields w.form w.field_errors (ground arith),
          (to (ground arith)).0,
          (to (ground arith)).1,
        ),
        λ h.
            let fields = check_fields_complete step_3_fields w.form w.field_errors h.0 in
            let agreed = from (h.1, h.2) in ground arith,
      )

  truthy_empty : (m : String) → truthy (some m) ≡ none → m ≡ ""
  truthy_empty m h = (eq_iff m "").0 (ground arith)

  -- No message is falsy.
  truthy_message : IsFull t → (o : Option String) → IsMessage parse t o → truthy o ≡ none → o ≡ none
  truthy_message full o (inl e) h = e
  truthy_message full o (inr (key, e)) h = absurd (full key (truthy_empty (t key []) (rw e at h)))

  abbrev pub Checked : Wizard → Type 0
  Checked w =
      All (λ name. error_of parse t name w.form ≡ none) step_1_fields
      × All (λ name. error_of parse t name w.form ≡ none) step_3_fields

  -- A step's fields, by what their messages tell.
  error_none :
      IsFull t
      → (name : String) (form : Form)
      → (error_of parse t name form ≡ none) ↔ (validate_field parse t name (field name form) ≡ none)
  error_none full name form =
      let o = validate_field parse t name (field name form) in
      (
        truthy_message full o (validate_field-IsMessage parse t name (field name form)),
        λ e. ap truthy e,
      )

  pub fields_iff :
      IsFull t → (w : Wizard) → (Checked w → InOrder parse w) × (InOrder parse w → Checked w)
  fields_iff full w =
      let form = w.form in
      let (name, n1, n2, n3) = validate_field_iff parse t form.full_name in
      let (m1, mail, m2, m3) = validate_field_iff parse t form.email in
      let (p1, p2, phone, p3) = validate_field_iff parse t form.phone in
      let (l1, l2, l3, link) = validate_field_iff parse t form.linkedin_url in
      let (concept, c1, c2, c3) = answer_iff parse t form.service_concept in
      let (s1, salary, s2, s3) = answer_iff parse t form.salary_expectations in
      let (g1, g2, strength, g3) = answer_iff parse t form.strength in
      let (h1, h2, h3, growth) = answer_iff parse t form.growth_area in
      let clean = error_none full in
      (
        λ ((a, (b, (c, (d, u)))), (e, (f, (g, (h, u'))))). (
          name.0 ((clean "full_name" form).0 a),
          mail.0 ((clean "email" form).0 b),
          phone.0 ((clean "phone" form).0 c),
          link.0 ((clean "linkedin_url" form).0 d),
          concept.0 ((clean "service_concept" form).0 e),
          salary.0 ((clean "salary_expectations" form).0 f),
          strength.0 ((clean "strength" form).0 g),
          growth.0 ((clean "growth_area" form).0 h),
        ),
        λ (a, b, c, d, e, f, g, h). (
          (
            (clean "full_name" form).1 (name.1 a),
            (
              (clean "email" form).1 (mail.1 b),
              ((clean "phone" form).1 (phone.1 c), ((clean "linkedin_url" form).1 (link.1 d), tt)),
            ),
          ),
          (
            (clean "service_concept" form).1 (concept.1 e),
            (
              (clean "salary_expectations" form).1 (salary.1 f),
              (
                (clean "strength" form).1 (strength.1 g),
                ((clean "growth_area" form).1 (growth.1 h), tt),
              ),
            ),
          ),
        ),
      )

  pub claim_iff :
      IsFull t
      → (w : Wizard)
      → (claim_problem t w ≡ none) ↔ (
          (w.is_candidate ≡ true)
          ⊎ (w.claim_account ≡ false)
          ⊎ ((w.claim_password ≡ w.claim_password_confirm) × IsComplex w.claim_password))
  unfolding claim_problem validate_claim_password
  claim_iff full w =
      let (sound, complete) = check_password_complexity_iff w.claim_password in
      let (same, equal) = text_eq_iff w.claim_password w.claim_password_confirm in
      (
        λ h. elim (Bool-cases (w.is_candidate || not w.claim_account)) [
          | inl free ↦ ground arith
          | inr claimed ↦ elim (Option-cases (check_password_complexity w.claim_password)) [
            | inl fine ↦ inr (inr (same (ground arith), sound fine))
            | inr (key, found) ↦
                let empty = full key in
                let there = (eq_iff (t key []) "").0 in absurd (ground arith)
          ]
        ],
        λ h. elim h [
          | inl candidate ↦ ground arith
          | inr (inl unclaimed) ↦ ground arith
          | inr (inr (e, complex)) ↦
              let matching = equal e in let fine = complete complex in ground arith
        ],
      )

  pub resume_given :
      (w : Wizard)
      → ((no_file w.resume_file ≡ false) ⊎ (no_name w.saved_resume_filename ≡ false)) ↔ (
          ((file : Text × ℕ) × (w.resume_file ≡ some file))
          ⊎ ((name : Text) × (w.saved_resume_filename ≡ some name) × (name ≢ [])))
  resume_given w = (
    λ h. elim h [
      | inl e ↦ elim (Option-cases w.resume_file) [
        | inl missing ↦ absurd (ground arith)
        | inr there ↦ inl there
      ]
      | inr e ↦ elim (Option-cases w.saved_resume_filename) [
        | inl missing ↦ absurd (ground arith)
        | inr (name, there) ↦ inr (name, there, λ empty. absurd (ground arith))
      ]
    ],
    λ h. elim h [
      | inl (file, e) ↦ inl (rw e refl)
      | inr (name, e, some_name) ↦ inr (rw e (full_name name some_name))
    ],
  )
    where
      full_name : (name : Text) → name ≢ [] → is_empty name ≡ false
      full_name [] h = absurd (h refl)
      full_name (c ∷ s) h = refl

  pub resume_fine : (o : Option String) → (truthy o ≡ none) ↔ ((o ≡ none) ⊎ (o ≡ some ""))
  resume_fine none = (λ h. inl refl, λ h. refl)
  resume_fine (some m) =
      (λ h. inr (ap some (truthy_empty m h)), λ h. elim h [ inl e ↦ cc | inr e ↦ ap truthy e ])
