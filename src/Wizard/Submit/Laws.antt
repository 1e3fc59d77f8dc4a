-- ===== src/Wizard/Submit/Laws.antt =====
-- When handleFormSubmit of ApplicationPage.tsx sends the application.
use rs_recruitment.Base.{inl, inr, ◌+◌, Bool, true, false, ◌≡◌, ◌↔◌, ◌⊎◌, arith}
use rs_recruitment.Validation.{TFunction, ParseUrl}
use rs_recruitment.Wizard.Submit.Forms.{
  IsComplete, IsFull, identity_iff, answers_iff, resume_iff, fields_iff, claim_iff, resume_given,
  resume_fine,
}
use rs_recruitment.Wizard.{Wizard, apply, validate_step}
use rs_recruitment.Wizard.Submit.{do_final_submit, handle_form_submit, claim_fails}

module _ (parse : ParseUrl) (t : TFunction) where
  -- The five tests of `doFinalSubmit`.
  abbrev Passes : Wizard → Type 0
  Passes w =
      ((validate_step parse t 1 w).is_ok ≡ true)
      × ((validate_step parse t 2 w).is_ok ≡ true)
      × ((validate_step parse t 3 w).is_ok ≡ true)
      × (claim_fails t w ≡ false)

  posts_iff :
      (w : Wizard) → w.step ≡ 3 → ((do_final_submit parse t true w).posts ≡ w.posts + 1) ↔ Passes w
  unfolding do_final_submit apply
  posts_iff w at_end = (λ h. ground arith, λ h. ground arith)

  Passes-IsComplete : IsFull t → (w : Wizard) → Passes w → IsComplete parse w
  unfolding claim_fails
  Passes-IsComplete full w (one, two, three, claim) =
      let (given, clean) = (resume_iff parse t w).0 two in
      let (answered, privacy, terms) = (answers_iff parse t w).0 three in
      let (name, mail, phone, link, concept, salary, strength, growth) =
        (fields_iff parse t full w).0 ((identity_iff parse t w).0 one, answered) in
      record {
        name_min = name.0;
        name_max = name.1;
        mail_max = mail.0;
        mail_ink = mail.1;
        mail = mail.2;
        phone_ink = phone.0;
        phone = phone.1;
        profile = link;
        concept = concept;
        salary = salary;
        strength = strength;
        growth = growth;
        resume = (resume_given parse t w).0 given;
        resume_ok = (resume_fine parse t w.resume_error).0 clean;
        privacy = privacy;
        terms = terms;
        claim = (claim_iff parse t full w).0 (ground arith);
      }

  IsComplete-Passes : IsFull t → (w : Wizard) → IsComplete parse w → Passes w
  unfolding claim_fails
  IsComplete-Passes full w v =
      let free = (claim_iff parse t full w).1 v.claim in
      let (identity, answers) = (fields_iff parse t full w).1 (
        (v.name_min, v.name_max),
        (v.mail_max, v.mail_ink, v.mail),
        (v.phone_ink, v.phone),
        v.profile,
        v.concept,
        v.salary,
        v.strength,
        v.growth,
      ) in
      (
        (identity_iff parse t w).1 identity,
        (resume_iff parse t w).1 (
          (resume_given parse t w).1 v.resume,
          (resume_fine parse t w.resume_error).1 v.resume_ok,
        ),
        (answers_iff parse t w).1 (answers, v.privacy, v.terms),
        ground arith,
      )

  posts_or_stays :
      (job_ok : Bool) (w : Wizard)
      → ((handle_form_submit parse t job_ok w).posts ≡ w.posts + 1)
          × (job_ok ≡ true)
          × (w.step ≡ 3)
          × ((do_final_submit parse t true w).posts ≡ w.posts + 1)
        ⊎ ((handle_form_submit parse t job_ok w).posts ≡ w.posts)
  unfolding handle_form_submit do_final_submit apply
  posts_or_stays job_ok w = ground arith

  at_the_end :
      (w : Wizard) → w.step ≡ 3 → handle_form_submit parse t true w ≡ do_final_submit parse t true w
  unfolding handle_form_submit
  at_the_end w e = ground arith

  sends_complete :
      IsFull t
      → (job_ok : Bool) (w : Wizard) → job_ok ≡ true
      → w.step ≡ 3
      → IsComplete parse w
      → (handle_form_submit parse t job_ok w).posts ≡ w.posts + 1
  sends_complete full true w ok e v =
      rw (at_the_end w e) ((posts_iff w e).1 (IsComplete-Passes full w v))
  sends_complete full false w ok e v = absurd (ground arith)

  -- Where no translation is empty, the submit event of the form sends the application exactly if the
  -- job id is a number, the wizard is on its third step, and everything is in order, whatever was
  -- checked before: the name, e-mail, phone and LinkedIn address, answers of at most 2,000 code units
  -- each, a resume without an error, the consents of an anonymous visitor, and, where an anonymous
  -- visitor claims an account, a password that is repeated and keeps the five rules. Otherwise
  -- nothing is sent.
  pub handle_form_submit_iff :
      (job_ok : Bool) (w : Wizard)
      → IsFull t
      → (((handle_form_submit parse t job_ok w).posts ≡ w.posts + 1)
          ↔ ((job_ok ≡ true) × (w.step ≡ 3) × IsComplete parse w))
        × (((handle_form_submit parse t job_ok w).posts ≡ w.posts + 1)
            ⊎ ((handle_form_submit parse t job_ok w).posts ≡ w.posts))
  handle_form_submit_iff job_ok w full = (
    (
      λ h. elim (posts_or_stays job_ok w) [
        | inl (p, ok, e, q) ↦ (ok, e, Passes-IsComplete full w ((posts_iff w e).0 q))
        | inr p ↦ absurd (omega arith)
      ],
      λ h. sends_complete full job_ok w h.0 h.1 h.2,
    ),
    elim (posts_or_stays job_ok w) [ inl (p, ok, e, q) ↦ inl p | inr p ↦ inr p ],
  )
