-- ===== src/Wizard/Submit.antt =====
-- The final submission: handleFormSubmit and doFinalSubmit of ApplicationPage.tsx.
pub mod Forms
pub mod Laws
use text.Mathlib.Text.{◌==◌ as str_eq}
use rs_recruitment.Base.{
  String, ℕ, zero, suc, ◌+◌, ◌==◌, Text, text_eq, Bool, true, false, not, ◌&&◌, ◌||◌, Option, none,
  some, [], if◌then◌else◌,
}
use rs_recruitment.Validation.{TFunction, ParseUrl}
use rs_recruitment.ApplyForm.{validate_claim_password}
use rs_recruitment.ApplyForm.ServerError.{
  ServerError, Detail, other, axios, missing, plain, coded, has_code, describe_server_error,
}
use rs_recruitment.Wizard.{Wizard, Check, apply, validate_step, total_steps, truthy, is_null}

-- A 409 of "already_applied_editable" with an application id: the page is left for it.
abbrev pub leads_to : ServerError → Option ℕ
leads_to other = none
leads_to (axios none d) = none
leads_to (axios (some status) missing) = none
leads_to (axios (some status) (plain s)) = none
leads_to (axios (some status) (coded c i)) =
    if (status == 409) && has_code "already_applied_editable" (coded c i) then i else none

module _ (t : TFunction) where
  -- `setClaimError` before the request: `none` if the claim passes or none is made.
  unfoldable pub claim_problem : Wizard → Option String
  claim_problem w =
      if w.is_candidate || not w.claim_account
      then none
      else if not (text_eq w.claim_password w.claim_password_confirm)
      then some (t "publicJobs:application.validation.passwordMismatch" [])
      else truthy (validate_claim_password t w.claim_password)

  unfoldable pub claim_fails : Wizard → Bool
  unfolding claim_problem
  claim_fails w = not (is_null (claim_problem w))

abbrev pub claims : Wizard → Bool
claims w = not w.is_candidate && w.claim_account

module _ (parse : ParseUrl) (t : TFunction) where
  -- `doFinalSubmit` up to the request, which is the increment of `posts`.
  unfoldable pub do_final_submit : Bool → Wizard → Wizard
  do_final_submit job_ok w =
      let c1 = validate_step parse t 1 w in
      let c2 = validate_step parse t 2 w in
      let c3 = validate_step parse t 3 w in
      let w1 = apply c1 w in
      let w2 = apply c2 w1 in
      let w3 = apply c3 w2 in
      if not job_ok
      then w
      else if not (w.step == total_steps)
      then w
      else if not c1.is_ok
      then record w1 { step = 1 }
      else if not c2.is_ok
      then record w2 { step = 2 }
      else if not c3.is_ok
      then w3
      else if claim_fails t w
      then record w3 { claim_error = claim_problem t w }
      else record w3 {
        claim_error = if claims w then none else w3.claim_error;
        submitting = true;
        submit_error = none;
        posts = w3.posts + 1;
      }

  unfoldable pub handle_form_submit : Bool → Wizard → Wizard
  unfolding do_final_submit
  handle_form_submit job_ok w = if not (w.step == total_steps) then w else do_final_submit job_ok w

  -- The answer: success, or an error that is shown unless the page is left.
  unfoldable pub submitted : Wizard → Wizard
  submitted w = record w { success = true; submitting = false }

  unfoldable pub submit_fails : ServerError → Wizard → Wizard
  submit_fails err w = elim (leads_to err) [
    | some application_id ↦ record w { submitting = false }
    | none ↦ record w { submitting = false; submit_error = some (describe_server_error t err) }
  ]
