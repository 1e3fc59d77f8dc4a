-- ===== src/Register/Company/Answers.antt =====
-- From the form of the first step of RegisterPage.tsx to the request, and what a failure shows.
use rs_recruitment.Base.{
  any, trim, ◌++◌, IsGiven, if_inked, ℕ, ◌≢◌, ◌≡◌, ◌↔◌, ◌==◌, true, false, ◌&&◌, refl, Option, none,
  some, List, [], ◌∷◌, Text, arith,
}
use rs_recruitment.Register.{RequestError, axios_error, other_error, finds, Loc}
use rs_recruitment.Register.Company.{Key, password}
use rs_recruitment.Register.Company.Signature.{is_comma, second_part-append}
use rs_recruitment.Register.Company.Fields.{IsComplete, step_1_iff}
use rs_recruitment.Register.Company.Page.{Page, form_data, handle_next, step_2_fine}
use rs_recruitment.Register.Company.Events.{
  next, draw, tick_terms, tick_privacy, submit, shows_page, run, step, handle, reacts, accept_terms,
  accept_privacy, handle_submit, register_fails,
}

-- A visitor who has filled in the first step completely, goes on, draws a signature, ticks both
-- boxes and submits, sends exactly one request, and the page then waits for the answer. The request
-- holds the form, trimmed but for the password, a landline if it is not blank, the data that stand
-- behind the comma of the drawing's data URL, if it has one comma, both consents, and the logo.
pub run-sends :
    (w : Page) (before code : Text)
    → any is_comma before ≡ false
    → any is_comma code ≡ false
    → (shows_page w && w.step == 1) ≡ true
    → w.submitting ≡ false
    → IsComplete w.form w.logo_file
    → let w' =
        run
          (next ∷ draw (before ++ b',' ∷ code) ∷ tick_terms true ∷ tick_privacy true ∷ submit ∷ [])
          w in
      (landline : Option Text) × IsGiven w.form.contact_landline_phone
        (trim w.form.contact_landline_phone)
        landline
      × (w'.posts
          ≡ record {
            email = trim w.form.email;
            password = w.form.password;
            company_name = trim w.form.company_name;
            company_id = trim w.form.company_id;
            address = trim w.form.address;
            contact_first_name = trim w.form.contact_first_name;
            contact_last_name = trim w.form.contact_last_name;
            contact_mobile_phone = trim w.form.contact_mobile_phone;
            contact_landline_phone = landline;
            agreement_signature = code;
            privacy_accepted = true;
            terms_accepted = true;
            logo = w.logo_file;
          }
            ∷ w.posts)
      × (w'.submitting ≡ true)
unfolding run step handle reacts shows_page handle_next accept_terms accept_privacy handle_submit
    step_2_fine form_data
run-sends w before code h k shown idle full =
    let ok = (step_1_iff w.form w.logo_file).1 full in
    let one : (w.step == 1) ≡ true = ground arith in
    let a : w.token_given ≡ true = ground arith in
    let b : w.token_invalid ≡ false = ground arith in
    let c : w.metadata_loading ≡ false = ground arith in
    let d : w.success ≡ false = ground arith in
    (
      _,
      if_inked w.form.contact_landline_phone (trim w.form.contact_landline_phone),
      rw (a, b, c, d, one, ok, idle, second_part-append before code h k) refl,
      rw (a, b, c, d, one, ok, idle) refl,
    )

-- The one failure without a message above the form.
abbrev pub IsPassword : RequestError → Type 0
IsPassword err =
    (detail : Option (List Loc)) × (err ≡ axios_error (some 422) detail)
    × (finds "password" detail ≡ true)

refused-silent :
    (status : ℕ) (detail : Option (List Loc)) (w : Page)
    → w.submit_error ≡ none
    → ((register_fails (axios_error (some status) detail) w).submit_error ≡ none)
      ↔ ((status ≡ 422) × (finds "password" detail ≡ true))
unfolding register_fails
refused-silent status detail w h = (λ e. (ground arith, ground arith), λ q. ground arith)

-- After a failed request, which has cleared the message above the form, that message is still
-- absent exactly if the server has answered 422 and named the password; then every other field's
-- message is as before, and in any case the page stays at its step.
pub register_fails-silent_iff :
    (err : RequestError) (w : Page)
    → w.submit_error ≡ none
    → (((register_fails err w).submit_error ≡ none) ↔ IsPassword err)
      × ((register_fails err w).step ≡ w.step)
      × ((k : Key) → k ≢ password → (register_fails err w).field_errors k ≡ w.field_errors k)
unfolding register_fails
register_fails-silent_iff other_error w h = ((λ e. cc, λ q. cc), refl, λ k ne. refl)
register_fails-silent_iff (axios_error none detail) w h = ((λ e. cc, λ q. cc), refl, λ k ne. refl)
register_fails-silent_iff (axios_error (some status) detail) w h = (
  (
    λ e. let (s, found) = (refused-silent status detail w h).0 e in (detail, rw s refl, found),
    λ q. let (d, same, found) = q in (refused-silent status detail w h).1 (cc, cc),
  ),
  ground arith,
  λ k ne. ground arith,
)
