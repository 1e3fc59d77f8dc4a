-- ===== src/Register/Candidate/Laws.antt =====
-- When RegisterCandidatePage.tsx sends a request, and what it holds.
use rs_recruitment.Base.{
  String, inl, inr, ◌⊎◌, ◌≤◌, Bool, true, false, not, ◌≡◌, ◌↔◌, refl, [], ◌∷◌, Text, arith, none,
  is_empty, trim, any, all, length, HasInk, ink_of_trim, trim_of_ink, Bool-cases,
}
use rs_recruitment.Validation.Patterns.{IsEmail, email_re_accepts}
use rs_recruitment.Validation.LinkedIn.{text_eq_iff}
use rs_recruitment.Password.Laws.{IsComplex}
use rs_recruitment.Register.{is_fine, check}
use rs_recruitment.Register.Checks.{fine-All, any-not, not_empty_of_long}
use rs_recruitment.Register.Candidate.{
  full_name, email, password, password_confirm, CandidatePage, validate_field, all_errors,
  validate_all, names, signup_of, handle_submit, is_simple,
}

full_name_lem : (pw v : Text) → (validate_field pw full_name v ≡ none) ↔ (2 ≤ length (trim v))
unfolding validate_field
full_name_lem pw v = (λ h. ground arith, λ h. let a = long (trim v) h in ground arith)
  where
    long : (s : Text) → 2 ≤ length s → is_empty s ≡ false
    long [] h = absurd (omega arith)
    long (c ∷ s) h = refl

IsEmail-valid : (pw v : Text) → (validate_field pw email v ≡ none) ↔ (HasInk v × IsEmail v)
unfolding validate_field
IsEmail-valid pw v = (
  λ h. (ink_of_trim v (ground arith), (email_re_accepts v).0 (ground arith)),
  λ h. let a = trim_of_ink v h.0 in let b = (email_re_accepts v).1 h.1 in ground arith,
)

pub password_iff : (pw v : Text) → (validate_field pw password v ≡ none) ↔ IsComplex v
unfolding validate_field is_simple
password_iff pw v = (
  λ h. record {
    long = ground arith;
    upper = ground arith;
    lower = ground arith;
    digit = ground arith;
    special = ground arith;
  },
  λ m.
      let a = not_empty_of_long v m.long in
      let b = m.long in
      let c = m.upper in let d = m.lower in let e = m.digit in let f = m.special in ground arith,
)

password_confirm_lem :
    (pw v : Text) → is_empty pw ≡ false → (validate_field pw password_confirm v ≡ none) ↔ (v ≡ pw)
unfolding validate_field
password_confirm_lem pw v some_pw = (
  λ h. (text_eq_iff v pw).0 (ground arith),
  λ e. let a = (text_eq_iff v pw).1 e in let b : is_empty v ≡ false = cc in ground arith,
)

-- What the page asks of the form and the boxes.
pub record IsReady (w : CandidatePage) : Type 0 where
  pub name : 2 ≤ length (trim w.form.full_name)
  pub ink : HasInk w.form.email
  pub mail : IsEmail w.form.email
  pub pass : IsComplex w.form.password
  pub repeated : w.form.password_confirm ≡ w.form.password
  pub privacy : w.privacy_accepted ≡ true
  pub terms : w.terms_accepted ≡ true

ticked : (b : Bool) (m : String) → check (not b) m none ≡ none → b ≡ true
ticked b m h = ground arith

validate_all_sound : (w : CandidatePage) → validate_all w ≡ true → IsReady w
unfolding validate_all all_errors
validate_all_sound w h =
    let o = fine-All (all_errors w) names h in
    let m = (IsEmail-valid w.form.password w.form.email).0 o.1.0 in
    let p = (password_iff w.form.password w.form.password).0 o.1.1.0 in
    let some_pw = not_empty_of_long w.form.password p.long in
    record {
      name = (full_name_lem w.form.password w.form.full_name).0 o.0;
      ink = m.0;
      mail = m.1;
      pass = p;
      repeated = (password_confirm_lem w.form.password w.form.password_confirm some_pw).0 o.1.1.1.0;
      privacy = ticked w.privacy_accepted _ o.1.1.1.1.0;
      terms = ticked w.terms_accepted _ o.1.1.1.1.1.0;
    }

validate_all_complete : (w : CandidatePage) → IsReady w → validate_all w ≡ true
unfolding validate_all all_errors
validate_all_complete w r =
    let pw = w.form.password in
    let a = (full_name_lem pw w.form.full_name).1 r.name in
    let b = (IsEmail-valid pw w.form.email).1 (r.ink, r.mail) in
    let c = (password_iff pw pw).1 r.pass in
    let d =
      (password_confirm_lem pw w.form.password_confirm (not_empty_of_long pw r.pass.long)).1
        r.repeated in
    rw (a, b, c, d, r.privacy, r.terms) refl

validate_all_out :
    (w : CandidatePage) → validate_all w ≡ false → all (λ n. is_fine (all_errors w n)) names ≡ false
unfolding validate_all
validate_all_out w h = h

-- A submission sends the trimmed, lower-cased e-mail, the password, the trimmed name and the flags
-- exactly if the form is ready; otherwise it sends nothing and shows what is wrong.
pub handle_submit_cases :
    (lower : Text → Text) (w : CandidatePage)
    → (IsReady w
        × ((handle_submit lower w).signups
            ≡ record {
              email = lower (trim w.form.email);
              password = w.form.password;
              full_name = trim w.form.full_name;
              privacy_accepted = true;
              terms_accepted = true;
            }
              ∷ w.signups)
        × ((handle_submit lower w).submitting ≡ true))
      ⊎ ((¬ (IsReady w))
          × ((handle_submit lower w).signups ≡ w.signups)
          × ((handle_submit lower w).submitting ≡ w.submitting)
          × (any (λ n. not (is_fine ((handle_submit lower w).field_errors n))) names ≡ true))
unfolding handle_submit signup_of
handle_submit_cases lower w = elim (Bool-cases (validate_all w)) [
  | inl ok ↦
      let r = validate_all_sound w ok in
      let a = r.privacy in let b = r.terms in inl (r, rw (ok, a, b) refl, rw ok refl)
  | inr bad ↦ inr (
    λ r. let fine = validate_all_complete w r in cc,
    rw bad refl,
    rw bad refl,
    rw bad (any-not (λ n. is_fine (all_errors w n)) names (validate_all_out w bad)),
  )
]
