-- ===== src/Register/Company/Fields.antt =====
-- What the checks of the first step of RegisterPage.tsx let through.
use rs_recruitment.Base.{
  inl, inr, ◌≤◌, true, false, ◌≡◌, ◌↔◌, refl, Text, arith, keep, not, ◌==◌, ◌||◌, is_space, some,
  none, Option, is_empty, length, HasInk, ink_of_trim, trim_of_ink, Option-cases,
}
use rs_recruitment.Validation.Patterns.{
  IsEmail, IsMobile, IsCompanyId, email_re_accepts, mobile_re_accepts, company_id_re_accepts,
}
use rs_recruitment.Validation.LinkedIn.{text_eq_iff}
use rs_recruitment.Password.Laws.{IsComplex}
use rs_recruitment.Register.Checks.{fine-All, not_empty_of_long}
use rs_recruitment.Register.Company.{
  keys, logo, FormState, step_1_errors, every_fine, strip, is_separator, validate_email,
  validate_password, validate_confirm, validate_company_name, validate_company_id,
  validate_mobile_phone, validate_address, validate_contact_first_name, validate_contact_last_name,
}

-- The fields of the first step in order. The company's number and the mobile phone, without the
-- latter's dashes and white space, have the form they are to have.
pub record IsComplete (form : FormState) (file : Option Text) : Type 0 where
  pub name : HasInk form.company_name
  pub name_max : length form.company_name ≤ 100
  pub number_ink : HasInk form.company_id
  pub number : IsCompanyId form.company_id
  pub place : HasInk form.address
  pub place_max : length form.address ≤ 200
  pub first : HasInk form.contact_first_name
  pub last : HasInk form.contact_last_name
  pub phone_ink : HasInk form.contact_mobile_phone
  pub phone : IsMobile (keep (λ c. not (c == b'-' || is_space c)) form.contact_mobile_phone)
  pub mail_ink : HasInk form.email
  pub mail : IsEmail form.email
  pub pass : IsComplex form.password
  pub repeated : form.confirm ≡ form.password
  pub picture : (f : Text) × (file ≡ some f)

IsEmail-fine : (v : Text) → (validate_email v ≡ none) ↔ (HasInk v × IsEmail v)
unfolding validate_email
IsEmail-fine v = (
  λ h. (ink_of_trim v (ground arith), (email_re_accepts v).0 (ground arith)),
  λ h. let a = trim_of_ink v h.0 in let b = (email_re_accepts v).1 h.1 in ground arith,
)

IsCompanyId-fine : (v : Text) → (validate_company_id v ≡ none) ↔ (HasInk v × IsCompanyId v)
unfolding validate_company_id
IsCompanyId-fine v = (
  λ h. (ink_of_trim v (ground arith), (company_id_re_accepts v).0 (ground arith)),
  λ h. let a = trim_of_ink v h.0 in let b = (company_id_re_accepts v).1 h.1 in ground arith,
)

IsMobile-fine :
    (v : Text)
    → (validate_mobile_phone v ≡ none)
      ↔ (HasInk v × IsMobile (keep (λ c. not (c == b'-' || is_space c)) v))
unfolding validate_mobile_phone is_separator
IsMobile-fine v = (
  λ h. (ink_of_trim v (ground arith), (mobile_re_accepts (strip v)).0 (ground arith)),
  λ h. let a = trim_of_ink v h.0 in let b = (mobile_re_accepts (strip v)).1 h.1 in ground arith,
)

name-fine : (v : Text) → (validate_company_name v ≡ none) ↔ (HasInk v × (length v ≤ 100))
unfolding validate_company_name
name-fine v = (
  λ h. (ink_of_trim v (ground arith), ground arith),
  λ h. let a = trim_of_ink v h.0 in ground arith,
)

place-fine : (v : Text) → (validate_address v ≡ none) ↔ (HasInk v × (length v ≤ 200))
unfolding validate_address
place-fine v = (
  λ h. (ink_of_trim v (ground arith), ground arith),
  λ h. let a = trim_of_ink v h.0 in ground arith,
)

first-fine : (v : Text) → (validate_contact_first_name v ≡ none) ↔ HasInk v
unfolding validate_contact_first_name
first-fine v = (λ h. ink_of_trim v (ground arith), λ h. let a = trim_of_ink v h in ground arith)

last-fine : (v : Text) → (validate_contact_last_name v ≡ none) ↔ HasInk v
unfolding validate_contact_last_name
last-fine v = (λ h. ink_of_trim v (ground arith), λ h. let a = trim_of_ink v h in ground arith)

pub validate_password_iff : (v : Text) → (validate_password v ≡ none) ↔ IsComplex v
unfolding validate_password
validate_password_iff v = (
  λ h. record {
    long = ground arith;
    upper = ground arith;
    lower = ground arith;
    digit = ground arith;
    special = ground arith;
  },
  λ m.
      let a = not_empty_of_long v m.long in
      let b = m.long in
      let c = m.upper in let d = m.lower in let e = m.digit in let f = m.special in ground arith,
)

confirm-fine : (v pw : Text) → is_empty pw ≡ false → (validate_confirm v pw ≡ none) ↔ (v ≡ pw)
unfolding validate_confirm
confirm-fine v pw some_pw = (
  λ h. (text_eq_iff v pw).0 (ground arith),
  λ e. let a = (text_eq_iff v pw).1 e in let b : is_empty v ≡ false = cc in ground arith,
)

module _ (form : FormState) (file : Option Text) where
  step_1_complete : IsComplete form file → every_fine (step_1_errors form file) ≡ true
  unfolding step_1_errors every_fine
  step_1_complete m =
      let (f, picked) = m.picture in
      let a = (name-fine form.company_name).1 (m.name, m.name_max) in
      let b = (IsCompanyId-fine form.company_id).1 (m.number_ink, m.number) in
      let c = (place-fine form.address).1 (m.place, m.place_max) in
      let d = (first-fine form.contact_first_name).1 m.first in
      let e = (last-fine form.contact_last_name).1 m.last in
      let g = (IsMobile-fine form.contact_mobile_phone).1 (m.phone_ink, m.phone) in
      let h = (IsEmail-fine form.email).1 (m.mail_ink, m.mail) in
      let i = (validate_password_iff form.password).1 m.pass in
      let j =
        (confirm-fine form.confirm form.password (not_empty_of_long form.password m.pass.long)).1
          m.repeated in
      rw (a, b, c, d, e, g, h, i, j, picked) refl

  picked : step_1_errors form file logo ≡ none → (f : Text) × (file ≡ some f)
  unfolding step_1_errors
  picked h = elim (Option-cases file) [ inl missing ↦ ground arith | inr found ↦ found ]

  step_1_sound : every_fine (step_1_errors form file) ≡ true → IsComplete form file
  unfolding step_1_errors every_fine
  step_1_sound h =
      let o = fine-All (step_1_errors form file) keys h in
      let (n, n_max) = (name-fine form.company_name).0 o.0 in
      let (i_ink, i) = (IsCompanyId-fine form.company_id).0 o.1.0 in
      let (p, p_max) = (place-fine form.address).0 o.1.1.0 in
      let (m_ink, m) = (IsMobile-fine form.contact_mobile_phone).0 o.1.1.1.1.1.0 in
      let (e_ink, e) = (IsEmail-fine form.email).0 o.1.1.1.1.1.1.0 in
      let pw = (validate_password_iff form.password).0 o.1.1.1.1.1.1.1.0 in
      let some_pw = not_empty_of_long form.password pw.long in
      record {
        name = n;
        name_max = n_max;
        number_ink = i_ink;
        number = i;
        place = p;
        place_max = p_max;
        first = (first-fine form.contact_first_name).0 o.1.1.1.0;
        last = (last-fine form.contact_last_name).0 o.1.1.1.1.0;
        phone_ink = m_ink;
        phone = m;
        mail_ink = e_ink;
        mail = e;
        pass = pw;
        repeated = (confirm-fine form.confirm form.password some_pw).0 o.1.1.1.1.1.1.1.1.0;
        picture = picked o.1.1.1.1.1.1.1.1.1.0;
      }

  -- The first step's button lets through exactly the forms whose company name, number, address,
  -- contact, mobile phone, e-mail, password, its repetition and logo are as `IsComplete` says.
  pub step_1_iff : (every_fine (step_1_errors form file) ≡ true) ↔ IsComplete form file
  step_1_iff = (step_1_sound, step_1_complete)
