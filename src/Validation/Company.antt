-- ===== src/Validation/Company.antt =====
-- The company-profile form of frontend/src/utils/validators.ts: when it is accepted.
use mathlib.Core.Path.{subst}
use rs_recruitment.Base.{
  String, true, false, not, ◌≡◌, ◌↔◌, refl, [], Text, arith, Option, some, none, HasInk, is_ink,
  any, is_empty-trim, append-eq-nil,
}
use rs_recruitment.Regex.{Regex}
use rs_recruitment.Validation.{
  TFunction, blank, test, need, need_match, CompanyProfileValidatable, validate_company_profile,
}
use rs_recruitment.Validation.Patterns.{
  IsEmail, IsMobile, IsCompanyId, email_re_accepts, mobile_re_accepts, company_id_re_accepts,
}

-- A value is there and is not just white space.
abbrev pub IsFilled : Option Text → Type 0
IsFilled v = (s : Text) × (v ≡ some s) × HasInk s

blank-some : (s : Text) → blank (some s) ≡ not (any is_ink s)
unfolding blank
blank-some s = is_empty-trim s

blank_of_ink : (s : Text) → HasInk s → blank (some s) ≡ false
blank_of_ink s h = ground (arith, blank-some s)

pub blank_sound : (v : Option Text) → blank v ≡ false → IsFilled v
blank_sound none h = cc (blank-none)
  where
    blank-none : blank none ≡ true
    blank-none = unfold blank in refl
blank_sound (some s) h = (s, refl, ground (arith, blank-some s))

pub blank_complete : (v : Option Text) → IsFilled v → blank v ≡ false
blank_complete v (s, e, ink) = rw e (blank_of_ink s ink)

-- The form as the page means it.
pub record IsCompanyProfile (form : CompanyProfileValidatable) : Type 0 where
  pub name : IsFilled form.name
  pub company_id : (s : Text) × (form.company_id ≡ some s) × HasInk s × IsCompanyId s
  pub address : IsFilled form.address
  pub contact_email : (s : Text) × (form.contact_email ≡ some s) × HasInk s × IsEmail s
  pub contact_first_name : IsFilled form.contact_first_name
  pub contact_last_name : IsFilled form.contact_last_name
  pub contact_mobile_phone :
      (s : Text) × (form.contact_mobile_phone ≡ some s) × HasInk s × IsMobile s

module _ (t : TFunction) where
  pub need-eq-nil : (field : String) (v : Option Text) → (need t field v ≡ []) ↔ IsFilled v
  need-eq-nil field v = (λ h. blank_sound v (ground arith), λ f. rw (blank_complete v f))

  pub need_match-eq-nil :
      (r : Regex) (field : String) (v : Option Text) (message : String)
      → (need_match t r field v message ≡ [])
        ↔ ((s : Text) × (v ≡ some s) × HasInk s × (test r (some s) ≡ true))
  need_match-eq-nil r field v message = (
    λ h.
        let (s, e, ink) = blank_sound v (ground arith) in
        let ok : test r v ≡ true = ground (arith, blank_complete v (s, e, ink)) in
        (s, e, ink, subst (λ u. test r u ≡ true) e ok),
    λ m. let (s, e, ink, ok) = m in rw (e, blank_of_ink s ink, ok),
  )

  company_sound :
      (form : CompanyProfileValidatable)
      → validate_company_profile t form ≡ []
      → IsCompanyProfile form
  unfolding validate_company_profile
  company_sound form h =
      let (a, h1) = (append-eq-nil _ _).0 h in
      let (b, h2) = (append-eq-nil _ _).0 h1 in
      let (c, h3) = (append-eq-nil _ _).0 h2 in
      let (d, h4) = (append-eq-nil _ _).0 h3 in
      let (e, h5) = (append-eq-nil _ _).0 h4 in
      let (f, g) = (append-eq-nil _ _).0 h5 in
      let (ci, eci, ici, oci) = (need_match-eq-nil _ _ _ _).0 b in
      let (em, eem, iem, oem) = (need_match-eq-nil _ _ _ _).0 d in
      let (mo, emo, imo, omo) = (need_match-eq-nil _ _ _ _).0 g in
      record {
        name = (need-eq-nil _ _).0 a;
        company_id = (ci, eci, ici, (company_id_re_accepts ci).0 oci);
        address = (need-eq-nil _ _).0 c;
        contact_email = (em, eem, iem, (email_re_accepts em).0 oem);
        contact_first_name = (need-eq-nil _ _).0 e;
        contact_last_name = (need-eq-nil _ _).0 f;
        contact_mobile_phone = (mo, emo, imo, (mobile_re_accepts mo).0 omo);
      }

  company_complete :
      (form : CompanyProfileValidatable)
      → IsCompanyProfile form
      → validate_company_profile t form ≡ []
  unfolding validate_company_profile
  company_complete form m =
      let (ci, eci, ici, oci) = m.company_id in
      let (em, eem, iem, oem) = m.contact_email in
      let (mo, emo, imo, omo) = m.contact_mobile_phone in
      (append-eq-nil _ _).1 (
        (need-eq-nil _ _).1 m.name,
        (append-eq-nil _ _).1 (
          (need_match-eq-nil _ _ _ _).1 (ci, eci, ici, (company_id_re_accepts ci).1 oci),
          (append-eq-nil _ _).1 (
            (need-eq-nil _ _).1 m.address,
            (append-eq-nil _ _).1 (
              (need_match-eq-nil _ _ _ _).1 (em, eem, iem, (email_re_accepts em).1 oem),
              (append-eq-nil _ _).1 (
                (need-eq-nil _ _).1 m.contact_first_name,
                (append-eq-nil _ _).1 (
                  (need-eq-nil _ _).1 m.contact_last_name,
                  (need_match-eq-nil _ _ _ _).1 (mo, emo, imo, (mobile_re_accepts mo).1 omo),
                ),
              ),
            ),
          ),
        ),
      )

  -- `validateCompanyProfile` reports no error exactly for a form whose name, address and contact
  -- names are not blank, whose company id has nine digits, whose e-mail has the form
  -- `name@domain.tld` and whose mobile number is "05" and eight digits.
  pub validate_company_profile_iff :
      (form : CompanyProfileValidatable)
      → (validate_company_profile t form ≡ []) ↔ IsCompanyProfile form
  validate_company_profile_iff form = (company_sound form, company_complete form)
