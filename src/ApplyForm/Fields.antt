-- ===== src/ApplyForm/Fields.antt =====
-- When the wizard accepts a field's value.
use rs_recruitment.Base.{
  inl, inr, ◌≤◌, true, false, ◌≡◌, ◌↔◌, ◌⊎◌, refl, [], ◌∷◌, ◌++◌, Text, codes, arith, some, none,
  is_digit, is_empty, trim, any, length, keep, HasInk, is_ink, is_empty-trim, ink_of_trim,
  trim_of_ink, Option-cases, Bool-cases, text_eq, ends_with,
}
use rs_recruitment.Validation.{TFunction, ParseUrl, Url, linkedin_host}
use rs_recruitment.Validation.Patterns.{IsEmail, IsMobile, email_re_accepts, mobile_re_accepts}
use rs_recruitment.Validation.LinkedIn.{text_eq_iff, ends_with-append, ends_with_sound}
use rs_recruitment.ApplyForm.{validate_field, linkedin_error}

not_empty_of_long : (s : Text) → 2 ≤ length s → is_empty s ≡ false
not_empty_of_long [] h = absurd (omega arith)
not_empty_of_long (c ∷ s) h = refl

-- What the wizard takes for a LinkedIn URL: http or https, and a host that ends in "linkedin.com".
abbrev pub IsProfileUrl : ParseUrl → Text → Type 0
IsProfileUrl parse value =
    (parsed : Url) × (parse value ≡ some parsed)
    × ((parsed.protocol ≡ codes "http:") ⊎ (parsed.protocol ≡ codes "https:"))
    × (sub : Text) × (parsed.hostname ≡ sub ++ linkedin_host)

module _ (parse : ParseUrl) (t : TFunction) where
  -- The full name is accepted exactly if, trimmed, it has two code units at least, and, untrimmed,
  -- a hundred at most.
  full_name_iff :
      (value : Text)
      → (validate_field parse t "full_name" value ≡ none)
        ↔ ((2 ≤ length (trim value)) × (length value ≤ 100))
  unfolding validate_field
  full_name_iff value = (
    λ h. (ground arith, ground arith),
    λ h. let a = not_empty_of_long (trim value) h.0 in ground arith,
  )

  -- An e-mail is accepted exactly if it has at most 255 code units, is not blank and has the form
  -- `name@domain.tld`.
  validate_field-IsEmail :
      (value : Text)
      → (validate_field parse t "email" value ≡ none)
        ↔ ((length value ≤ 255) × HasInk value × IsEmail value)
  unfolding validate_field
  validate_field-IsEmail value = (
    λ h.
        (ground arith, ink_of_trim value (ground arith), (email_re_accepts value).0 (ground arith)),
    λ h. let a = trim_of_ink value h.1 in let b = (email_re_accepts value).1 h.2 in ground arith,
  )

  -- A phone is accepted exactly if it is not blank and its digits alone are an Israeli mobile
  -- number.
  phone_iff :
      (value : Text)
      → (validate_field parse t "phone" value ≡ none)
        ↔ (HasInk value × IsMobile (keep is_digit value))
  unfolding validate_field
  phone_iff value = (
    λ h. (
      ink_of_trim value (ground arith),
      (mobile_re_accepts (keep is_digit value)).0 (ground arith),
    ),
    λ h.
        let a = trim_of_ink value h.0 in
        let b = (mobile_re_accepts (keep is_digit value)).1 h.1 in ground arith,
  )

  linkedin_sound : (value : Text) → linkedin_error parse t value ≡ none → IsProfileUrl parse value
  unfolding linkedin_error
  linkedin_sound value h = elim (Option-cases (parse value)) [
    | inl missing ↦ ground arith
    | inr (parsed, found) ↦
        let host : ends_with parsed.hostname linkedin_host ≡ true = ground arith in
        let (sub, ending) = ends_with_sound _ _ host in
        (parsed, found, scheme parsed found h, sub, ending)
  ]
    where
      scheme :
          (parsed : Url)
          → parse value ≡ some parsed
          → linkedin_error parse t value ≡ none
          → (parsed.protocol ≡ codes "http:") ⊎ (parsed.protocol ≡ codes "https:")
      scheme parsed found h = elim (Bool-cases (text_eq parsed.protocol (codes "http:"))) [
        | inl e ↦ inl ((text_eq_iff _ _).0 e)
        | inr e ↦ inr ((text_eq_iff _ _).0 (ground arith))
      ]

  linkedin_complete :
      (value : Text) → IsProfileUrl parse value → linkedin_error parse t value ≡ none
  unfolding linkedin_error
  linkedin_complete value (parsed, found, scheme, sub, host) =
      let ending : ends_with parsed.hostname linkedin_host ≡ true =
        rw host (ends_with-append sub linkedin_host) in
      ground (
        arith,
        (text_eq_iff parsed.protocol (codes "http:")).1,
        (text_eq_iff parsed.protocol (codes "https:")).1,
      )

  -- A LinkedIn URL is accepted exactly if it is blank, or the browser parses it to an http or https
  -- URL whose host ends in "linkedin.com", whatever stands before.
  linkedin_iff :
      (value : Text)
      → (validate_field parse t "linkedin_url" value ≡ none)
        ↔ ((any is_ink value ≡ false) ⊎ IsProfileUrl parse value)
  unfolding validate_field
  linkedin_iff value = (
    λ h. elim (Bool-cases (any is_ink value)) [
      | inl e ↦ inr (linkedin_sound value (ground (arith, trim_of_ink value e)))
      | inr e ↦ inl e
    ],
    λ h. elim h [
      | inl e ↦ ground (arith, is_empty-trim value)
      | inr m ↦ ground (arith, linkedin_complete value m)
    ],
  )

  -- A full name is accepted exactly if, trimmed, it has two code units at least, and, untrimmed, a
  -- hundred at most; an e-mail if it has at most 255 code units, is not blank and has the form
  -- `name@domain.tld`; a phone if it is not blank and its digits alone are an Israeli mobile
  -- number; and a LinkedIn URL if it is blank, or the browser parses it to an http or https URL
  -- whose host ends in "linkedin.com", whatever stands before.
  pub validate_field_iff :
      (value : Text)
      → ((validate_field parse t "full_name" value ≡ none)
          ↔ ((2 ≤ length (trim value)) × (length value ≤ 100)))
        × ((validate_field parse t "email" value ≡ none)
            ↔ ((length value ≤ 255) × HasInk value × IsEmail value))
        × ((validate_field parse t "phone" value ≡ none)
            ↔ (HasInk value × IsMobile (keep is_digit value)))
        × ((validate_field parse t "linkedin_url" value ≡ none)
            ↔ ((any is_ink value ≡ false) ⊎ IsProfileUrl parse value))
  validate_field_iff value =
      (full_name_iff value, validate_field-IsEmail value, phone_iff value, linkedin_iff value)
