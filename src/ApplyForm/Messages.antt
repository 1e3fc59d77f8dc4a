-- ===== src/ApplyForm/Messages.antt =====
-- The messages of the wizard's fields.
use rs_recruitment.Base.{
  inl, inr, ◌≤◌, Bool, true, false, ◌≡◌, ◌↔◌, ◌⊎◌, refl, [], Text, String, arith, Option, some,
  none, length, Option-cases, is_empty, trim, ltb, not, ◌&&◌, keep, is_digit,
}
use text.Mathlib.Text.{◌==◌ as str_eq}
use rs_recruitment.Regex.{matches}
use rs_recruitment.Validation.{TFunction, ParseUrl, email_re, mobile_re}
use rs_recruitment.ApplyForm.{
  fails, ◌or_else◌, only_if, full_name_error, email_error, phone_error, linkedin_error,
  validate_field, is_step_3_field, text_field_max,
}

module _ (parse : ParseUrl) (t : TFunction) where
  -- An answer is accepted exactly if it has at most 2,000 code units.
  pub answer_iff :
      (value : Text)
      → ((validate_field parse t "service_concept" value ≡ none) ↔ (length value ≤ 2000))
        × ((validate_field parse t "salary_expectations" value ≡ none) ↔ (length value ≤ 2000))
        × ((validate_field parse t "strength" value ≡ none) ↔ (length value ≤ 2000))
        × ((validate_field parse t "growth_area" value ≡ none) ↔ (length value ≤ 2000))
  unfolding validate_field
  answer_iff value = (
    (λ h. ground arith, λ h. ground arith),
    (λ h. ground arith, λ h. ground arith),
    (λ h. ground arith, λ h. ground arith),
    (λ h. ground arith, λ h. ground arith),
  )

  -- There is no message, or it is a translation.
  abbrev pub IsMessage : Option String → Type 0
  IsMessage o = (o ≡ none) ⊎ ((key : String) × (o ≡ some (t key [])))

  fails-IsMessage : (b : Bool) (key : String) → IsMessage (fails parse t b key)
  fails-IsMessage true key = inr (key, refl)
  fails-IsMessage false key = inl refl

  or_else-IsMessage : (m k : Option String) → IsMessage m → IsMessage k → IsMessage (m or_else k)
  or_else-IsMessage none k h h' = h'
  or_else-IsMessage (some m) k h h' = h

  only_if-IsMessage : (b : Bool) (m : Option String) → IsMessage m → IsMessage (only_if b m)
  only_if-IsMessage true m h = h
  only_if-IsMessage false m h = inl refl

  linkedin-IsMessage : (value : Text) → IsMessage (linkedin_error parse t value)
  unfolding linkedin_error
  linkedin-IsMessage value = elim (Option-cases (parse value)) [
    | inl missing ↦ rw (missing, linkedin_error) (inr (_, refl))
    | inr (parsed, found) ↦
        rw (found, linkedin_error)
          (or_else-IsMessage _ _ (fails-IsMessage _ _) (fails-IsMessage _ _))
  ]

  -- The message of a field is a translation.
  pub validate_field-IsMessage :
      (name : String) (value : Text) → IsMessage (validate_field parse t name value)
  unfolding validate_field full_name_error email_error phone_error
  validate_field-IsMessage name value =
      let name_message : IsMessage (full_name_error parse t value) =
        (or_else-IsMessage _ _
          (fails-IsMessage (is_empty (trim value))
            "publicJobs:application.validation.fullNameRequired")
          (or_else-IsMessage _ _
            (fails-IsMessage (ltb (length (trim value)) 2)
              "publicJobs:application.validation.fullNameMin")
            (fails-IsMessage (ltb 100 (length value))
              "publicJobs:application.validation.fullNameMax"))) in
      let email_message : IsMessage (email_error parse t value) =
        (or_else-IsMessage _ _
          (fails-IsMessage (is_empty (trim value))
            "publicJobs:application.validation.emailRequired")
          (or_else-IsMessage _ _
            (fails-IsMessage (ltb 255 (length value)) "publicJobs:application.validation.emailMax")
            (fails-IsMessage (not (matches email_re value))
              "publicJobs:application.validation.emailInvalid"))) in
      let phone_message : IsMessage (phone_error parse t value) =
        (or_else-IsMessage _ _
          (fails-IsMessage (is_empty (trim value))
            "publicJobs:application.validation.phoneRequired")
          (fails-IsMessage (not (matches mobile_re (keep is_digit value)))
            "publicJobs:application.validation.phoneFormat")) in
      (or_else-IsMessage _ _ (only_if-IsMessage (str_eq name "full_name") _ name_message) (
        or_else-IsMessage _ _ (only_if-IsMessage (str_eq name "email") _ email_message) (
          or_else-IsMessage _ _ (only_if-IsMessage (str_eq name "phone") _ phone_message) (
            or_else-IsMessage _ _
              (only_if-IsMessage (str_eq name "linkedin_url" && not (is_empty (trim value))) _
                (linkedin-IsMessage value))
              (fails-IsMessage (is_step_3_field name && ltb text_field_max (length value))
                "publicJobs:application.validation.textMax")))))
