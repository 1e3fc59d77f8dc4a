-- ===== src/ApplyForm/Tests.antt =====
-- The fields of the application form at single values.
use rs_recruitment.Base.{
  ◌≡◌, ◌≤◌, ◌↔◌, ◌⊎◌, false, Text, codes, none, length, trim, keep, is_digit, any, HasInk, is_ink,
}
use rs_recruitment.Validation.{TFunction, ParseUrl}
use rs_recruitment.Validation.Patterns.{IsEmail, IsMobile}
use rs_recruitment.ApplyForm.{validate_field}
use rs_recruitment.ApplyForm.Fields.{IsProfileUrl, validate_field_iff}

abbrev key_of : TFunction
key_of key values = key

abbrev parse_none : ParseUrl
parse_none s = none

abbrev value : Text
value = codes "052-1234567"

validate_field_iff_example :
    ((validate_field parse_none key_of "full_name" value ≡ none)
      ↔ ((2 ≤ length (trim value)) × (length value ≤ 100)))
    × ((validate_field parse_none key_of "email" value ≡ none)
        ↔ ((length value ≤ 255) × HasInk value × IsEmail value))
    × ((validate_field parse_none key_of "phone" value ≡ none)
        ↔ (HasInk value × IsMobile (keep is_digit value)))
    × ((validate_field parse_none key_of "linkedin_url" value ≡ none)
        ↔ ((any is_ink value ≡ false) ⊎ IsProfileUrl parse_none value))
validate_field_iff_example = validate_field_iff parse_none key_of value
