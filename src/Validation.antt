-- ===== src/Validation.antt =====
-- Form validation: frontend/src/utils/validators.ts. A message is what the translation function `t` of
-- i18next makes of a key and its values; `new URL(…)` is the browser's, a parameter.
pub mod Patterns
pub mod Company
pub mod Job
pub mod LinkedIn
mod Tests
use text.Mathlib.Text.{◌==◌ as str_eq}
use rs_recruitment.Base.{
  ℕ, ℤ, pos, ltb_ℤ, String, Bool, true, false, not, ◌&&◌, ◌||◌, ◌==◌, ltb, leb, Option, none, some,
  List, [], ◌∷◌, ◌++◌, Text, codes, is_empty, is_space, is_digit, is_upper, is_lower, is_alnum,
  trim, text_eq, ends_with, length, keep, any, if◌then◌else◌,
}
use rs_recruitment.Regex.{Regex, cls, chr, seq, plus, repeat, star, matches}

-- i18next's `t(key, values)`.
abbrev pub TFunction : Type 0
TFunction = String → List (String × ℕ) → String

-- A field→message map, in the order of assignment; each field is assigned once at most.
abbrev pub Errors : Type 0
Errors = List (String × String)

-- The parts of a parsed URL that the code reads.
pub record Url : Type 0 where
  pub protocol : Text
  pub hostname : Text

-- `new URL(s)`: `none` is the exception.
abbrev pub ParseUrl : Type 0
ParseUrl = Text → Option Url

abbrev pub linkedin_host : Text
linkedin_host = codes "linkedin.com"

unfoldable pub sanitize_linkedin_url : ParseUrl → Option Text → Option Text
sanitize_linkedin_url parse none = none
sanitize_linkedin_url parse (some url) = if is_empty url then none else elim (parse url) [
  | none ↦ none
  | some parsed ↦
      if not (text_eq parsed.protocol (codes "https:"))
        || not (ends_with parsed.hostname linkedin_host)
      then none
      else some url
]

-- `[^\s@]`
unfoldable pub is_plain : ℕ → Bool
unfolding is_space
is_plain c = not (is_space c || c == b'@')

abbrev pub email_re : Regex
email_re =
    seq (plus (cls is_plain))
      (seq (chr b'@') (seq (plus (cls is_plain)) (seq (chr b'.') (plus (cls is_plain)))))

abbrev pub mobile_re : Regex
mobile_re = seq (chr b'0') (seq (chr b'5') (seq (cls is_digit) (repeat 7 (cls is_digit))))

abbrev pub company_id_re : Regex
company_id_re = repeat 9 (cls is_digit)

-- `!s?.trim()`
unfoldable pub blank : Option Text → Bool
unfolding trim
blank none = true
blank (some s) = is_empty (trim s)

-- `RE.test(s)` converts a missing value to "undefined".
abbrev pub test : Regex → Option Text → Bool
test r none = matches r (codes "undefined")
test r (some s) = matches r s

pub record CompanyProfileValidatable : Type 0 where
  pub name : Option Text
  pub company_id : Option Text
  pub address : Option Text
  pub contact_email : Option Text
  pub contact_first_name : Option Text
  pub contact_last_name : Option Text
  pub contact_mobile_phone : Option Text

module _ (t : TFunction) where
  abbrev pub required : String
  required = t "common:validation.required" []

  -- `if (blank) e[field] = required`
  abbrev pub need : String → Option Text → Errors
  need field v = if blank v then (field, required) ∷ [] else []

  -- … `else if (!RE.test(v)) e[field] = message`
  abbrev pub need_match : Regex → String → Option Text → String → Errors
  need_match r field v message =
      if blank v
      then (field, required) ∷ []
      else if not (test r v)
      then (field, message) ∷ []
      else []

  unfoldable pub validate_company_profile : CompanyProfileValidatable → Errors
  validate_company_profile form =
      need "name" form.name
      ++ (need_match company_id_re "company_id" form.company_id
            (t "admin:companies.validation.companyId" [])
          ++ (need "address" form.address
              ++ (need_match email_re "contact_email" form.contact_email
                    (t "admin:companies.validation.email" [])
                  ++ (need "contact_first_name" form.contact_first_name
                      ++ (need "contact_last_name" form.contact_last_name
                          ++ need_match mobile_re "contact_mobile_phone" form.contact_mobile_phone
                              (t "admin:companies.validation.mobile" []))))))

abbrev pub job_title_max : ℕ
job_title_max = 100

abbrev pub job_location_max : ℕ
job_location_max = 200

abbrev pub job_desc_max : ℕ
job_desc_max = 5000

abbrev pub job_short_desc_max : ℕ
job_short_desc_max = 140

abbrev pub job_req_min_count : ℕ
job_req_min_count = 3

-- `requirements` holds the texts of the items.
pub record JobValidatable : Type 0 where
  pub title : Option Text
  pub short_description : Option Text
  pub description : Option Text
  pub location : Option Text
  pub requirements : Option (List Text)
  pub salary_min : Option ℤ
  pub salary_max : Option ℤ

-- `form.requirements ?? []`
abbrev pub given : Option (List Text) → List Text
given none = []
given (some rs) = rs

unfoldable pub filled_reqs : Option (List Text) → List Text
unfolding trim
filled_reqs rs = keep (λ r. ltb 0 (length (trim r))) (given rs)

abbrev pub too_long : ℕ → Option Text → Bool
too_long most none = false
too_long most (some s) = ltb most (length s)

abbrev pub few_reqs : ℕ → String → Errors
few_reqs n m = if ltb n job_req_min_count then ("requirements", m) ∷ [] else []

-- `v == null || v < 0`
abbrev pub no_amount : Option ℤ → Bool
no_amount none = true
no_amount (some v) = ltb_ℤ v (pos 0)

-- `min != null && max < min`
abbrev pub below_min : Option ℤ → Option ℤ → Bool
below_min (some a) (some b) = ltb_ℤ b a
below_min _ _ = false

module _ (t : TFunction) where
  abbrev pub need_short : ℕ → String → Option Text → Errors
  need_short most field v =
      if blank v
      then (field, required t) ∷ []
      else if too_long most v
      then (field, t "common:validation.tooLong" (("max", most) ∷ [])) ∷ []
      else []

  abbrev pub need_salary : Option ℤ → Option ℤ → Errors
  need_salary lo hi =
      (if no_amount lo then ("salary_min", required t) ∷ [] else [])
      ++ (if no_amount hi
          then ("salary_max", required t) ∷ []
          else if below_min lo hi
          then ("salary_max", t "common:validation.salaryMaxBelowMin" []) ∷ []
          else [])

  unfoldable pub validate_job : JobValidatable → Errors
  unfolding filled_reqs
  validate_job form =
      need_short job_title_max "title" form.title
      ++ (need_short job_short_desc_max "short_description" form.short_description
          ++ (need_short job_location_max "location" form.location
              ++ (need_short job_desc_max "description" form.description
                  ++ (few_reqs (length (filled_reqs form.requirements))
                        (t "common:validation.requirementsMin" (("min", job_req_min_count) ∷ []))
                      ++ need_salary form.salary_min form.salary_max))))
