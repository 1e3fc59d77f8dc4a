-- ===== src/Validation/Tests.antt =====
-- The validators at single forms and texts.
use rs_recruitment.Base.{
  ◌≡◌, ◌≢◌, ◌↔◌, [], ◌∷◌, Text, codes, some, none, text_eq, pos, if◌then◌else◌,
}
use rs_recruitment.Validation.{
  TFunction, ParseUrl, CompanyProfileValidatable, validate_company_profile, JobValidatable,
  validate_job, sanitize_linkedin_url,
}
use rs_recruitment.Validation.Company.{IsCompanyProfile, validate_company_profile_iff}
use rs_recruitment.Validation.Job.{IsJob, validate_job_iff}
use rs_recruitment.Validation.LinkedIn.{IsLinkedIn, sanitize_linkedin_url_iff}

-- A translation that gives the key, and a parser that knows two addresses.
abbrev key_of : TFunction
key_of key values = key

abbrev profile_url : Text
profile_url = codes "https://www.linkedin.com/in/dana"

abbrev other_url : Text
other_url = codes "https://evillinkedin.com"

abbrev parse_known : ParseUrl
parse_known s =
    if text_eq s profile_url
    then some (record { protocol = codes "https:"; hostname = codes "www.linkedin.com" })
    else if text_eq s other_url
    then some (record { protocol = codes "https:"; hostname = codes "evillinkedin.com" })
    else none

abbrev acme : CompanyProfileValidatable
acme = record {
  name = some (codes "Acme");
  company_id = some (codes "514000001");
  address = some (codes "1 Herzl St");
  contact_email = some (codes "dana@acme.co.il");
  contact_first_name = some (codes "Dana");
  contact_last_name = some (codes "Levi");
  contact_mobile_phone = some (codes "0521234567");
}

abbrev clerk : JobValidatable
clerk = record {
  title = some (codes "Clerk");
  short_description = some (codes "Front desk");
  description = some (codes "Answers calls");
  location = some (codes "Haifa");
  requirements = some (codes "Hebrew" ∷ codes "English" ∷ codes "Excel" ∷ []);
  salary_min = some (pos 8000);
  salary_max = some (pos 9000);
}

validate_company_profile_iff_example :
    (validate_company_profile key_of acme ≡ []) ↔ IsCompanyProfile acme
validate_company_profile_iff_example = validate_company_profile_iff key_of acme

validate_job_iff_example : (validate_job key_of clerk ≡ []) ↔ IsJob clerk
validate_job_iff_example = validate_job_iff key_of clerk

sanitize_linkedin_url_iff_example :
    (sanitize_linkedin_url parse_known (some other_url) ≡ some other_url)
    ↔ ((some other_url ≡ some other_url) × (other_url ≢ []) × IsLinkedIn parse_known other_url)
sanitize_linkedin_url_iff_example = sanitize_linkedin_url_iff parse_known (some other_url) other_url
