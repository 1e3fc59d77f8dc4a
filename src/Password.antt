-- ===== src/Password.antt =====
-- The password rules: frontend/src/utils/passwordComplexity.ts.
pub mod Laws
use rs_recruitment.Base.{
  ℕ, ℤ, pos, ltb_ℤ, String, Bool, true, false, not, ◌&&◌, ◌||◌, ◌==◌, ltb, leb, Option, none, some,
  List, [], ◌∷◌, ◌++◌, Text, codes, is_empty, is_space, is_digit, is_upper, is_lower, is_alnum,
  trim, text_eq, ends_with, length, keep, any, if◌then◌else◌,
}
use rs_recruitment.Regex.{Regex, cls, chr, seq, plus, repeat, star, matches}

-- The i18n key of the first rule that fails.
unfoldable pub check_password_complexity : Text → Option String
check_password_complexity val =
    if ltb (length val) 8
    then some "publicJobs:application.validation.passwordMin"
    else if not (any is_upper val)
    then some "publicJobs:application.validation.passwordUppercase"
    else if not (any is_lower val)
    then some "publicJobs:application.validation.passwordLowercase"
    else if not (any is_digit val)
    then some "publicJobs:application.validation.passwordDigit"
    else if matches (star (cls is_alnum)) val
    then some "publicJobs:application.validation.passwordSpecial"
    else none
