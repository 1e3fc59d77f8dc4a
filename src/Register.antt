-- ===== src/Register.antt =====
-- The registration, password-reset and login pages, frontend/src/pages/: what they share. A message is its i18n
-- key, `none` where the source returns "" (no translation is empty, so a message is falsy exactly
-- if it is ""); a request's failure holds what the handlers read of it.
mod Checks
pub mod Company
pub mod Candidate
pub mod Reset
pub mod Login
pub mod Agreement
mod Tests
use text.Mathlib.Text.{◌==◌ as str_eq}
use rs_recruitment.Base.{
  ℕ, String, Bool, true, false, not, ◌&&◌, ◌||◌, ltb, Option, none, some, List, [], ◌∷◌, Text,
  is_empty, is_alnum, is_digit, is_upper, is_lower, length, any, if◌then◌else◌,
}

abbrev pub Message : Type 0
Message = Option String

-- `!message`
abbrev pub is_fine : Message → Bool
is_fine none = true
is_fine (some m) = false

-- `if (broken) return message;`, then the rest.
abbrev pub check : Bool → String → Message → Message
check broken message rest = if broken then some message else rest

-- The `loc` of an entry of a 422 answer's `detail`, if it has one.
abbrev pub Loc : Type 0
Loc = Option (List String)

-- What a request fails with: an axios error with the response's status and its `detail`, `none`
-- unless it is an array; or another error.
pub data RequestError : Type 0 where
  axios_error : Option ℕ → Option (List Loc) → RequestError
  other_error : RequestError

-- `e.loc?.includes(name)`
abbrev pub loc_includes : String → Loc → Bool
loc_includes name none = false
loc_includes name (some loc) = any (str_eq name) loc

-- `detail.find(e => e.loc?.includes(name))` finds one.
abbrev pub finds : String → Option (List Loc) → Bool
finds name none = false
finds name (some detail) = any (loc_includes name) detail

-- `/[^A-Za-z0-9]/.test(v)`
abbrev pub has_special : Text → Bool
has_special v = any (λ c. not (is_alnum c)) v
