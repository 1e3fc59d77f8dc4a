-- ===== src/Register/Agreement.antt =====
-- The pages' copies of the password rules.
use rs_recruitment.Base.{◌≡◌, ◌↔◌, Text, none}
use rs_recruitment.Password.{check_password_complexity}
use rs_recruitment.Password.Laws.{IsComplex, check_password_complexity_iff}
use rs_recruitment.Register.Company.{validate_password}
use rs_recruitment.Register.Company.Fields.{validate_password_iff}
use rs_recruitment.Register.Candidate.{validate_field, password}
use rs_recruitment.Register.Candidate.Laws.{password_iff}
use rs_recruitment.Register.Reset.{validate_password as reset_validate_password}
use rs_recruitment.Register.Reset.Run.{validate_password_iff as reset_validate_password_iff}

-- The company's registration, the candidate's, the reset of a password and the application wizard,
-- each with code of its own, accept the same passwords: those of eight code units at least, with an
-- upper- and a lower-case ASCII letter, a digit, and a character that is no ASCII letter or digit.
pub validate_password-agree :
    (v : Text)
    → ((validate_password v ≡ none) ↔ IsComplex v)
      × ((validate_field v password v ≡ none) ↔ IsComplex v)
      × ((reset_validate_password v ≡ none) ↔ IsComplex v)
      × ((check_password_complexity v ≡ none) ↔ IsComplex v)
validate_password-agree v = (
  validate_password_iff v,
  password_iff v v,
  reset_validate_password_iff v,
  check_password_complexity_iff v,
)
