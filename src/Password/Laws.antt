-- ===== src/Password/Laws.antt =====
-- Which passwords checkPasswordComplexity passes.
use rs_recruitment.Base.{
  inl, inr, ℕ, ◌≤◌, Bool, true, false, not, ◌≡◌, ◌↔◌, refl, [], ◌∷◌, Text, arith, none, is_upper,
  is_lower, is_digit, is_alnum, any, length, Bool-cases,
}
use rs_recruitment.Regex.{cls, star, matches}
use rs_recruitment.Regex.Language.{matches_iff}
use rs_recruitment.Validation.Patterns.{AllIn, star_sound, star_complete}
use rs_recruitment.Password.{check_password_complexity}

AllIn-not-any : (p : ℕ → Bool) (s : Text) → AllIn p s → any (λ c. not (p c)) s ≡ false
AllIn-not-any p [] h = refl
AllIn-not-any p (c ∷ s) h = ground (arith, AllIn-not-any p s h.1)

not-any-AllIn : (p : ℕ → Bool) (s : Text) → any (λ c. not (p c)) s ≡ false → AllIn p s
not-any-AllIn p [] h = tt
not-any-AllIn p (c ∷ s) h = (ground arith, not-any-AllIn p s (ground arith))

-- `/^[A-Za-z0-9]*$/` fails exactly if some character is not alphanumeric.
special_iff :
    (s : Text) → (matches (star (cls is_alnum)) s ≡ false) ↔ (any (λ c. not (is_alnum c)) s ≡ true)
special_iff s =
    let (to, from) = matches_iff (star (cls is_alnum)) s in
    (
      λ h. elim (Bool-cases (any (λ c. not (is_alnum c)) s)) [
        | inl e ↦ e
        | inr e ↦ let m = from (star_complete is_alnum s (not-any-AllIn is_alnum s e)) in cc
      ],
      λ h. elim (Bool-cases (matches (star (cls is_alnum)) s)) [
        | inl e ↦ let a = AllIn-not-any is_alnum s (star_sound is_alnum s (to e)) in cc
        | inr e ↦ e
      ],
    )

-- The five rules.
pub record IsComplex (s : Text) : Type 0 where
  pub long : 8 ≤ length s
  pub upper : any is_upper s ≡ true
  pub lower : any is_lower s ≡ true
  pub digit : any is_digit s ≡ true
  pub special : any (λ c. not (is_alnum c)) s ≡ true

IsComplex-sound : (s : Text) → check_password_complexity s ≡ none → IsComplex s
unfolding check_password_complexity
IsComplex-sound s h = record {
  long = ground arith;
  upper = ground arith;
  lower = ground arith;
  digit = ground arith;
  special = (special_iff s).0 (ground arith);
}

IsComplex-complete : (s : Text) → IsComplex s → check_password_complexity s ≡ none
unfolding check_password_complexity
IsComplex-complete s m =
    let plain : matches (star (cls is_alnum)) s ≡ false = (special_iff s).1 m.special in
    ground arith

-- A password passes exactly if it has eight code units at least, an upper- and a lower-case ASCII
-- letter, a digit, and a character that is no ASCII letter or digit.
pub check_password_complexity_iff : (s : Text) → (check_password_complexity s ≡ none) ↔ IsComplex s
check_password_complexity_iff s = (IsComplex-sound s, IsComplex-complete s)
