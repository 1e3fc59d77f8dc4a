-- ===== src/Register/Company/Signature.antt =====
-- What `handleSubmit` of RegisterPage.tsx takes of the signature's data URL: what stands between its
-- first comma and the next one.
use rs_recruitment.Base.{
  if_case, ℕ, ◌≡◌, ◌⊎◌, inl, inr, refl, ap, Bool, false, ◌==◌, ==_iff, [], ◌∷◌, ◌++◌, Text, any,
  arith,
}
use rs_recruitment.Register.Company.Page.{before_comma, second_part}

abbrev pub is_comma : ℕ → Bool
is_comma c = c == b','

-- The text up to its first comma.
abbrev pub IsStart : Text → Text → Type 0
IsStart s start =
    (any is_comma start ≡ false) × ((s ≡ start) ⊎ ((rest : Text) × (s ≡ start ++ b',' ∷ rest)))

-- Without a comma in the text there is nothing.
abbrev pub IsSecond : Text → Text → Type 0
IsSecond s part =
    ((before : Text) × (behind : Text) × (any is_comma before ≡ false)
      × (s ≡ before ++ b',' ∷ behind)
      × IsStart behind part)
    ⊎ ((any is_comma s ≡ false) × (part ≡ []))

before_comma-IsStart : (s : Text) → IsStart s (before_comma s)
unfolding before_comma
before_comma-IsStart [] = (refl, inl refl)
before_comma-IsStart (c ∷ s) =
    if_case (IsStart (c ∷ s)) (c == b',') [] (c ∷ before_comma s)
      (λ e. (refl, inr (s, ap (λ d. d ∷ s) ((==_iff c b',').0 e))))
      (λ e. IsStart-more c s (before_comma s) e (before_comma-IsStart s))
  where
    IsStart-more :
        (c : ℕ) (s start : Text)
        → (c == b',') ≡ false
        → IsStart s start
        → IsStart (c ∷ s) (c ∷ start)
    IsStart-more c s start e (clean, inl whole) = (ground arith, inl (ap (λ t. c ∷ t) whole))
    IsStart-more c s start e (clean, inr (rest, whole)) =
        (ground arith, inr (rest, ap (λ t. c ∷ t) whole))

IsSecond-more :
    (c : ℕ) (s part : Text) → (c == b',') ≡ false → IsSecond s part → IsSecond (c ∷ s) part
IsSecond-more c s part e (inl (before, behind, clean, whole, start)) =
    inl (c ∷ before, behind, ground arith, ap (λ t. c ∷ t) whole, start)
IsSecond-more c s part e (inr (clean, empty)) = inr (ground arith, empty)

pub second_part-IsSecond : (s : Text) → IsSecond s (second_part s)
unfolding second_part
second_part-IsSecond [] = inr (refl, refl)
second_part-IsSecond (c ∷ s) =
    if_case (IsSecond (c ∷ s)) (c == b',') (before_comma s) (second_part s)
      (λ e. inl ([], s, refl, ap (λ d. d ∷ s) ((==_iff c b',').0 e), before_comma-IsStart s))
      (λ e. IsSecond-more c s (second_part s) e (second_part-IsSecond s))

before_comma-clean : (s : Text) → any is_comma s ≡ false → before_comma s ≡ s
unfolding before_comma
before_comma-clean [] h = refl
before_comma-clean (c ∷ s) h =
    let here : (c == b',') ≡ false = ground arith in
    let rest = before_comma-clean s (ground arith) in rw (here, rest) refl

-- With one comma, it is what stands behind it.
pub second_part-append :
    (before code : Text)
    → any is_comma before ≡ false
    → any is_comma code ≡ false
    → second_part (before ++ b',' ∷ code) ≡ code
unfolding second_part
second_part-append [] code h k = before_comma-clean code k
second_part-append (c ∷ before) code h k =
    let here : (c == b',') ≡ false = ground arith in
    let rest = second_part-append before code (ground arith) k in rw here rest
