-- ===== src/Base/Ink.antt =====
-- What `trim` leaves: nothing exactly if a text is all white space.
use mathlib.Core.List.{reverse-cons}
use Prim.Native.Nat.{ℕ}
use mathlib.Core.Path.{◌≡◌, refl, ◌∙◌, ap}
use mathlib.Core.Option.{Option, none, some}
use mathlib.Core.Logic.{◌⊎◌, inl, inr}
use mathlib.Core.Bool.{Bool, true, false, not, ◌||◌}
use mathlib.Core.List.{[], ◌∷◌, ◌++◌, reverse}
use native.Mathlib.Omega.{arith}
use rs_recruitment.Base.Tests.{if◌then◌else◌, if_case}
use rs_recruitment.Base.Lists.{any}
use rs_recruitment.Base.Strings.{Text, is_space, trim_start, trim, is_empty}

abbrev pub is_ink : ℕ → Bool
is_ink c = not (is_space c)

-- Some code unit is no white space.
abbrev pub HasInk : Text → Type 0
HasInk s = any is_ink s ≡ true

any-append : (p : ℕ → Bool) (s t : Text) → any p (s ++ t) ≡ (any p s || any p t)
any-append p [] t = refl
any-append p (c ∷ s) t = ground (arith, any-append p s t)

any-reverse : (p : ℕ → Bool) (s : Text) → any p (reverse s) ≡ any p s
any-reverse p [] = refl
any-reverse p (c ∷ s) =
    rw reverse-cons (ground (arith, any-append p (reverse s) (c ∷ []), any-reverse p s))

any-trim_start : (s : Text) → any is_ink (trim_start s) ≡ any is_ink s
unfolding trim_start
any-trim_start [] = refl
any-trim_start (c ∷ s) = ground (arith, any-trim_start s)

is_empty-trim_start : (s : Text) → is_empty (trim_start s) ≡ not (any is_ink s)
unfolding trim_start
is_empty-trim_start [] = refl
is_empty-trim_start (c ∷ s) = ground (arith, is_empty-trim_start s)

is_empty-concat : (s : Text) (c : ℕ) → is_empty (s ++ c ∷ []) ≡ false
is_empty-concat [] c = refl
is_empty-concat (d ∷ s) c = refl

is_empty-reverse : (s : Text) → is_empty (reverse s) ≡ is_empty s
is_empty-reverse [] = refl
is_empty-reverse (c ∷ s) = rw reverse-cons (is_empty-concat (reverse s) c)

pub is_empty-trim : (s : Text) → is_empty (trim s) ≡ not (any is_ink s)
unfolding trim
is_empty-trim s =
    is_empty-reverse (trim_start (reverse (trim_start s)))
    ∙ is_empty-trim_start (reverse (trim_start s))
    ∙ ap not (any-reverse is_ink (trim_start s) ∙ any-trim_start s)

pub ink_of_trim : (s : Text) → is_empty (trim s) ≡ false → HasInk s
ink_of_trim s h = ground (arith, is_empty-trim s)

pub trim_of_ink : (s : Text) → HasInk s → is_empty (trim s) ≡ false
trim_of_ink s h = ground (arith, is_empty-trim s)

pub is_empty_sound : (s : Text) → is_empty s ≡ true → s ≡ []
is_empty_sound [] h = refl
is_empty_sound (c ∷ s) h = cc

-- What a text that may be left out gives: `v` where it is not blank, else nothing.
abbrev pub IsGiven : Text → Text → Option Text → Type 0
IsGiven s v o = (any is_ink s ≡ false) × (o ≡ none) ⊎ HasInk s × (o ≡ some v)

pub if_inked : (s v : Text) → IsGiven s v (if is_empty (trim s) then none else some v)
if_inked s v =
    if_case (IsGiven s v) (is_empty (trim s)) none (some v)
      (λ e. inl (ground (arith, is_empty-trim s), refl)) (λ e. inr (ink_of_trim s e, refl))
