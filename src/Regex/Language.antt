-- ===== src/Regex/Language.antt =====
-- The language of a regular expression, against the matcher.
use rs_recruitment.Base.{
  ℕ, Bool, true, ◌≡◌, refl, sym, ap, ◌∙◌, ◌≢◌, ◌↔◌, ◌⊎◌, inl, inr, [], ◌∷◌, ◌++◌, Text, arith,
  Bool-cases,
}
use mathlib.Core.Path.{subst}
use mathlib.Core.Bool.{and-eq-true_iff}
use rs_recruitment.Regex.{Regex, nothing, epsilon, cls, seq, alt, star, nullable, deriv, matches}

pub data InLanguage : Regex → Text → Type 0 where
  in_epsilon : {s : Text} → s ≡ [] → InLanguage epsilon s
  in_cls : {p : ℕ → Bool} {s : Text} (c : ℕ) → p c ≡ true → s ≡ c ∷ [] → InLanguage (cls p) s
  in_seq :
      {r q : Regex} {s : Text} (a b : Text)
      → InLanguage r a
      → InLanguage q b
      → s ≡ a ++ b
      → InLanguage (seq r q) s
  in_left : {r q : Regex} {s : Text} → InLanguage r s → InLanguage (alt r q) s
  in_right : {r q : Regex} {s : Text} → InLanguage q s → InLanguage (alt r q) s
  star_nil : {r : Regex} {s : Text} → s ≡ [] → InLanguage (star r) s
  star_cons :
      {r : Regex} {s : Text} (c : ℕ) (a b : Text)
      → InLanguage r (c ∷ a)
      → InLanguage (star r) b
      → s ≡ c ∷ (a ++ b)
      → InLanguage (star r) s

nullable_sound : (r : Regex) → nullable r ≡ true → InLanguage r []
unfolding nullable
nullable_sound nothing h = cc
nullable_sound epsilon h = in_epsilon refl
nullable_sound (cls p) h = cc
nullable_sound (seq r q) h =
    let (x, y) = (and-eq-true_iff _ _).0 h in
    in_seq [] [] (nullable_sound r x) (nullable_sound q y) refl
nullable_sound (alt r q) h = elim (Bool-cases (nullable r)) [
  | inl e ↦ in_left (nullable_sound r e)
  | inr e ↦ in_right (nullable_sound q (rw e at h))
]
nullable_sound (star r) h = star_nil refl

append-eq-nil : (a b : Text) → [] ≡ a ++ b → ([] ≡ a) × ([] ≡ b)
append-eq-nil [] b h = (refl, h)
append-eq-nil (c ∷ a) b h = cc

nullable_complete : {r : Regex} {s : Text} → InLanguage r s → [] ≡ s → nullable r ≡ true
unfolding nullable
nullable_complete (in_epsilon e) h = refl
nullable_complete (in_cls c p e) h = cc
nullable_complete (in_seq a b x y e) h =
    let (p, q) = append-eq-nil a b (h ∙ e) in rw (nullable_complete x p, nullable_complete y q)
nullable_complete (in_left {q} x) h = rw (nullable_complete x h)
nullable_complete (in_right {r} x) h = ground (arith, nullable_complete x h)
nullable_complete (star_nil e) h = refl
nullable_complete (star_cons c a b x y e) h = cc

not-InLanguage-nothing : {r : Regex} {s : Text} → InLanguage r s → r ≢ nothing
not-InLanguage-nothing (in_epsilon e) = λ h. cc
not-InLanguage-nothing (in_cls c p e) = λ h. cc
not-InLanguage-nothing (in_seq a b x y e) = λ h. cc
not-InLanguage-nothing (in_left x) = λ h. cc
not-InLanguage-nothing (in_right x) = λ h. cc
not-InLanguage-nothing (star_nil e) = λ h. cc
not-InLanguage-nothing (star_cons c a b x y e) = λ h. cc

pub inv_epsilon : {s : Text} → InLanguage epsilon s → s ≡ []
inv_epsilon (in_epsilon e) = e

pub inv_cls :
    {p : ℕ → Bool} {s : Text} → InLanguage (cls p) s → (c : ℕ) × (p c ≡ true) × (s ≡ c ∷ [])
inv_cls (in_cls c h e) = (c, h, e)

pub inv_seq :
    {r q : Regex} {s : Text}
    → InLanguage (seq r q) s
    → (a : Text) × (b : Text) × InLanguage r a × InLanguage q b × (s ≡ a ++ b)
inv_seq (in_seq a b x y e) = (a, b, x, y, e)

inv_alt : {r q : Regex} {s : Text} → InLanguage (alt r q) s → InLanguage r s ⊎ InLanguage q s
inv_alt (in_left x) = inl x
inv_alt (in_right x) = inr x

-- The derivative of a sequence whose first part is taken, and of one whose first part is empty.
first_sound :
    {r q d : Regex} {s : Text} (c : ℕ)
    → ((a : Text) → InLanguage d a → InLanguage r (c ∷ a))
    → InLanguage (seq d q) s
    → InLanguage (seq r q) (c ∷ s)
first_sound c ih h =
    let (a, b, x, y, e) = inv_seq h in in_seq (c ∷ a) b (ih a x) y (ap (λ t. c ∷ t) e)

deriv_sound : (r : Regex) (c : ℕ) (s : Text) → InLanguage (deriv c r) s → InLanguage r (c ∷ s)
unfolding deriv
deriv_sound nothing c s h = absurd (not-InLanguage-nothing h refl)
deriv_sound epsilon c s h = absurd (not-InLanguage-nothing h refl)
deriv_sound (cls p) c s h = elim (Bool-cases (p c)) [
  | inl e ↦ in_cls c e (ap (λ t. c ∷ t) (inv_epsilon (rw e at h)))
  | inr e ↦ absurd (not-InLanguage-nothing (rw e at h) refl)
]
deriv_sound (seq r q) c s h = elim (Bool-cases (nullable r)) [
  | inl e ↦ elim (inv_alt (rw e at h)) [
    | inl x ↦ first_sound c (λ a. deriv_sound r c a) x
    | inr y ↦ in_seq [] (c ∷ s) (nullable_sound r e) (deriv_sound q c s y) refl
  ]
  | inr e ↦ first_sound c (λ a. deriv_sound r c a) (rw e at h)
]
deriv_sound (alt r q) c s h = elim (inv_alt h) [
  | inl x ↦ in_left (deriv_sound r c s x)
  | inr x ↦ in_right (deriv_sound q c s x)
]
deriv_sound (star r) c s h =
    let (a, b, x, y, e) = inv_seq h in star_cons c a b (deriv_sound r c a x) y (ap (λ t. c ∷ t) e)

-- An empty or a non-empty first part.
cons-eq-append :
    (c : ℕ) (s a b : Text)
    → c ∷ s ≡ a ++ b
    → ((a ≡ []) × (b ≡ c ∷ s)) ⊎ ((a' : Text) × (a ≡ c ∷ a') × (s ≡ a' ++ b))
cons-eq-append c s [] b e = inl (refl, sym e)
cons-eq-append c s (d ∷ a) b e = inr (a, cc, cc)

deriv_seq_first :
    (r q : Regex) (c : ℕ) {s : Text}
    → InLanguage (seq (deriv c r) q) s
    → InLanguage (deriv c (seq r q)) s
unfolding deriv
deriv_seq_first r q c x = elim (Bool-cases (nullable r)) [
  | inl n ↦ rw n (in_left x)
  | inr n ↦ rw n x
]

deriv_complete :
    {r : Regex} {t : Text} (c : ℕ) (s : Text)
    → InLanguage r t
    → t ≡ c ∷ s
    → InLanguage (deriv c r) s
unfolding deriv
deriv_complete c s (in_epsilon e) h = cc
deriv_complete c s (in_cls {p} d ok e) h =
    let same : p c ≡ true = subst (λ k. p k ≡ true) (cc) ok in rw same (in_epsilon (cc))
deriv_complete c s (in_seq {r} {q} a b x y e) h = elim (cons-eq-append c s a b (sym h ∙ e)) [
  | inl (u, v) ↦ rw (nullable_complete x (sym u)) (in_right (deriv_complete c s y v))
  | inr (a', u, v) ↦ deriv_seq_first r q c (in_seq a' b (deriv_complete c a' x u) y v)
]
deriv_complete c s (in_left x) h = in_left (deriv_complete c s x h)
deriv_complete c s (in_right x) h = in_right (deriv_complete c s x h)
deriv_complete c s (star_nil e) h = cc
deriv_complete c s (star_cons d a b x y e) h = in_seq a b (deriv_complete c a x (cc)) y (cc)

-- The matcher accepts exactly the texts of the language.
pub matches_iff : (r : Regex) (s : Text) → (matches r s ≡ true) ↔ InLanguage r s
unfolding matches
matches_iff r [] = (nullable_sound r, λ x. nullable_complete x refl)
matches_iff r (c ∷ s) = (
  λ h. deriv_sound r c s ((matches_iff (deriv c r) s).0 h),
  λ x. (matches_iff (deriv c r) s).1 (deriv_complete c s x refl),
)
