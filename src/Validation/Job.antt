-- ===== src/Validation/Job.antt =====
-- The job form of frontend/src/utils/validators.ts: when it is accepted.
use rs_recruitment.Base.{
  ℕ, zero, suc, ◌≤◌, inl, inr, ◌⊎◌, List, ◌∷◌, ltb, keep, any, trim, is_empty, sym, Bool, true,
  Bool-cases, is_ink, trim_of_ink, is_empty-trim, is_empty_sound, ℤ, pos, negsuc, length, String,
  false, ◌≡◌, ◌↔◌, refl, [], Text, arith, Option, some, none, append-eq-nil, HasInk,
}
use rs_recruitment.Validation.{
  TFunction, need_short, need_salary, few_reqs, too_long, JobValidatable, filled_reqs, validate_job,
}
use rs_recruitment.Validation.Company.{blank_sound, blank_complete}

-- Filled, and of at most `most` code units.
abbrev pub IsShort : ℕ → Option Text → Type 0
IsShort most v = (s : Text) × (v ≡ some s) × HasInk s × (length s ≤ most)

-- Both amounts are given, and 0 ≤ min ≤ max.
abbrev pub IsRange : Option ℤ → Option ℤ → Type 0
IsRange lo hi = (a : ℕ) × (b : ℕ) × (lo ≡ some (pos a)) × (hi ≡ some (pos b)) × (a ≤ b)

-- At least `n` of the texts are not blank.
abbrev pub HasInked : ℕ → List Text → Type 0
HasInked zero rs = Unit
HasInked (suc n) [] = ⊥
HasInked (suc n) (r ∷ rs) = HasInk r × HasInked n rs ⊎ HasInked (suc n) rs

abbrev pub texts : Option (List Text) → List Text
texts none = []
texts (some rs) = rs

pub record IsJob (form : JobValidatable) : Type 0 where
  pub title : IsShort 100 form.title
  pub short_description : IsShort 140 form.short_description
  pub location : IsShort 200 form.location
  pub description : IsShort 5000 form.description
  pub requirements : HasInked 3 (texts form.requirements)
  pub salary : IsRange form.salary_min form.salary_max

-- What the filter of the requirements keeps.
filled_ink : (r : Text) → ltb 0 (length (trim r)) ≡ any is_ink r
filled_ink r = elim (Bool-cases (any is_ink r)) [
  | inl e ↦ let some_left = trim_of_ink r e in rw e (long (trim r) some_left)
  | inr e ↦
      let none_left : is_empty (trim r) ≡ true = ground (arith, is_empty-trim r) in
      rw (e, is_empty_sound (trim r) none_left) refl
]
  where
    long : (u : Text) → is_empty u ≡ false → ltb 0 (length u) ≡ true
    long [] h = cc
    long (c ∷ u) h = ground arith

HasInked-iff :
    (n : ℕ) (rs : List Text) → (n ≤ length (keep (λ r. ltb 0 (length (trim r))) rs)) ↔ HasInked n rs
HasInked-iff zero rs = (λ h. tt, λ h. omega arith)
HasInked-iff (suc n) [] = (λ h. absurd (omega arith), λ h. absurd h)
HasInked-iff (suc n) (r ∷ rs) =
    picked (ltb 0 (length (trim r))) (sym (filled_ink r)) (HasInked-iff n rs)
      (HasInked-iff (suc n) rs)
  where
    picked :
        (b : Bool)
        → any is_ink r ≡ b
        → (n ≤ length (keep (λ u. ltb 0 (length (trim u))) rs)) ↔ HasInked n rs
        → (suc n ≤ length (keep (λ u. ltb 0 (length (trim u))) rs)) ↔ HasInked (suc n) rs
        → (suc n
            ≤ length (elim b [
              | true ↦ r ∷ keep (λ u. ltb 0 (length (trim u))) rs
              | false ↦ keep (λ u. ltb 0 (length (trim u))) rs
            ]))
          ↔ (HasInk r × HasInked n rs ⊎ HasInked (suc n) rs)
    picked true e here later = (
      λ h. inl (e, here.0 (omega arith)),
      λ h. elim h [
        | inl (ink, more) ↦ omega (arith, here.1 more)
        | inr more ↦ omega (arith, later.1 more)
      ],
    )
    picked false e here later =
        (λ h. inr (later.0 h), λ h. elim h [ inl (ink, more) ↦ cc | inr more ↦ later.1 more ])

filled_iff : (rs : Option (List Text)) → (3 ≤ length (filled_reqs rs)) ↔ HasInked 3 (texts rs)
unfolding filled_reqs
filled_iff none = HasInked-iff 3 []
filled_iff (some rs) = HasInked-iff 3 rs

module _ (t : TFunction) where
  need_short_sound :
      (most : ℕ) (field : String) (v : Option Text)
      → need_short t most field v ≡ []
      → IsShort most v
  need_short_sound most field v h =
      let (s, e, ink) = blank_sound v (ground arith) in
      let fits : too_long most v ≡ false = ground (arith, blank_complete v (s, e, ink)) in
      (s, e, ink, ground arith)

  need_short_complete :
      (most : ℕ) (field : String) (v : Option Text)
      → IsShort most v
      → need_short t most field v ≡ []
  need_short_complete most field v (s, e, ink, le) =
      rw (blank_complete v (s, e, ink)) (rw e (ground arith))

  need_salary_sound : (lo hi : Option ℤ) → need_salary t lo hi ≡ [] → IsRange lo hi
  need_salary_sound none hi h = cc
  need_salary_sound (some (negsuc a)) hi h = ground arith
  need_salary_sound (some (pos a)) none h = ground arith
  need_salary_sound (some (pos a)) (some (negsuc b)) h = ground arith
  need_salary_sound (some (pos a)) (some (pos b)) h = (a, b, refl, refl, ground arith)

  need_salary_complete : (lo hi : Option ℤ) → IsRange lo hi → need_salary t lo hi ≡ []
  need_salary_complete lo hi (a, b, el, eh, le) = rw (el, eh) (ground arith)

  reqs_iff : (n : ℕ) (m : String) → (few_reqs n m ≡ []) ↔ (3 ≤ n)
  reqs_iff n m = (λ h. ground arith, λ h. ground arith)

  IsJob-sound : (form : JobValidatable) → validate_job t form ≡ [] → IsJob form
  unfolding validate_job
  IsJob-sound form h =
      let (a, h1) = (append-eq-nil _ _).0 h in
      let (b, h2) = (append-eq-nil _ _).0 h1 in
      let (c, h3) = (append-eq-nil _ _).0 h2 in
      let (d, h4) = (append-eq-nil _ _).0 h3 in
      let (e, f) = (append-eq-nil _ _).0 h4 in
      record {
        title = need_short_sound _ _ _ a;
        short_description = need_short_sound _ _ _ b;
        location = need_short_sound _ _ _ c;
        description = need_short_sound _ _ _ d;
        requirements = (filled_iff form.requirements).0 ((reqs_iff _ _).0 e);
        salary = need_salary_sound _ _ f;
      }

  IsJob-complete : (form : JobValidatable) → IsJob form → validate_job t form ≡ []
  unfolding validate_job
  IsJob-complete form m = (append-eq-nil _ _).1 (
    need_short_complete _ _ _ m.title,
    (append-eq-nil _ _).1 (
      need_short_complete _ _ _ m.short_description,
      (append-eq-nil _ _).1 (
        need_short_complete _ _ _ m.location,
        (append-eq-nil _ _).1 (
          need_short_complete _ _ _ m.description,
          (append-eq-nil _ _).1 (
            (reqs_iff _ _).1 ((filled_iff form.requirements).1 m.requirements),
            need_salary_complete _ _ m.salary,
          ),
        ),
      ),
    ),
  )

  -- `validateJob` reports no error exactly if title, short description, location and description
  -- are filled and within 100, 140, 200 and 5000 code units, three requirements at least are not
  -- blank, and both salaries are given with 0 ≤ min ≤ max.
  pub validate_job_iff : (form : JobValidatable) → (validate_job t form ≡ []) ↔ IsJob form
  validate_job_iff form = (IsJob-sound form, IsJob-complete form)
