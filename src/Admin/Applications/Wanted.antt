-- ===== src/Admin/Applications/Wanted.antt =====
-- Which applications the filters of AdminApplicationsPage.tsx ask for.
use rs_recruitment.Base.{
  any, is_empty, includes, ◌==◌, ==_iff, ◌||◌, ◌↔◌, ◌⊎◌, inl, inr, Bool-cases, ℕ, ◌≡◌, refl, Text,
  Bool, true, false, not, ◌&&◌, List, [], ◌∷◌, trim, arith,
}
use rs_recruitment.Admin.Applications.{
  Application, ApplicationStatus, new, approved_by_admin, rejected, hired, withdrawn, job_closed,
  is_some, has, searched, or_blank, passes, is_closed,
}

abbrev pub IsIn : ℕ → List ℕ → Type 0
IsIn n [] = ⊥
IsIn n (i ∷ is) = (i ≡ n) ⊎ IsIn n is

-- One of the six texts contains what is searched.
abbrev pub IsFound : (Text → Text) → Text → Application → Type 0
IsFound lower q a =
    (includes (lower a.full_name) q ≡ true)
    ⊎ (includes (lower a.email) q ≡ true)
    ⊎ (includes (lower (or_blank a.phone)) q ≡ true)
    ⊎ (includes (lower a.title) q ≡ true)
    ⊎ (includes (lower a.location) q ≡ true)
    ⊎ (includes (lower (or_blank a.admin_notes)) q ≡ true)

-- What the filters ask for: one of the jobs and of the companies, where some are picked, and the
-- text, where one is left of it.
pub record IsWanted (lower : Text → Text) (query : Text) (jobs companies : List ℕ) (a : Application)
    : Type 0 where
  pub job : (jobs ≡ []) ⊎ IsIn a.job_id jobs
  pub company : (companies ≡ []) ⊎ IsIn a.company_id companies
  pub text : (lower (trim query) ≡ []) ⊎ IsFound lower (lower (trim query)) a

has_iff : (ids : List ℕ) (n : ℕ) → (has ids n ≡ true) ↔ IsIn n ids
has_iff [] n = (λ h. cc, λ h. absurd h)
has_iff (i ∷ ids) n =
    let (to, from) = has_iff ids n in
    (
      λ h. elim (Bool-cases (i == n)) [
        | inl e ↦ inl ((==_iff i n).0 e)
        | inr e ↦ inr (to (ground arith))
      ],
      λ h. elim h [
        | inl e ↦ let same = (==_iff i n).1 e in ground arith
        | inr later ↦ let there = from later in ground arith
      ],
    )

picks_iff :
    (ids : List ℕ) (n : ℕ) → ((is_some ids && not (has ids n)) ≡ false) ↔ ((ids ≡ []) ⊎ IsIn n ids)
picks_iff [] n = (λ h. inl refl, λ h. refl)
picks_iff (i ∷ ids) n = (
  λ h. inr ((has_iff (i ∷ ids) n).0 (ground arith)),
  λ h. elim h [
    | inl e ↦ cc
    | inr there ↦ let found = (has_iff (i ∷ ids) n).1 there in ground arith
  ],
)

any_text_iff :
    (lower : Text → Text) (q : Text) (a : Application)
    → (any (λ s. includes (lower s) q) (searched a) ≡ true) ↔ IsFound lower q a
any_text_iff lower q a = (λ h. ground arith, λ h. ground arith)

text_iff :
    (lower : Text → Text) (q : Text) (a : Application)
    → ((is_empty q || any (λ s. includes (lower s) q) (searched a)) ≡ true)
      ↔ ((q ≡ []) ⊎ IsFound lower q a)
text_iff lower [] a = (λ h. inl refl, λ h. refl)
text_iff lower (c ∷ q) a =
    let (to, from) = any_text_iff lower (c ∷ q) a in
    (λ h. inr (to h), λ h. elim h [ inl e ↦ cc | inr found ↦ from found ])

passes_lem :
    (lower : Text → Text) (q : Text) (jobs companies : List ℕ) (a : Application)
    → (passes lower q jobs companies a ≡ true) ↔ (
        ((is_some jobs && not (has jobs a.job_id)) ≡ false)
        × ((is_some companies && not (has companies a.company_id)) ≡ false)
        × ((is_empty q || any (λ s. includes (lower s) q) (searched a)) ≡ true))
unfolding passes
passes_lem lower q jobs companies a = (λ h. ground arith, λ h. ground arith)

pub passes_iff :
    (lower : Text → Text) (query : Text) (jobs companies : List ℕ) (a : Application)
    → (passes lower (lower (trim query)) jobs companies a ≡ true)
      ↔ IsWanted lower query jobs companies a
passes_iff lower query jobs companies a =
    let (to, from) = passes_lem lower (lower (trim query)) jobs companies a in
    (
      λ h. record {
        job = (picks_iff jobs a.job_id).0 (to h).0;
        company = (picks_iff companies a.company_id).0 (to h).1;
        text = (text_iff lower (lower (trim query)) a).0 (to h).2;
      },
      λ v. from (
        (picks_iff jobs a.job_id).1 v.job,
        (picks_iff companies a.company_id).1 v.company,
        (text_iff lower (lower (trim query)) a).1 v.text,
      ),
    )

abbrev pub IsOver : ApplicationStatus → Type 0
IsOver s = (s ≡ withdrawn) ⊎ (s ≡ job_closed)

is_closed_cases :
    (s : ApplicationStatus) → (is_closed s ≡ true) × IsOver s ⊎ (is_closed s ≡ false) × ¬ IsOver s
is_closed_cases new = inr (refl, λ h. elim h [ inl e ↦ cc | inr e ↦ cc ])
is_closed_cases approved_by_admin = inr (refl, λ h. elim h [ inl e ↦ cc | inr e ↦ cc ])
is_closed_cases rejected = inr (refl, λ h. elim h [ inl e ↦ cc | inr e ↦ cc ])
is_closed_cases hired = inr (refl, λ h. elim h [ inl e ↦ cc | inr e ↦ cc ])
is_closed_cases withdrawn = inl (refl, inl refl)
is_closed_cases job_closed = inl (refl, inr refl)

pub open_iff :
    (shown : Bool) (s : ApplicationStatus) {W : Type 0}
    → (shown ≡ true) ↔ W
    → ((shown && not (is_closed s)) ≡ true) ↔ (W × ¬ IsOver s)
open_iff shown s (to, from) = elim (is_closed_cases s) [
  | inl (e, over) ↦ (λ h. absurd (ground arith), λ h. absurd (h.1 over))
  | inr (e, still) ↦ (λ h. (to (ground arith), still), λ h. let k = from h.0 in ground arith)
]

pub closed_iff :
    (shown : Bool) (s : ApplicationStatus) {W : Type 0}
    → (shown ≡ true) ↔ W
    → ((shown && is_closed s) ≡ true) ↔ (W × IsOver s)
closed_iff shown s (to, from) = elim (is_closed_cases s) [
  | inl (e, over) ↦ (λ h. (to (ground arith), over), λ h. let k = from h.0 in ground arith)
  | inr (e, still) ↦ (λ h. absurd (ground arith), λ h. absurd (still h.1))
]
