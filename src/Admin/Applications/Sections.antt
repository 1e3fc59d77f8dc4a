-- ===== src/Admin/Applications/Sections.antt =====
-- What the two sections of AdminApplicationsPage.tsx hold.
use rs_recruitment.Base.{
  ◌↔◌, keep_all, is_empty_sound, ℕ, ◌+◌, ◌≡◌, refl, sym, ap, ◌∙◌, Text, keep, Bool, true, false,
  not, ◌&&◌, Option, List, [], ◌∷◌, ◌++◌, length, trim, arith, if◌then◌else◌,
}
use rs_recruitment.Admin.Applications.Wanted.{IsWanted, IsOver, passes_iff, open_iff, closed_iff}
use rs_recruitment.Admin.Applications.{
  Application, ApplicationStatus, passes, filtered_applications, active_filter_count, is_closed,
  split_closed, sections,
}

abbrev pub open_ones : List Application → List Application
open_ones xs = keep (λ a. not (is_closed a.status)) xs

abbrev pub closed_ones : List Application → List Application
closed_ones xs = keep (λ a. is_closed a.status) xs

snoc_cons : {A : Type 0} (xs ys : List A) (x : A) → (xs ++ x ∷ []) ++ ys ≡ xs ++ x ∷ ys
snoc_cons [] ys x = refl
snoc_cons (z ∷ xs) ys x = ap (λ t. z ∷ t) (snoc_cons xs ys x)

append_nil : {A : Type 0} (xs : List A) → xs ++ [] ≡ xs
append_nil [] = refl
append_nil (x ∷ xs) = ap (λ t. x ∷ t) (append_nil xs)

split_closed-keep :
    (xs active closed : List Application)
    → split_closed xs (active, closed) ≡ (active ++ open_ones xs, closed ++ closed_ones xs)
unfolding split_closed
split_closed-keep [] active closed = sym (λ i. (append_nil active i, append_nil closed i))
split_closed-keep (a ∷ xs) active closed =
    picked (is_closed a.status) (split_closed-keep xs active (closed ++ a ∷ []))
      (split_closed-keep xs (active ++ a ∷ []) closed)
  where
    picked :
        (b : Bool)
        → split_closed xs (active, closed ++ a ∷ [])
          ≡ (active ++ open_ones xs, (closed ++ a ∷ []) ++ closed_ones xs)
        → split_closed xs (active ++ a ∷ [], closed)
          ≡ ((active ++ a ∷ []) ++ open_ones xs, closed ++ closed_ones xs)
        → split_closed xs (if b then (active, closed ++ a ∷ []) else (active ++ a ∷ [], closed)) ≡ (
          active ++ elim (not b) [ true ↦ a ∷ open_ones xs | false ↦ open_ones xs ],
          closed ++ elim b [ true ↦ a ∷ closed_ones xs | false ↦ closed_ones xs ],
        )
    picked true gone stays =
        gone ∙ ap (λ t. (active ++ open_ones xs, t)) (snoc_cons closed (closed_ones xs) a)
    picked false gone stays =
        stays ∙ ap (λ t. (t, closed ++ closed_ones xs)) (snoc_cons active (open_ones xs) a)

keep-keep :
    {A : Type 0} (p q : A → Bool) (xs : List A) → keep p (keep q xs) ≡ keep (λ x. q x && p x) xs
keep-keep p q [] = refl
keep-keep p q (x ∷ xs) = picked (q x) (keep-keep p q xs)
  where
    picked :
        (b : Bool)
        → keep p (keep q xs) ≡ keep (λ x. q x && p x) xs
        → keep p (elim b [ true ↦ x ∷ keep q xs | false ↦ keep q xs ]) ≡ elim (b && p x) [
          | true ↦ x ∷ keep (λ x. q x && p x) xs
          | false ↦ keep (λ x. q x && p x) xs
        ]
    picked false rest = rest
    picked true rest = chosen (p x)
      where
        chosen :
            (c : Bool)
            → elim c [ true ↦ x ∷ keep p (keep q xs) | false ↦ keep p (keep q xs) ]
              ≡ elim c [ true ↦ x ∷ keep (λ x. q x && p x) xs | false ↦ keep (λ x. q x && p x) xs ]
        chosen true = ap (λ t. x ∷ t) rest
        chosen false = rest

-- The sections keep, each in the order of the list, the applications that the filters ask for: the
-- first those that are neither withdrawn nor of a closed job, the second those that are.
pub sections-keep :
    (lower : Text → Text) (query : Text) (jobs companies : List ℕ) (xs : List Application)
    → (p : Application → Bool) × (q : Application → Bool) × (sections lower query jobs companies xs
        ≡ (keep p xs, keep q xs))
      × ((a : Application)
          → (p a ≡ true) ↔ (IsWanted lower query jobs companies a × ¬ IsOver a.status))
      × ((a : Application)
          → (q a ≡ true) ↔ (IsWanted lower query jobs companies a × IsOver a.status))
unfolding sections filtered_applications
sections-keep lower query jobs companies xs =
    let shown = passes lower (lower (trim query)) jobs companies in
    (
      λ a. shown a && not (is_closed a.status),
      λ a. shown a && is_closed a.status,
      split_closed-keep (keep shown xs) [] [] ∙ (λ i. (
        keep-keep (λ a. not (is_closed a.status)) shown xs i,
        keep-keep (λ a. is_closed a.status) shown xs i,
      )),
      λ a. open_iff (shown a) a.status (passes_iff lower query jobs companies a),
      λ a. closed_iff (shown a) a.status (passes_iff lower query jobs companies a),
    )

-- The counts.
length-split :
    {A : Type 0} (p q : A → Bool) (xs : List A)
    → length (keep (λ x. q x && not (p x)) xs) + length (keep (λ x. q x && p x) xs)
      ≡ length (keep q xs)
length-split p q [] = omega arith
length-split p q (x ∷ xs) = ground (arith, length-split p q xs)

no_ids : (ids : List ℕ) → length ids ≡ 0 → ids ≡ []
no_ids [] h = refl
no_ids (i ∷ ids) h = absurd (omega arith)

passes_blank :
    (lower : Text → Text) (a : Application) → lower [] ≡ [] → passes lower (lower []) [] [] a ≡ true
unfolding passes
passes_blank lower a empty = rw empty refl

count_zero :
    (query : Text) (status : Option ApplicationStatus) (jobs : List ℕ) (candidate : Option ℕ)
    (companies : List ℕ)
    → active_filter_count query status jobs candidate companies ≡ 0
    → (trim query ≡ []) × (jobs ≡ []) × (companies ≡ [])
unfolding active_filter_count
count_zero query status jobs candidate companies h = (
  is_empty_sound (trim query) (ground arith),
  no_ids jobs (omega arith),
  no_ids companies (omega arith),
)

-- When the badge counts no filter, the two sections together hold every application that has been
-- loaded, for a `toLowerCase` that leaves the empty text empty.
pub sections-uncounted :
    (lower : Text → Text) (query : Text) (status : Option ApplicationStatus) (jobs : List ℕ)
    (candidate : Option ℕ) (companies : List ℕ) (xs : List Application)
    → lower [] ≡ []
    → active_filter_count query status jobs candidate companies ≡ 0
    → (sections lower query jobs companies xs ≡ (open_ones xs, closed_ones xs))
      × (length (open_ones xs) + length (closed_ones xs) ≡ length xs)
unfolding sections filtered_applications
sections-uncounted lower query status jobs candidate companies xs empty none_active =
    let (bare, no_jobs, no_companies) =
      count_zero query status jobs candidate companies none_active in
    let all : keep (passes lower (lower (trim query)) jobs companies) xs ≡ xs =
      rw (bare, no_jobs, no_companies)
        (keep_all (passes lower (lower []) [] []) xs (λ a. passes_blank lower a empty)) in
    (
      ap (λ ys. split_closed ys ([], [])) all ∙ split_closed-keep xs [] [],
      length-split (λ a. is_closed a.status) (λ a. true) xs
          ∙ ap length (keep_all (λ a. true) xs (λ a. refl)),
    )
