-- ===== src/Admin/Jobs/Board.antt =====
-- The administrator's filters against those of the public job board.
use rs_recruitment.Base.{
  Option-cases, ℕ, ◌≡◌, refl, ap, ◌∙◌, Text, text_eq, is_empty, any, keep, map, Bool, true, false,
  not, ◌&&◌, ◌||◌, Option, none, some, List, [], ◌∷◌, arith, trim, inl, inr,
}
use rs_recruitment.JobBoard.{
  Job, SalaryBounds, Range, extremes, bounds_of, get_salary_bounds, effective_salary_range,
  is_salary_active, matches_query, matches_location, matches_salary, filtered,
}
use rs_recruitment.Admin.Jobs.{
  AdminJob, Filters, salary_extremes, rounded, salary_bounds, range_in_force, is_range_active,
  salary_out, matches_text, passes, filtered_jobs, is_some,
}

salary_extremes-map :
    (jobs : List AdminJob) (lo hi : Option ℕ)
    → salary_extremes jobs lo hi ≡ extremes (map (λ j. j.job) jobs) lo hi
unfolding salary_extremes extremes
salary_extremes-map [] lo hi = refl
salary_extremes-map (j ∷ jobs) lo hi = salary_extremes-map jobs _ _

rounded_lem : (lo hi : Option ℕ) → rounded lo hi ≡ bounds_of (lo, hi)
unfolding rounded bounds_of
rounded_lem none none = refl
rounded_lem none (some hi) = refl
rounded_lem (some lo) none = refl
rounded_lem (some lo) (some hi) = refl

salary_bounds-map :
    (jobs : List AdminJob) → salary_bounds jobs ≡ get_salary_bounds (map (λ j. j.job) jobs)
unfolding salary_bounds get_salary_bounds
salary_bounds-map jobs =
    rounded_lem (salary_extremes jobs none none).0 (salary_extremes jobs none none).1
    ∙ ap bounds_of (salary_extremes-map jobs none none)

range_in_force_lem :
    (b : SalaryBounds) (r : Option Range) → range_in_force b r ≡ effective_salary_range b r
unfolding range_in_force effective_salary_range
range_in_force_lem b none = refl
range_in_force_lem b (some (lo, hi)) = refl

salary_out_lem : (r : Range) (j : Job) → salary_out r j ≡ not (matches_salary r j)
unfolding salary_out matches_salary
salary_out_lem (lo, hi) j = elim (Option-cases j.salary_min) [
  | inl e ↦ elim (Option-cases j.salary_max) [ inl e' ↦ ground arith | inr (a, e') ↦ ground arith ]
  | inr (b, e) ↦ elim (Option-cases j.salary_max) [
    | inl e' ↦ ground arith
    | inr (a, e') ↦ ground arith
  ]
]

active_lem : (b : SalaryBounds) (r : Range) → is_range_active b r ≡ is_salary_active b r
unfolding is_range_active is_salary_active
active_lem b (lo, hi) = refl

-- Without companies and "featured only" a job passes as on the public board.
module _ (lower : Text → Text) (query : Text) (locations : List Text) (range : Option Range) where
  abbrev pub shared : Filters
  shared = record {
    query = query;
    selected_locations = locations;
    company_filter = [];
    featured_only = false;
    salary_range = range;
  }

  found :
      (b : SalaryBounds) (j : AdminJob)
      → (not (is_empty (lower (trim query))) && not (matches_text lower (lower (trim query)) j.job))
        ≡ not (matches_query lower query j.job)
  unfolding matches_text matches_query
  found b j = ground arith

  placed :
      (ls : List Text) (j : AdminJob)
      → (is_some ls && not (any (λ s. text_eq s (trim j.job.location)) ls))
        ≡ not (matches_location lower ls j.job)
  unfolding matches_location
  placed [] j = refl
  placed (l ∷ ls) j = ground arith

  passes_lem :
      (b : SalaryBounds) (j : AdminJob)
      → passes lower shared b j ≡ (
          matches_query lower query j.job
          && matches_location lower locations j.job
          && (not (is_salary_active b (effective_salary_range b range))
              || matches_salary (effective_salary_range b range) j.job))
  unfolding passes
  passes_lem b j =
      let r = effective_salary_range b range in
      let active = active_lem b r in
      let out = salary_out_lem r j.job in
      rw (found b j, placed locations j, range_in_force_lem b range, active, out) (ground arith)

keep-map :
    {A B : Type 0} (f : A → B) (p : A → Bool) (q : B → Bool)
    → ((x : A) → p x ≡ q (f x))
    → (xs : List A) → map f (keep p xs) ≡ keep q (map f xs)
keep-map f p q h [] = refl
keep-map f p q h (x ∷ xs) = picked (p x) (q (f x)) (h x) (keep-map f p q h xs)
  where
    picked :
        (b c : Bool)
        → b ≡ c
        → map f (keep p xs) ≡ keep q (map f xs)
        → map f (elim b [ true ↦ x ∷ keep p xs | false ↦ keep p xs ])
          ≡ elim c [ true ↦ f x ∷ keep q (map f xs) | false ↦ keep q (map f xs) ]
    picked true true e rest = ap (λ ys. f x ∷ ys) rest
    picked false false e rest = rest
    picked true false e rest = cc
    picked false true e rest = cc

-- With no company chosen and not only the featured jobs, the administrator's list shows exactly
-- the jobs that the public board shows for the same query, locations and salary range, in the same
-- order, although its bounds and its filter are code of their own.
pub filtered_jobs-board :
    (lower : Text → Text) (query : Text) (locations : List Text) (range : Option Range)
    (jobs : List AdminJob)
    → map (λ j. j.job) (filtered_jobs lower (shared lower query locations range) jobs)
      ≡ filtered lower query locations range (map (λ j. j.job) jobs)
unfolding filtered_jobs filtered
filtered_jobs-board lower query locations range jobs =
    let b = get_salary_bounds (map (λ j. j.job) jobs) in
    ap (λ b'. map (λ j. j.job) (keep (passes lower (shared lower query locations range) b') jobs))
      (salary_bounds-map jobs)
    ∙ keep-map (λ j. j.job) _ _ (passes_lem lower query locations range b) jobs
