-- ===== src/JobBoard/Filter.antt =====
-- What the filters of the job board show.
use rs_recruitment.Base.{
  keep_all, is_empty_sound, ◌⊎◌, ℕ, ◌≤◌, ◌<◌, ◌≡◌, refl, Text, any, is_ink, is_empty-trim, trim,
  true, false, none, some, List, [], arith,
}
use rs_recruitment.JobBoard.{
  Job, SalaryBounds, get_salary_bounds, effective_salary_range, is_salary_active, reset_salary,
  matches_query, matches_location, filtered,
}

-- For bounds in order, the range in force is inside them, whatever was chosen, and in order if what
-- was chosen is.
pub effective_salary_range-inside :
    (b : SalaryBounds) (lo hi : ℕ)
    → b.min_amount ≤ b.max_amount
    → let (lo', hi') = effective_salary_range b (some (lo, hi)) in
      (b.min_amount ≤ lo')
      × (lo' ≤ b.max_amount)
      × (b.min_amount ≤ hi')
      × (hi' ≤ b.max_amount)
      × ((hi < lo) ⊎ (lo' ≤ hi'))
unfolding effective_salary_range
effective_salary_range-inside b lo hi ordered = ground arith

-- Resetting the salary filter stores the present bounds as the range. If a later page of jobs has
-- wider bounds below, the filter is in force again, with the old bounds as its range.
pub reset_salary-active :
    (b b' : SalaryBounds)
    → b'.min_amount < b.min_amount
    → b.min_amount ≤ b.max_amount
    → b.max_amount ≤ b'.max_amount
    → let range = effective_salary_range b' (reset_salary b) in
      (range ≡ (b.min_amount, b.max_amount)) × (is_salary_active b' range ≡ true)
unfolding effective_salary_range is_salary_active
reset_salary-active b b' wider ordered below = ground arith

matches_query_blank :
    (lower : Text → Text) (query : Text) (j : Job)
    → lower [] ≡ []
    → any is_ink query ≡ false
    → matches_query lower query j ≡ true
unfolding matches_query
matches_query_blank lower query j empty blank =
    let bare : trim query ≡ [] =
      is_empty_sound (trim query) (ground (arith, is_empty-trim query)) in
    rw (bare, empty) refl

is_salary_active-none :
    (b : SalaryBounds) → is_salary_active b (effective_salary_range b none) ≡ false
unfolding is_salary_active effective_salary_range
is_salary_active-none b = ground arith

-- With a blank query, no location and no salary range, which is what clearing the filters leaves,
-- every job of the list is shown, in its order.
pub filtered-none :
    (lower : Text → Text) (query : Text) (jobs : List Job)
    → lower [] ≡ []
    → any is_ink query ≡ false
    → filtered lower query [] none jobs ≡ jobs
unfolding filtered matches_query matches_location
filtered-none lower query jobs empty blank =
    let inactive = is_salary_active-none (get_salary_bounds jobs) in
    keep_all _ jobs (λ j. let found = matches_query_blank lower query j empty blank in ground arith)
