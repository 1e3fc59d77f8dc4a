-- ===== src/Admin/Jobs.antt =====
-- The client-side filters of frontend/src/pages/admin/AdminJobsPage.tsx; Admin.Jobs.Page is the page. `lower` is `toLowerCase`, and
-- `query` the debounced one.
pub mod Board
pub mod Page
pub mod Sync
use rs_recruitment.Base.{
  ℕ, ◌+◌, ◌*◌, ◌/◌, min, max, leb, ◌==◌, Text, text_eq, is_empty, any, keep, map, Bool, true, false,
  not, ◌&&◌, ◌||◌, Option, none, some, List, [], ◌∷◌, length, if◌then◌else◌,
}
unfoldable use rs_recruitment.Base.{trim, includes}
use rs_recruitment.JobBoard.{Job, SalaryBounds, Range, lower_of, higher_of, join_blank, clamp}

pub data JobStatus : Type 0 where
  pending_approval : JobStatus
  published : JobStatus
  closed : JobStatus

-- The fields of `JobRead` that the page reads; `job` are those that it shares with the public
-- board's.
pub record AdminJob : Type 0 where
  pub id : ℕ
  pub status : JobStatus
  pub company_id : ℕ
  pub is_featured : Bool
  pub job : Job

-- The loop of `salaryBounds`; `none` is Infinity and -Infinity.
unfoldable pub salary_extremes : List AdminJob → Option ℕ → Option ℕ → Option ℕ × Option ℕ
salary_extremes [] lo hi = (lo, hi)
salary_extremes (j ∷ jobs) lo hi =
    salary_extremes jobs (lower_of lo j.job.salary_min) (higher_of hi j.job.salary_max)

unfoldable pub rounded : Option ℕ → Option ℕ → SalaryBounds
rounded (some lo) (some hi) =
    if leb hi lo
    then record { min_amount = 0; max_amount = 50000 }
    else record { min_amount = lo / 500 * 500; max_amount = (hi + 499) / 500 * 500 }
rounded _ _ = record { min_amount = 0; max_amount = 50000 }

unfoldable pub salary_bounds : List AdminJob → SalaryBounds
unfolding salary_extremes rounded
salary_bounds jobs = let (lo, hi) = salary_extremes jobs none none in rounded lo hi

unfoldable pub range_in_force : SalaryBounds → Option Range → Range
range_in_force b none = (b.min_amount, b.max_amount)
range_in_force b (some (lo, hi)) = (clamp b lo, clamp b hi)

unfoldable pub is_range_active : SalaryBounds → Range → Bool
is_range_active b (lo, hi) = not (lo == b.min_amount) || not (hi == b.max_amount)

abbrev pub is_null : Option ℕ → Bool
is_null none = true
is_null (some a) = false

-- `jobHi >= filterLo`, where a missing bound is Infinity, and `jobLo <= filterHi`.
abbrev pub reaches : Option ℕ → ℕ → Bool
reaches none a = true
reaches (some hi) a = leb a hi

abbrev pub starts_below : Option ℕ → ℕ → Bool
starts_below none a = true
starts_below (some lo) a = leb lo a

-- The salary's part of the filter: `true` returns false.
unfoldable pub salary_out : Range → Job → Bool
salary_out (filter_lo, filter_hi) j =
    if not (is_null j.salary_min) || not (is_null j.salary_max)
    then not (reaches j.salary_max filter_lo && starts_below j.salary_min filter_hi)
    else false

abbrev pub has_id : ℕ → List ℕ → Bool
has_id id ids = any (λ i. i == id) ids

-- `xs.length > 0`
abbrev pub is_some : {A : Type 0} → List A → Bool
is_some [] = false
is_some (x ∷ xs) = true

-- The client-side filters; `none` is no salary range.
pub record Filters : Type 0 where
  pub query : Text
  pub selected_locations : List Text
  pub company_filter : List ℕ
  pub featured_only : Bool
  pub salary_range : Option Range

abbrev pub clear_filters : Filters → Filters
clear_filters f = record {
  query = [];
  selected_locations = [];
  company_filter = [];
  featured_only = false;
  salary_range = none;
}

module _ (lower : Text → Text) where
  unfoldable pub matches_text : Text → Job → Bool
  unfolding includes
  matches_text q j =
      any (λ s. includes (lower s) q)
        (j.title
          ∷ j.location
          ∷ j.short_description
          ∷ j.description
          ∷ join_blank j.requirements
          ∷ join_blank j.tags
          ∷ [])

  -- The callback of `jobs.filter`, an early return after another.
  unfoldable pub passes : Filters → SalaryBounds → AdminJob → Bool
  unfolding trim matches_text range_in_force is_range_active salary_out
  passes f b j =
      let q = lower (trim f.query) in
      let range = range_in_force b f.salary_range in
      if not (is_empty q) && not (matches_text q j.job)
      then false
      else if is_some f.selected_locations
          && not (any (λ s. text_eq s (trim j.job.location)) f.selected_locations)
      then false
      else if is_some f.company_filter && not (has_id j.company_id f.company_filter)
      then false
      else if f.featured_only && not j.is_featured
      then false
      else not (is_range_active b range && salary_out range j.job)

  unfoldable pub filtered_jobs : Filters → List AdminJob → List AdminJob
  unfolding passes salary_bounds
  filtered_jobs f jobs = let b = salary_bounds jobs in keep (passes f b) jobs

abbrev pub one_if : Bool → ℕ
one_if true = 1
one_if false = 0

unfoldable pub active_filter_count : Filters → List AdminJob → ℕ
unfolding trim salary_bounds range_in_force is_range_active
active_filter_count f jobs =
    let b = salary_bounds jobs in
    one_if (not (is_empty (trim f.query)))
    + length f.selected_locations
    + length f.company_filter
    + one_if f.featured_only
    + one_if (is_range_active b (range_in_force b f.salary_range))
