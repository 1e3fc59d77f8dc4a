-- ===== src/JobBoard.antt =====
-- The public job board: frontend/src/pages/public/JobBoardPage.tsx and its jobBoardUtils.ts, and the
-- slider of frontend/src/components/ui/RangeSlider.tsx. Amounts are whole shekels, as the backend
-- has them; the range in the address bar is taken as such too. `lower` is `toLowerCase`.
pub mod Salary
pub mod Bounds
pub mod Filter
mod Tests
use rs_recruitment.Base.{
  ℕ, ◌+◌, ◌-◌, ◌*◌, ◌/◌, min, max, leb, ◌==◌, Text, text_eq, is_empty, any, keep, Bool, true, false,
  not, ◌&&◌, ◌||◌, Option, none, some, List, [], ◌∷◌, ◌++◌, if◌then◌else◌,
}
unfoldable use rs_recruitment.Base.{trim, includes}

-- The fields of `JobPublicRead` that the filters read; `requirements` holds the texts.
pub record Job : Type 0 where
  pub title : Text
  pub location : Text
  pub short_description : Text
  pub description : Text
  pub requirements : List Text
  pub tags : List Text
  pub salary_min : Option ℕ
  pub salary_max : Option ℕ

abbrev pub salary_step : ℕ
salary_step = 500

pub record SalaryBounds : Type 0 where
  pub min_amount : ℕ
  pub max_amount : ℕ

abbrev pub salary_fallback : SalaryBounds
salary_fallback = record { min_amount = 0; max_amount = 50000 }

-- `lo` and `hi`, where `none` is Infinity and -Infinity.
abbrev pub lower_of : Option ℕ → Option ℕ → Option ℕ
lower_of lo none = lo
lower_of none (some a) = some a
lower_of (some lo) (some a) = some (min lo a)

abbrev pub higher_of : Option ℕ → Option ℕ → Option ℕ
higher_of hi none = hi
higher_of none (some a) = some a
higher_of (some hi) (some a) = some (max hi a)

-- The loop over the jobs.
unfoldable pub extremes : List Job → Option ℕ → Option ℕ → Option ℕ × Option ℕ
extremes [] lo hi = (lo, hi)
extremes (j ∷ jobs) lo hi = extremes jobs (lower_of lo j.salary_min) (higher_of hi j.salary_max)

unfoldable pub bounds_of : Option ℕ × Option ℕ → SalaryBounds
bounds_of (some lo, some hi) = if leb hi lo then salary_fallback else record {
  min_amount = lo / salary_step * salary_step;
  max_amount = (hi + 499) / salary_step * salary_step;
}
bounds_of _ = salary_fallback

unfoldable pub get_salary_bounds : List Job → SalaryBounds
unfolding extremes bounds_of
get_salary_bounds jobs = bounds_of (extremes jobs none none)

abbrev pub Range : Type 0
Range = ℕ × ℕ

abbrev pub clamp : SalaryBounds → ℕ → ℕ
clamp b a = max b.min_amount (min a b.max_amount)

unfoldable pub effective_salary_range : SalaryBounds → Option Range → Range
effective_salary_range b none = (b.min_amount, b.max_amount)
effective_salary_range b (some (lo, hi)) = (clamp b lo, clamp b hi)

unfoldable pub is_salary_active : SalaryBounds → Range → Bool
is_salary_active b (lo, hi) = not (lo == b.min_amount) || not (hi == b.max_amount)

-- `handleResetSalary`
abbrev pub reset_salary : SalaryBounds → Option Range
reset_salary b = some (b.min_amount, b.max_amount)

abbrev pub at_least : Option ℕ → ℕ → Bool
at_least none a = true
at_least (some hi) a = leb a hi

abbrev pub at_most : Option ℕ → ℕ → Bool
at_most none a = true
at_most (some lo) a = leb lo a

-- A missing bound of a job is open; a job without bounds always matches.
unfoldable pub matches_salary : Range → Job → Bool
matches_salary (lo, hi) j = at_least j.salary_max lo && at_most j.salary_min hi

-- `texts.join(" ")`
abbrev pub join_blank : List Text → Text
join_blank [] = []
join_blank (s ∷ []) = s
join_blank (s ∷ s' ∷ ss) = s ++ (b' ' ∷ join_blank (s' ∷ ss))

abbrev pub searched : Job → List Text
searched j =
    j.title
    ∷ j.location
    ∷ j.short_description
    ∷ j.description
    ∷ join_blank j.requirements
    ∷ join_blank j.tags
    ∷ []

module _ (lower : Text → Text) where
  unfoldable pub matches_query : Text → Job → Bool
  unfolding trim includes
  matches_query query j =
      let q = lower (trim query) in is_empty q || any (λ s. includes (lower s) q) (searched j)

  unfoldable pub matches_location : List Text → Job → Bool
  unfolding trim
  matches_location [] j = true
  matches_location (l ∷ ls) j = any (λ s. text_eq s (trim j.location)) (l ∷ ls)

  unfoldable pub filtered : Text → List Text → Option Range → List Job → List Job
  unfolding matches_query matches_location matches_salary effective_salary_range is_salary_active
      get_salary_bounds
  filtered query locations salary jobs =
      let b = get_salary_bounds jobs in
      let range = effective_salary_range b salary in
      keep
        (λ j.
          matches_query query j
          && matches_location locations j
          && (not (is_salary_active b range) || matches_salary range j))
        jobs

-- The handlers of the slider, `handleMinChange` and `handleMaxChange`. A difference below 0 is taken
-- for 0, which `Math.max(min, …)` makes the same.
unfoldable pub slide_min : SalaryBounds → ℕ → ℕ → Range → Range
slide_min b step target (lo, hi) = (max b.min_amount (min target (hi - step)), hi)

unfoldable pub slide_max : SalaryBounds → ℕ → ℕ → Range → Range
slide_max b step target (lo, hi) = (lo, min b.max_amount (max target (lo + step)))
