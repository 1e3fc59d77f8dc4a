-- ===== src/JobBoard/Salary.antt =====
-- The salary range of the job board.
use rs_recruitment.Base.{ℕ, ◌+◌, ◌≤◌, arith}
use rs_recruitment.JobBoard.{SalaryBounds, Range, slide_min, slide_max}

-- A range inside the bounds, a step wide at least.
abbrev pub IsRange : SalaryBounds → ℕ → Range → Type 0
IsRange b step (lo, hi) = (b.min_amount ≤ lo) × (lo + step ≤ hi) × (hi ≤ b.max_amount)

-- A change of either thumb of the slider, to whatever amount, keeps the range inside the bounds and
-- a step wide at least.
pub slide-IsRange :
    (b : SalaryBounds) (step target lo hi : ℕ)
    → IsRange b step (lo, hi)
    → IsRange b step (slide_min b step target (lo, hi))
      × IsRange b step (slide_max b step target (lo, hi))
unfolding slide_min slide_max
slide-IsRange b step target lo hi v =
    ((omega arith, omega arith, v.2), (v.0, omega arith, omega arith))
