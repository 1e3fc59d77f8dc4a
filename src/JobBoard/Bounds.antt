-- ===== src/JobBoard/Bounds.antt =====
-- The bounds of the salary filter of the job board.
use rs_recruitment.Base.{
  inl, inr, ◌⊎◌, ℕ, ◌+◌, ◌*◌, ◌/◌, ◌≤◌, ◌<◌, ◌≡◌, refl, ap, min, max, leb, Option, none, some, List,
  [], ◌∷◌, arith, Bool-cases,
}
use rs_recruitment.JobBoard.{
  Job, SalaryBounds, salary_step, salary_fallback, lower_of, higher_of, extremes, bounds_of,
  get_salary_bounds,
}

-- Some amount is given, and it is at most a; or at least a.
abbrev IsBelow : Option ℕ → ℕ → Type 0
IsBelow o a = (l : ℕ) × (o ≡ some l) × (l ≤ a)

abbrev IsAbove : Option ℕ → ℕ → Type 0
IsAbove o a = (u : ℕ) × (o ≡ some u) × (a ≤ u)

lower_of-IsBelow : (o o' : Option ℕ) (a : ℕ) → IsBelow o a → IsBelow (lower_of o o') a
lower_of-IsBelow none none a (l, e, le) = cc
lower_of-IsBelow none (some b) a (l, e, le) = cc
lower_of-IsBelow (some k) none a v = v
lower_of-IsBelow (some k) (some b) a (l, e, le) = (min k b, refl, ground arith)

lower_of-given : (o : Option ℕ) (a : ℕ) → IsBelow (lower_of o (some a)) a
lower_of-given none a = (a, refl, omega arith)
lower_of-given (some k) a = (min k a, refl, omega arith)

higher_of-IsAbove : (o o' : Option ℕ) (a : ℕ) → IsAbove o a → IsAbove (higher_of o o') a
higher_of-IsAbove none none a (u, e, le) = cc
higher_of-IsAbove none (some b) a (u, e, le) = cc
higher_of-IsAbove (some k) none a v = v
higher_of-IsAbove (some k) (some b) a (u, e, le) = (max k b, refl, ground arith)

higher_of-given : (o : Option ℕ) (a : ℕ) → IsAbove (higher_of o (some a)) a
higher_of-given none a = (a, refl, omega arith)
higher_of-given (some k) a = (max k a, refl, omega arith)

extremes-IsBelow :
    (jobs : List Job) (lo hi : Option ℕ) (a : ℕ) → IsBelow lo a → IsBelow (extremes jobs lo hi).0 a
unfolding extremes
extremes-IsBelow [] lo hi a v = v
extremes-IsBelow (j ∷ jobs) lo hi a v =
    extremes-IsBelow jobs (lower_of lo j.salary_min) (higher_of hi j.salary_max) a
      (lower_of-IsBelow lo j.salary_min a v)

extremes-IsAbove :
    (jobs : List Job) (lo hi : Option ℕ) (a : ℕ) → IsAbove hi a → IsAbove (extremes jobs lo hi).1 a
unfolding extremes
extremes-IsAbove [] lo hi a v = v
extremes-IsAbove (j ∷ jobs) lo hi a v =
    extremes-IsAbove jobs (lower_of lo j.salary_min) (higher_of hi j.salary_max) a
      (higher_of-IsAbove hi j.salary_max a v)

-- The amount is some job's lower bound; or upper.
abbrev pub HasMin : ℕ → List Job → Type 0
HasMin a [] = ⊥
HasMin a (j ∷ jobs) = (j.salary_min ≡ some a) ⊎ HasMin a jobs

abbrev pub HasMax : ℕ → List Job → Type 0
HasMax a [] = ⊥
HasMax a (j ∷ jobs) = (j.salary_max ≡ some a) ⊎ HasMax a jobs

extremes-HasMin :
    (jobs : List Job) (lo hi : Option ℕ) (a : ℕ) → HasMin a jobs → IsBelow (extremes jobs lo hi).0 a
unfolding extremes
extremes-HasMin [] lo hi a h = absurd h
extremes-HasMin (j ∷ jobs) lo hi a (inl e) =
    extremes-IsBelow jobs (lower_of lo j.salary_min) (higher_of hi j.salary_max) a
      (rw e (lower_of-given lo a))
extremes-HasMin (j ∷ jobs) lo hi a (inr h) =
    extremes-HasMin jobs (lower_of lo j.salary_min) (higher_of hi j.salary_max) a h

extremes-HasMax :
    (jobs : List Job) (lo hi : Option ℕ) (a : ℕ) → HasMax a jobs → IsAbove (extremes jobs lo hi).1 a
unfolding extremes
extremes-HasMax [] lo hi a h = absurd h
extremes-HasMax (j ∷ jobs) lo hi a (inl e) =
    extremes-IsAbove jobs (lower_of lo j.salary_min) (higher_of hi j.salary_max) a
      (rw e (higher_of-given hi a))
extremes-HasMax (j ∷ jobs) lo hi a (inr h) =
    extremes-HasMax jobs (lower_of lo j.salary_min) (higher_of hi j.salary_max) a h

-- The extremes are amounts of jobs.
lower_of-cases : (o o' : Option ℕ) (l : ℕ) → lower_of o o' ≡ some l → (o ≡ some l) ⊎ (o' ≡ some l)
lower_of-cases none none l e = inl e
lower_of-cases none (some b) l e = inr e
lower_of-cases (some k) none l e = inl e
lower_of-cases (some k) (some b) l e =
    let same : min k b ≡ l = cc in
    elim (Bool-cases (leb k b)) [
      | inl le ↦ let this : k ≡ l = ground arith in inl (ap some this)
      | inr gt ↦ let that : b ≡ l = ground arith in inr (ap some that)
    ]

higher_of-cases : (o o' : Option ℕ) (u : ℕ) → higher_of o o' ≡ some u → (o ≡ some u) ⊎ (o' ≡ some u)
higher_of-cases none none u e = inl e
higher_of-cases none (some b) u e = inr e
higher_of-cases (some k) none u e = inl e
higher_of-cases (some k) (some b) u e =
    let same : max k b ≡ u = cc in
    elim (Bool-cases (leb k b)) [
      | inl le ↦ let that : b ≡ u = ground arith in inr (ap some that)
      | inr gt ↦ let this : k ≡ u = ground arith in inl (ap some this)
    ]

extremes-lower :
    (jobs : List Job) (lo hi : Option ℕ) (l : ℕ)
    → (extremes jobs lo hi).0 ≡ some l
    → (lo ≡ some l) ⊎ HasMin l jobs
unfolding extremes
extremes-lower [] lo hi l e = inl e
extremes-lower (j ∷ jobs) lo hi l e =
    elim (extremes-lower jobs (lower_of lo j.salary_min) (higher_of hi j.salary_max) l e) [
      | inr later ↦ inr (inr later)
      | inl here ↦ elim (lower_of-cases lo j.salary_min l here) [
        | inl before ↦ inl before
        | inr this ↦ inr (inl this)
      ]
    ]

extremes-higher :
    (jobs : List Job) (lo hi : Option ℕ) (u : ℕ)
    → (extremes jobs lo hi).1 ≡ some u
    → (hi ≡ some u) ⊎ HasMax u jobs
unfolding extremes
extremes-higher [] lo hi u e = inl e
extremes-higher (j ∷ jobs) lo hi u e =
    elim (extremes-higher jobs (lower_of lo j.salary_min) (higher_of hi j.salary_max) u e) [
      | inr later ↦ inr (inr later)
      | inl here ↦ elim (higher_of-cases hi j.salary_max u here) [
        | inl before ↦ inl before
        | inr this ↦ inr (inl this)
      ]
    ]

-- The lowest minimum and the highest maximum, which are apart, rounded outwards to the next 500.
pub record IsCovered (jobs : List Job) (b : SalaryBounds) : Type 0 where
  pub lo : ℕ
  pub hi : ℕ
  pub lo_given : HasMin lo jobs
  pub hi_given : HasMax hi jobs
  pub lowest : (a : ℕ) → HasMin a jobs → lo ≤ a
  pub highest : (a : ℕ) → HasMax a jobs → a ≤ hi
  pub apart : lo < hi
  pub min_step : (k : ℕ) × (b.min_amount ≡ k * 500)
  pub min_near : (b.min_amount ≤ lo) × (lo < b.min_amount + 500)
  pub max_step : (k : ℕ) × (b.max_amount ≡ k * 500)
  pub max_near : (hi ≤ b.max_amount) × (b.max_amount < hi + 500)

-- No job's maximum is above any job's minimum.
abbrev pub IsFlat : List Job → Type 0
IsFlat jobs = (a c : ℕ) → HasMin a jobs → HasMax c jobs → c ≤ a

-- What is known of the extremes.
abbrev IsExtreme : List Job → Option ℕ × Option ℕ → Type 0
IsExtreme jobs ends =
    ((a : ℕ) → HasMin a jobs → IsBelow ends.0 a)
    × ((a : ℕ) → HasMax a jobs → IsAbove ends.1 a)
    × ((l : ℕ) → ends.0 ≡ some l → HasMin l jobs)
    × ((u : ℕ) → ends.1 ≡ some u → HasMax u jobs)

bounds_of-IsCovered :
    (jobs : List Job) (ends : Option ℕ × Option ℕ)
    → IsExtreme jobs ends
    → ((bounds_of ends ≡ salary_fallback) × IsFlat jobs) ⊎ IsCovered jobs (bounds_of ends)
unfolding bounds_of
bounds_of-IsCovered jobs (none, hi) h = inl (refl, λ a c m k. let (l, e, le) = h.0 a m in cc)
bounds_of-IsCovered jobs (some lo, none) h = inl (refl, λ a c m k. let (u, e, le) = h.1 c k in cc)
bounds_of-IsCovered jobs (some lo, some hi) h = elim (Bool-cases (leb hi lo)) [
  | inl e ↦ inl (
    rw e refl,
    λ a c m k.
        let (l, el, le) = h.0 a m in
        let (u, eu, ue) = h.1 c k in
        let low : l ≡ lo = cc in let high : u ≡ hi = cc in ground arith,
  )
  | inr e ↦ inr (
      rw e (record {
        lo = lo;
        hi = hi;
        lo_given = h.2 lo refl;
        hi_given = h.3 hi refl;
        lowest = λ a m. let (l, el, le) = h.0 a m in let low : l ≡ lo = cc in omega arith;
        highest = λ a m. let (u, eu, ue) = h.1 a m in let high : u ≡ hi = cc in omega arith;
        apart = ground arith;
        min_step = (lo / salary_step, refl);
        min_near = (omega arith, omega arith);
        max_step = ((hi + 499) / salary_step, refl);
        max_near = (omega arith, omega arith);
      }))
]

-- The bounds are the lowest minimum and the highest maximum of the jobs, each rounded outwards to
-- the next multiple of 500, if the former is below the latter. Otherwise, if no minimum is below
-- any maximum, as where none is given, they are the fallback of 0 and 50,000.
pub get_salary_bounds-IsCovered :
    (jobs : List Job)
    → ((get_salary_bounds jobs ≡ record { min_amount = 0; max_amount = 50000 }) × IsFlat jobs)
      ⊎ IsCovered jobs (get_salary_bounds jobs)
unfolding get_salary_bounds
get_salary_bounds-IsCovered jobs = bounds_of-IsCovered jobs (extremes jobs none none) (
  extremes-HasMin jobs none none,
  extremes-HasMax jobs none none,
  λ l e. elim (extremes-lower jobs none none l e) [ inl start ↦ cc | inr found ↦ found ],
  λ u e. elim (extremes-higher jobs none none u e) [ inl start ↦ cc | inr found ↦ found ],
)
