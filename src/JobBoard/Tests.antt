-- ===== src/JobBoard/Tests.antt =====
-- The filters over a board of two jobs.
use rs_recruitment.Base.{◌⊎◌, ◌≡◌, codes, none, some, List, [], ◌∷◌}
use rs_recruitment.JobBoard.{Job, SalaryBounds, get_salary_bounds}
use rs_recruitment.JobBoard.Bounds.{IsCovered, IsFlat, get_salary_bounds-IsCovered}

abbrev clerk : Job
clerk = record {
  title = codes "Clerk";
  location = codes "Haifa";
  short_description = codes "Front desk";
  description = codes "Answers calls";
  requirements = codes "Hebrew" ∷ codes "Excel" ∷ [];
  tags = [];
  salary_min = some 8200;
  salary_max = some 9100;
}

abbrev driver : Job
driver = record clerk { title = codes "Driver"; salary_min = none; salary_max = some 7000 }

abbrev board : List Job
board = clerk ∷ driver ∷ []

abbrev narrow : SalaryBounds
narrow = record { min_amount = 8000; max_amount = 9500 }

abbrev wide : SalaryBounds
wide = record { min_amount = 6000; max_amount = 9500 }

get_salary_bounds-IsCovered_example :
    ((get_salary_bounds board ≡ record { min_amount = 0; max_amount = 50000 }) × IsFlat board)
    ⊎ IsCovered board (get_salary_bounds board)
get_salary_bounds-IsCovered_example = get_salary_bounds-IsCovered board
