-- ===== src/Lazy/Tests.antt =====
-- A chunk that is gone until the page is reloaded.
use rs_recruitment.Base.{ℕ, zero, suc, ◌≤◌, ◌≡◌, false, codes}
use rs_recruitment.Lazy.{Attempt, loaded, throws, is_reloading, visit}
use rs_recruitment.Lazy.Laws.{two_loads, visit-ends}

abbrev deploy : ℕ → Attempt
deploy zero = throws (codes "error loading dynamically imported module")
deploy (suc n) = loaded

visit-ends_example :
    (is_reloading (visit 5 deploy 0 false).answer ≡ false)
    × ((visit 5 deploy 0 false).reloads ≤ 1)
    × (visit 5 deploy 0 false ≡ two_loads deploy 0 false)
visit-ends_example = visit-ends 4 deploy false
