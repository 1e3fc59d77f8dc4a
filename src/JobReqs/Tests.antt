-- ===== src/JobReqs/Tests.antt =====
-- A form of three requirements.
use rs_recruitment.Sortable.{move, move-Moves}
use rs_recruitment.Base.{some, Text, codes, List, [], ◌∷◌}
use rs_recruitment.JobReqs.{
  Event, committed, removed, opened, added, typed, seeded, dragged, mounted, run,
}
use rs_recruitment.JobReqs.Rows.{IsKeyed, run-IsKeyed}

abbrev asked : List Text
asked = codes "Hebrew" ∷ codes "Excel" ∷ [] ∷ []

abbrev edits : List Event
edits = opened ∷ typed (codes "Driving") ∷ added ∷ committed 2 [] ∷ removed 1 ∷ []

run-IsKeyed_example :
    IsKeyed (run move (seeded (codes "Hebrew" ∷ []) ∷ dragged 0 (some 2) ∷ edits) (mounted asked))
run-IsKeyed_example =
    run-IsKeyed move move-Moves asked (seeded (codes "Hebrew" ∷ []) ∷ dragged 0 (some 2) ∷ edits)
