-- ===== src/JobTags/Tests.antt =====
-- Tags that differ in case; `lower` lowers the letters of ASCII.
use rs_recruitment.Base.{◌+◌, Text, codes, map, List, [], ◌∷◌, if◌then◌else◌}
unfoldable use rs_recruitment.Base.{is_upper}
use rs_recruitment.JobTags.{edited, step}
use rs_recruitment.JobTags.Distinct.{step-AllDistinct}
use rs_recruitment.JobTags.Lists.{AllDistinct}
use rs_recruitment.Sortable.{move, move-Moves}

abbrev lower_ascii : Text → Text
lower_ascii = map (λ c. if is_upper c then c + 32 else c)

abbrev tags : List Text
tags = codes "BMS" ∷ codes "bms" ∷ codes "RFID" ∷ []

step-AllDistinct_example :
    AllDistinct lower_ascii (step lower_ascii move (edited (codes "RFID") (codes " Bms ")) tags)
step-AllDistinct_example =
    step-AllDistinct lower_ascii move move-Moves (edited (codes "RFID") (codes " Bms ")) tags
