-- ===== src/Wizard/Tests.antt =====
-- The wizard at one application.
use rs_recruitment.Base.{◌+◌, ◌≡◌, ◌↔◌, ◌⊎◌, true, codes, some, none, List, [], ◌∷◌}
use rs_recruitment.Validation.{TFunction, ParseUrl}
use rs_recruitment.Wizard.{Wizard}
use rs_recruitment.Wizard.Submit.{handle_form_submit}
use rs_recruitment.Wizard.Submit.Forms.{IsComplete, IsFull}
use rs_recruitment.Wizard.Submit.Laws.{handle_form_submit_iff}
use rs_recruitment.Wizard.Events.{Event, change, pick, next, submit, start}

abbrev mark : TFunction
mark key values = "!"

abbrev parse_none : ParseUrl
parse_none s = none

abbrev filled : Wizard
filled = record (start none) {
  step = 3;
  max_step = 3;
  form = record {
    full_name = codes "Dana Levi";
    email = codes "a@b.c";
    phone = codes "0521234567";
    linkedin_url = [];
    service_concept = [];
    salary_expectations = [];
    growth_area = [];
    strength = [];
  };
  resume_file = some (codes "cv.pdf", 2000);
  privacy_accepted = true;
  terms_accepted = true;
  claim_account = true;
  claim_password = codes "Secret-12";
  claim_password_confirm = codes "Secret-12";
}

mark-IsFull : IsFull mark
mark-IsFull key e = cc

handle_form_submit_iff_example :
    (((handle_form_submit parse_none mark true filled).posts ≡ 0 + 1)
      ↔ ((true ≡ true) × (filled.step ≡ 3) × IsComplete parse_none filled))
    × (((handle_form_submit parse_none mark true filled).posts ≡ 0 + 1)
        ⊎ ((handle_form_submit parse_none mark true filled).posts ≡ 0))
handle_form_submit_iff_example = handle_form_submit_iff parse_none mark true filled mark-IsFull

abbrev visit : List Event
visit =
    change "full_name" (codes "Dana Levi")
    ∷ next
    ∷ pick (some (codes "cv.exe", 10))
    ∷ pick (some (codes "cv.pdf", 2000))
    ∷ submit true
    ∷ []
