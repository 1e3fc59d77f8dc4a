-- ===== src/Candidate/Application.antt =====
-- One application, frontend/src/pages/candidate/CandidateApplicationDetailPage.tsx: its answers can be
-- edited, its resume replaced, and it can be withdrawn. A file is its name.
pub mod Patch
pub mod Events
pub mod Run
use text.Mathlib.Text.{◌==◌ as str_eq}
use rs_recruitment.Base.{
  ℕ, suc, ◌+◌, String, Bool, true, false, not, ◌&&◌, ◌||◌, ◌==◌, Option, none, some, List, [], ◌∷◌,
  Text, is_empty, if◌then◌else◌,
}
unfoldable use rs_recruitment.Base.{text_eq}

-- `none` is null.
pub record MyAnswers : Type 0 where
  pub service_concept : Option Text
  pub salary_expectations : Option Text
  pub strength : Option Text
  pub growth_area : Option Text

-- The parts of `CandidateApplicationDetail` that the page acts on; `resume` is the file's name.
pub record Detail : Type 0 where
  pub id : ℕ
  pub editable : Bool
  pub my_answers : MyAnswers
  pub resume : Option Text

-- The `FormData` of a save: the fields appended.
pub record PatchForm : Type 0 where
  pub service_concept : Option Text
  pub salary_expectations : Option Text
  pub strength : Option Text
  pub growth_area : Option Text
  pub resume : Option Text

-- `saves`, `withdrawals` and `downloads` are the requests sent, the last one first; `reloads`
-- counts `window.location.reload`, `left` is the navigation to the list.
pub record DetailPage : Type 0 where
  pub detail : Option Detail
  pub loading : Bool
  pub error : Option String
  pub downloading : Bool
  pub is_editing : Bool
  pub edit_form : Option MyAnswers
  pub staged_resume : Option Text
  pub saving : Bool
  pub save_error : Option String
  pub withdraw_open : Bool
  pub withdrawing : Bool
  pub saves : List (ℕ × PatchForm)
  pub withdrawals : List ℕ
  pub downloads : List ℕ
  pub reloads : ℕ
  pub left : Bool

-- The first render and its effect: `none` is an address whose `id` is no positive number.
abbrev pub start : Option ℕ → DetailPage
start app_id = record {
  detail = none;
  loading = elim app_id [ none ↦ false | some n ↦ true ];
  error = elim app_id [ none ↦ some "candidate:applications.errors.notFound" | some n ↦ none ];
  downloading = false;
  is_editing = false;
  edit_form = none;
  staged_resume = none;
  saving = false;
  save_error = none;
  withdraw_open = false;
  withdrawing = false;
  saves = [];
  withdrawals = [];
  downloads = [];
  reloads = 0;
  left = false;
}

-- What a request fails with: the response's status and `detail`, where there are some.
pub record Failure : Type 0 where
  pub status : Option ℕ
  pub detail : Option String

abbrev pub has_status : ℕ → Failure → Bool
has_status n err = elim err.status [ none ↦ false | some s ↦ s == n ]

-- 409 with `application_not_editable`.
abbrev pub not_editable : Failure → Bool
not_editable err =
    has_status 409 err
    && elim err.detail [ none ↦ false | some d ↦ str_eq d "application_not_editable" ]

unfoldable pub load_fails : Failure → DetailPage → DetailPage
load_fails err w = record w {
  error =
      if has_status 404 err
      then some "candidate:applications.errors.notFound"
      else some "candidate:applications.errors.loadFailed";
  loading = false;
}

abbrev pub download_of : Option Detail → DetailPage → DetailPage
download_of none w = w
download_of (some d) w = elim d.resume [
  | none ↦ w
  | some name ↦
      if w.downloading then w else record w { downloading = true; downloads = d.id ∷ w.downloads }
]

-- `downloadResume` up to its `await`.
unfoldable pub download_resume : DetailPage → DetailPage
download_resume w = download_of w.detail w

abbrev pub edit_of : Option Detail → DetailPage → DetailPage
edit_of none w = w
edit_of (some d) w = record w {
  edit_form = some d.my_answers;
  staged_resume = none;
  save_error = none;
  is_editing = true;
}

unfoldable pub start_editing : DetailPage → DetailPage
start_editing w = edit_of w.detail w

unfoldable pub cancel_editing : DetailPage → DetailPage
cancel_editing w = record w {
  is_editing = false;
  edit_form = none;
  staged_resume = none;
  save_error = none;
}

-- `a !== b`
abbrev pub differs : Option Text → Option Text → Bool
differs none none = false
differs (some s) (some t) = not (text_eq s t)
differs _ _ = true

-- `if (edited !== orig) form.append(field, edited ?? "")`
abbrev pub changed : Option Text → Option Text → Option Text
changed edited orig =
    if differs edited orig then some (elim edited [ none ↦ [] | some s ↦ s ]) else none

unfoldable pub patch_form : MyAnswers → MyAnswers → Option Text → PatchForm
patch_form edited orig file = record {
  service_concept = changed edited.service_concept orig.service_concept;
  salary_expectations = changed edited.salary_expectations orig.salary_expectations;
  strength = changed edited.strength orig.strength;
  growth_area = changed edited.growth_area orig.growth_area;
  resume = file;
}

abbrev pub is_absent : Option Text → Bool
is_absent none = true
is_absent (some s) = false

-- `[...form.entries()].length === 0`
abbrev pub has_no_entries : PatchForm → Bool
has_no_entries p =
    is_absent p.service_concept
    && is_absent p.salary_expectations
    && is_absent p.strength
    && is_absent p.growth_area
    && is_absent p.resume

-- `handleSave` up to its `await`, for what `data` and `editForm` are.
unfoldable pub save_of : Option Detail → Option MyAnswers → DetailPage → DetailPage
unfolding cancel_editing patch_form
save_of (some d) (some edited) w =
    let p = patch_form edited d.my_answers w.staged_resume in
    if has_no_entries p
    then cancel_editing w
    else record w { saving = true; save_error = none; saves = (d.id, p) ∷ w.saves }
save_of _ _ w = w

unfoldable pub handle_save : DetailPage → DetailPage
unfolding save_of
handle_save w = save_of w.detail w.edit_form w

unfoldable pub saved : Detail → DetailPage → DetailPage
saved updated w = record w {
  detail = some updated;
  is_editing = false;
  edit_form = none;
  staged_resume = none;
  saving = false;
}

unfoldable pub save_fails : Failure → DetailPage → DetailPage
save_fails err w =
    if not_editable err
    then record w {
      save_error = some "candidate:applications.edit.notEditable";
      reloads = suc w.reloads;
      saving = false;
    }
    else record w { save_error = some "candidate:applications.errors.saveFailed"; saving = false }

abbrev pub withdraw_of : Option Detail → DetailPage → DetailPage
withdraw_of none w = w
withdraw_of (some d) w = record w { withdrawing = true; withdrawals = d.id ∷ w.withdrawals }

-- `handleWithdraw` up to its `await`.
unfoldable pub handle_withdraw : DetailPage → DetailPage
handle_withdraw w = withdraw_of w.detail w

unfoldable pub withdraw_fails : Failure → DetailPage → DetailPage
withdraw_fails err w =
    if not_editable err
    then record w {
      withdraw_open = false;
      error = some "candidate:applications.errors.notEditable";
      reloads = suc w.reloads;
      withdrawing = false;
    }
    else record w {
      withdraw_open = false;
      error = some "candidate:applications.errors.generic";
      withdrawing = false;
    }
