-- ===== src/Candidate/Resume.antt =====
-- The resume's card of a candidate's profile, frontend/src/pages/candidate/components/ResumeCard.tsx. The
-- parent hands the profile that `onChange` is told of back to the card.
pub mod Names
use rs_recruitment.Base.{
  ℕ, zero, suc, ◌+◌, String, Bool, true, false, not, ◌&&◌, ◌||◌, ◌==◌, Option, none, some, List, [],
  ◌∷◌, ◌++◌, Text, is_empty, length, take, drop, if◌then◌else◌,
}
unfoldable use rs_recruitment.Base.{trim, text_eq}
use rs_recruitment.Wizard.Events.{last_part}

-- The last index in a text that one more code unit precedes: `here` tells whether that is it.
abbrev pub one_more : Bool → Option ℕ → Option ℕ
one_more here (some i) = some (suc i)
one_more here none = if here then some 0 else none

-- `s.lastIndexOf(c)`: `none` is -1.
unfoldable pub last_index_of : ℕ → Text → Option ℕ
last_index_of c [] = none
last_index_of c (d ∷ s) = one_more (d == c) (last_index_of c s)

pub record Filename : Type 0 where
  pub base : Text
  pub ext : Text

-- The two slices, unless the dot is first, last or missing.
unfoldable pub split_at : Text → Option ℕ → Filename
split_at name none = record { base = name; ext = [] }
split_at name (some i) =
    if i == 0 || suc i == length name
    then record { base = name; ext = [] }
    else record { base = take i name; ext = drop (suc i) name }

unfoldable pub split_filename : Option Text → Filename
unfolding split_at last_index_of
split_filename none = record { base = []; ext = [] }
split_filename (some []) = record { base = []; ext = [] }
split_filename (some (c ∷ s)) = split_at (c ∷ s) (last_index_of b'.' (c ∷ s))

-- What the card reads of the profile.
pub record CandidateMe : Type 0 where
  pub resume_filename : Option Text
  pub resume_path : Option Text

-- `s ? s : otherwise`
abbrev pub or_else : Option Text → Option Text → Option Text
or_else none otherwise = otherwise
or_else (some s) otherwise = if is_empty s then otherwise else some s

abbrev pub base_of_path : Option Text → Option Text
base_of_path none = none
base_of_path (some path) = if is_empty path then none else some (last_part b'/' path)

unfoldable pub display_name : CandidateMe → Option Text
display_name me = or_else me.resume_filename (base_of_path me.resume_path)

-- `uploads`, `deletions` and `renames` are the requests sent, the last one first.
pub record Card : Type 0 where
  pub me : CandidateMe
  pub busy : Bool
  pub error : Option String
  pub renaming : Bool
  pub rename_value : Text
  pub uploads : List Text
  pub deletions : ℕ
  pub renames : List Text

abbrev pub start : CandidateMe → Card
start me = record {
  me = me;
  busy = false;
  error = none;
  renaming = false;
  rename_value = [];
  uploads = [];
  deletions = 0;
  renames = [];
}

unfoldable pub handle_upload : Option Text → Card → Card
handle_upload none w = w
handle_upload (some file) w = record w { busy = true; error = none; uploads = file ∷ w.uploads }

-- `window.confirm` has answered.
unfoldable pub handle_delete : Bool → Card → Card
handle_delete confirmed w =
    if confirmed then record w { busy = true; error = none; deletions = suc w.deletions } else w

-- `!name`
abbrev pub is_nameless : Option Text → Bool
is_nameless none = true
is_nameless (some s) = is_empty s

unfoldable pub start_rename : Card → Card
unfolding split_filename display_name
start_rename w =
    let name = display_name w.me in
    if is_nameless name
    then w
    else record w { rename_value = (split_filename name).base; renaming = true; error = none }

unfoldable pub cancel_rename : Card → Card
cancel_rename w = record w { renaming = false; rename_value = []; error = none }

-- `displayExt ? `${trimmedBase}.${displayExt}` : trimmedBase`
unfoldable pub next_name : Text → Text → Text
next_name base ext = if is_empty ext then base else base ++ b'.' ∷ ext

-- `commitRename` up to its `await`, for a name that is shown.
unfoldable pub commit_as : Text → Card → Card
unfolding split_filename next_name cancel_rename
commit_as name w =
    let base = trim w.rename_value in
    let next = next_name base (split_filename (some name)).ext in
    if is_empty base || text_eq next name
    then cancel_rename w
    else record w { busy = true; error = none; renames = next ∷ w.renames }

unfoldable pub commit_of : Option Text → Card → Card
unfolding commit_as
commit_of none w = w
commit_of (some []) w = w
commit_of (some (c ∷ s)) w = commit_as (c ∷ s) w

unfoldable pub commit_rename : Card → Card
unfolding commit_of display_name
commit_rename w = commit_of (display_name w.me) w

pub data CardEvent : Type 0 where
  upload : Option Text → CardEvent
  remove : Bool → CardEvent
  changed : CandidateMe → CardEvent
  upload_failed : Bool → CardEvent
  remove_failed : CardEvent
  rename : CardEvent
  type_name : Text → CardEvent
  cancel : CardEvent
  commit : CardEvent
  renamed : CandidateMe → CardEvent
  rename_failed : Bool → CardEvent

-- A failure tells whether the answer was 422. Uploading and removing are disabled during a request,
-- and a request is answered once.
unfoldable pub handle : CardEvent → Card → Card
unfolding handle_upload handle_delete start_rename cancel_rename commit_rename
handle (upload file) w = let w' = handle_upload file w in if w.busy then w else w'
handle (remove ok) w = let w' = handle_delete ok w in if w.busy then w else w'
handle (changed me) w = if w.busy then record w { me = me; busy = false } else w
handle (upload_failed invalid) w =
    if w.busy
    then record w {
      error = some (
          if invalid
          then "candidate:profile.resume.errors.invalidFile"
          else "candidate:profile.resume.errors.generic");
      busy = false;
    }
    else w
handle remove_failed w =
    if w.busy
    then record w { error = some "candidate:profile.resume.errors.generic"; busy = false }
    else w
handle rename w = let w' = start_rename w in if w.renaming then w else w'
handle (type_name v) w = if w.renaming then record w { rename_value = v } else w
handle cancel w = let w' = cancel_rename w in if w.renaming then w' else w
handle commit w = let w' = commit_rename w in if w.renaming then w' else w
handle (renamed me) w =
    if w.busy then record w { me = me; renaming = false; rename_value = []; busy = false } else w
handle (rename_failed invalid) w =
    if w.busy
    then record w {
      error = some (
          if invalid
          then "candidate:profile.resume.renameErrors.invalid"
          else "candidate:profile.resume.errors.generic");
      busy = false;
    }
    else w
