-- ===== src/Register/Company/Events.antt =====
-- Submitting the registration, the answers, and a run of the page's events.
use rs_recruitment.Base.{
  ℕ, Bool, true, false, not, ◌&&◌, ◌==◌, Option, none, some, List, [], ◌∷◌, Text, if◌then◌else◌,
}
use rs_recruitment.Register.{RequestError, axios_error, other_error, finds, Message}
use rs_recruitment.Register.Company.{Key, password, signature, privacy, terms}
use rs_recruitment.Register.Company.Page.{
  Page, assign, handle_change, handle_blur, handle_logo_change, handle_next, handle_back,
  step_2_errors, step_2_fine, form_data, metadata_arrives, metadata_fails,
}

-- `handleSubmit` up to its `await`.
unfoldable pub handle_submit : Page → Page
unfolding step_2_errors step_2_fine form_data
handle_submit w =
    let w' = record w { field_errors = step_2_errors w } in
    if step_2_fine w
    then record w' { submitting = true; submit_error = none; posts = form_data w ∷ w.posts }
    else w'

-- … when `register` returns,
unfoldable pub registered : Page → Page
registered w = record w { success = true; submitting = false }

abbrev pub status_message : ℕ → Message
status_message status =
    if status == 429
    then some "auth:register.errors.tooManyAttempts"
    else if status == 400
    then some "auth:register.errors.invalidToken"
    else if status == 409
    then some "auth:register.errors.emailExists"
    else some "auth:register.errors.failed"

-- … and when it fails.
unfoldable pub register_fails : RequestError → Page → Page
register_fails (axios_error none detail) w = record w {
  submit_error = some "auth:register.errors.failed";
  submitting = false;
}
register_fails (axios_error (some status) detail) w =
    if status == 422
    then (if finds "password" detail
        then record w {
          field_errors =
              assign password (some "auth:register.validation.passwordComplexity") w.field_errors;
          submitting = false;
        }
        else record w { submit_error = some "auth:register.errors.failed"; submitting = false })
    else record w { submit_error = status_message status; submitting = false }
register_fails other_error w = record w {
  submit_error = some "auth:register.errors.unexpected";
  submitting = false;
}

unfoldable pub accept_terms : Bool → Page → Page
accept_terms accepted w = record w {
  terms_accepted = accepted;
  field_errors = if accepted then assign terms none w.field_errors else w.field_errors;
}

unfoldable pub accept_privacy : Bool → Page → Page
accept_privacy accepted w = record w {
  privacy_accepted = accepted;
  field_errors = if accepted then assign privacy none w.field_errors else w.field_errors;
}

pub data Event : Type 0 where
  metadata : Option Text → Event
  no_metadata : Event
  change : Key → Text → Event
  blur : Key → Text → Event
  pick_logo : Option Text → Event
  next : Event
  back : Event
  pen_down : Event
  draw : Text → Event
  clear : Event
  tick_terms : Bool → Event
  tick_privacy : Bool → Event
  open_contract : Bool → Event
  open_terms : Bool → Event
  open_privacy : Bool → Event
  agree_terms : Event
  agree_privacy : Event
  submit : Event
  answered : Event
  failed : RequestError → Event

-- Which part of the page is shown.
unfoldable pub shows_page : Page → Bool
shows_page w = w.token_given && not w.token_invalid && not w.metadata_loading && not w.success

abbrev pub shows_form : ℕ → Page → Bool
shows_form n w = shows_page w && w.step == n

-- The event's handler, if its control is there: the inputs of step 1 and the button to step 2, the
-- form of step 2, with a submit button that is disabled during a request.
unfoldable pub reacts : Event → Page → Bool
unfolding shows_page
reacts (metadata mail) w = w.metadata_loading
reacts no_metadata w = w.metadata_loading
reacts (change key value) w = shows_form 1 w
reacts (blur key value) w = shows_form 1 w
reacts (pick_logo file) w = shows_form 1 w
reacts next w = shows_form 1 w
reacts submit w = shows_form 2 w && not w.submitting
reacts answered w = w.submitting
reacts (failed err) w = w.submitting
reacts (open_contract false) w = shows_page w && w.contract_open
reacts (open_terms false) w = shows_page w && w.terms_open
reacts (open_privacy false) w = shows_page w && w.privacy_open
reacts agree_terms w = shows_page w && w.terms_open
reacts agree_privacy w = shows_page w && w.privacy_open
reacts e w = shows_form 2 w

unfoldable pub handle : Event → Page → Page
unfolding handle_change handle_blur handle_logo_change handle_next handle_back metadata_arrives
    metadata_fails accept_terms accept_privacy handle_submit registered register_fails
handle (metadata mail) w = metadata_arrives mail w
handle no_metadata w = metadata_fails w
handle (change key value) w = handle_change key value w
handle (blur key value) w = handle_blur key value w
handle (pick_logo file) w = handle_logo_change file w
handle next w = handle_next w
handle back w = handle_back w
handle pen_down w = record w { field_errors = assign signature none w.field_errors }
handle (draw url) w = record w { drawing = some url }
handle clear w = record w { drawing = none }
handle (tick_terms b) w = accept_terms b w
handle (tick_privacy b) w = accept_privacy b w
handle (open_contract b) w = record w { contract_open = b }
handle (open_terms b) w = record w { terms_open = b }
handle (open_privacy b) w = record w { privacy_open = b }
handle agree_terms w = let w' = accept_terms true w in record w' { terms_open = false }
handle agree_privacy w = let w' = accept_privacy true w in record w' { privacy_open = false }
handle submit w = handle_submit w
handle answered w = registered w
handle (failed err) w = register_fails err w

unfoldable pub step : Event → Page → Page
unfolding handle reacts
step e w = let w' = handle e w in if reacts e w then w' else w

unfoldable pub run : List Event → Page → Page
unfolding step
run [] w = w
run (e ∷ es) w = run es (step e w)
