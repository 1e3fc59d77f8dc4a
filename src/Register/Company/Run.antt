-- ===== src/Register/Company/Run.antt =====
-- The requests in a run of the events of RegisterPage.tsx.
use rs_recruitment.Base.{
  ℕ, ◌≢◌, ◌==◌, ◌∙◌, Bool, true, false, ◌&&◌, ◌≡◌, refl, inl, inr, if_inked, none, some, List, [],
  ◌∷◌, Text, arith, All, trim, Bool-cases, Option-cases,
}
use mathlib.Core.Path.{subst}
use rs_recruitment.Register.Company.Signed.{drawn_by, drawn, IsAmong, IsSigned, IsAmong-append}
use rs_recruitment.Register.Company.Signature.{IsSecond, second_part-IsSecond}
use rs_recruitment.Register.{RequestError, axios_error, other_error}
use rs_recruitment.Register.Company.{every_fine, step_1_errors}
use rs_recruitment.Register.Company.Fields.{IsComplete, step_1_iff}
use rs_recruitment.Register.Company.Page.{
  Page, start, handle_change, handle_blur, handle_logo_change, handle_next, handle_back,
  step_2_fine, form_data, metadata_arrives, metadata_fails, second_part, data_url,
}
use rs_recruitment.Register.Company.Events.{
  Event, draw, clear, metadata, no_metadata, change, blur, pick_logo, next, back, submit, failed,
  shows_page, reacts, handle, step, run, handle_submit, registered, register_fails, accept_terms,
  accept_privacy,
}

-- Past the first step the form is complete; so is what has been sent. Before the invitation's
-- answer the page stands at the first step.
record IsKept (urls : List Text) (w : Page) : Type 0 where
  loading : w.metadata_loading ≡ true → w.step ≡ 1
  past : w.step ≢ 1 → IsComplete w.form w.logo_file
  drawing : (url : Text) → w.drawing ≡ some url → IsAmong url urls
  sent : All (IsSigned urls) w.posts

at_step_1 : (w : Page) → (shows_page w && w.step == 1) ≡ true → w.step ≡ 1
at_step_1 w h = ground arith

at_step_2 : (w : Page) → (shows_page w && w.step == 2) ≡ true → w.step ≢ 1
at_step_2 w h = ground arith

loaded : (w : Page) (n : ℕ) → (shows_page w && w.step == n) ≡ true → w.metadata_loading ≡ false
unfolding shows_page
loaded w n h = ground arith

module _ (urls : List Text) where
  -- At the first step nothing is asked of the form.
  IsKept-first :
      (w w' : Page)
      → w.step ≡ 1
      → w'.step ≡ w.step
      → w'.posts ≡ w.posts
      → w'.drawing ≡ w.drawing
      → IsKept urls w
      → IsKept urls w'
  IsKept-first w w' first same sent d v = record {
    loading = λ h. same ∙ first;
    past = λ ne. absurd (ne (same ∙ first));
    drawing = rw d v.drawing;
    sent = rw sent v.sent;
  }

  handle_next-IsKept :
      (w : Page)
      → w.step ≡ 1
      → w.metadata_loading ≡ false
      → IsKept urls w
      → IsKept urls (handle_next w)
  unfolding handle_next
  handle_next-IsKept w first there v =
      elim (Bool-cases (every_fine (step_1_errors w.form w.logo_file))) [
        | inl ok ↦ rw ok (record {
          loading = λ h. cc;
          past = λ ne. (step_1_iff w.form w.logo_file).0 ok;
          drawing = v.drawing;
          sent = v.sent;
        })
        | inr bad ↦
            rw bad
              (record { loading = v.loading; past = v.past; drawing = v.drawing; sent = v.sent })
      ]

  -- The second step's checks, and what they make of the request.
  form_data-IsSigned :
      (w : Page)
      → ((url : Text) → w.drawing ≡ some url → IsAmong url urls)
      → IsComplete w.form w.logo_file
      → step_2_fine w ≡ true
      → IsSigned urls (form_data w)
  unfolding form_data step_2_fine
  form_data-IsSigned w among full h = record {
    form = w.form;
    complete = full;
    mail = refl;
    pass = refl;
    number = refl;
    name = refl;
    place = refl;
    first = refl;
    last = refl;
    phone = refl;
    landline = if_inked w.form.contact_landline_phone (trim w.form.contact_landline_phone);
    privacy = ground arith;
    terms = ground arith;
    signed = signed;
  }
    where
      signed : (url : Text) × IsAmong url urls × IsSecond url (second_part (data_url w.drawing))
      signed = elim (Option-cases w.drawing) [
        | inl missing ↦ absurd (ground arith)
        | inr (url, e) ↦ (url, among url e, rw e (second_part-IsSecond url))
      ]

  handle_submit-IsKept : (w : Page) → w.step ≢ 1 → IsKept urls w → IsKept urls (handle_submit w)
  unfolding handle_submit
  handle_submit-IsKept w past v = elim (Bool-cases (step_2_fine w)) [
    | inl ok ↦ rw ok (record {
      loading = v.loading;
      past = v.past;
      drawing = v.drawing;
      sent = (form_data-IsSigned w v.drawing (v.past past) ok, v.sent);
    })
    | inr bad ↦
        rw bad (record { loading = v.loading; past = v.past; drawing = v.drawing; sent = v.sent })
  ]

  IsAmong-same : (url url' : Text) → some url ≡ some url' → IsAmong url urls → IsAmong url' urls
  IsAmong-same url url' e h = let same : url ≡ url' = cc in subst (λ u. IsAmong u urls) same h

  -- What leaves the step, the form, the file and the requests alone.
  module _ (w w' : Page) (v : IsKept urls w) where
    IsKept-aside :
        w'.metadata_loading ≡ w.metadata_loading
        → w'.step ≡ w.step
        → w'.form ≡ w.form
        → w'.logo_file ≡ w.logo_file
        → w'.posts ≡ w.posts
        → w'.drawing ≡ w.drawing
        → IsKept urls w'
    IsKept-aside l s f g p d = record {
      loading = rw (l, s) v.loading;
      past = rw (s, f, g) v.past;
      drawing = rw d v.drawing;
      sent = rw p v.sent;
    }

  register_fails-IsKept :
      (err : RequestError) (w : Page) → IsKept urls w → IsKept urls (register_fails err w)
  unfolding register_fails
  register_fails-IsKept (axios_error none detail) w v =
      IsKept-aside w _ v refl refl refl refl refl refl
  register_fails-IsKept (axios_error (some status) detail) w v =
      IsKept-aside w _ v (ground arith) (ground arith) (ground arith) (ground arith) (ground arith)
        (ground arith)
  register_fails-IsKept other_error w v = IsKept-aside w _ v refl refl refl refl refl refl

  handle-IsKept :
      (e : Event) (w : Page)
      → ((url : Text) → IsAmong url (drawn_by e) → IsAmong url urls)
      → reacts e w ≡ true
      → IsKept urls w
      → IsKept urls (handle e w)
  unfolding reacts handle handle_change handle_blur handle_logo_change handle_back metadata_arrives
      metadata_fails accept_terms accept_privacy registered
  handle-IsKept (metadata none) w k r v = IsKept-first w _ (v.loading r) refl refl refl v
  handle-IsKept (metadata (some mail)) w k r v = IsKept-first w _ (v.loading r) refl refl refl v
  handle-IsKept no_metadata w k r v = IsKept-first w _ (v.loading r) refl refl refl v
  handle-IsKept (change key value) w k r v = IsKept-first w _ (at_step_1 w r) refl refl refl v
  handle-IsKept (blur key value) w k r v = IsKept-aside w _ v refl refl refl refl refl refl
  handle-IsKept (pick_logo none) w k r v = IsKept-first w _ (at_step_1 w r) refl refl refl v
  handle-IsKept (pick_logo (some f)) w k r v = IsKept-first w _ (at_step_1 w r) refl refl refl v
  handle-IsKept next w k r v = handle_next-IsKept w (at_step_1 w r) (loaded w 1 r) v
  handle-IsKept back w k r v = record {
    loading = λ h. refl;
    past = λ ne. absurd (ne refl);
    drawing = λ url h. cc;
    sent = v.sent;
  }
  handle-IsKept (draw url) w k r v = record {
    loading = v.loading;
    past = v.past;
    drawing = λ url' h. IsAmong-same url url' h (k url (inl refl));
    sent = v.sent;
  }
  handle-IsKept clear w k r v = record {
    loading = v.loading;
    past = v.past;
    drawing = λ url h. cc;
    sent = v.sent;
  }
  handle-IsKept submit w k r v = handle_submit-IsKept w (at_step_2 w (ground arith)) v
  handle-IsKept (failed err) w k r v = register_fails-IsKept err w v
  handle-IsKept e w k r v = IsKept-aside w _ v refl refl refl refl refl refl

  step-IsKept :
      (e : Event) (w : Page)
      → ((url : Text) → IsAmong url (drawn_by e) → IsAmong url urls)
      → IsKept urls w
      → IsKept urls (step e w)
  unfolding step
  step-IsKept e w k v = elim (Bool-cases (reacts e w)) [
    | inl r ↦ rw r (handle-IsKept e w k r v)
    | inr r ↦ rw r v
  ]

  run-IsKept :
      (es : List Event) (w : Page)
      → ((url : Text) → IsAmong url (drawn es) → IsAmong url urls)
      → IsKept urls w
      → IsKept urls (run es w)
  unfolding run
  run-IsKept [] w k v = v
  run-IsKept (e ∷ es) w k v =
      run-IsKept es (step e w) (λ url h. k url (IsAmong-append url (drawn_by e) (drawn es) (inr h)))
        (step-IsKept e w (λ url h. k url (IsAmong-append url (drawn_by e) (drawn es) (inl h))) v)

-- Whatever the visitor, the invitation's answer and the server's answers do, in any order, every
-- request that the page sends holds a form that is complete as `IsComplete` says (its fields
-- trimmed, a landline left out where it is blank, and the password as it is), the logo, both
-- consents, and of a signature that was drawn in the run the part of its data URL between the first
-- comma and the next.
pub run-IsSigned :
    (token : Bool) (es : List Event) → All (IsSigned (drawn es)) (run es (start token)).posts
run-IsSigned token es =
    let v : IsKept (drawn es) (start token) = record {
      loading = λ h. refl;
      past = λ ne. absurd (ne refl);
      drawing = λ url h. cc;
      sent = tt;
    } in
    let kept = run-IsKept (drawn es) es (start token) (λ url h. h) v in kept.sent
