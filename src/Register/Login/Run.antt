-- ===== src/Register/Login/Run.antt =====
-- What LoginPage.tsx logs in with, and whom it has activations resent to, in a run of its events.
use rs_recruitment.Base.{
  if_case, ℕ, zero, suc, ◌≤◌, inl, inr, Bool, true, ◌&&◌, ◌||◌, ◌≡◌, refl, List, [], ◌∷◌, Text,
  arith, Option, some, none, any, All, length, text_eq, is_empty, Bool-cases, HasInk, ink_of_trim,
}
use rs_recruitment.Validation.LinkedIn.{text_eq_refl}
use rs_recruitment.Validation.Patterns.{IsEmail, email_re_accepts}
use rs_recruitment.Register.{is_fine}
use rs_recruitment.Register.Login.{
  LoginPage, LoginEvent, LoginError, axios_error, other_error, submit, failed, resend,
  resend_answered, Credentials, start, email_message, password_message, handle, run, handle_submit,
  handle_email_change, handle_password_change, login_fails, handle_resend_activation, resend_to,
  resend_answers, is_pending, error_message, is_sending,
}

-- What the page logs in with.
pub record IsLogin (c : Credentials) : Type 0 where
  pub mail : IsEmail c.email
  pub ink : HasInk c.password
  pub long : 8 ≤ length c.password

-- An address that the page has logged in with.
pub IsTried : List Credentials → Text → Type 0
IsTried cs a = any (λ c. text_eq c.email a) cs ≡ true

record IsKept (w : LoginPage) : Type 0 where
  valid : All IsLogin w.logins
  busy : (a : Text) → w.logging_in ≡ some a → IsTried w.logins a
  cleared : w.submitting ≡ true → w.pending_activation_email ≡ none
  link :
      (a : Text)
      → w.pending_activation_email ≡ some a
      → IsTried w.logins a × (w.error ≡ some "auth:login.errors.pendingActivation")
  resent : All (IsTried w.logins) w.resent

IsTried-more :
    (c : Credentials) (cs : List Credentials) (es : List Text)
    → All (IsTried cs) es
    → All (IsTried (c ∷ cs)) es
unfolding IsTried
IsTried-more c cs [] h = tt
IsTried-more c cs (a ∷ es) h = let t = h.0 in (ground arith, IsTried-more c cs es h.1)

IsLogin-accepted :
    (e p : Text) (b : Bool)
    → is_fine (email_message e) && is_fine (password_message p) ≡ true
    → IsLogin (record { email = e; password = p; remember_me = b })
unfolding email_message password_message
IsLogin-accepted e p b h = record {
  mail = (email_re_accepts e).0 (ground arith);
  ink = ink_of_trim p (ground arith);
  long = ground arith;
}

handle_submit-IsKept : (w : LoginPage) → IsKept w → IsKept (handle_submit w)
unfolding handle_submit IsTried
handle_submit-IsKept w v =
    elim (Bool-cases (is_fine (email_message w.email) && is_fine (password_message w.password))) [
      | inr bad ↦ rw bad (record {
        valid = v.valid;
        busy = v.busy;
        cleared = λ h. refl;
        link = λ a h. cc;
        resent = v.resent;
      })
      | inl good ↦ rw good (record {
        valid = (IsLogin-accepted w.email w.password w.remember_me good, v.valid);
        busy = tried;
        cleared = λ h. refl;
        link = λ a h. cc;
        resent =
            IsTried-more
              (record { email = w.email; password = w.password; remember_me = w.remember_me })
              w.logins w.resent v.resent;
      })
    ]
  where
    tried :
        (a : Text)
        → some w.email ≡ some a
        → IsTried
            (record { email = w.email; password = w.password; remember_me = w.remember_me }
              ∷ w.logins)
            a
    tried a h = let same : w.email ≡ a = cc in rw same (ground (arith, text_eq_refl a))

pending_message :
    (err : LoginError)
    → is_pending err ≡ true
    → error_message err ≡ "auth:login.errors.pendingActivation"
pending_message (axios_error (some status) detail) h = ground arith
pending_message (axios_error none detail) h = cc
pending_message other_error h = cc

login_fails-IsKept :
    (err : LoginError) (w : LoginPage) → w.submitting ≡ true → IsKept w → IsKept (login_fails err w)
unfolding login_fails
login_fails-IsKept err w there v = elim (Bool-cases (is_pending err)) [
  | inl p ↦ rw p (record {
    valid = v.valid;
    busy = λ a h. cc;
    cleared = λ h. cc;
    link = λ a h. (v.busy a h, rw (pending_message err p) refl);
    resent = v.resent;
  })
  | inr p ↦ rw p (record {
    valid = v.valid;
    busy = λ a h. cc;
    cleared = λ h. cc;
    link = λ a h. let gone = v.cleared there in cc;
    resent = v.resent;
  })
]

resend_to-IsKept :
    (p : Option Text) (w : LoginPage)
    → w.pending_activation_email ≡ p
    → IsKept w
    → IsKept (resend_to p w)
resend_to-IsKept none w there v = v
resend_to-IsKept (some a) w there v =
    if_case IsKept (is_empty a || is_sending w.resend_state) w _ (λ h. v)
      (λ h. record {
        valid = v.valid;
        busy = v.busy;
        cleared = v.cleared;
        link = v.link;
        resent = ((v.link a there).0, v.resent);
      })

resend_answers-IsKept :
    (ok : Bool) (n : ℕ) (w : LoginPage) → IsKept w → IsKept (resend_answers ok n w)
unfolding resend_answers
resend_answers-IsKept ok zero w v = v
resend_answers-IsKept ok (suc n) w v = record {
  valid = v.valid;
  busy = v.busy;
  cleared = v.cleared;
  link = v.link;
  resent = v.resent;
}

-- What leaves the login, the link and the resendings alone.
IsKept-aside :
    (w w' : LoginPage)
    → w'.logins ≡ w.logins
    → w'.logging_in ≡ w.logging_in
    → w'.submitting ≡ w.submitting
    → w'.pending_activation_email ≡ w.pending_activation_email
    → w'.error ≡ w.error
    → w'.resent ≡ w.resent
    → IsKept w
    → IsKept w'
IsKept-aside w w' a b c d e f v = record {
  valid = rw a v.valid;
  busy = rw (a, b) v.busy;
  cleared = rw (c, d) v.cleared;
  link = rw (a, d, e) v.link;
  resent = rw (a, f) v.resent;
}

handle-IsKept : (e : LoginEvent) (w : LoginPage) → IsKept w → IsKept (handle e w)
unfolding handle handle_email_change handle_password_change handle_resend_activation
handle-IsKept submit w v =
    if_case IsKept w.submitting w _ (λ busy. v) (λ idle. handle_submit-IsKept w v)
handle-IsKept (failed err) w v =
    if_case IsKept w.submitting _ w (λ busy. login_fails-IsKept err w busy v) (λ idle. v)
handle-IsKept resend w v = resend_to-IsKept w.pending_activation_email w refl v
handle-IsKept (resend_answered ok) w v = resend_answers-IsKept ok w.resending w v
handle-IsKept e w v = IsKept-aside w _ refl refl refl refl refl refl v

run-IsKept : (es : List LoginEvent) (w : LoginPage) → IsKept w → IsKept (run es w)
unfolding run
run-IsKept [] w v = v
run-IsKept (e ∷ es) w v = run-IsKept es (handle e w) (handle-IsKept e w v)

-- In every run the page logs in only with an e-mail of the right form and a password that is not
-- blank and has eight code units at least. The link for a new activation stands there only with
-- the message that the activation is pending, and activations are asked for only for addresses
-- that the page has logged in with.
pub run-logins :
    (es : List LoginEvent)
    → All IsLogin (run es start).logins
      × All (IsTried (run es start).logins) (run es start).resent
      × ((a : Text)
          → (run es start).pending_activation_email ≡ some a
          → IsTried (run es start).logins a
            × ((run es start).error ≡ some "auth:login.errors.pendingActivation"))
run-logins es =
    let kept =
      run-IsKept es start (record {
        valid = tt;
        busy = λ a h. cc;
        cleared = λ h. cc;
        link = λ a h. cc;
        resent = tt;
      }) in
    (kept.valid, kept.resent, kept.link)
