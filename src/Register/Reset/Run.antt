-- ===== src/Register/Reset/Run.antt =====
-- The passwords sent in a run of ResetPasswordPage.tsx, and what stands there after a failure.
use rs_recruitment.Base.{
  if_case, ℕ, if◌then◌else◌, inl, inr, ◌⊎◌, Bool, true, false, not, ◌&&◌, ◌≡◌, ◌↔◌, refl, List, [],
  ◌∷◌, Text, arith, some, none, All, Bool-cases,
}
use rs_recruitment.Password.Laws.{IsComplex}
use rs_recruitment.Register.{is_fine, axios_error, other_error}
use rs_recruitment.Register.Checks.{not_empty_of_long}
use rs_recruitment.Register.Reset.{
  ResetPage, ResetEvent, token_checked, change, change_confirm, blur, blur_confirm, submit,
  answered, failed, start, shows_form, is_valid, invalid, validate_password, validate_confirm,
  handle, run, handle_submit, handle_password_change, handle_confirm_change, password_reset,
  reset_fails, refused, is_checking, handle_blur, handle_confirm_blur,
}

pub validate_password_iff : (v : Text) → (validate_password v ≡ none) ↔ IsComplex v
unfolding validate_password
validate_password_iff v = (
  λ h. record {
    long = ground arith;
    upper = ground arith;
    lower = ground arith;
    digit = ground arith;
    special = ground arith;
  },
  λ m.
      let a = not_empty_of_long v m.long in
      let b = m.long in
      let c = m.upper in let d = m.lower in let e = m.digit in let f = m.special in ground arith,
)

-- What has been sent; without a token the page stays at its notice and sends nothing.
record IsKept (token : Bool) (w : ResetPage) : Type 0 where
  sent : All IsComplex w.resets
  lost : token ≡ false → w.token_state ≡ invalid
  empty : token ≡ false → w.resets ≡ []

module _ (token : Bool) where
  -- What leaves the token and the passwords alone.
  IsKept-aside :
      (w w' : ResetPage)
      → (w'.token_state ≡ w.token_state) ⊎ (w'.token_state ≡ invalid)
      → w'.resets ≡ w.resets
      → IsKept token w
      → IsKept token w'
  IsKept-aside w w' (inl same) r v = record {
    sent = rw r v.sent;
    lost = λ h. rw same (v.lost h);
    empty = λ h. rw r (v.empty h);
  }
  IsKept-aside w w' (inr out) r v = record {
    sent = rw r v.sent;
    lost = λ h. out;
    empty = λ h. rw r (v.empty h);
  }

  called :
      (b : Bool) (w : ResetPage) {w' : ResetPage}
      → (b ≡ true → IsKept token w')
      → IsKept token w
      → IsKept token (if b then w' else w)
  called b w {w'} f v = if_case (IsKept token) b w' w f (λ h. v)

  handle_submit-IsKept :
      (w : ResetPage) → shows_form w ≡ true → IsKept token w → IsKept token (handle_submit w)
  unfolding handle_submit
  handle_submit-IsKept w shown v =
      let ok =
        is_fine (validate_password w.password) && is_fine (validate_confirm w.confirm w.password) in
      elim (Bool-cases ok) [
        | inr bad ↦ rw bad (record { sent = v.sent; lost = v.lost; empty = v.empty })
        | inl good ↦
            let complex = (validate_password_iff w.password).0 (fine good) in
            rw good (record {
              sent = (complex, v.sent);
              lost = v.lost;
              empty = λ h. let gone = v.lost h in absurd (hidden shown gone);
            })
      ]
    where
      fine :
          (is_fine (validate_password w.password)
              && is_fine (validate_confirm w.confirm w.password))
            ≡ true
          → validate_password w.password ≡ none
      fine good = ground arith

      hidden : shows_form w ≡ true → w.token_state ≡ invalid → ⊥
      hidden s gone = let out : is_valid w.token_state ≡ false = rw gone refl in ground arith

  refused-IsKept :
      (status : ℕ) (b : Bool) (w : ResetPage) → IsKept token w → IsKept token (refused status b w)
  unfolding refused
  refused-IsKept status b w v = IsKept-aside w _ (ground arith) (ground arith) v

  handle-IsKept : (e : ResetEvent) (w : ResetPage) → IsKept token w → IsKept token (handle e w)
  unfolding handle handle_password_change handle_confirm_change handle_blur handle_confirm_blur
      password_reset reset_fails
  handle-IsKept (token_checked ok) w v =
      called (is_checking w.token_state) w
        (λ here. record {
          sent = v.sent;
          lost = λ h. let gone = v.lost h in absurd (waits here gone);
          empty = v.empty;
        })
        v
    where
      waits : is_checking w.token_state ≡ true → w.token_state ≡ invalid → ⊥
      waits c gone = let out : is_checking w.token_state ≡ false = rw gone refl in cc
  handle-IsKept submit w v =
      called (shows_form w && not w.submitting) w (λ b. handle_submit-IsKept w (ground arith) v) v
  handle-IsKept (failed (axios_error (some status) detail)) w v =
      called w.submitting w
        (λ b. IsKept-aside (refused status _ w) _ (inl refl) refl (refused-IsKept status _ w v)) v
  handle-IsKept (failed (axios_error none detail)) w v =
      called w.submitting w (λ b. IsKept-aside w _ (inl refl) refl v) v
  handle-IsKept (failed other_error) w v =
      called w.submitting w (λ b. IsKept-aside w _ (inl refl) refl v) v
  handle-IsKept answered w v = called w.submitting w (λ b. IsKept-aside w _ (inl refl) refl v) v
  handle-IsKept (change p) w v = called (shows_form w) w (λ b. IsKept-aside w _ (inl refl) refl v) v
  handle-IsKept (change_confirm p) w v =
      called (shows_form w) w (λ b. IsKept-aside w _ (inl refl) refl v) v
  handle-IsKept (blur p) w v = called (shows_form w) w (λ b. IsKept-aside w _ (inl refl) refl v) v
  handle-IsKept (blur_confirm p) w v =
      called (shows_form w) w (λ b. IsKept-aside w _ (inl refl) refl v) v

  run-IsKept : (es : List ResetEvent) (w : ResetPage) → IsKept token w → IsKept token (run es w)
  unfolding run
  run-IsKept [] w v = v
  run-IsKept (e ∷ es) w v = run-IsKept es (handle e w) (handle-IsKept e w v)

start-IsKept : (token : Bool) → IsKept token (start token)
start-IsKept true = record { sent = tt; lost = λ h. cc; empty = λ h. refl }
start-IsKept false = record { sent = tt; lost = λ h. refl; empty = λ h. refl }

-- Whatever happens on the page, every password that it sends obeys the five rules of `IsComplex`,
-- and without a token in its address it sends none.
pub run-resets :
    (token : Bool) (es : List ResetEvent)
    → All IsComplex (run es (start token)).resets
      × (token ≡ false → (run es (start token)).resets ≡ [])
run-resets token es =
    let kept = run-IsKept token es (start token) (start-IsKept token) in (kept.sent, kept.empty)
