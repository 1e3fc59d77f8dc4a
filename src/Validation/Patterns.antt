-- ===== src/Validation/Patterns.antt =====
-- What the patterns of frontend/src/utils/validators.ts accept, in words of the text itself.
use mathlib.Core.Path.{subst}
use rs_recruitment.Regex.Language.{in_left, in_right}
use rs_recruitment.Base.{
  ℕ, zero, suc, Bool, true, ◌≡◌, ◌≢◌, ◌↔◌, refl, ap, ◌∙◌, [], ◌∷◌, ◌++◌, Text, length, All,
  is_digit, arith, ==_iff, some,
}
use rs_recruitment.Regex.{Regex, cls, chr, plus, repeat, star}
use rs_recruitment.Regex.Language.{
  InLanguage, in_epsilon, in_cls, in_seq, star_nil, star_cons, inv_epsilon, inv_cls, inv_seq,
  matches_iff,
}
use rs_recruitment.Validation.{email_re, mobile_re, company_id_re, is_plain, test}

-- All code units are in a class.
abbrev pub AllIn : (ℕ → Bool) → Text → Type 0
AllIn p s = All (λ c. p c ≡ true) s

module _ (p : ℕ → Bool) where
  cls_append :
      (n : ℕ) (a b : Text)
      → (c : ℕ) × (p c ≡ true) × (a ≡ c ∷ [])
      → (length b ≡ n) × AllIn p b
      → (length (a ++ b) ≡ suc n) × AllIn p (a ++ b)
  cls_append n [] b (c, ok, e) h = cc
  cls_append n (d ∷ []) b (c, ok, e) h = (ap suc h.0, (subst (λ k. p k ≡ true) (cc) ok, h.1))
  cls_append n (d ∷ d' ∷ a) b (c, ok, e) h = cc

  pub repeat_sound :
      (n : ℕ) (s : Text) → InLanguage (repeat n (cls p)) s → (length s ≡ n) × AllIn p s
  repeat_sound zero s h = rw (inv_epsilon h) (refl, tt)
  repeat_sound (suc n) s h =
      let (a, b, x, y, e) = inv_seq h in rw e (cls_append n a b (inv_cls x) (repeat_sound n b y))

  pub repeat_complete :
      (n : ℕ) (s : Text) → length s ≡ n → AllIn p s → InLanguage (repeat n (cls p)) s
  repeat_complete zero [] e h = in_epsilon refl
  repeat_complete zero (c ∷ s) e h = absurd (omega arith)
  repeat_complete (suc n) [] e h = absurd (omega arith)
  repeat_complete (suc n) (c ∷ s) e h =
      in_seq (c ∷ []) s (in_cls c h.0 refl) (repeat_complete n s (omega arith) h.1) refl

  star_cls_cons :
      (c : ℕ) (a b : Text) → InLanguage (cls p) (c ∷ a) → AllIn p b → AllIn p (c ∷ (a ++ b))
  star_cls_cons c a b x h =
      let (d, ok, e) = inv_cls x in
      let none_left : a ≡ [] = cc in rw none_left (subst (λ k. p k ≡ true) (cc) ok, h)

  star_sound_at : {r : Regex} {s : Text} → InLanguage r s → r ≡ star (cls p) → AllIn p s
  star_sound_at (in_epsilon e) h = cc
  star_sound_at (in_cls c ok e) h = cc
  star_sound_at (in_seq a b x y e) h = cc
  star_sound_at (in_left x) h = cc
  star_sound_at (in_right x) h = cc
  star_sound_at (star_nil e) h = rw e tt
  star_sound_at (star_cons c a b x y e) h =
      rw e (star_cls_cons c a b (subst (λ q. InLanguage q (c ∷ a)) (cc) x) (star_sound_at y h))

  pub star_sound : (s : Text) → InLanguage (star (cls p)) s → AllIn p s
  star_sound s x = star_sound_at x refl

  pub star_complete : (s : Text) → AllIn p s → InLanguage (star (cls p)) s
  star_complete [] h = star_nil refl
  star_complete (c ∷ s) h = star_cons c [] s (in_cls c h.0 refl) (star_complete s h.1) refl

  -- One or more code units of the class.
  pub plus_sound : (s : Text) → InLanguage (plus (cls p)) s → (s ≢ []) × AllIn p s
  plus_sound s h =
      let (a, b, x, y, e) = inv_seq h in
      let (c, ok, only) = inv_cls x in
      let all : s ≡ c ∷ b = e ∙ ap (λ a. a ++ b) only in rw all ((λ q. cc), (ok, star_sound b y))

  pub plus_complete : (s : Text) → s ≢ [] → AllIn p s → InLanguage (plus (cls p)) s
  plus_complete [] ne h = absurd (ne refl)
  plus_complete (c ∷ s) ne h = in_seq (c ∷ []) s (in_cls c h.0 refl) (star_complete s h.1) refl

chr_sound : (c : ℕ) (s : Text) → InLanguage (chr c) s → s ≡ c ∷ []
chr_sound c s h = let (d, ok, e) = inv_cls h in rw (e, (==_iff d c).0 ok)

chr_complete : (c : ℕ) → InLanguage (chr c) (c ∷ [])
chr_complete c = in_cls c ((==_iff c c).1 refl) refl

-- `name@domain.tld`: each part is not empty and holds neither white space nor `@`.
pub record IsEmail (s : Text) : Type 0 where
  pub local : Text
  pub domain : Text
  pub tld : Text
  pub whole : s ≡ local ++ b'@' ∷ (domain ++ b'.' ∷ tld)
  pub local_some : local ≢ []
  pub domain_some : domain ≢ []
  pub tld_some : tld ≢ []
  pub local_plain : AllIn is_plain local
  pub domain_plain : AllIn is_plain domain
  pub tld_plain : AllIn is_plain tld

IsEmail-sound : (s : Text) → InLanguage email_re s → IsEmail s
IsEmail-sound s h =
    let (a, r1, x, y1, e1) = inv_seq h in
    let (at, r2, xat, y2, e2) = inv_seq y1 in
    let (d, r3, xd, y3, e3) = inv_seq y2 in
    let (dot, z, xdot, xz, e4) = inv_seq y3 in
    let (na, pa) = plus_sound is_plain a x in
    let (nd, pd) = plus_sound is_plain d xd in
    let (nz, pz) = plus_sound is_plain z xz in
    let rest : r3 ≡ b'.' ∷ z = e4 ∙ ap (λ u. u ++ z) (chr_sound b'.' dot xdot) in
    let tail : r1 ≡ b'@' ∷ (d ++ b'.' ∷ z) =
      e2
      ∙ ap (λ u. u ++ r2) (chr_sound b'@' at xat)
      ∙ ap (λ u. b'@' ∷ u) (e3 ∙ ap (λ u. d ++ u) rest) in
    record {
      local = a;
      domain = d;
      tld = z;
      whole = e1 ∙ ap (λ u. a ++ u) tail;
      local_some = na;
      domain_some = nd;
      tld_some = nz;
      local_plain = pa;
      domain_plain = pd;
      tld_plain = pz;
    }

IsEmail-complete : (s : Text) → IsEmail s → InLanguage email_re s
IsEmail-complete s m =
    in_seq m.local (b'@' ∷ (m.domain ++ b'.' ∷ m.tld))
      (plus_complete is_plain m.local m.local_some m.local_plain)
      (in_seq (b'@' ∷ []) (m.domain ++ b'.' ∷ m.tld) (chr_complete b'@')
        (in_seq m.domain (b'.' ∷ m.tld)
          (plus_complete is_plain m.domain m.domain_some m.domain_plain)
          (in_seq (b'.' ∷ []) m.tld (chr_complete b'.')
            (plus_complete is_plain m.tld m.tld_some m.tld_plain) refl)
          refl)
        refl)
      m.whole

-- EMAIL_RE accepts exactly the texts of the form `name@domain.tld`, each part non-empty and free
-- of white space and `@`.
pub email_re_accepts : (s : Text) → (test email_re (some s) ≡ true) ↔ IsEmail s
email_re_accepts s =
    let (to, from) = matches_iff email_re s in
    (λ h. IsEmail-sound s (to h), λ m. from (IsEmail-complete s m))

-- "05" and eight more digits.
abbrev pub IsMobile : Text → Type 0
IsMobile s = (rest : Text) × (s ≡ b'0' ∷ b'5' ∷ rest) × (length rest ≡ 8) × AllIn is_digit rest

IsMobile-sound : (s : Text) → InLanguage mobile_re s → IsMobile s
IsMobile-sound s h =
    let (a, r1, xa, y1, e1) = inv_seq h in
    let (b, r2, xb, y2, e2) = inv_seq y1 in
    let (len, digits) = repeat_sound is_digit 8 r2 y2 in
    (
      r2,
      e1
          ∙ ap (λ u. u ++ r1) (chr_sound b'0' a xa)
          ∙ ap (λ u. b'0' ∷ u) (e2 ∙ ap (λ u. u ++ r2) (chr_sound b'5' b xb)),
      len,
      digits,
    )

IsMobile-complete : (s : Text) → IsMobile s → InLanguage mobile_re s
IsMobile-complete s (rest, e, len, digits) =
    in_seq (b'0' ∷ []) (b'5' ∷ rest) (chr_complete b'0')
      (in_seq (b'5' ∷ []) rest (chr_complete b'5') (repeat_complete is_digit 8 rest len digits)
        refl)
      e

-- MOBILE_RE accepts exactly "05" followed by eight digits, ten in all.
pub mobile_re_accepts : (s : Text) → (test mobile_re (some s) ≡ true) ↔ IsMobile s
mobile_re_accepts s =
    let (to, from) = matches_iff mobile_re s in
    (λ h. IsMobile-sound s (to h), λ m. from (IsMobile-complete s m))

abbrev pub IsCompanyId : Text → Type 0
IsCompanyId s = (length s ≡ 9) × AllIn is_digit s

-- COMPANY_ID_RE accepts exactly nine digits.
pub company_id_re_accepts : (s : Text) → (test company_id_re (some s) ≡ true) ↔ IsCompanyId s
company_id_re_accepts s =
    let (to, from) = matches_iff company_id_re s in
    (λ h. repeat_sound is_digit 9 s (to h), λ m. from (repeat_complete is_digit 9 s m.0 m.1))
