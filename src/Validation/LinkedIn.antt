-- ===== src/Validation/LinkedIn.antt =====
-- `sanitizeLinkedInUrl` of frontend/src/utils/validators.ts.
use mathlib.Core.List.{reverse-append, reverse-reverse}
use rs_recruitment.Base.{
  inl, inr, true, ◌≡◌, ◌≢◌, ◌↔◌, refl, sym, ◌∙◌, ap, [], ◌∷◌, ◌++◌, reverse, Text, codes, arith,
  Option, some, none, text_eq, starts_with, ends_with, Option-cases,
}
use rs_recruitment.Validation.{ParseUrl, Url, linkedin_host, sanitize_linkedin_url}

text_eq_sound : (s t : Text) → text_eq s t ≡ true → s ≡ t
unfolding text_eq
text_eq_sound [] [] h = refl
text_eq_sound [] (d ∷ t) h = cc
text_eq_sound (c ∷ s) [] h = cc
text_eq_sound (c ∷ s) (d ∷ t) h = ground (arith, text_eq_sound s t)

pub text_eq_refl : (s : Text) → text_eq s s ≡ true
unfolding text_eq
text_eq_refl [] = refl
text_eq_refl (c ∷ s) = ground (arith, text_eq_refl s)

pub text_eq_iff : (s t : Text) → (text_eq s t ≡ true) ↔ (s ≡ t)
text_eq_iff s t = (text_eq_sound s t, λ e. rw e (text_eq_refl t))

starts_with-append : (p s : Text) → starts_with (p ++ s) p ≡ true
unfolding starts_with
starts_with-append [] s = starts_with-nil s
  where
    starts_with-nil : (s : Text) → starts_with s [] ≡ true
    starts_with-nil [] = refl
    starts_with-nil (c ∷ s) = refl
starts_with-append (c ∷ p) s = ground (arith, starts_with-append p s)

starts_with_sound : (s p : Text) → starts_with s p ≡ true → (r : Text) × (s ≡ p ++ r)
unfolding starts_with
starts_with_sound s [] h = (s, refl)
starts_with_sound [] (c ∷ p) h = cc
starts_with_sound (c ∷ s) (d ∷ p) h =
    let (r, e) = starts_with_sound s p (ground arith) in (r, ground arith)

pub ends_with-append : (s p : Text) → ends_with (s ++ p) p ≡ true
unfolding ends_with
ends_with-append s p = rw (reverse-append s p) (starts_with-append (reverse p) (reverse s))

pub ends_with_sound : (s p : Text) → ends_with s p ≡ true → (r : Text) × (s ≡ r ++ p)
unfolding ends_with
ends_with_sound s p h =
    let (r, e) = starts_with_sound (reverse s) (reverse p) h in
    (
      reverse r,
      sym (reverse-reverse s)
          ∙ ap reverse e
          ∙ reverse-append (reverse p) r
          ∙ ap (λ u. reverse r ++ u) (reverse-reverse p),
    )

-- The host is any text that ends in "linkedin.com".
abbrev pub IsLinkedIn : ParseUrl → Text → Type 0
IsLinkedIn parse url =
    (parsed : Url) × (parse url ≡ some parsed)
    × (parsed.protocol ≡ codes "https:")
    × (sub : Text) × (parsed.hostname ≡ sub ++ linkedin_host)

module _ (parse : ParseUrl) where
  sanitize_sound :
      (v : Option Text) (u : Text)
      → sanitize_linkedin_url parse v ≡ some u
      → (v ≡ some u) × (u ≢ []) × IsLinkedIn parse u
  unfolding sanitize_linkedin_url
  sanitize_sound none u h = cc
  sanitize_sound (some []) u h = cc
  sanitize_sound (some (c ∷ s)) u h = elim (Option-cases (parse (c ∷ s))) [
    | inl missing ↦ ground arith
    | inr (parsed, found) ↦
        let https : text_eq parsed.protocol (codes "https:") ≡ true = ground arith in
        let host : ends_with parsed.hostname linkedin_host ≡ true = ground arith in
        let same : ◌≡◌ {A = Option Text} (some (c ∷ s)) (some u) = ground arith in
        let url : c ∷ s ≡ u = cc in
        let (sub, ending) = ends_with_sound _ _ host in
        (same, (λ n. cc), (parsed, rw (← url) found, text_eq_sound _ _ https, sub, ending))
  ]

  sanitize_complete :
      (u : Text) → u ≢ [] → IsLinkedIn parse u → sanitize_linkedin_url parse (some u) ≡ some u
  unfolding sanitize_linkedin_url
  sanitize_complete [] ne m = absurd (ne refl)
  sanitize_complete (c ∷ s) ne (parsed, found, https, sub, host) =
      let scheme : text_eq parsed.protocol (codes "https:") ≡ true =
        rw https (text_eq_refl (codes "https:")) in
      let ending : ends_with parsed.hostname linkedin_host ≡ true =
        rw host (ends_with-append sub linkedin_host) in
      rw found (rw (scheme, ending))

  -- `sanitizeLinkedInUrl` returns a URL exactly if that URL is its non-empty argument, the browser
  -- parses it, its scheme is https and its host ends in "linkedin.com", whatever stands before.
  pub sanitize_linkedin_url_iff :
      (v : Option Text) (u : Text)
      → (sanitize_linkedin_url parse v ≡ some u) ↔ ((v ≡ some u) × (u ≢ []) × IsLinkedIn parse u)
  sanitize_linkedin_url_iff v u =
      (sanitize_sound v u, λ m. let (e, ne, ok) = m in rw e (sanitize_complete u ne ok))
