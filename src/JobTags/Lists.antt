-- ===== src/JobTags/Lists.antt =====
-- Lists of tags of which no two are the same but for case, under the operations of JobTagsInput.tsx.
use rs_recruitment.Sortable.{insert_at, any-insert_at}
use rs_recruitment.Feed.{delete_at}
use rs_recruitment.Base.{
  ℕ, zero, suc, get_elem?, some, inl, inr, ◌≤◌, length, Text, text_eq, trim, any, keep, map, ◌≡◌,
  refl, sym, Bool, true, false, not, ◌&&◌, ◌||◌, List, [], ◌∷◌, ◌++◌, arith, Bool-cases,
  if◌then◌else◌,
}
use rs_recruitment.Validation.LinkedIn.{text_eq_iff}
use rs_recruitment.JobTags.{same, uniq_from, uniq_value, add_tag, edit}

text_eq_sym : (s u : Text) → text_eq s u ≡ text_eq u s
text_eq_sym s u = elim (Bool-cases (text_eq s u)) [
  | inl e ↦ let there = (text_eq_iff s u).0 e in let back = (text_eq_iff u s).1 (sym there) in cc
  | inr e ↦ elim (Bool-cases (text_eq u s)) [
    | inl e' ↦
        let there = (text_eq_iff u s).0 e' in let back = (text_eq_iff s u).1 (sym there) in cc
    | inr e' ↦ cc
  ]
]

module _ (lower : Text → Text) where
  same_sym : (a b : Text) → same lower a b ≡ same lower b a
  same_sym a b = text_eq_sym (lower a) (lower b)

  same_trans : (a b c : Text) → same lower a b ≡ true → same lower b c ≡ same lower a c
  same_trans a b c e = rw ((text_eq_iff (lower a) (lower b)).0 e) refl

  same_refl : (a : Text) → same lower a a ≡ true
  same_refl a = (text_eq_iff (lower a) (lower a)).1 refl

  equal-same : (a b : Text) → text_eq a b ≡ true → same lower b a ≡ true
  equal-same a b e = rw ((text_eq_iff a b).0 e) (same_refl b)

  -- Each tag differs from those after it.
  abbrev pub AllDistinct : List Text → Type 0
  AllDistinct [] = Unit
  AllDistinct (t ∷ ts) = (any (same lower t) ts ≡ false) × AllDistinct ts

  any-same :
      (a b : Text) (ts : List Text)
      → same lower a b ≡ true
      → any (same lower b) ts ≡ any (same lower a) ts
  any-same a b [] e = refl
  any-same a b (t ∷ ts) e = ground (arith, any-same a b ts e, same_trans a b t e)

  uniq_from-any :
      (a : Text) (before tags : List Text)
      → any (same lower a) before ≡ true
      → any (same lower a) (uniq_from lower before tags) ≡ false
  unfolding uniq_from
  uniq_from-any a before [] h = refl
  uniq_from-any a before (t ∷ ts) h =
      let later = uniq_from-any a (t ∷ before) ts (ground arith) in
      ground (arith, any-same a t before)

  uniq_from-AllDistinct : (before tags : List Text) → AllDistinct (uniq_from lower before tags)
  unfolding uniq_from
  uniq_from-AllDistinct before [] = tt
  uniq_from-AllDistinct before (t ∷ ts) =
      let rest = uniq_from-AllDistinct (t ∷ before) ts in
      let apart = uniq_from-any t (t ∷ before) ts (rw (same_refl t) refl) in
      elim (Bool-cases (any (same lower t) before)) [
        | inl e ↦ rw e rest
        | inr e ↦ rw e (apart, rest)
      ]

  any-concat :
      (p : Text → Bool) (ts : List Text) (a : Text) → any p (ts ++ a ∷ []) ≡ (any p ts || p a)
  any-concat p [] a = ground arith
  any-concat p (t ∷ ts) a = ground (arith, any-concat p ts a)

  -- A tag that differs from all, at the end.
  concat-AllDistinct :
      (ts : List Text) (a : Text)
      → AllDistinct ts
      → any (same lower a) ts ≡ false
      → AllDistinct (ts ++ a ∷ [])
  concat-AllDistinct [] a v h = (refl, tt)
  concat-AllDistinct (t ∷ ts) a v h = (
    ground (arith, any-concat (same lower t) ts a, same_sym t a),
    concat-AllDistinct ts a v.1 (ground arith),
  )

  keep-any : (p q : Text → Bool) (ts : List Text) → any p ts ≡ false → any p (keep q ts) ≡ false
  keep-any p q [] h = refl
  keep-any p q (t ∷ ts) h = let rest = keep-any p q ts (ground arith) in ground arith

  pub keep-AllDistinct :
      (q : Text → Bool) (ts : List Text) → AllDistinct ts → AllDistinct (keep q ts)
  keep-AllDistinct q [] v = tt
  keep-AllDistinct q (t ∷ ts) v =
      let rest = keep-AllDistinct q ts v.1 in
      let apart = keep-any (same lower t) q ts v.0 in
      elim (Bool-cases (q t)) [
        | inl e ↦ rw (e, keep, AllDistinct) (apart, rest)
        | inr e ↦ rw (e, keep, AllDistinct) rest
      ]

  -- The edit of a list that does not hold the old tag changes nothing.
  abbrev renamed : Text → Text → List Text → List Text
  renamed old new ts = map (λ t. if text_eq t old then new else t) ts

  -- The guard of an edit.
  abbrev clashes : Text → Text → List Text → Bool
  clashes old new ts = any (λ t. same lower new t && not (text_eq t old)) ts

  renamed-absent :
      (old new : Text) (ts : List Text) → any (same lower old) ts ≡ false → renamed old new ts ≡ ts
  renamed-absent old new [] h = refl
  renamed-absent old new (t ∷ ts) h =
      let rest = renamed-absent old new ts (ground arith) in
      let other : text_eq t old ≡ false = ground (arith, equal-same t old) in rw (other, rest) refl

  -- No clash, and the old tag absent: the new one differs from all.
  clashes-absent :
      (old new : Text) (ts : List Text)
      → any (same lower old) ts ≡ false
      → clashes old new ts ≡ false
      → any (same lower new) ts ≡ false
  clashes-absent old new [] h k = refl
  clashes-absent old new (t ∷ ts) h k =
      let rest = clashes-absent old new ts (ground arith) (ground arith) in
      ground (arith, equal-same t old)

  -- A tag that differs from all and from the new one differs from all after the edit.
  renamed-any :
      (a old new : Text) (ts : List Text)
      → any (same lower a) ts ≡ false
      → same lower a new ≡ false
      → any (same lower a) (renamed old new ts) ≡ false
  renamed-any a old new [] h k = refl
  renamed-any a old new (t ∷ ts) h k =
      let rest = renamed-any a old new ts (ground arith) k in ground arith

  renamed-AllDistinct :
      (old new : Text) (ts : List Text)
      → AllDistinct ts
      → clashes old new ts ≡ false
      → AllDistinct (renamed old new ts)
  renamed-AllDistinct old new [] v k = tt
  renamed-AllDistinct old new (t ∷ ts) v k = elim (Bool-cases (text_eq t old)) [
    | inl e ↦
        let here = (text_eq_iff t old).0 e in
        let absent : any (same lower old) ts ≡ false = rw here at v.0 in
        let fresh = clashes-absent old new ts absent (ground arith) in
        rw (e, renamed-absent old new ts absent) (fresh, v.1)
    | inr e ↦
        let other : same lower t new ≡ false = ground (arith, same_sym t new) in
        rw e (renamed-any t old new ts v.0 other, renamed-AllDistinct old new ts v.1 (ground arith))
  ]

  pub edit-AllDistinct :
      (old new : Text) (ts : List Text) → AllDistinct ts → AllDistinct (edit lower old new ts)
  unfolding edit
  edit-AllDistinct old new ts v = elim (Bool-cases (clashes old new ts)) [
    | inl e ↦ rw e v
    | inr e ↦ rw e (renamed-AllDistinct old new ts v e)
  ]

  pub uniq_value-AllDistinct : (value : List Text) → AllDistinct (uniq_value lower value)
  unfolding uniq_value
  uniq_value-AllDistinct value = uniq_from-AllDistinct [] value

  pub add_tag-AllDistinct :
      (draft : Text) (ts : List Text) → AllDistinct ts → AllDistinct (add_tag lower draft ts)
  unfolding add_tag
  add_tag-AllDistinct draft ts v = elim (Bool-cases (any (same lower (trim draft)) ts)) [
    | inl e ↦ ground arith
    | inr e ↦ let added = concat-AllDistinct ts (trim draft) v e in ground arith
  ]

  uniq_from-keeps :
      (a : Text) (before tags : List Text)
      → any (same lower a) before ≡ false
      → any (same lower a) (uniq_from lower before tags) ≡ any (same lower a) tags
  unfolding uniq_from
  uniq_from-keeps a before [] h = refl
  uniq_from-keeps a before (t ∷ ts) h = elim (Bool-cases (same lower a t)) [
    | inl e ↦
        let new : any (same lower t) before ≡ false = ground (arith, any-same a t before e) in
        ground arith
    | inr e ↦ let rest = uniq_from-keeps a (t ∷ before) ts (ground arith) in ground arith
  ]

  uniq_from-length : (before tags : List Text) → length (uniq_from lower before tags) ≤ length tags
  unfolding uniq_from
  uniq_from-length before [] = omega arith
  uniq_from-length before (t ∷ ts) = ground (arith, uniq_from-length (t ∷ before) ts)

  -- Removing the doubles loses no tag but for case, and adds none.
  pub uniq_value-keeps :
      (a : Text) (value : List Text)
      → (any (same lower a) (uniq_value lower value) ≡ any (same lower a) value)
        × (length (uniq_value lower value) ≤ length value)
  unfolding uniq_value
  uniq_value-keeps a value = (uniq_from-keeps a [] value refl, uniq_from-length [] value)

  delete_at-any :
      (p : Text → Bool) (i : ℕ) (ts : List Text) → any p ts ≡ false → any p (delete_at i ts) ≡ false
  delete_at-any p i [] h = h
  delete_at-any p zero (t ∷ ts) h = ground arith
  delete_at-any p (suc i) (t ∷ ts) h =
      let rest = delete_at-any p i ts (ground arith) in ground arith

  pub delete_at-AllDistinct :
      (i : ℕ) (ts : List Text) → AllDistinct ts → AllDistinct (delete_at i ts)
  delete_at-AllDistinct i [] v = v
  delete_at-AllDistinct zero (t ∷ ts) v = v.1
  delete_at-AllDistinct (suc i) (t ∷ ts) v =
      (delete_at-any (same lower t) i ts v.0, delete_at-AllDistinct i ts v.1)

  any-get :
      (p : Text → Bool) (i : ℕ) (ts : List Text) (a : Text)
      → get_elem? ts i ≡ some a
      → any p ts ≡ false
      → p a ≡ false
  any-get p i [] a e h = cc
  any-get p zero (t ∷ ts) a e h = let here : t ≡ a = cc in rw⁻¹ here (ground arith)
  any-get p (suc i) (t ∷ ts) a e h = any-get p i ts a e (ground arith)

  -- A tag differs from the others.
  pub others-any :
      (i : ℕ) (ts : List Text) (a : Text)
      → get_elem? ts i ≡ some a
      → AllDistinct ts
      → any (same lower a) (delete_at i ts) ≡ false
  others-any i [] a e v = cc
  others-any zero (t ∷ ts) a e v = let here : t ≡ a = cc in rw⁻¹ here v.0
  others-any (suc i) (t ∷ ts) a e v =
      let rest = others-any i ts a e v.1 in
      let apart = any-get (same lower t) i ts a e v.0 in ground (arith, same_sym t a)

  pub insert_at-AllDistinct :
      (i : ℕ) (a : Text) (ts : List Text)
      → AllDistinct ts
      → any (same lower a) ts ≡ false
      → AllDistinct (insert_at i a ts)
  insert_at-AllDistinct zero a ts v h = (h, v)
  insert_at-AllDistinct (suc i) a [] v h = (refl, tt)
  insert_at-AllDistinct (suc i) a (t ∷ ts) v h = (
    ground (arith, any-insert_at (same lower t) i a ts, same_sym t a),
    insert_at-AllDistinct i a ts v.1 (ground arith),
  )
