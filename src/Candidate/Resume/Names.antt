-- ===== src/Candidate/Resume/Names.antt =====
-- The parts of a file name in ResumeCard.tsx, and what a rename sends.
use rs_recruitment.Base.{
  if_case, ℕ, zero, suc, ◌+◌, ◌≤◌, ◌≡◌, ◌≢◌, ◌⊎◌, inl, inr, refl, sym, ap, ◌∙◌, Bool, true, false,
  ◌||◌, ◌==◌, ==_iff, Option, none, some, [], ◌∷◌, ◌++◌, Text, arith, is_empty, trim, text_eq,
  length, length-append, take, drop, any, Bool-cases, HasInk, is_ink, ink_of_trim, is_empty-trim,
}
use rs_recruitment.Validation.LinkedIn.{text_eq_iff}
use rs_recruitment.Candidate.Resume.{
  Filename, one_more, Card, last_index_of, split_at, split_filename, next_name, commit_as,
  cancel_rename,
}

abbrev pub is_dot : ℕ → Bool
is_dot c = c == b'.'

-- The last dot splits the text, and no dot stands behind it; without a dot there is no index.
IsSplit : Text → Option ℕ → Type 0
IsSplit s none = any is_dot s ≡ false
IsSplit s (some i) = (s ≡ take i s ++ b'.' ∷ drop (suc i) s) × (any is_dot (drop (suc i) s) ≡ false)

IsSplit-more :
    (d : ℕ) (s : Text) (r : Option ℕ) → IsSplit s r → IsSplit (d ∷ s) (one_more (d == b'.') r)
unfolding IsSplit
IsSplit-more d s (some i) h = (ap (λ t. d ∷ t) h.0, h.1)
IsSplit-more d s none h =
    if_case (IsSplit (d ∷ s)) (d == b'.') (some 0) none
      (λ e. (ap (λ c. c ∷ s) ((==_iff d b'.').0 e), h)) (λ e. ground arith)

last_index_of-IsSplit : (s : Text) → IsSplit s (last_index_of b'.' s)
unfolding IsSplit last_index_of
last_index_of-IsSplit [] = refl
last_index_of-IsSplit (d ∷ s) = IsSplit-more d s (last_index_of b'.' s) (last_index_of-IsSplit s)

last_index_of-none : (s : Text) → any is_dot s ≡ false → last_index_of b'.' s ≡ none
unfolding last_index_of
last_index_of-none [] h = refl
last_index_of-none (d ∷ s) h =
    let rest = last_index_of-none s (ground arith) in
    let here : (d == b'.') ≡ false = ground arith in rw (rest, here) refl

last_index_of-append :
    (b e : Text) → any is_dot e ≡ false → last_index_of b'.' (b ++ b'.' ∷ e) ≡ some (length b)
unfolding last_index_of
last_index_of-append [] e h = rw (last_index_of-none e h) refl
last_index_of-append (d ∷ b) e h = rw (last_index_of-append b e h) refl

-- What the parts of a name give back.
abbrev join : Filename → Text
join f = next_name f.base f.ext

take_all : (n : ℕ) (s : Text) → length s ≤ n → take n s ≡ s
take_all zero [] h = refl
take_all zero (c ∷ s) h = absurd (omega arith)
take_all (suc n) [] h = refl
take_all (suc n) (c ∷ s) h = ap (λ t. c ∷ t) (take_all n s (omega arith))

drop_none : (n : ℕ) (s : Text) → is_empty (drop n s) ≡ true → length s ≤ n
drop_none zero [] h = omega arith
drop_none zero (c ∷ s) h = cc
drop_none (suc n) [] h = omega arith
drop_none (suc n) (c ∷ s) h = let rest = drop_none n s h in omega arith

empty_length : (s : Text) → is_empty s ≡ true → length s ≡ 0
empty_length [] h = refl
empty_length (c ∷ s) h = cc

-- A dot that is not last has an extension.
some_ext :
    (s : Text) (i : ℕ)
    → s ≡ take i s ++ b'.' ∷ drop (suc i) s
    → (suc i == length s) ≡ false
    → is_empty (drop (suc i) s) ≡ false
some_ext s i whole last = elim (Bool-cases (is_empty (drop (suc i) s))) [
  | inr e ↦ e
  | inl e ↦
      let short = drop_none (suc i) s e in
      let zero_len = empty_length (drop (suc i) s) e in
      let sum : length s ≡ length (take i s) + suc (length (drop (suc i) s)) =
        ap length whole ∙ length-append (take i s) (b'.' ∷ drop (suc i) s) in
      let less : length s ≤ i = ground arith in
      let all : length (take i s) ≡ length s = ap length (take_all i s less) in absurd (omega arith)
]

split_at-join :
    (s : Text) (r : Option ℕ)
    → IsSplit s r
    → (join (split_at s r) ≡ s) × (any is_dot (split_at s r).ext ≡ false)
unfolding split_at next_name IsSplit
split_at-join s none h = (refl, refl)
split_at-join s (some i) h =
    if_case (λ f. (join f ≡ s) × (any is_dot f.ext ≡ false)) (i == 0 || suc i == length s) _ _
      (λ e. (refl, refl)) (λ e. (rw (some_ext s i h.0 (ground arith)) (sym h.0), h.1))

-- The parts of a file name, with the dot between them where there is an extension, give the name
-- back, and the extension has no dot.
split_filename-join :
    (s : Text)
    → (next_name (split_filename (some s)).base (split_filename (some s)).ext ≡ s)
      × (any is_dot (split_filename (some s)).ext ≡ false)
unfolding split_filename next_name
split_filename-join [] = (refl, refl)
split_filename-join (c ∷ s) =
    split_at-join (c ∷ s) (last_index_of b'.' (c ∷ s)) (last_index_of-IsSplit (c ∷ s))

drop-append : (b e : Text) → drop (suc (length b)) (b ++ b'.' ∷ e) ≡ e
drop-append [] e = refl
drop-append (c ∷ b) e = drop-append b e

split_at-ext :
    (b e : Text)
    → is_empty b ≡ false
    → is_empty e ≡ false
    → (split_at (b ++ b'.' ∷ e) (some (length b))).ext ≡ e
unfolding split_at
split_at-ext [] e hb he = cc
split_at-ext (c ∷ b) [] hb he = cc
split_at-ext (c ∷ b) (d ∷ e) hb he =
    if_case {A = Filename} (λ f. f.ext ≡ d ∷ e)
      (length (c ∷ b) == 0 || suc (length (c ∷ b)) == length ((c ∷ b) ++ b'.' ∷ d ∷ e)) _ _
      (λ h. let sum = length-append (c ∷ b) (b'.' ∷ d ∷ e) in absurd (ground arith))
      (λ h. drop-append (c ∷ b) (d ∷ e))

-- Behind the last dot, with something on both of its sides, stands the extension.
split_ext :
    (b e : Text)
    → is_empty b ≡ false
    → is_empty e ≡ false
    → any is_dot e ≡ false
    → (split_filename (some (b ++ b'.' ∷ e))).ext ≡ e
unfolding split_filename last_index_of
split_ext [] e hb he hd = cc
split_ext (c ∷ b) [] hb he hd = cc
split_ext (c ∷ b) (d ∷ e) hb he hd =
    let at = last_index_of-append (c ∷ b) (d ∷ e) hd in
    ap (λ r. (split_at ((c ∷ b) ++ b'.' ∷ d ∷ e) r).ext) at ∙ split_at-ext (c ∷ b) (d ∷ e) hb he

-- The name that a base gives together with the extension of `name`: what stands behind the last dot,
-- where something stands on both of its sides; else there is no extension.
pub record IsRenamed (name base sent : Text) : Type 0 where
  pub with_ext :
      (b e : Text)
      → name ≡ b ++ b'.' ∷ e
      → any is_dot e ≡ false
      → is_empty b ≡ false
      → is_empty e ≡ false
      → sent ≡ base ++ b'.' ∷ e
  pub without :
      ((b e : Text)
        → name ≡ b ++ b'.' ∷ e
        → any is_dot e ≡ false
        → (is_empty b ≡ true) ⊎ (is_empty e ≡ true))
      → sent ≡ base

-- An extension has something before its dot.
split_at-base :
    (s : Text) (r : Option ℕ)
    → is_empty (split_at s r).ext ≡ false
    → is_empty (split_at s r).base ≡ false
unfolding split_at
split_at-base s none h = cc
split_at-base [] (some i) h = ground arith
split_at-base (c ∷ s) (some zero) h = ground arith
split_at-base (c ∷ s) (some (suc i)) h =
    if_case {A = Filename} (λ f. is_empty f.ext ≡ false → is_empty f.base ≡ false)
      (suc i == 0 || suc (suc i) == length (c ∷ s)) _ _ (λ e k. refl) (λ e k. refl) h

split_filename-base :
    (s : Text)
    → is_empty (split_filename (some s)).ext ≡ false
    → is_empty (split_filename (some s)).base ≡ false
unfolding split_filename
split_filename-base [] h = cc
split_filename-base (c ∷ s) h = split_at-base (c ∷ s) (last_index_of b'.' (c ∷ s)) h

next_name-IsRenamed :
    (name base : Text) → IsRenamed name base (next_name base (split_filename (some name)).ext)
unfolding next_name
next_name-IsRenamed name base = record {
  with_ext = λ b e whole dots hb he.
      let same : (split_filename (some name)).ext ≡ e = rw whole (split_ext b e hb he dots) in
      rw (same, he) refl;
  without = λ h. elim (Bool-cases (is_empty (split_filename (some name)).ext)) [
    | inl missing ↦ rw missing refl
    | inr given ↦
        let whole : name
            ≡ (split_filename (some name)).base ++ b'.' ∷ (split_filename (some name)).ext =
          sym (rw given at (split_filename-join name).0) in
        let some_base = split_filename-base name given in
        elim (h _ _ whole (split_filename-join name).1) [ inl a ↦ cc | inr a ↦ cc ]
  ];
}

-- A rename that is finished for the name shown sends nothing and ends exactly if what is typed is
-- blank or gives the same name. Otherwise it sends one name, and waits for the answer. The name that
-- is given, or sent, is what is typed, trimmed, and where the name shown has an extension, a dot and
-- that extension.
pub commit_as_cases :
    (name : Text) (w : Card)
    → (sent : Text) × IsRenamed name (trim w.rename_value) sent
      × (((any is_ink w.rename_value ≡ false) ⊎ (sent ≡ name))
            × ((commit_as name w).renames ≡ w.renames)
            × ((commit_as name w).renaming ≡ false)
          ⊎ HasInk w.rename_value
            × (sent ≢ name)
            × ((commit_as name w).renames ≡ sent ∷ w.renames)
            × ((commit_as name w).renaming ≡ w.renaming)
            × ((commit_as name w).busy ≡ true))
unfolding commit_as cancel_rename
commit_as_cases name w =
    let base = trim w.rename_value in
    let sent = next_name base (split_filename (some name)).ext in
    (
      sent,
      next_name-IsRenamed name base,
      elim (Bool-cases (is_empty base || text_eq sent name)) [
        | inl e ↦ inl (back sent e, rw e refl, rw e refl)
        | inr e ↦ inr (
          ink_of_trim w.rename_value (ground arith),
          λ same. let eq = (text_eq_iff sent name).1 same in absurd (ground arith),
          rw e refl,
          rw e refl,
          rw e refl,
        )
      ],
    )
  where
    back :
        (sent : Text)
        → (is_empty (trim w.rename_value) || text_eq sent name) ≡ true
        → (any is_ink w.rename_value ≡ false) ⊎ (sent ≡ name)
    back sent e = elim (Bool-cases (is_empty (trim w.rename_value))) [
      | inl h ↦ inl (ground (arith, is_empty-trim w.rename_value))
      | inr h ↦ inr ((text_eq_iff sent name).0 (ground arith))
    ]
