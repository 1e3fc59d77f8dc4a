-- ===== src/JobReqs/Move.antt =====
-- Where the drag of JobRequirementsInput.tsx finds its rows.
use rs_recruitment.Base.{
  if◌then◌else◌, ℕ, zero, suc, ◌<◌, ◌≡◌, ◌∙◌, refl, ap, sym, Bool, true, false, ltb, ◌==◌, ==_iff,
  length, take, get_elem?, Option, none, some, List, [], ◌∷◌, arith, Bool-cases, inl, inr,
}
use rs_recruitment.JobReqs.{Reqs, index_of, next_index, render_ids}

-- The index of a key that is found.
abbrev pub IsFound : ℕ → List ℕ → Option ℕ → Type 0
IsFound k ids none = Unit
IsFound k ids (some i) = (get_elem? ids i ≡ some k) × (i < length ids)

next_index-IsFound :
    (k j : ℕ) (ids : List ℕ) (b : Bool) (r : Option ℕ)
    → (j == k) ≡ b
    → IsFound k ids r
    → IsFound k (j ∷ ids) (next_index b r)
next_index-IsFound k j ids true r e h = (ap some ((==_iff j k).0 e), omega arith)
next_index-IsFound k j ids false none e h = tt
next_index-IsFound k j ids false (some i) e h = (h.0, omega (arith, h.1))

pub index_of-IsFound : (k : ℕ) (ids : List ℕ) → IsFound k ids (index_of k ids)
index_of-IsFound k [] = tt
index_of-IsFound k (j ∷ ids) =
    next_index-IsFound k j ids (j == k) (index_of k ids) refl (index_of-IsFound k ids)

take-get :
    {A : Type 0} (n i : ℕ) (xs : List A) {x : A}
    → get_elem? (take n xs) i ≡ some x
    → (get_elem? xs i ≡ some x) × (i < n)
take-get zero i xs h = cc
take-get (suc n) i [] h = cc
take-get (suc n) zero (y ∷ xs) h = (h, omega arith)
take-get (suc n) (suc i) (y ∷ xs) h =
    let rest = take-get n i xs h in (rest.0, omega (arith, rest.1))

-- A row of the render: its key and its requirement are both there.
abbrev pub IsRow : ℕ → Reqs → Option ℕ → Type 0
IsRow k s none = Unit
IsRow k s (some i) = (get_elem? s.ids i ≡ some k) × (i < length s.ids) × (i < length s.value)

get-inside : (ids : List ℕ) (i k : ℕ) → get_elem? ids i ≡ some k → i < length ids
get-inside [] i k h = cc
get-inside (j ∷ ids) zero k h = omega arith
get-inside (j ∷ ids) (suc i) k h = omega (arith, get-inside ids i k h)

IsFound-IsRow : (k : ℕ) (s : Reqs) (r : Option ℕ) → IsFound k (render_ids s) r → IsRow k s r
unfolding render_ids
IsFound-IsRow k s none h = tt
IsFound-IsRow k s (some i) h = elim (Bool-cases (ltb (length s.value) (length s.ids))) [
  | inl e ↦
      let there : get_elem? (take (length s.value) s.ids) i ≡ some k =
        ap (λ b. get_elem? (if b then take (length s.value) s.ids else s.ids) i) (sym e) ∙ h.0 in
      let (found, inside) = take-get (length s.value) i s.ids there in
      (found, get-inside s.ids i k found, inside)
  | inr e ↦
      let found : get_elem? s.ids i ≡ some k =
        ap (λ b. get_elem? (if b then take (length s.value) s.ids else s.ids) i) (sym e) ∙ h.0 in
      let inside = get-inside s.ids i k found in (found, inside, ground arith)
]

pub index_of-IsRow : (k : ℕ) (s : Reqs) → IsRow k s (index_of k (render_ids s))
index_of-IsRow k s =
    IsFound-IsRow k s (index_of k (render_ids s)) (index_of-IsFound k (render_ids s))
