-- ===== src/Sortable.antt =====
-- `arrayMove` of @dnd-kit/sortable, which frontend/src/components/ui/JobTagsInput.tsx and
-- JobRequirementsInput.tsx call at the end of a drag: a parameter with its contract.
use rs_recruitment.Base.{
  ℕ, zero, suc, ◌+◌, ◌<◌, ◌≡◌, ◌∙◌, refl, ap, Bool, ◌||◌, length, get_elem?, any, Option, none,
  some, List, [], ◌∷◌, arith,
}
use rs_recruitment.Feed.{delete_at}
use rs_recruitment.Feed.Flight.{length-delete_at}

-- `arrayMove(array, from, to)`
abbrev pub ArrayMove : Type 1
ArrayMove = (A : Type 0) → List A → ℕ → ℕ → List A

abbrev pub insert_at : {A : Type 0} → ℕ → A → List A → List A
insert_at zero x xs = x ∷ xs
insert_at (suc i) x [] = x ∷ []
insert_at (suc i) x (y ∷ xs) = y ∷ insert_at i x xs

-- The library's contract: the element at `from` is taken out and put in at `to`.
abbrev pub Moves : ArrayMove → Type 1
Moves array_move =
    (A : Type 0) (xs : List A) (i j : ℕ) (x : A)
    → get_elem? xs i ≡ some x
    → j < length xs
    → array_move A xs i j ≡ insert_at j x (delete_at i xs)

abbrev moved_to : (A : Type 0) → List A → ℕ → ℕ → Option A → List A
moved_to A xs i j none = xs
moved_to A xs i j (some x) = insert_at j x (delete_at i xs)

-- A function that keeps the contract.
abbrev pub move : ArrayMove
move A xs i j = moved_to A xs i j (get_elem? xs i)

pub move-Moves : Moves move
move-Moves A xs i j x found inside = ap (moved_to A xs i j) found

pub length-insert_at :
    {A : Type 0} (i : ℕ) (x : A) (xs : List A) → length (insert_at i x xs) ≡ length xs + 1
length-insert_at zero x xs = omega arith
length-insert_at (suc i) x [] = omega arith
length-insert_at (suc i) x (y ∷ xs) = omega (arith, length-insert_at i x xs)

pub length-move :
    (array_move : ArrayMove)
    → Moves array_move
    → (A : Type 0) (xs : List A) (i j : ℕ) (x : A) → get_elem? xs i ≡ some x
    → j < length xs
    → length (array_move A xs i j) ≡ length xs
length-move array_move moves A xs i j x found inside =
    ap length (moves A xs i j x found inside)
    ∙ (let a = length-insert_at j x (delete_at i xs) in
        let b = length-delete_at i xs found in omega arith)

pub any-insert_at :
    {A : Type 0} (p : A → Bool) (i : ℕ) (x : A) (xs : List A)
    → any p (insert_at i x xs) ≡ (p x || any p xs)
any-insert_at p zero x xs = refl
any-insert_at p (suc i) x [] = refl
any-insert_at p (suc i) x (y ∷ xs) = ground (arith, any-insert_at p i x xs)
