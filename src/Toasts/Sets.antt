-- ===== src/Toasts/Sets.antt =====
-- Lists of ids as sets.
use rs_recruitment.Base.{
  ℕ, ◌≡◌, refl, Bool, true, false, not, ◌&&◌, ◌||◌, ◌==◌, List, [], ◌∷◌, ◌++◌, any, keep, All,
  arith,
}

abbrev pub mem : ℕ → List ℕ → Bool
mem i xs = any (λ j. j == i) xs

abbrev pub without : ℕ → List ℕ → List ℕ
without i xs = keep (λ j. not (j == i)) xs

pub mem-without : (i j : ℕ) (xs : List ℕ) → mem i (without j xs) ≡ (mem i xs && not (i == j))
mem-without i j [] = refl
mem-without i j (x ∷ xs) = ground (arith, mem-without i j xs)

pub mem-append : (i : ℕ) (xs ys : List ℕ) → mem i (xs ++ ys) ≡ (mem i xs || mem i ys)
mem-append i [] ys = refl
mem-append i (x ∷ xs) ys = ground (arith, mem-append i xs ys)

pub mem-head : (x : ℕ) (xs : List ℕ) → mem x (x ∷ xs) ≡ true
mem-head x xs = ground arith

-- A list without members is empty.
pub empty_of_mem : (xs : List ℕ) → ((i : ℕ) → mem i xs ≡ false) → xs ≡ []
empty_of_mem [] h = refl
empty_of_mem (x ∷ xs) h = let here = h x in let there = mem-head x xs in cc

-- What is kept passes the test, and may have another property by that.
pub All-keep :
    {A : Type 0} {P Q : A → Type 0} (p : A → Bool)
    → ((x : A) → P x → p x ≡ true → Q x)
    → (xs : List A) → All P xs
    → All Q (keep p xs)
All-keep p f [] h = tt
All-keep {A} {P} {Q} p f (x ∷ xs) h = picked (p x) (f x h.0) (All-keep p f xs h.1)
  where
    picked :
        (b : Bool)
        → (b ≡ true → Q x)
        → All Q (keep p xs)
        → All Q (elim b [ true ↦ x ∷ keep p xs | false ↦ keep p xs ])
    picked true g rest = (g refl, rest)
    picked false g rest = rest

pub All-map :
    {A : Type 0} {P Q : A → Type 0} → ((x : A) → P x → Q x) → (xs : List A) → All P xs → All Q xs
All-map f [] h = tt
All-map f (x ∷ xs) h = (f x h.0, All-map f xs h.1)
