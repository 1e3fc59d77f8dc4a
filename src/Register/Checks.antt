-- ===== src/Register/Checks.antt =====
-- When a message is none, and what a long text is not.
use rs_recruitment.Base.{
  ◌≤◌, Bool, not, any, true, false, ◌≡◌, ◌↔◌, refl, List, [], ◌∷◌, Text, arith, some, none,
  is_empty, length, all, All,
}
use rs_recruitment.Register.{Message, is_fine}

fine_iff : (m : Message) → (is_fine m ≡ true) ↔ (m ≡ none)
fine_iff none = (λ h. refl, λ h. refl)
fine_iff (some m) = (λ h. cc, λ h. cc)

pub not_empty_of_long : (v : Text) → 8 ≤ length v → is_empty v ≡ false
not_empty_of_long [] h = absurd (omega arith)
not_empty_of_long (c ∷ v) h = refl

-- Where `every((e) => !e)` holds, no entry is a message.
pub fine-All :
    {K : Type 0} (errors : K → Message) (ks : List K)
    → all (λ k. is_fine (errors k)) ks ≡ true
    → All (λ k. errors k ≡ none) ks
fine-All errors [] h = tt
fine-All errors (k ∷ ks) h =
    ((fine_iff (errors k)).0 (ground arith), fine-All errors ks (ground arith))

-- Where it does not, some entry is one.
pub any-not :
    {K : Type 0} (p : K → Bool) (ks : List K) → all p ks ≡ false → any (λ k. not (p k)) ks ≡ true
any-not p [] h = cc
any-not p (k ∷ ks) h = ground (arith, any-not p ks)
