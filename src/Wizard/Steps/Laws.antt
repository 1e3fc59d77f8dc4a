-- ===== src/Wizard/Steps/Laws.antt =====
-- The order of the wizard's steps: handleNext and jumpTo of ApplicationPage.tsx.
use rs_recruitment.Base.{
  inl, inr, ℕ, zero, suc, ◌+◌, ◌-◌, ◌≤◌, ◌<◌, ◌==◌, true, ◌≡◌, ◌↔◌, ==_iff, refl, arith, Bool-cases,
}
use rs_recruitment.Validation.{TFunction, ParseUrl}
use rs_recruitment.Wizard.{Wizard, apply, validate_step}
use rs_recruitment.Wizard.Steps.{handle_next, jump_forward, jump_to}

-- 1 ≤ step ≤ maxStep ≤ 3.
pub record IsOrdered (w : Wizard) : Type 0 where
  pub first : 1 ≤ w.step
  pub reached : w.step ≤ w.max_step
  pub last : w.max_step ≤ 3

module _ (parse : ParseUrl) (t : TFunction) where
  pub handle_next-IsOrdered : (w : Wizard) → IsOrdered w → IsOrdered (handle_next parse t w)
  unfolding handle_next apply
  handle_next-IsOrdered w v = ground arith

  jump_forward-IsOrdered :
      (left s target : ℕ) (w w' : Wizard)
      → 1 ≤ s
      → s + left ≡ target
      → target ≤ w'.max_step
      → w'.max_step ≤ 3
      → IsOrdered (jump_forward parse t left s target w w')
  unfolding jump_forward apply
  jump_forward-IsOrdered zero s target w w' a b c d = ground arith
  jump_forward-IsOrdered (suc left) s target w w' a b c d =
      elim (Bool-cases (validate_step parse t s w).is_ok) [
        | inl e ↦ rw e (
            jump_forward-IsOrdered left (suc s) target w (apply (validate_step parse t s w) w')
              (omega arith) (omega arith) c d)
        | inr e ↦ rw e (record { first = a; reached = omega arith; last = d })
      ]

  pub jump_to-IsOrdered :
      (target : ℕ) (w : Wizard) → 1 ≤ target → IsOrdered w → IsOrdered (jump_to parse t target w)
  unfolding jump_to
  jump_to-IsOrdered target w a v =
      ground (arith, jump_forward-IsOrdered (target - w.step) w.step target w w)

  jump_forward_sound :
      (left s target : ℕ) (w w' : Wizard)
      → s + left ≡ target
      → (jump_forward parse t left s target w w').step ≡ target
      → (k : ℕ) → s ≤ k
      → k < target
      → (validate_step parse t k w).is_ok ≡ true
  unfolding jump_forward
  jump_forward_sound zero s target w w' b h k le lt = absurd (omega arith)
  jump_forward_sound (suc left) s target w w' b h k le lt =
      elim (Bool-cases (validate_step parse t s w).is_ok) [
        | inl e ↦ elim (Bool-cases (k == s)) [
          | inl here ↦ rw ((==_iff k s).0 here) e
          | inr later ↦
              jump_forward_sound left (suc s) target w (apply (validate_step parse t s w) w')
                (omega arith) (ground arith) k (ground arith) lt
        ]
        | inr e ↦ let stays : s ≡ target = ground arith in absurd (omega arith)
      ]

  jump_forward_complete :
      (left s target : ℕ) (w w' : Wizard)
      → s + left ≡ target
      → ((k : ℕ) → s ≤ k → k < target → (validate_step parse t k w).is_ok ≡ true)
      → (jump_forward parse t left s target w w').step ≡ target
  unfolding jump_forward
  jump_forward_complete zero s target w w' b h = refl
  jump_forward_complete (suc left) s target w w' b h =
      let ok = h s (omega arith) (omega arith) in
      let there =
        jump_forward_complete left (suc s) target w (apply (validate_step parse t s w) w')
          (omega arith) (λ k le lt. h k (omega arith) lt) in
      ground arith

  -- A jump to a later step that was reached before arrives exactly if every step from the present
  -- one up to the target is valid.
  jump_to_iff :
      (target : ℕ) (w : Wizard)
      → w.step < target
      → target ≤ w.max_step
      → ((jump_to parse t target w).step ≡ target)
        ↔ ((k : ℕ) → w.step ≤ k → k < target → (validate_step parse t k w).is_ok ≡ true)
  unfolding jump_to
  jump_to_iff target w lt le = (
    λ h k. jump_forward_sound (target - w.step) w.step target w w (omega arith) (ground arith) k,
    λ h.
        let there = jump_forward_complete (target - w.step) w.step target w w (omega arith) h in
        ground arith,
  )
