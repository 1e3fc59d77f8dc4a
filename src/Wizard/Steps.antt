-- ===== src/Wizard/Steps.antt =====
-- Moving between the steps: handleNext, handleBack and jumpTo of ApplicationPage.tsx.
pub mod Laws
use rs_recruitment.Base.{
  String, ℕ, zero, suc, ◌+◌, ◌-◌, min, ltb, ◌==◌, Bool, true, false, not, ◌&&◌, ◌||◌, Option, none,
  some, List, [], ◌∷◌, if◌then◌else◌,
}
use rs_recruitment.Validation.{TFunction, ParseUrl}
use rs_recruitment.Wizard.{Wizard, Check, apply, validate_step, total_steps}

module _ (parse : ParseUrl) (t : TFunction) where
  unfoldable pub handle_next : Wizard → Wizard
  handle_next w =
      let c = validate_step parse t w.step w in
      let w' = apply c w in
      let next = min (w.step + 1) total_steps in
      if not c.is_ok
      then w'
      else record w' { step = next; max_step = if ltb w.max_step next then next else w.max_step }

  -- The loop of a forward jump: `left` steps from `s` on, checked in the state `w` of the last
  -- render; the first that fails becomes the step.
  unfoldable pub jump_forward : ℕ → ℕ → ℕ → Wizard → Wizard → Wizard
  jump_forward zero s target w w' = record w' { step = target }
  jump_forward (suc left) s target w w' =
      let c = validate_step parse t s w in
      let rest = jump_forward left (suc s) target w (apply c w') in
      if not c.is_ok then record (apply c w') { step = s } else rest

  unfoldable pub jump_to : ℕ → Wizard → Wizard
  unfolding jump_forward
  jump_to target w =
      if target == w.step || ltb w.max_step target
      then w
      else if ltb target w.step
      then record w { step = target }
      else jump_forward (target - w.step) w.step target w w

unfoldable pub handle_back : Wizard → Wizard
handle_back w = if ltb 1 w.step then record w { step = w.step - 1 } else w
