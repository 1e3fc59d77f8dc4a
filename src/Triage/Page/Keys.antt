-- ===== src/Triage/Page/Keys.antt =====
-- The keyboard shortcuts of the triage screen.
use text.Mathlib.Text.{◌==◌ as str_eq}
use rs_recruitment.Base.{String, Bool, true, false, not, ◌&&◌, ◌||◌, ◌≡◌, ◌⊎◌, if◌then◌else◌, arith}
use rs_recruitment.Triage.Page.{Triage, approved, rejected, decide, undo, go_next, go_prev, is_some}

-- The state after a key, and whether the page is left for the list.
abbrev pub Pressed : Type 0
Pressed = Triage × Bool

-- The letters: `e.key.toLowerCase()` is compared with a lower-case letter, so each has two keys.
unfoldable pub on_letter : String → Triage → Pressed
on_letter key s =
    if str_eq key "a" || str_eq key "A"
    then (decide approved s, false)
    else if str_eq key "r" || str_eq key "R"
    then (decide rejected s, false)
    else if (str_eq key "z" || str_eq key "Z") && is_some s.pending_undo
    then (undo s, false)
    else if str_eq key "n" || str_eq key "N" || str_eq key "ArrowRight"
    then (go_next s, false)
    else if str_eq key "p" || str_eq key "P" || str_eq key "ArrowLeft"
    then (go_prev s, false)
    else (s, false)

-- `onKey`, where `is_typing` says whether the key went to a text field (which Escape then leaves).
unfoldable pub on_key : Bool → String → Triage → Pressed
on_key is_typing key s =
    if is_typing
    then (s, false)
    else if str_eq key "Escape"
    then (if s.show_resume then (record s { show_resume = false }, false) else (s, true))
    else if s.show_resume && not (str_eq key "?")
    then (s, false)
    else if str_eq key "?"
    then (record s { show_help = not s.show_help }, false)
    else on_letter key s

-- While the reviewer types or the resume is open, no key decides, undoes, moves or leaves: the
-- index, the decisions, the slide and the saves under way stay, and so does the page.
pub on_key-blocked :
    (is_typing : Bool) (key : String) (s : Triage)
    → (is_typing ≡ true) ⊎ (s.show_resume ≡ true)
    → let (s', left) = on_key is_typing key s in
      (s'.index ≡ s.index)
      × (s'.decisions ≡ s.decisions)
      × (s'.pending_undo ≡ s.pending_undo)
      × (s'.flying ≡ s.flying)
      × (s'.saves ≡ s.saves)
      × (left ≡ false)
unfolding on_key
on_key-blocked is_typing key s h = ground arith
