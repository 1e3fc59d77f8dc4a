-- ===== src/Lazy.antt =====
-- Loading a page's chunk, frontend/src/utils/lazyWithRetry.ts. A reload starts the page anew and with it
-- the loading; `attempts` are the outcomes of the imports, the first one first.
pub mod Laws
mod Tests
use rs_recruitment.Base.{
  ℕ, zero, suc, String, Bool, true, false, not, ◌&&◌, ◌||◌, ◌==◌, List, [], ◌∷◌, Text, codes, map,
  if◌then◌else◌,
}
unfoldable use rs_recruitment.Base.{is_digit, is_upper}
unfoldable use rs_recruitment.Regex.{matches}
use rs_recruitment.Regex.{Regex, epsilon, cls, chr, seq, alt, plus, star}
unfoldable use rs_recruitment.Wizard.Events.{to_lower}

-- A literal under the flag `i`: the letters of the patterns are ASCII, which without the flag `u`
-- only ASCII letters match.
abbrev pub literal : Text → Regex
literal [] = epsilon
literal (c ∷ s) = seq (cls (λ d. to_lower d == to_lower c)) (literal s)

-- `/r/i.test(s)`
abbrev pub contains : Regex → Regex
contains r = let any_text = star (cls (λ c. true)) in seq any_text (seq r any_text)

abbrev pub chunk_error_re : Regex
chunk_error_re = alt (literal (codes "dynamically imported module")) (
    alt (literal (codes "Failed to fetch dynamically imported")) (
      alt
        (seq (literal (codes "Loading chunk "))
          (seq (plus (cls is_digit)) (literal (codes " failed"))))
        (literal (codes "Importing a module script failed"))))

unfoldable pub is_chunk_load_error : Text → Bool
is_chunk_load_error message = matches (contains chunk_error_re) message

-- An import: the module, or an error with its message.
pub data Attempt : Type 0 where
  loaded : Attempt
  throws : Text → Attempt

-- How the promise ends: the module, the error again, or, when the page reloads, not at all.
pub data Answer : Type 0 where
  module_of : Answer
  rethrown : Text → Answer
  reloading : Answer

-- One call of the loader, with the flag of the session's storage before and after.
unfoldable pub load : Attempt → Bool → Answer × Bool
unfolding is_chunk_load_error
load loaded flag = (module_of, false)
load (throws message) flag =
    if is_chunk_load_error message && not flag then (reloading, true) else (rethrown message, flag)

-- What a visitor ends up with: the last answer, the flag, and the number of reloads.
pub record Visit : Type 0 where
  pub answer : Answer
  pub flag : Bool
  pub reloads : ℕ

abbrev pub is_reloading : Answer → Bool
is_reloading module_of = false
is_reloading (rethrown message) = false
is_reloading reloading = true

-- The page is loaded until it no longer reloads, at most `fuel` times after the first.
unfoldable pub visit : ℕ → (ℕ → Attempt) → ℕ → Bool → Visit
unfolding load
visit zero attempts n flag =
    let r = load (attempts n) flag in record { answer = r.0; flag = r.1; reloads = 0 }
visit (suc fuel) attempts n flag =
    let r = load (attempts n) flag in
    let rest = visit fuel attempts (suc n) r.1 in
    if is_reloading r.0
    then record rest { reloads = suc rest.reloads }
    else record { answer = r.0; flag = r.1; reloads = 0 }
