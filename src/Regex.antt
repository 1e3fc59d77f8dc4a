-- ===== src/Regex.antt =====
-- Regular expressions over UTF-16 code units, anchored at both ends (`/^…$/`), and a matcher by
-- derivatives. The validators of frontend/src/utils are built on them.
pub mod Language
use rs_recruitment.Base.{
  ℕ, suc, zero, Bool, true, false, ◌&&◌, ◌||◌, ◌==◌, List, [], ◌∷◌, Text, if◌then◌else◌,
}

pub data Regex : Type 0 where
  nothing epsilon : Regex
  -- A character class.
  cls : (ℕ → Bool) → Regex
  seq alt : Regex → Regex → Regex
  star : Regex → Regex

abbrev pub chr : ℕ → Regex
chr c = cls (λ d. d == c)

-- `r+` and `r{n}`.
abbrev pub plus : Regex → Regex
plus r = seq r (star r)

abbrev pub repeat : ℕ → Regex → Regex
repeat zero r = epsilon
repeat (suc n) r = seq r (repeat n r)

unfoldable pub nullable : Regex → Bool
nullable nothing = false
nullable epsilon = true
nullable (cls p) = false
nullable (seq r q) = nullable r && nullable q
nullable (alt r q) = nullable r || nullable q
nullable (star r) = true

unfoldable pub deriv : ℕ → Regex → Regex
unfolding nullable
deriv c nothing = nothing
deriv c epsilon = nothing
deriv c (cls p) = if p c then epsilon else nothing
deriv c (seq r q) =
    let first = seq (deriv c r) q in
    let second = deriv c q in if nullable r then alt first second else first
deriv c (alt r q) = alt (deriv c r) (deriv c q)
deriv c (star r) = seq (deriv c r) (star r)

-- `RegExp.prototype.test` of `/^r$/`.
unfoldable pub matches : Regex → Text → Bool
unfolding deriv nullable
matches r [] = nullable r
matches r (c ∷ s) = matches (deriv c r) s
