-- ===== src/Lazy/Laws.antt =====
-- The reloads of lazyWithRetry.ts come to an end.
use rs_recruitment.Base.{
  if_case, ℕ, zero, suc, ◌≤◌, ◌≡◌, ◌∙◌, refl, ◌⊎◌, inl, inr, Bool, true, false, not, ◌&&◌, arith,
  Bool-cases, if◌then◌else◌,
}
use rs_recruitment.Lazy.{
  Attempt, loaded, throws, Answer, Visit, load, visit, is_reloading, is_chunk_load_error,
}

-- With the flag set nothing reloads.
load-flag : (a : Attempt) → is_reloading (load a true).0 ≡ false
unfolding load
load-flag loaded = refl
load-flag (throws message) =
    if_case (λ (r : Answer × Bool). is_reloading r.0 ≡ false)
      (is_chunk_load_error message && not true) _ _ (λ h. absurd (ground arith)) (λ h. refl)

-- A reload sets it.
load-sets :
    (a : Attempt) (flag : Bool) → (is_reloading (load a flag).0 ≡ false) ⊎ ((load a flag).1 ≡ true)
unfolding load
load-sets loaded flag = inl refl
load-sets (throws message) flag =
    if_case (λ (r : Answer × Bool). (is_reloading r.0 ≡ false) ⊎ (r.1 ≡ true))
      (is_chunk_load_error message && not flag) _ _ (λ h. inr refl) (λ h. inl refl)

-- A visit that is over after its first load.
visit-once :
    (fuel : ℕ) (attempts : ℕ → Attempt) (n : ℕ) (flag : Bool)
    → is_reloading (load (attempts n) flag).0 ≡ false
    → visit fuel attempts n flag ≡ record {
      answer = (load (attempts n) flag).0;
      flag = (load (attempts n) flag).1;
      reloads = 0;
    }
unfolding visit
visit-once zero attempts n flag h = refl
visit-once (suc fuel) attempts n flag h = rw h refl

-- The load after a reload is the last.
after_reload :
    (attempts : ℕ → Attempt) (n : ℕ) (flag : Bool)
    → (load (attempts n) flag).1 ≡ true
    → is_reloading (load (attempts (suc n)) (load (attempts n) flag).1).0 ≡ false
after_reload attempts n flag e = rw e (load-flag (attempts (suc n)))

-- What two loads make of a visit.
abbrev pub two_loads : (ℕ → Attempt) → ℕ → Bool → Visit
two_loads attempts n flag =
    let first = load (attempts n) flag in
    let second = load (attempts (suc n)) first.1 in
    if is_reloading first.0
    then record { answer = second.0; flag = second.1; reloads = 1 }
    else record { answer = first.0; flag = first.1; reloads = 0 }

visit-again :
    (fuel : ℕ) (attempts : ℕ → Attempt) (n : ℕ) (flag : Bool)
    → is_reloading (load (attempts n) flag).0 ≡ true
    → visit (suc fuel) attempts n flag ≡ (
        let rest = visit fuel attempts (suc n) (load (attempts n) flag).1 in
        record rest { reloads = suc rest.reloads })
unfolding visit
visit-again fuel attempts n flag h = rw h refl

visit-two_loads :
    (fuel : ℕ) (attempts : ℕ → Attempt) (n : ℕ) (flag : Bool)
    → visit (suc fuel) attempts n flag ≡ two_loads attempts n flag
visit-two_loads fuel attempts n flag = elim (Bool-cases (is_reloading (load (attempts n) flag).0)) [
  | inr h ↦ visit-once (suc fuel) attempts n flag h ∙ rw h refl
  | inl h ↦
      let e : (load (attempts n) flag).1 ≡ true = set h (load-sets (attempts n) flag) in
      visit-again fuel attempts n flag h
      ∙ rw
          (visit-once fuel attempts (suc n) (load (attempts n) flag).1
            (after_reload attempts n flag e))
          (rw h refl)
]
  where
    set :
        is_reloading (load (attempts n) flag).0 ≡ true
        → (is_reloading (load (attempts n) flag).0 ≡ false) ⊎ ((load (attempts n) flag).1 ≡ true)
        → (load (attempts n) flag).1 ≡ true
    set h (inl no_reload) = cc
    set h (inr e) = e

-- Whatever the imports do and whatever the flag is, a visit that may reload once, or more often,
-- ends with the module or an error after one reload at most, and with the same answer: the first
-- load's, or after a reload the second's.
pub visit-ends :
    (fuel : ℕ) (attempts : ℕ → Attempt) (flag : Bool)
    → (is_reloading (visit (suc fuel) attempts 0 flag).answer ≡ false)
      × ((visit (suc fuel) attempts 0 flag).reloads ≤ 1)
      × (visit (suc fuel) attempts 0 flag ≡ two_loads attempts 0 flag)
visit-ends fuel attempts flag =
    let same = visit-two_loads fuel attempts 0 flag in
    let (ends, few) =
      if_case (λ (v : Visit). (is_reloading v.answer ≡ false) × (v.reloads ≤ 1))
        (is_reloading (load (attempts 0) flag).0) _ _ (λ h. (last h, omega arith))
        (λ h. (h, omega arith)) in
    (rw same ends, rw same few, same)
  where
    last :
        is_reloading (load (attempts 0) flag).0 ≡ true
        → is_reloading (load (attempts 1) (load (attempts 0) flag).1).0 ≡ false
    last h = elim (load-sets (attempts 0) flag) [
      | inl no_reload ↦ cc
      | inr e ↦ after_reload attempts 0 flag e
    ]
