-- ===== src/Toasts/Laws.antt =====
-- Which toasts have a timer, and what is left when the timers have called back.
use rs_recruitment.Base.{
  ==_iff, inl, inr, ℕ, suc, String, ◌<◌, ◌≡◌, refl, sym, ◌∙◌, ap, Bool, true, false, not, ◌&&◌,
  ◌==◌, ltb, Option, List, [], ◌∷◌, ◌++◌, keep, All, All-append, arith, if_case, Bool-cases, none,
  some, if◌then◌else◌,
}
use rs_recruitment.Toasts.Sets.{
  mem, without, mem-without, mem-append, empty_of_mem, All-keep, All-map,
}
use rs_recruitment.Toasts.{
  Toast, ToastVariant, Provider, Event, start, show, dismiss, handle, run, fire_all, call_success,
  call_error, call_info, close, fire, given,
}

-- The ids grow along the list, so no two are equal.
pub IsAscending : List Toast → Type 0
IsAscending [] = Unit
IsAscending (t ∷ ts) = All (λ u. t.id < u.id) ts × IsAscending ts

IsAscending-keep : (p : Toast → Bool) (ts : List Toast) → IsAscending ts → IsAscending (keep p ts)
unfolding IsAscending
IsAscending-keep p [] h = tt
IsAscending-keep p (t ∷ ts) h = picked (p t) (IsAscending-keep p ts h.1)
  where
    picked :
        (b : Bool)
        → IsAscending (keep p ts)
        → IsAscending (elim b [ true ↦ t ∷ keep p ts | false ↦ keep p ts ])
    picked true rest = (All-keep p (λ u less e. less) ts h.0, rest)
    picked false rest = rest

IsAscending-snoc :
    (ts : List Toast) (t : Toast)
    → All (λ u. u.id < t.id) ts
    → IsAscending ts
    → IsAscending (ts ++ t ∷ [])
unfolding IsAscending
IsAscending-snoc [] t h a = (tt, tt)
IsAscending-snoc (u ∷ ts) t h a =
    (All-append (λ v. u.id < v.id) ts (t ∷ []) a.0 (h.0, tt), IsAscending-snoc ts t h.1 a.1)

-- A toast has a timer exactly if its duration is not 0, and nothing else has one.
pub record IsTimed (s : Provider) : Type 0 where
  pub ascending : IsAscending s.toasts
  pub timed : All (λ t. (t.id < s.next_id) × (mem t.id s.timers ≡ ltb 0 t.duration)) s.toasts
  pub known : All (λ i. i < s.next_id) s.timers

mem-bound : (n : ℕ) (is : List ℕ) → All (λ i. i < n) is → mem n is ≡ false
mem-bound n [] h = refl
mem-bound n (i ∷ is) h = let rest = mem-bound n is h.1 in let less = h.0 in ground arith

dismiss-timers :
    (id i : ℕ) (s : Provider) → mem i (dismiss id s).timers ≡ (mem i s.timers && not (i == id))
unfolding dismiss
dismiss-timers id i s =
    if_case (λ xs. mem i xs ≡ (mem i s.timers && not (i == id))) (mem id s.timers)
      (without id s.timers) s.timers (λ h. mem-without i id s.timers)
      (λ h. elim (Bool-cases (i == id)) [
        | inl e ↦
            let same : i ≡ id = (==_iff i id).0 e in
            let gone : mem i s.timers ≡ false = rw same h in ground arith
        | inr e ↦ ground arith
      ])

dismiss-IsTimed : (id : ℕ) (s : Provider) → IsTimed s → IsTimed (dismiss id s)
unfolding dismiss
dismiss-IsTimed id s v = record {
  ascending = IsAscending-keep (λ t. not (t.id == id)) s.toasts v.ascending;
  timed = All-keep (λ t. not (t.id == id)) stays s.toasts v.timed;
  known =
      if_case (All (λ i. i < s.next_id)) (mem id s.timers) (without id s.timers) s.timers
        (λ h. All-keep (λ j. not (j == id)) (λ i less e. less) s.timers v.known) (λ h. v.known);
}
  where
    stays :
        (t : Toast)
        → (t.id < s.next_id) × (mem t.id s.timers ≡ ltb 0 t.duration)
        → not (t.id == id) ≡ true
        → (t.id < s.next_id) × (mem t.id (dismiss id s).timers ≡ ltb 0 t.duration)
    stays t h e = (h.0, (let left = dismiss-timers id t.id s in let old = h.1 in ground arith))

show-IsTimed :
    (message : String) (variant : ToastVariant) (duration : Option ℕ) (s : Provider)
    → IsTimed s
    → IsTimed (show message variant duration s)
unfolding show
show-IsTimed message variant duration s v = record {
  ascending = IsAscending-snoc s.toasts _ (All-map (λ t h. h.0) s.toasts v.timed) v.ascending;
  timed =
      All-append _ s.toasts (_ ∷ []) (All-map old s.toasts v.timed)
        ((omega arith, newest (ltb 0 (given duration)) refl), tt);
  known =
      if_case (All (λ i. i < suc s.next_id)) (ltb 0 (given duration)) (s.timers ++ s.next_id ∷ [])
        s.timers (λ h. All-append _ s.timers (s.next_id ∷ []) more (omega arith, tt)) (λ h. more);
}
  where
    more : All (λ i. i < suc s.next_id) s.timers
    more = All-map (λ i less. omega arith) s.timers v.known

    timers : Bool → List ℕ
    timers b = if b then s.timers ++ s.next_id ∷ [] else s.timers

    old :
        (t : Toast)
        → (t.id < s.next_id) × (mem t.id s.timers ≡ ltb 0 t.duration)
        → (t.id < suc s.next_id) × (mem t.id (timers (ltb 0 (given duration))) ≡ ltb 0 t.duration)
    old t h = (
      (let less = h.0 in omega arith),
      if_case (λ xs. mem t.id xs ≡ ltb 0 t.duration) (ltb 0 (given duration))
          (s.timers ++ s.next_id ∷ []) s.timers
          (λ e.
            mem-append t.id s.timers (s.next_id ∷ [])
            ∙ (let less = h.0 in let was = h.1 in ground arith))
          (λ e. h.1),
    )

    newest : (b : Bool) → ltb 0 (given duration) ≡ b → mem s.next_id (timers b) ≡ b
    newest true e = mem-append s.next_id s.timers (s.next_id ∷ []) ∙ ground arith
    newest false e = mem-bound s.next_id s.timers v.known

handle-IsTimed : (e : Event) (s : Provider) → IsTimed s → IsTimed (handle e s)
unfolding handle
handle-IsTimed (call_success m d) s v = show-IsTimed m _ d s v
handle-IsTimed (call_error m none) s v = show-IsTimed m _ (some 6000) s v
handle-IsTimed (call_error m (some d)) s v = show-IsTimed m _ (some d) s v
handle-IsTimed (call_info m d) s v = show-IsTimed m _ d s v
handle-IsTimed (close id) s v = dismiss-IsTimed id s v
handle-IsTimed (fire id) s v =
    if_case IsTimed (mem id s.timers) _ s (λ h. dismiss-IsTimed id s v) (λ h. v)

run_from : (es : List Event) (s : Provider) → IsTimed s → IsTimed (run es s)
unfolding run
run_from [] s v = v
run_from (e ∷ es) s v = run_from es (handle e s) (handle-IsTimed e s v)

-- In every run of calls, closings and timers the toasts' ids grow along the list, so that no two
-- are equal, and a toast has a timer under way exactly if its duration is not 0.
pub run-IsTimed : (es : List Event) → IsTimed (run es start)
unfolding IsAscending
run-IsTimed es = run_from es start (record { ascending = tt; timed = tt; known = tt })

-- Once a timer has called back, it is not under way, and the others still are.
fire-timers :
    (id i : ℕ) (s : Provider)
    → mem i (handle (fire id) s).timers ≡ (mem i s.timers && not (i == id))
unfolding handle
fire-timers id i s =
    if_case (λ s'. mem i s'.timers ≡ (mem i s.timers && not (i == id))) (mem id s.timers)
      (dismiss id s) s (λ h. dismiss-timers id i s)
      (λ h. elim (Bool-cases (i == id)) [
        | inl e ↦
            let same : i ≡ id = (==_iff i id).0 e in
            let gone : mem i s.timers ≡ false = rw same h in ground arith
        | inr e ↦ ground arith
      ])

fire_all-timers :
    (ids : List ℕ) (i : ℕ) (s : Provider)
    → mem i (fire_all ids s).timers ≡ (mem i s.timers && not (mem i ids))
unfolding fire_all
fire_all-timers [] i s = ground arith
fire_all-timers (id ∷ ids) i s =
    let rest = fire_all-timers ids i (handle (fire id) s) in
    let first = fire-timers id i s in ground arith

fire_all-IsTimed : (ids : List ℕ) (s : Provider) → IsTimed s → IsTimed (fire_all ids s)
unfolding fire_all
fire_all-IsTimed [] s v = v
fire_all-IsTimed (id ∷ ids) s v =
    fire_all-IsTimed ids (handle (fire id) s) (handle-IsTimed (fire id) s v)

-- From every state that a run reaches, when all timers under way have called back, in whatever
-- order, no timer is left and only toasts of duration 0 stand there.
pub run-fire_all :
    (es : List Event) (ids : List ℕ)
    → ((i : ℕ) → mem i (run es start).timers ≡ true → mem i ids ≡ true)
    → ((fire_all ids (run es start)).timers ≡ [])
      × All (λ t. t.duration ≡ 0) (fire_all ids (run es start)).toasts
run-fire_all es ids all =
    let s = run es start in
    let v = fire_all-IsTimed ids s (run-IsTimed es) in
    let none_left : (fire_all ids s).timers ≡ [] =
      empty_of_mem (fire_all ids s).timers
        (λ i. let left = fire_all-timers ids i s in let here = all i in ground arith) in
    (
      none_left,
      All-map
          (λ t h.
            let e : mem t.id [] ≡ ltb 0 t.duration = ap (mem t.id) (sym none_left) ∙ h.1 in
            ground arith)
          (fire_all ids s).toasts v.timed,
    )
