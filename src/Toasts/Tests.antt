-- ===== src/Toasts/Tests.antt =====
-- Two notices, one of which stays.
use rs_recruitment.Base.{◌≡◌, none, some, List, [], ◌∷◌, All}
use rs_recruitment.Toasts.{Event, call_success, call_error, start, run, fire_all, show, handle}
use rs_recruitment.Toasts.Laws.{run-fire_all}

abbrev calls : List Event
calls = call_success "saved" none ∷ call_error "failed" (some 0) ∷ []

run-fire_all_example :
    ((fire_all (1 ∷ []) (run calls start)).timers ≡ [])
    × All (λ t. t.duration ≡ 0) (fire_all (1 ∷ []) (run calls start)).toasts
unfolding run handle show
run-fire_all_example = run-fire_all calls (1 ∷ []) (λ i h. h)
