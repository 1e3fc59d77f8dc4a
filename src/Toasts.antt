-- ===== src/Toasts.antt =====
-- The notices at the edge of the screen: ToastProvider of frontend/src/contexts/ToastContext.tsx. A timer
-- under way is the id of its toast, in `timers`; a duration is a number of milliseconds.
mod Sets
pub mod Laws
mod Tests
use rs_recruitment.Base.{
  ℕ, suc, String, Bool, true, false, not, ◌==◌, ltb, Option, none, some, List, [], ◌∷◌, ◌++◌, keep,
  any, if◌then◌else◌,
}
use rs_recruitment.Toasts.Sets.{mem, without}

pub data ToastVariant : Type 0 where
  success : ToastVariant
  error : ToastVariant
  info : ToastVariant

pub record Toast : Type 0 where
  pub id : ℕ
  pub message : String
  pub variant : ToastVariant
  pub duration : ℕ

pub record Provider : Type 0 where
  pub toasts : List Toast
  pub next_id : ℕ
  pub timers : List ℕ

abbrev pub start : Provider
start = record { toasts = []; next_id = 1; timers = [] }

abbrev pub default_duration_ms : ℕ
default_duration_ms = 4000

-- A toast's timer is cleared and forgotten with it.
unfoldable pub dismiss : ℕ → Provider → Provider
dismiss id s = record s {
  toasts = keep (λ t. not (t.id == id)) s.toasts;
  timers = if mem id s.timers then without id s.timers else s.timers;
}

abbrev pub given : Option ℕ → ℕ
given none = default_duration_ms
given (some d) = d

-- `show`, where no duration is the default one.
unfoldable pub show : String → ToastVariant → Option ℕ → Provider → Provider
show message variant duration s =
    let ms = given duration in
    record {
      toasts =
          s.toasts
          ++ record { id = s.next_id; message = message; variant = variant; duration = ms } ∷ [];
      next_id = suc s.next_id;
      timers = if ltb 0 ms then s.timers ++ s.next_id ∷ [] else s.timers;
    }

pub data Event : Type 0 where
  call_success : String → Option ℕ → Event
  call_error : String → Option ℕ → Event
  call_info : String → Option ℕ → Event
  close : ℕ → Event
  fire : ℕ → Event

-- The calls of the context's users, and a timer's callback, which is called only while the timer is
-- under way.
unfoldable pub handle : Event → Provider → Provider
unfolding show dismiss
handle (call_success message duration) s = show message success duration s
handle (call_error message none) s = show message error (some 6000) s
handle (call_error message (some d)) s = show message error (some d) s
handle (call_info message duration) s = show message info duration s
handle (close id) s = dismiss id s
handle (fire id) s = let s' = dismiss id s in if mem id s.timers then s' else s

unfoldable pub run : List Event → Provider → Provider
unfolding handle
run [] s = s
run (e ∷ es) s = run es (handle e s)

-- All the given timers call back, one after another.
unfoldable pub fire_all : List ℕ → Provider → Provider
unfolding handle
fire_all [] s = s
fire_all (id ∷ ids) s = fire_all ids (handle (fire id) s)
