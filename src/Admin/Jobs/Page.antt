-- ===== src/Admin/Jobs/Page.antt =====
-- The jobs that AdminJobsPage.tsx approves, rejects and deletes, over the list of useInfiniteList. A
-- request under way keeps the job that its handler has closed over; `toasts` are the notices shown,
-- the last one first.
use rs_recruitment.Base.{
  ℕ, String, Bool, true, false, ◌==◌, Option, none, some, List, ◌∷◌, get_elem?, if◌then◌else◌,
}
use rs_recruitment.Feed.{Hook, delete_at}
unfoldable use rs_recruitment.Feed.{update_item, remove_item, step}
use rs_recruitment.Feed.{Event as ListEvent}
use rs_recruitment.Admin.Jobs.{AdminJob, closed}

pub record JobsPage (C X F : Type 0) : Type 0 where
  pub list : Hook AdminJob C X F
  pub detail : Option AdminJob
  pub job_in_url : Option ℕ
  pub delete_pending : Option AdminJob
  pub reject_pending : Option AdminJob
  pub pending_mutation : Bool
  pub approving : List ℕ
  pub rejecting : Option AdminJob
  pub deleting : Option AdminJob
  pub toasts : List String

pub data JobsEvent (C X F : Type 0) : Type 0 where
  list_event : ListEvent AdminJob C X F → JobsEvent C X F
  approve : AdminJob → JobsEvent C X F
  approved : ℕ → AdminJob → JobsEvent C X F
  approve_failed : ℕ → JobsEvent C X F
  ask_reject : Option AdminJob → JobsEvent C X F
  confirm_reject : JobsEvent C X F
  rejected : JobsEvent C X F
  reject_failed : JobsEvent C X F
  ask_delete : Option AdminJob → JobsEvent C X F
  confirm_delete : JobsEvent C X F
  deleted : JobsEvent C X F
  delete_failed : JobsEvent C X F
  open_job : AdminJob → JobsEvent C X F
  close_job : JobsEvent C X F

abbrev pub has_id : ℕ → AdminJob → Bool
has_id id j = j.id == id

module _ {C X F : Type 0} where
  -- The i-th approval under way, of the job with the id, is answered: `updateItem` puts the job
  -- answered in place.
  unfoldable pub handle_approved : Option ℕ → ℕ → AdminJob → JobsPage C X F → JobsPage C X F
  unfolding update_item
  handle_approved none i updated w = w
  handle_approved (some id) i updated w = record w {
    list = update_item (has_id id) (λ j. updated) w.list;
    approving = delete_at i w.approving;
    toasts = "admin:jobs.approvedToast" ∷ w.toasts;
  }

  unfoldable pub handle_rejected : Option AdminJob → JobsPage C X F → JobsPage C X F
  unfolding update_item
  handle_rejected none w = w
  handle_rejected (some job) w = record w {
    list = update_item (has_id job.id) (λ j. record job { status = closed }) w.list;
    toasts = "admin:jobs.rejectedToast" ∷ w.toasts;
    reject_pending = none;
    rejecting = none;
    pending_mutation = false;
  }

  unfoldable pub close : JobsPage C X F → JobsPage C X F
  close w = record w { detail = none; job_in_url = none }

  unfoldable pub handle_deleted : Option AdminJob → JobsPage C X F → JobsPage C X F
  unfolding remove_item close
  handle_deleted none w = w
  handle_deleted (some job) w =
      let w' = close w in
      record w' {
        list = remove_item (has_id job.id) w.list;
        toasts = "admin:jobs.deletedToast" ∷ w.toasts;
        delete_pending = none;
        deleting = none;
        pending_mutation = false;
      }

  abbrev pub start_reject : Option AdminJob → JobsPage C X F → JobsPage C X F
  start_reject none w = w
  start_reject (some job) w = record w { pending_mutation = true; rejecting = some job }

  abbrev pub start_delete : Option AdminJob → JobsPage C X F → JobsPage C X F
  start_delete none w = w
  start_delete (some job) w = record w { pending_mutation = true; deleting = some job }

  -- A confirmation's button is disabled during a rejection or deletion.
  unfoldable pub handle_jobs : JobsEvent C X F → JobsPage C X F → JobsPage C X F
  unfolding handle_approved handle_rejected handle_deleted close step
  handle_jobs (list_event e) w = record w { list = step e w.list }
  handle_jobs (approve job) w = record w { approving = job.id ∷ w.approving }
  handle_jobs (approved i updated) w = handle_approved (get_elem? w.approving i) i updated w
  handle_jobs (approve_failed i) w = record w {
    approving = delete_at i w.approving;
    toasts = "admin:jobs.approveError" ∷ w.toasts;
  }
  handle_jobs (ask_reject job) w = record w { reject_pending = job }
  handle_jobs confirm_reject w =
      let w' = start_reject w.reject_pending w in if w.pending_mutation then w else w'
  handle_jobs rejected w = handle_rejected w.rejecting w
  handle_jobs reject_failed w = record w {
    toasts = "admin:jobs.rejectError" ∷ w.toasts;
    rejecting = none;
    pending_mutation = false;
  }
  handle_jobs (ask_delete job) w = record w { delete_pending = job }
  handle_jobs confirm_delete w =
      let w' = start_delete w.delete_pending w in if w.pending_mutation then w else w'
  handle_jobs deleted w = handle_deleted w.deleting w
  handle_jobs delete_failed w = record w {
    toasts = "admin:jobs.errors.deleteFailed" ∷ w.toasts;
    deleting = none;
    pending_mutation = false;
  }
  handle_jobs (open_job job) w = record w { detail = some job; job_in_url = some job.id }
  handle_jobs close_job w = close w

  -- `effectiveDetail`
  abbrev pub effective_detail : JobsPage C X F → Option AdminJob
  effective_detail w = elim w.job_in_url [ none ↦ none | some id ↦ w.detail ]
