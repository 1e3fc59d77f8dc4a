-- ===== src/Admin/Jobs/Sync.antt =====
-- The list of AdminJobsPage.tsx against the server's statuses, while no further page is loaded. The
-- server answers an approval with the job approved, and a rejection sets the status to CLOSED.
use rs_recruitment.Base.{
  if_case, ℕ, ◌≡◌, refl, Bool, true, false, not, ◌==◌, ==_iff, Option, none, some, List, [], ◌∷◌,
  map, keep, get_elem?, All, if◌then◌else◌,
}
use rs_recruitment.Feed.{update_item, remove_item}
use rs_recruitment.Admin.Jobs.{AdminJob, JobStatus, closed}
use rs_recruitment.Admin.Jobs.Page.{
  JobsPage, JobsEvent, list_event, approved, confirm_reject, rejected, confirm_delete, deleted,
  has_id, handle_approved, handle_rejected, handle_deleted, close, start_reject, start_delete,
  handle_jobs,
}

-- The status of each job, `none` where there is no such job.
abbrev pub Server : Type 0
Server = ℕ → Option JobStatus

abbrev pub set_status : ℕ → Option JobStatus → Server → Server
set_status id status server i = if i == id then status else server i

abbrev pub IsShown : Server → AdminJob → Type 0
IsShown server j = server j.id ≡ some j.status

-- The list shows each job with its status on the server.
abbrev pub IsInSync : Server → List AdminJob → Type 0
IsInSync server jobs = All (IsShown server) jobs

update-IsInSync :
    (server : Server) (id : ℕ) (new : AdminJob) (jobs : List AdminJob)
    → new.id ≡ id
    → IsInSync server jobs
    → IsInSync
        (set_status id (some new.status) server)
        (map (λ j. if has_id id j then new else j) jobs)
update-IsInSync server id new [] same v = tt
update-IsInSync server id new (j ∷ jobs) same v = (
  if_case (IsShown (set_status id (some new.status) server)) (j.id == id) new j
      (λ e. let here = (==_iff new.id id).1 same in rw here refl) (λ e. rw e v.0),
  update-IsInSync server id new jobs same v.1,
)

remove-IsInSync :
    (server : Server) (id : ℕ) (jobs : List AdminJob)
    → IsInSync server jobs
    → IsInSync (set_status id none server) (keep (λ j. not (has_id id j)) jobs)
remove-IsInSync server id [] v = tt
remove-IsInSync server id (j ∷ jobs) v =
    picked (j.id == id) refl (remove-IsInSync server id jobs v.1)
  where
    picked :
        (b : Bool)
        → (j.id == id) ≡ b
        → IsInSync (set_status id none server) (keep (λ j. not (has_id id j)) jobs)
        → IsInSync (set_status id none server) (elim (not b) [
          | true ↦ j ∷ keep (λ j. not (has_id id j)) jobs
          | false ↦ keep (λ j. not (has_id id j)) jobs
        ])
    picked true e rest = rest
    picked false e rest = (rw e v.0, rest)

-- What the server's statuses are once it has answered.
abbrev pub approved_on : Option ℕ → AdminJob → Server → Server
approved_on none updated server = server
approved_on (some id) updated server = set_status id (some updated.status) server

abbrev pub set_on : Option AdminJob → Option JobStatus → Server → Server
set_on none status server = server
set_on (some job) status server = set_status job.id status server

module _ {C X F : Type 0} where
  abbrev pub server_after : JobsEvent C X F → JobsPage C X F → Server → Server
  server_after (approved i updated) w server = approved_on (get_elem? w.approving i) updated server
  server_after rejected w server = set_on w.rejecting (some closed) server
  server_after deleted w server = set_on w.deleting none server
  server_after e w server = server

  -- An approval's answer is the job that was approved, and no page of the list is loaded.
  abbrev pub IsFair : JobsEvent C X F → JobsPage C X F → Type 0
  IsFair (approved i updated) w = get_elem? w.approving i ≡ some updated.id
  IsFair (list_event e) w = ⊥
  IsFair e w = Unit

  abbrev pub AllFair : List (JobsEvent C X F) → JobsPage C X F → Type 0
  AllFair [] w = Unit
  AllFair (e ∷ es) w = IsFair e w × AllFair es (handle_jobs e w)

  abbrev pub run_jobs : List (JobsEvent C X F) → JobsPage C X F → JobsPage C X F
  run_jobs [] w = w
  run_jobs (e ∷ es) w = run_jobs es (handle_jobs e w)

  abbrev pub run_server : List (JobsEvent C X F) → JobsPage C X F → Server → Server
  run_server [] w server = server
  run_server (e ∷ es) w server = run_server es (handle_jobs e w) (server_after e w server)

  start_reject-list :
      (job : Option AdminJob) (w : JobsPage C X F) → (start_reject job w).list ≡ w.list
  start_reject-list none w = refl
  start_reject-list (some job) w = refl

  start_delete-list :
      (job : Option AdminJob) (w : JobsPage C X F) → (start_delete job w).list ≡ w.list
  start_delete-list none w = refl
  start_delete-list (some job) w = refl

  approved-IsInSync :
      (o : Option ℕ) (i : ℕ) (updated : AdminJob) (w : JobsPage C X F) (server : Server)
      → o ≡ some updated.id
      → IsInSync server w.list.state.items
      → IsInSync (approved_on o updated server) (handle_approved o i updated w).list.state.items
  unfolding handle_approved update_item
  approved-IsInSync none i updated w server f v = v
  approved-IsInSync (some id) i updated w server f v =
      let same : updated.id ≡ id = cc in update-IsInSync server id updated w.list.state.items same v

  rejected-IsInSync :
      (job : Option AdminJob) (w : JobsPage C X F) (server : Server)
      → IsInSync server w.list.state.items
      → IsInSync (set_on job (some closed) server) (handle_rejected job w).list.state.items
  unfolding handle_rejected update_item
  rejected-IsInSync none w server v = v
  rejected-IsInSync (some job) w server v =
      update-IsInSync server job.id (record job { status = closed }) w.list.state.items refl v

  deleted-IsInSync :
      (job : Option AdminJob) (w : JobsPage C X F) (server : Server)
      → IsInSync server w.list.state.items
      → IsInSync (set_on job none server) (handle_deleted job w).list.state.items
  unfolding handle_deleted remove_item close
  deleted-IsInSync none w server v = v
  deleted-IsInSync (some job) w server v = remove-IsInSync server job.id w.list.state.items v

  handle_jobs-IsInSync :
      (e : JobsEvent C X F) (w : JobsPage C X F) (server : Server)
      → IsFair e w
      → IsInSync server w.list.state.items
      → IsInSync (server_after e w server) (handle_jobs e w).list.state.items
  unfolding handle_jobs close
  handle_jobs-IsInSync (list_event e) w server f v = absurd f
  handle_jobs-IsInSync (approved i updated) w server f v =
      approved-IsInSync (get_elem? w.approving i) i updated w server f v
  handle_jobs-IsInSync confirm_reject w server f v =
      if_case (λ (w' : JobsPage C X F). IsInSync server w'.list.state.items) w.pending_mutation w _
        (λ e. v) (λ e. rw (start_reject-list w.reject_pending w) v)
  handle_jobs-IsInSync confirm_delete w server f v =
      if_case (λ (w' : JobsPage C X F). IsInSync server w'.list.state.items) w.pending_mutation w _
        (λ e. v) (λ e. rw (start_delete-list w.delete_pending w) v)
  handle_jobs-IsInSync rejected w server f v = rejected-IsInSync w.rejecting w server v
  handle_jobs-IsInSync deleted w server f v = deleted-IsInSync w.deleting w server v
  handle_jobs-IsInSync e w server f v = v

  -- From a list that shows the server's statuses, whatever the administrator opens, confirms or
  -- cancels, and whichever approvals, rejections and deletions are answered or fail, in any order,
  -- the list shows the server's statuses: if each approval is answered with the job approved, each
  -- answer is what the server has last done, and no page of the list is loaded meanwhile.
  pub run_jobs-IsInSync :
      (es : List (JobsEvent C X F)) (w : JobsPage C X F) (server : Server)
      → AllFair es w
      → IsInSync server w.list.state.items
      → IsInSync (run_server es w server) (run_jobs es w).list.state.items
  run_jobs-IsInSync [] w server f v = v
  run_jobs-IsInSync (e ∷ es) w server f v =
      run_jobs-IsInSync es (handle_jobs e w) (server_after e w server) f.1
        (handle_jobs-IsInSync e w server f.0 v)
