-- ===== src/Sqlite/Lease/Step.antt =====
-- The calls on the job table as the steps of a relation, and resuming a job by a task result.
use swf_go.Prelude.{
  ℕ, ◌≡◌, ◌≢◌, refl, inl, inr, not, ◌&&◌, String, none, some, [], ◌∷◌, str_eq, str_eq_iff, ok,
  arith, Bool-cases, Option-cases,
}
use swf_go.Runtime.{JobKey}
use swf_go.Sqlite.{JobRow, JobPayload, TaskWait, Table, is_some, find_row}
use swf_go.Sqlite.Acquire.{LeaseRequest, Leased, acquire_one_lease, get_job_lease}
use swf_go.Sqlite.Lease.{
  keep_alive_lease, complete_job, RescheduleRequest, reschedule_job, cancel_job,
  CompleteTaskRequest, resume_waiting, resume_row,
}
use swf_go.Sqlite.Lease.Holder.{
  Updated, ok-inj, Updated-update, Released, no_lease-Released, is_some-none,
}

-- One successful call on the table, by any worker at any time; or a new row under a key of its own.
pub data Step : Table → Table → Type 0 where
  submits : {rows : Table} (row : JobRow) → find_row row.key rows ≡ none → Step rows (row ∷ rows)
  polls :
      {rows : Table} {out : Leased} (req : LeaseRequest) (own lease_id : String) (now : ℕ)
      → lease_id ≢ ""
      → acquire_one_lease req own lease_id now rows ≡ ok out
      → Step rows out.0
  leases :
      {rows : Table} {out : Leased} (req : LeaseRequest) (own lease_id : String) (now : ℕ)
      (key : JobKey)
      → lease_id ≢ ""
      → get_job_lease req own lease_id now key rows ≡ ok out
      → Step rows out.0
  renews :
      {rows rows' : Table} (key : JobKey) (lease_id worker_id : String)
      (duration start now expires : ℕ)
      → keep_alive_lease key lease_id worker_id duration start now rows ≡ ok (rows', expires)
      → Step rows rows'
  completes :
      {rows rows' : Table} (key : JobKey) (lease_id worker_id status detail : String) (now : ℕ)
      → complete_job key lease_id worker_id status detail now rows ≡ ok rows'
      → Step rows rows'
  reschedules :
      {rows rows' : Table} (key : JobKey) (lease_id worker_id : String) (req : RescheduleRequest)
      (now : ℕ)
      → reschedule_job key lease_id worker_id req now rows ≡ ok rows'
      → Step rows rows'
  cancels :
      {rows rows' : Table} (key : JobKey) (reason : String) (now : ℕ)
      → cancel_job key reason now rows ≡ ok rows'
      → Step rows rows'
  resumes :
      {rows rows' : Table} (key : JobKey) (req : CompleteTaskRequest) (wait : TaskWait)
      (payload : JobPayload) (capability : String) (now : ℕ)
      → resume_waiting key req wait payload capability now rows ≡ ok rows'
      → Step rows rows'

pub data Steps (rows : Table) : Table → Type 0 where
  here : Steps rows rows
  next : {mid rows' : Table} → Steps rows mid → Step mid rows' → Steps rows rows'

-- A task result resumes its job only while the job is not archived and still has the need that was
-- read; it gives the job the next need, makes it available at once and touches no other row.
pub resume_waiting_lem :
    (key : JobKey) (req : CompleteTaskRequest) (wait : TaskWait) (payload : JobPayload)
    (capability : String) (now : ℕ) (rows : Table) {rows' : Table}
    → resume_waiting key req wait payload capability now rows ≡ ok rows'
    → (row row' : JobRow) × (find_row key rows ≡ some row)
      × (row.archived_at ≡ none)
      × (row.next_need ≡ capability)
      × Updated key rows rows' row'
      × (row'.available_at ≡ now)
      × (row'.wait_for ≡ some [])
      × Released row'
unfolding resume_waiting resume_row
resume_waiting_lem key req wait payload capability now rows h =
    elim (Option-cases (find_row key rows)) [
      | inl e ↦ absurd (ground arith)
      | inr (row, e) ↦
          elim (Bool-cases (not (is_some row.archived_at) && str_eq row.next_need capability)) [
            | inr miss ↦ absurd (ground arith)
            | inl hit ↦
                let change : JobRow → JobRow = resume_row req wait payload now in
                (
                  row,
                  change row,
                  e,
                  (is_some-none row.archived_at).0 (ground arith),
                  (str_eq_iff row.next_need capability).0 (ground arith),
                  Updated-update key change rows (λ r. refl) e
                      (ok-inj (rw hit at (rw (e, resume_waiting) at h))),
                  refl,
                  refl,
                  no_lease-Released (change row) refl,
                )
          ]
    ]
