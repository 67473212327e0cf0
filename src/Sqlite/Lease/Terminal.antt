-- ===== src/Sqlite/Lease/Terminal.antt =====
-- An archived job stays as it is, whatever calls follow.
use swf_go.Prelude.{
  ℕ, ◌≡◌, refl, sym, ap, ◌∙◌, inl, inr, String, Option, none, some, ◌∷◌, ok, arith, Bool-cases,
  Option-cases, some-inj, subst, ◌||◌, str_eq, if◌then◌else◌,
}
use swf_go.Runtime.{JobKey, key_eq, key_eq_iff, cancelled, completed}
use swf_go.Sqlite.{
  JobRow, JobPayload, TaskWait, Table, find_row, update_row, status_from_row, archived_status,
}
use swf_go.Sqlite.Rows.{Keyed, find_row-update_row, find_row-update_row_other, Keyed-update_row}
use swf_go.Sqlite.Acquire.{Leased}
use swf_go.Sqlite.Acquire.Grants.{acquire_one_lease_lem, get_job_lease_lem}
use swf_go.Sqlite.Lease.{
  complete_job, completion_status_from_request, cancel_job, cancel_row, CompleteTaskRequest,
  resume_waiting,
}
use swf_go.Sqlite.Lease.Holder.{
  Updated, keep_alive_lease_lem, complete_job_lem, reschedule_job_lem, ok-inj, Released,
  no_lease-Released,
}
use swf_go.Sqlite.Lease.Step.{
  Step, Steps, submits, polls, leases, renews, completes, reschedules, cancels, resumes, here, next,
  resume_waiting_lem,
}

-- The row of a job that was archived at t with a completion status.
pub record Archived (key : JobKey) (t : ℕ) (status need : String) (payload : Option JobPayload)
    (rows : Table) : Type 0 where
  pub row : JobRow
  pub found : find_row key rows ≡ some row
  pub archived : row.archived_at ≡ some t
  pub status_kept : row.completion_status ≡ some status
  pub need_kept : row.next_need ≡ need
  pub payload_kept : row.payload ≡ payload
  pub unleased : row.lease_id ≡ none

module _ {key : JobKey} {t : ℕ} {status need : String} {payload : Option JobPayload} where
  -- A call that updates a row which is not archived leaves this one alone.
  Archived-Updated :
      {rows rows' : Table} {row row' : JobRow} (k : JobKey)
      → Archived key t status need payload rows
      → find_row k rows ≡ some row
      → row.archived_at ≡ none
      → Updated k rows rows' row'
      → Archived key t status need payload rows'
  Archived-Updated {rows = rows} {row = row} k a f open' (_, others, _) =
      elim (Bool-cases (key_eq k key)) [
        | inl hit ↦
            let e : k ≡ key = (key_eq_iff k key).0 hit in
            let same : row ≡ a.row = some-inj (sym f ∙ ap (λ j. find_row j rows) e ∙ a.found) in
            absurd (ground arith)
        | inr miss ↦ record {
          row = a.row;
          found = others key (λ e. ground (arith, key_eq_iff k key)) ∙ a.found;
          archived = a.archived;
          status_kept = a.status_kept;
          need_kept = a.need_kept;
          payload_kept = a.payload_kept;
          unleased = a.unleased;
        }
      ]

  Archived-cancel :
      {rows : Table} (k : JobKey) (reason : String) (now : ℕ)
      → Archived key t status need payload rows
      → Archived key t status need payload (update_row k (cancel_row reason now) rows)
  unfolding cancel_row
  Archived-cancel {rows = rows} k reason now a = elim (Bool-cases (key_eq k key)) [
    | inl hit ↦
        let e : k ≡ key = (key_eq_iff k key).0 hit in
        record {
          row = cancel_row reason now a.row;
          found = rw e (find_row-update_row key (cancel_row reason now) (λ r. refl) rows a.found);
          archived = rw a.archived;
          status_kept = rw a.status_kept;
          need_kept = a.need_kept;
          payload_kept = a.payload_kept;
          unleased = refl;
        }
    | inr miss ↦ record {
      row = a.row;
      found =
          find_row-update_row_other k (cancel_row reason now) (λ r. refl) key rows
            (λ e. ground (arith, key_eq_iff k key))
          ∙ a.found;
      archived = a.archived;
      status_kept = a.status_kept;
      need_kept = a.need_kept;
      payload_kept = a.payload_kept;
      unleased = a.unleased;
    }
  ]

  Archived-submit :
      {rows : Table} (row : JobRow)
      → Archived key t status need payload rows
      → find_row row.key rows ≡ none
      → Archived key t status need payload (row ∷ rows)
  unfolding find_row
  Archived-submit {rows = rows} row a n = elim (Bool-cases (key_eq row.key key)) [
    | inl hit ↦
        let e : row.key ≡ key = (key_eq_iff row.key key).0 hit in
        let gone : find_row key rows ≡ none = ap (λ j. find_row j rows) (sym e) ∙ n in
        absurd (ground (arith, a.found))
    | inr miss ↦ record {
      row = a.row;
      found = rw miss a.found;
      archived = a.archived;
      status_kept = a.status_kept;
      need_kept = a.need_kept;
      payload_kept = a.payload_kept;
      unleased = a.unleased;
    }
  ]

  Archived-resume :
      {rows rows' : Table} (j : JobKey) (req : CompleteTaskRequest) (wait : TaskWait)
      (p : JobPayload) (capability : String) (now : ℕ)
      → Archived key t status need payload rows
      → resume_waiting j req wait p capability now rows ≡ ok rows'
      → Archived key t status need payload rows'
  Archived-resume {rows = rows} j req wait p capability now a h =
      let (row, row', f, o, _, u, _, _, _) =
        resume_waiting_lem j req wait p capability now rows h in
      Archived-Updated j a f o u

  Archived-Step :
      {rows rows' : Table}
      → Keyed rows
      → Archived key t status need payload rows
      → Step rows rows'
      → Archived key t status need payload rows'
  unfolding cancel_job
  Archived-Step k a (submits row n) = Archived-submit row a n
  Archived-Step {rows = rows} k a (polls {out = out} req own lease_id now n h) =
      elim (acquire_one_lease_lem req own lease_id now rows k n h) [
        | inl e ↦ subst (λ (o : Leased). Archived key t status need payload o.0) (sym e) a
        | inr (row, o, _, (row', f, u, _, _)) ↦ Archived-Updated row.key a f o u
      ]
  Archived-Step {rows = rows} k a (leases {out = out} req own lease_id now j n h) =
      elim (get_job_lease_lem req own lease_id now j rows n h) [
        | inl e ↦ subst (λ (o : Leased). Archived key t status need payload o.0) (sym e) a
        | inr (row, _, o, _, _, (row', f, u, _, _)) ↦ Archived-Updated row.key a f o u
      ]
  Archived-Step {rows = rows} k a (renews j lease_id worker_id duration start now expires h) =
      let (row, row', f, holds, u, _, _) =
        keep_alive_lease_lem j lease_id worker_id duration start now rows h in
      Archived-Updated j a f holds.unarchived u
  Archived-Step {rows = rows} k a (completes j lease_id worker_id st detail now h) =
      let (row, row', f, holds, u, _, _, _, _) =
        complete_job_lem j lease_id worker_id st detail now rows h in
      Archived-Updated j a f holds.unarchived u
  Archived-Step {rows = rows} k a (reschedules j lease_id worker_id req now h) =
      let (row, row', f, holds, u, _, _, _, _, _, _, _) =
        reschedule_job_lem j lease_id worker_id req now rows h in
      Archived-Updated j a f holds.unarchived u
  Archived-Step {rows = rows} k a (cancels {rows' = rows'} j reason now h) =
      elim (Option-cases (find_row j rows)) [
        | inl e ↦ absurd (ground arith)
        | inr (row, e) ↦
            subst (Archived key t status need payload) (ok-inj (rw (e, cancel_job) at h))
              (Archived-cancel j reason now a)
      ]
  Archived-Step k a (resumes j req wait p capability now h) =
      Archived-resume j req wait p capability now a h

-- Every call keeps one row to a key.
Keyed-Step : {rows rows' : Table} → Keyed rows → Step rows rows' → Keyed rows'
unfolding cancel_job
Keyed-Step k (submits row n) = (n, k)
Keyed-Step {rows = rows} k (polls {out = out} req own lease_id now n h) =
    elim (acquire_one_lease_lem req own lease_id now rows k n h) [
      | inl e ↦ subst (λ (o : Leased). Keyed o.0) (sym e) k
      | inr (row, o, _, (row', f, (_, _, keeps), _, _)) ↦ keeps k
    ]
Keyed-Step {rows = rows} k (leases {out = out} req own lease_id now j n h) =
    elim (get_job_lease_lem req own lease_id now j rows n h) [
      | inl e ↦ subst (λ (o : Leased). Keyed o.0) (sym e) k
      | inr (row, _, o, _, _, (row', f, (_, _, keeps), _, _)) ↦ keeps k
    ]
Keyed-Step {rows = rows} k (renews j lease_id worker_id duration start now expires h) =
    let (row, row', f, holds, (_, _, keeps), _, _) =
      keep_alive_lease_lem j lease_id worker_id duration start now rows h in
    keeps k
Keyed-Step {rows = rows} k (completes j lease_id worker_id st detail now h) =
    let (row, row', f, holds, (_, _, keeps), _, _, _, _) =
      complete_job_lem j lease_id worker_id st detail now rows h in
    keeps k
Keyed-Step {rows = rows} k (reschedules j lease_id worker_id req now h) =
    let (row, row', f, holds, (_, _, keeps), _, _, _, _, _, _, _) =
      reschedule_job_lem j lease_id worker_id req now rows h in
    keeps k
Keyed-Step {rows = rows} k (cancels j reason now h) = elim (Option-cases (find_row j rows)) [
  | inl e ↦ absurd (ground arith)
  | inr (row, e) ↦
      subst Keyed (ok-inj (rw (e, cancel_job) at h))
        (Keyed-update_row j (cancel_row reason now) rows (unfold cancel_row in (λ r. refl)) k)
]
Keyed-Step {rows = rows} k (resumes j req wait p capability now h) =
    let (row, row', f, o, _, (_, _, keeps), _, _, _) =
      resume_waiting_lem j req wait p capability now rows h in
    keeps k

-- Whatever calls follow, by any workers, an archived job stays archived at the same time with the
-- same completion status, need and payload, under no lease; and no key gets a second row.
pub Archived-Steps :
    {key : JobKey} {t : ℕ} {status need : String} {payload : Option JobPayload} {rows rows' : Table}
    → Keyed rows
    → Archived key t status need payload rows
    → Steps rows rows'
    → Keyed rows' × Archived key t status need payload rows'
Archived-Steps k a here = (k, a)
Archived-Steps k a (next steps step) =
    let (k', a') = Archived-Steps k a steps in (Keyed-Step k' step, Archived-Step k' a' step)

-- A completed job is over for good. After a successful completion, whatever calls follow by any
-- workers, the job's row keeps the time and the completion status of this completion, no lease passes
-- on it, and it is reported as COMPLETED or as CANCELLED at any time: as CANCELLED if it was
-- completed with that status, or if its cancellation was requested, also later.
pub complete_job-Steps :
    (key : JobKey) (lease_id worker_id status detail : String) (now : ℕ) (rows : Table)
    {rows' rows'' : Table}
    → Keyed rows
    → complete_job key lease_id worker_id status detail now rows ≡ ok rows'
    → Steps rows' rows''
    → (row : JobRow) × (find_row key rows'' ≡ some row)
      × (row.archived_at ≡ some now)
      × (row.completion_status ≡ some (completion_status_from_request status))
      × Released row
      × ((later : ℕ)
          → status_from_row rows'' row later
            ≡ ok (
                if row.cancel_requested
                  || str_eq (completion_status_from_request status) "cancelled"
                then cancelled
                else completed))
unfolding status_from_row archived_status
complete_job-Steps key lease_id worker_id status detail now rows {rows'} k h steps =
    let (row, row', f, holds, (f', _, keeps), at, st, none_left, _) =
      complete_job_lem key lease_id worker_id status detail now rows h in
    let archived : Archived key now (completion_status_from_request status) row'.next_need
        row'.payload rows' =
      record {
        row = row';
        found = f';
        archived = at;
        status_kept = st;
        need_kept = refl;
        payload_kept = refl;
        unleased = none_left;
      } in
    let (_, a) = Archived-Steps (keeps k) archived steps in
    (
      a.row,
      a.found,
      a.archived,
      a.status_kept,
      no_lease-Released a.row a.unleased,
      λ later. simp (a.archived, a.status_kept) refl,
    )
