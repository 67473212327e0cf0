-- ===== src/Sqlite/Lease/Holder.antt =====
-- Who may act under a lease: validateLeaseRow, and the calls that ask it.
use swf_go.Prelude.{
  ℕ, ◌+◌, ◌<◌, ◌≡◌, ◌≢◌, refl, sym, ap, ◌↔◌, ◌⊎◌, inl, inr, true, false, ◌&&◌, String, Option, none,
  some, str_eq, str_eq_iff, ok, err, ◌>>=◌, ◌>>◌, fail_if, arith,
}
use swf_go.Runtime.{JobKey, Try, execution_lease_lost, other_error}
use swf_go.Sqlite.{
  JobRow, JobPayload, Table, is_some, find_row, update_row, decoded, is_text, present,
  expires_after, lease_duration_or_default, time_to_ns, validate_lease_row, load_job_row,
}
use swf_go.Sqlite.Rows.{Keyed, Keyed-update_row, find_row-update_row, find_row-update_row_other}
use swf_go.Sqlite.Lease.{
  unnamed, is_positive, keep_alive_lease, complete_job, complete_row,
  completion_status_from_request, RescheduleRequest, reschedule_job, reschedule_row,
}

-- The row is not archived, is leased under this id to this worker, and the lease has not run out.
-- An empty worker id asks for no particular worker.
pub record HoldsLease (row : JobRow) (lease_id worker_id : String) (now : ℕ) : Type 0 where
  pub unarchived : row.archived_at ≡ none
  pub named : lease_id ≢ ""
  pub owner : row.lease_id ≡ some lease_id
  pub worker : (worker_id ≡ "") ⊎ (row.lease_worker_id ≡ some worker_id)
  pub unexpired : (t : ℕ) × (row.lease_expires_at ≡ some t) × (now < t)

is_text_iff : (o : Option String) (s : String) → (is_text o s ≡ true) ↔ (o ≡ some s)
is_text_iff none s = ground arith
is_text_iff (some t) s = ground (arith, str_eq_iff t s)

expires_after_iff :
    (o : Option ℕ) (now : ℕ) → (expires_after o now ≡ true) ↔ ((t : ℕ) × (o ≡ some t) × (now < t))
expires_after_iff none now = (λ h. ground arith, λ (t, e, l). ground arith)
expires_after_iff (some t) now = (λ h. (t, refl, ground arith), λ (u, e, l). ground arith)

abbrev Guards : JobRow → String → String → ℕ → Type 0
Guards row lease_id worker_id now =
    (is_some row.archived_at ≡ false)
    × (present row.lease_id ≡ true)
    × (is_text row.lease_id lease_id ≡ true)
    × ((str_eq worker_id "" ≡ true) ⊎ (is_text row.lease_worker_id worker_id ≡ true))
    × (expires_after row.lease_expires_at now ≡ true)

validate-Guards :
    (row : JobRow) (lease_id worker_id : String) (now : ℕ)
    → (validate_lease_row row lease_id worker_id now ≡ ok tt) ↔ Guards row lease_id worker_id now
unfolding validate_lease_row
validate-Guards row lease_id worker_id now = (λ h. ground arith, λ (a, b, c, d, e). ground arith)

present-some : (o : Option String) (s : String) → o ≡ some s → (present o ≡ true) ↔ (s ≢ "")
present-some o s e = rw e (ground (arith, str_eq_iff s ""))

pub is_some-none : (o : Option ℕ) → (is_some o ≡ false) ↔ (o ≡ none)
is_some-none none = (λ h. refl, λ h. refl)
is_some-none (some n) = ground arith

Guards-HoldsLease :
    (row : JobRow) (lease_id worker_id : String) (now : ℕ)
    → Guards row lease_id worker_id now ↔ HoldsLease row lease_id worker_id now
Guards-HoldsLease row lease_id worker_id now = (
  λ (a, b, c, d, e).
      let owner : row.lease_id ≡ some lease_id = (is_text_iff row.lease_id lease_id).0 c in
      record {
        unarchived = (is_some-none row.archived_at).0 a;
        named = (present-some row.lease_id lease_id owner).0 b;
        owner = owner;
        worker = elim d [
          | inl w ↦ inl ((str_eq_iff worker_id "").0 w)
          | inr w ↦ inr ((is_text_iff row.lease_worker_id worker_id).0 w)
        ];
        unexpired = (expires_after_iff row.lease_expires_at now).0 e;
      },
  λ h. (
    (is_some-none row.archived_at).1 h.unarchived,
    (present-some row.lease_id lease_id h.owner).1 h.named,
    (is_text_iff row.lease_id lease_id).1 h.owner,
    elim h.worker [
      | inl w ↦ inl ((str_eq_iff worker_id "").1 w)
      | inr w ↦ inr ((is_text_iff row.lease_worker_id worker_id).1 w)
    ],
    (expires_after_iff row.lease_expires_at now).1 h.unexpired,
  ),
)

-- A lease check passes exactly for the holder of a lease that has not run out; every refusal is a
-- lost lease.
pub validate_lease_row_iff :
    (row : JobRow) (lease_id worker_id : String) (now : ℕ)
    → ((validate_lease_row row lease_id worker_id now ≡ ok tt)
        ↔ HoldsLease row lease_id worker_id now)
      × ((validate_lease_row row lease_id worker_id now ≡ ok tt)
          ⊎ (validate_lease_row row lease_id worker_id now ≡ err execution_lease_lost))
unfolding validate_lease_row
validate_lease_row_iff row lease_id worker_id now = (
  (
    λ h.
        (Guards-HoldsLease row lease_id worker_id now).0
          ((validate-Guards row lease_id worker_id now).0 h),
    λ h.
        (validate-Guards row lease_id worker_id now).1
          ((Guards-HoldsLease row lease_id worker_id now).1 h),
  ),
  ground arith,
)

-- A chain of two calls succeeds only if its first call does.
pub first_passes {ℓ κ} :
    {In : Type ℓ} {Out : Type κ} (call : Try In) (rest : In → Try Out) {out : Out}
    → (call >>= rest) ≡ ok out
    → (value : In) × (call ≡ ok value) × (rest value ≡ ok out)
first_passes (err e) rest done = absurd (cc)
first_passes (ok value) rest done = (value, refl, done)

pub ok-inj {ℓ} : {A : Type ℓ} {a b : A} → ◌≡◌ {A = Try A} (ok a) (ok b) → a ≡ b
ok-inj p = cc

pub load_job_row-ok :
    (rows : Table) (key : JobKey) {row : JobRow}
    → load_job_row rows key ≡ ok row
    → find_row key rows ≡ some row
unfolding load_job_row
load_job_row-ok rows key h = ground arith

-- What a call that loads the row and checks the lease before it answers needs.
checked {ℓ} :
    {A : Type ℓ} (key : JobKey) (lease_id worker_id : String) (now : ℕ) (rows : Table) (a : A)
    {b : A}
    → (do row ← load_job_row rows key; validate_lease_row row lease_id worker_id now; ok a) ≡ ok b
    → (row : JobRow) × (find_row key rows ≡ some row)
      × HoldsLease row lease_id worker_id now
      × (a ≡ b)
checked key lease_id worker_id now rows a h =
    let (row, l, h1) = first_passes (load_job_row rows key) _ h in
    let (u, v, h2) = first_passes (validate_lease_row row lease_id worker_id now) _ h1 in
    (
      row,
      load_job_row-ok rows key l,
      (validate_lease_row_iff row lease_id worker_id now).0.0 v,
      ok-inj h2,
    )

-- The one row of the job after a call, with every other row as it was and one row to a key.
abbrev pub Updated : JobKey → Table → Table → JobRow → Type 0
Updated key rows rows' row =
    (find_row key rows' ≡ some row)
    × ((j : JobKey) → key ≢ j → find_row j rows' ≡ find_row j rows)
    × (Keyed rows → Keyed rows')

-- Nobody holds a lease on the row, now or later.
abbrev pub Released : JobRow → Type 0
Released row =
    (lease_id worker_id : String) (now : ℕ)
    → validate_lease_row row lease_id worker_id now ≡ err execution_lease_lost

pub no_lease-Released : (row : JobRow) → row.lease_id ≡ none → Released row
no_lease-Released row e l w t =
    let (holds, outcome) = validate_lease_row_iff row l w t in
    elim outcome [ inl valid ↦ absurd (ground (arith, (holds.0 valid).owner)) | inr lost ↦ lost ]

pub Updated-update :
    (key : JobKey) (change : JobRow → JobRow) (rows : Table) {rows' : Table} {row : JobRow}
    → ((r : JobRow) → (change r).key ≡ r.key)
    → find_row key rows ≡ some row
    → update_row key change rows ≡ rows'
    → Updated key rows rows' (change row)
Updated-update key change rows keeps e u = rw (← u) (
  find_row-update_row key change keeps rows e,
  λ j n. find_row-update_row_other key change keeps j rows n,
  λ k. Keyed-update_row key change rows keeps k,
)

-- Completing a job succeeds only for the holder of a running lease. It archives the job with the
-- requested status, touches no other row, and uses the lease up: no call under any lease id gets
-- past the lease check of this row again.
pub complete_job_lem :
    (key : JobKey) (lease_id worker_id status detail : String) (now : ℕ) (rows : Table)
    {rows' : Table}
    → complete_job key lease_id worker_id status detail now rows ≡ ok rows'
    → (row row' : JobRow) × (find_row key rows ≡ some row)
      × HoldsLease row lease_id worker_id now
      × Updated key rows rows' row'
      × (row'.archived_at ≡ some now)
      × (row'.completion_status ≡ some (completion_status_from_request status))
      × (row'.lease_id ≡ none)
      × Released row'
unfolding complete_job complete_row
complete_job_lem key lease_id worker_id status detail now rows h =
    let change : JobRow → JobRow =
      complete_row (completion_status_from_request status) detail now in
    let (_, _, h1) = first_passes (fail_if (unnamed lease_id worker_id) execution_lease_lost) _ h in
    let (row, e, holds, u) =
      checked key lease_id worker_id now rows (update_row key change rows) h1 in
    (
      row,
      change row,
      e,
      holds,
      Updated-update key change rows (λ r. refl) e u,
      refl,
      refl,
      refl,
      no_lease-Released (change row) refl,
    )

-- What a reschedule that succeeds has checked, and the row that it writes.
pub reschedule_job-updates :
    (key : JobKey) (lease_id worker_id : String) (req : RescheduleRequest) (now : ℕ) (rows : Table)
    {rows' : Table}
    → reschedule_job key lease_id worker_id req now rows ≡ ok rows'
    → (payload : JobPayload) × (row : JobRow) × (find_row key rows ≡ some row)
      × HoldsLease row lease_id worker_id now
      × (update_row key (reschedule_row req payload now) rows ≡ rows')
      × (req.next_need ≢ "")
unfolding reschedule_job
reschedule_job-updates key lease_id worker_id req now rows h =
    let (_, _, h1) = first_passes (fail_if (unnamed lease_id worker_id) execution_lease_lost) _ h in
    let (_, g, h2) =
      first_passes (fail_if (str_eq req.next_need "") (other_error "next capability is required")) _
        h1 in
    let (_, _, h3) =
      first_passes (fail_if (is_some req.alternate_after && req.alternate_negative) _) _ h2 in
    let (_, _, h4) =
      first_passes (fail_if (str_eq req.alternate_need "" && is_positive req.alternate_after) _) _
        h3 in
    let (payload, _, h5) = first_passes (decoded req.payload) _ h4 in
    let (row, e, holds, u) =
      checked key lease_id worker_id now rows (update_row key (reschedule_row req payload now) rows)
        h5 in
    (payload, row, e, holds, u, ground (arith, str_eq_iff req.next_need ""))

-- Rescheduling succeeds only for the holder of a running lease and with a next capability. It gives
-- the job its new need, dependencies and waiting time (now, if none is asked for), which is stored as
-- an int64 of nanoseconds; it touches no other row, and uses the lease up.
pub reschedule_job_lem :
    (key : JobKey) (lease_id worker_id : String) (req : RescheduleRequest) (now : ℕ) (rows : Table)
    {rows' : Table}
    → reschedule_job key lease_id worker_id req now rows ≡ ok rows'
    → (row row' : JobRow) × (find_row key rows ≡ some row)
      × HoldsLease row lease_id worker_id now
      × Updated key rows rows' row'
      × (req.next_need ≢ "")
      × (row'.next_need ≡ req.next_need)
      × (row'.wait_for ≡ some req.wait_for_job_ids)
      × ((t : ℕ) → req.wait_until ≡ some t → row'.available_at ≡ time_to_ns t)
      × (req.wait_until ≡ none → row'.available_at ≡ time_to_ns now)
      × (row'.archived_at ≡ none)
      × Released row'
unfolding reschedule_job reschedule_row
reschedule_job_lem key lease_id worker_id req now rows h =
    let (payload, row, e, holds, u, named) =
      reschedule_job-updates key lease_id worker_id req now rows h in
    let change : JobRow → JobRow = reschedule_row req payload now in
    (
      row,
      change row,
      e,
      holds,
      Updated-update key change rows (λ r. refl) e u,
      named,
      refl,
      refl,
      λ t p. rw p,
      λ p. rw p,
      holds.unarchived,
      no_lease-Released (change row) refl,
    )

-- A keep-alive succeeds only for the holder of a running lease, and gives the lease its full term
-- from the time of the call. The lease stays with the same worker, and can still be used until then.
pub keep_alive_lease_lem :
    (key : JobKey) (lease_id worker_id : String) (duration start now : ℕ) (rows : Table)
    {rows' : Table} {expires : ℕ}
    → keep_alive_lease key lease_id worker_id duration start now rows ≡ ok (rows', expires)
    → (row row' : JobRow) × (find_row key rows ≡ some row)
      × HoldsLease row lease_id worker_id now
      × Updated key rows rows' row'
      × (expires ≡ start + lease_duration_or_default duration)
      × ((t : ℕ) → t < time_to_ns expires → HoldsLease row' lease_id worker_id t)
unfolding keep_alive_lease
keep_alive_lease_lem key lease_id worker_id duration start now rows h =
    let until : ℕ = start + lease_duration_or_default duration in
    let change : JobRow → JobRow =
      λ (r : JobRow). record r { lease_expires_at = some (time_to_ns until); updated_at = now } in
    let (_, _, h1) = first_passes (fail_if (unnamed lease_id worker_id) execution_lease_lost) _ h in
    let (row, e, holds, u) =
      checked {A = Table × ℕ} key lease_id worker_id now rows (update_row key change rows, until)
        h1 in
    (
      row,
      change row,
      e,
      holds,
      Updated-update key change rows (λ r. refl) e (ap (λ p. p.0) u),
      ap (λ p. p.1) (sym u),
      λ t l. record {
        unarchived = holds.unarchived;
        named = holds.named;
        owner = holds.owner;
        worker = holds.worker;
        unexpired = (time_to_ns until, refl, rw (ap (λ (p : Table × ℕ). p.1) u) l);
      },
    )
