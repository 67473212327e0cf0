-- ===== src/Sqlite/Lease.antt =====
-- sqlite/lease.go and CancelJob: what the holder of a lease, or a caller that cancels, does to a row.
-- In completing, the final chapter is written before; here is the transaction that follows it.
pub mod Step
pub mod Terminal
pub mod Holder
use swf_go.Prelude.{
  ℕ, ◌+◌, Bool, true, false, not, ◌&&◌, ◌||◌, String, Option, none, some, List, [], ◌∷◌, str_eq,
  ltb, leb, ◌==◌, if◌then◌else◌, Result, ok, err, ◌>>=◌, ◌>>◌, fail_if,
}
use swf_go.Runtime.{JobKey, key_eq, Try, job_not_found, execution_lease_lost, conflict, other_error}
use swf_go.Sqlite.{
  JobRow, JobPayload, TaskWait, Table, is_some, find_row, update_row, decoded, is_after,
  lease_duration_or_default, time_to_ns, validate_lease_row, load_job_row,
}

abbrev clear_lease : JobRow → JobRow
clear_lease row = record row { lease_id = none; lease_worker_id = none; lease_expires_at = none }

abbrev or_keep {ℓ} : {A : Type ℓ} → Option A → A → Option A
or_keep none a = some a
or_keep (some old) a = some old

-- `if leaseID == "" || workerID == ""`
abbrev pub unnamed : String → String → Bool
unnamed lease_id worker_id = str_eq lease_id "" || str_eq worker_id ""

-- KeepAliveLeaseByIDWithExpiry; `start` is the clock before the transaction, `now` inside it. The
-- UPDATE also asks for the lease id, as the check before it does.
unfoldable pub keep_alive_lease : JobKey → String → String → ℕ → ℕ → ℕ → Table → Try (Table × ℕ)
keep_alive_lease key lease_id worker_id duration start now rows =
    let expires : ℕ = start + lease_duration_or_default duration in
    do
      fail_if (unnamed lease_id worker_id) execution_lease_lost
      row ← load_job_row rows key
      validate_lease_row row lease_id worker_id now
      ok (
        update_row key
            (λ r. record r { lease_expires_at = some (time_to_ns expires); updated_at = now }) rows,
        expires,
      )

-- completionStatusFromRequest
unfoldable pub completion_status_from_request : String → String
completion_status_from_request status =
    if str_eq status "" || str_eq status "success" || str_eq status "succeeded"
    then "success"
    else status

abbrev nullable_string : String → Option String
nullable_string s = if str_eq s "" then none else some s

unfoldable pub complete_row : String → String → ℕ → JobRow → JobRow
complete_row status detail now row = record row {
  archived_at = some now;
  completion_status = some status;
  completion_detail = nullable_string detail;
  cancel_requested = if str_eq status "cancelled" then true else row.cancel_requested;
  lease_id = none;
  lease_worker_id = none;
  lease_expires_at = none;
  alternate_need = none;
  alternate_at = none;
  updated_at = now;
}

-- CompleteJobWithLeaseByID, from the transaction on.
unfoldable pub complete_job : JobKey → String → String → String → String → ℕ → Table → Try Table
complete_job key lease_id worker_id status detail now rows = do
  fail_if (unnamed lease_id worker_id) execution_lease_lost
  row ← load_job_row rows key
  validate_lease_row row lease_id worker_id now
  ok (update_row key (complete_row (completion_status_from_request status) detail now) rows)

-- RescheduleExecutionRequest. A payload that is not the JSON of a payload is `none`, and the empty
-- one is the payload of `{}`; of the alternate delay, `none` is nil and the sign is apart.
pub record RescheduleRequest : Type 0 where
  pub next_need : String
  pub payload : Option JobPayload
  pub wait_for_job_ids : List String
  pub wait_until : Option ℕ
  pub alternate_need : String
  pub alternate_after : Option ℕ
  pub alternate_negative : Bool

abbrev pub value_or : Option ℕ → ℕ → ℕ
value_or none n = n
value_or (some m) n = m

abbrev pub is_positive : Option ℕ → Bool
is_positive none = false
is_positive (some n) = ltb 0 n

unfoldable pub reschedule_row : RescheduleRequest → JobPayload → ℕ → JobRow → JobRow
reschedule_row req payload now row = record row {
  next_need = req.next_need;
  payload = some payload;
  wait_for = some req.wait_for_job_ids;
  available_at = time_to_ns (value_or req.wait_until now);
  lease_id = none;
  lease_worker_id = none;
  lease_expires_at = none;
  alternate_need = if str_eq req.alternate_need "" then none else some req.alternate_need;
  alternate_at =
      if str_eq req.alternate_need ""
      then none
      else some (time_to_ns (now + value_or req.alternate_after 0));
  updated_at = now;
}

-- RescheduleJobWithLeaseByID
unfoldable pub reschedule_job : JobKey → String → String → RescheduleRequest → ℕ → Table → Try Table
reschedule_job key lease_id worker_id req now rows = do
  fail_if (unnamed lease_id worker_id) execution_lease_lost
  fail_if (str_eq req.next_need "") (other_error "next capability is required")
  fail_if (is_some req.alternate_after && req.alternate_negative)
      (other_error "alternate after must be non-negative")
  fail_if (str_eq req.alternate_need "" && is_positive req.alternate_after)
      (other_error "alternate capability is required when after is set")
  payload ← decoded req.payload
  row ← load_job_row rows key
  validate_lease_row row lease_id worker_id now
  ok (update_row key (reschedule_row req payload now) rows)

unfoldable pub cancel_row : String → ℕ → JobRow → JobRow
cancel_row reason now row = record row {
  cancel_requested = true;
  archived_at = or_keep row.archived_at now;
  completion_status = or_keep row.completion_status "cancelled";
  completion_detail = some reason;
  lease_id = none;
  lease_worker_id = none;
  lease_expires_at = none;
  updated_at = now;
}

-- CancelJob; no row was hit exactly when there is none.
unfoldable pub cancel_job : JobKey → String → ℕ → Table → Try Table
cancel_job key reason now rows = elim (find_row key rows) [
  | none ↦ err job_not_found
  | some row ↦ ok (update_row key (cancel_row reason now) rows)
]

-- The guards of CompleteTaskIfWaiting; an empty text or a zero ordinal in the request asks nothing.
pub record CompleteTaskRequest : Type 0 where
  pub capability : String
  pub resume_need : String
  pub input_ordinal : ℕ
  pub output_ordinal : ℕ
  pub input_hash : String

abbrev pub differs : String → String → Bool
differs wanted actual = not (str_eq wanted "") && not (str_eq actual wanted)

unfoldable pub check_waiting : CompleteTaskRequest → JobRow → Try TaskWait
check_waiting req row = do
  payload ← decoded row.payload
  wait ← elim payload.task_wait [ none ↦ err conflict | some wait ↦ ok wait ]
  fail_if (differs req.capability row.next_need) conflict
  fail_if (differs req.resume_need wait.next) conflict
  fail_if (not (req.input_ordinal == 0) && not (wait.input_step == req.input_ordinal)) conflict
  fail_if (not (wait.output_step == req.output_ordinal)) conflict
  fail_if (differs req.input_hash wait.input_hash) conflict
  ok wait

unfoldable pub resume_row : CompleteTaskRequest → TaskWait → JobPayload → ℕ → JobRow → JobRow
resume_row req wait payload now row = record row {
  next_need = if str_eq req.resume_need "" then wait.next else req.resume_need;
  payload = some payload;
  wait_for = some [];
  available_at = now;
  lease_id = none;
  lease_worker_id = none;
  lease_expires_at = none;
  alternate_need = none;
  alternate_at = none;
  updated_at = now;
}

-- The UPDATE at the end of CompleteTaskIfWaiting: by then the table may have changed, and the row is
-- resumed only if it is not archived and still has the need that was read.
unfoldable pub resume_waiting :
    JobKey → CompleteTaskRequest → TaskWait → JobPayload → String → ℕ → Table → Try Table
resume_waiting key req wait payload capability now rows = elim (find_row key rows) [
  | none ↦ err conflict
  | some row ↦
      if not (is_some row.archived_at) && str_eq row.next_need capability
      then ok (update_row key (resume_row req wait payload now) rows)
      else err conflict
]
