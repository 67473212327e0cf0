-- ===== src/Tests/Jobs.antt =====
-- Concrete runs of the job table of pkg/jobdb/runtime/sqlite.
use swf_go.Prelude.{
  ℕ, ◌+◌, ◌<◌, ◌≤◌, ◌≡◌, ◌≢◌, ◌↔◌, refl, ◌⊎◌, inl, inr, Option, true, false, String, none, some,
  List, [], ◌∷◌, ok, err, if◌then◌else◌, ◌||◌, str_eq, str_eq_iff, arith,
}
use swf_go.Sqlite.Listing.{
  list_store_selection, select_statuses, Covers, for_status, list_store_selection-Covers,
}
use swf_go.Runtime.{
  JobKey, JobStatus, completed, key_eq, execution_lease_lost, cancelled, ready, crash_concern,
  in_cap_set,
}
use swf_go.Sqlite.{
  JobRow, JobPayload, TaskWait, Table, find_row, load_job_row, update_row, validate_lease_row,
  status_from_row, dependencies_ready, dependency_open, effective_next_need, archived_status,
  unleased_status, lease_duration_or_default, time_to_ns,
}
use swf_go.Sqlite.Rows.{Keyed, In}
use swf_go.Sqlite.Acquire.{
  LeaseRequest, Leased, acquire_one_lease, get_job_lease, grant_lease, is_leaseable, is_offered,
  pick_candidate, select_candidates, insert_row, row_le,
}
use swf_go.Sqlite.Acquire.Grants.{acquire_one_lease_lem, get_job_lease_lem, Leaseable, Granted}
use swf_go.Sqlite.Acquire.Order.{acquire_one_lease-oldest}
use swf_go.Sqlite.Lease.{
  complete_job, complete_row, completion_status_from_request, reschedule_job, reschedule_row,
  RescheduleRequest, keep_alive_lease, CompleteTaskRequest, resume_waiting, resume_row,
  check_waiting, cancel_job, cancel_row,
}
use swf_go.Sqlite.Lease.Holder.{
  HoldsLease, Updated, Released, validate_lease_row_iff, complete_job_lem, reschedule_job_lem,
  keep_alive_lease_lem,
}
use swf_go.Sqlite.Lease.Step.{Steps, here, next, cancels, resume_waiting_lem}
use swf_go.Sqlite.Lease.Terminal.{Archived, Archived-Steps, complete_job-Steps}

abbrev pub key_of : String → JobKey
key_of id = record { tenant_id = "acme"; job_id = id }

abbrev pub waiting_payload : JobPayload
waiting_payload = record {
  run_policy = "";
  task_wait = some (record { input_step = 1; output_step = 2; next = "resume"; input_hash = "h" });
  visible_payload = "{}";
}

abbrev pub queued : String → ℕ → JobRow
queued id created = record {
  key = key_of id;
  job_type = "report";
  next_need = "build";
  payload = some waiting_payload;
  metadata = "{}";
  wait_for = some [];
  available_at = 0;
  created_at = created;
  updated_at = created;
  archived_at = none;
  cancel_requested = false;
  completion_status = none;
  completion_detail = none;
  lease_id = none;
  lease_worker_id = none;
  lease_expires_at = none;
  alternate_need = none;
  alternate_at = none;
}

abbrev pub first_job : JobRow
first_job = queued "first" 10

abbrev pub second_job : JobRow
second_job = record (queued "second" 20) { wait_for = some ("first" ∷ []) }

abbrev leased_job : JobRow
leased_job = record first_job {
  lease_id = some "L";
  lease_worker_id = some "w";
  lease_expires_at = some 900;
}

abbrev pub jobs : Table
jobs = second_job ∷ first_job ∷ []

abbrev leased_jobs : Table
leased_jobs = second_job ∷ leased_job ∷ []

jobs-Keyed : Keyed jobs
unfolding str_eq key_eq find_row
jobs-Keyed = (refl, (refl, tt))

leased_jobs-Keyed : Keyed leased_jobs
unfolding str_eq key_eq find_row
leased_jobs-Keyed = (refl, (refl, tt))

abbrev poll : LeaseRequest
poll = record {
  tenant_id = "acme";
  worker_id = "w";
  capabilities = "build" ∷ [];
  lease_duration = 500;
  metadata_matches = λ m. ok true;
}

abbrev lease_first : Leased
lease_first = grant_lease "L" "w" 500 100 jobs first_job

L-named : ◌≢◌ {A = String} "L" ""
unfolding str_eq
L-named = λ h. absurd (ground (arith, (str_eq_iff "L" "").1 h))

-- The second job waits for the first one, so that polling leases the first.
poll_run : acquire_one_lease poll "own" "L" 100 jobs ≡ ok lease_first
unfolding str_eq key_eq in_cap_set acquire_one_lease pick_candidate select_candidates insert_row
    row_le is_leaseable is_offered effective_next_need dependencies_ready dependency_open find_row
poll_run = refl

acquire_one_lease_lem_example :
    (lease_first ≡ (jobs, none))
    ⊎ ((row : JobRow) × (row.archived_at ≡ none)
        × Leaseable poll 100 jobs row
        × Granted poll "own" "L" 100 jobs lease_first row)
acquire_one_lease_lem_example =
    acquire_one_lease_lem poll "own" "L" 100 jobs jobs-Keyed L-named poll_run

acquire_one_lease-oldest_example :
    ((lease_first ≡ (jobs, none))
      × ((q : JobRow) → In q jobs → q.archived_at ≡ none → is_leaseable poll 100 jobs q ≡ ok false))
    ⊎ ((row : JobRow) × (lease_first ≡ grant_lease "L" "w" 500 100 jobs row)
        × ((q : JobRow)
            → In q jobs
            → q.archived_at ≡ none
            → is_leaseable poll 100 jobs q ≡ ok true
            → row.created_at ≤ q.created_at))
unfolding str_eq
acquire_one_lease-oldest_example = acquire_one_lease-oldest poll "own" "L" 100 jobs poll_run

get_run : get_job_lease poll "own" "L" 100 (key_of "first") jobs ≡ ok lease_first
unfolding str_eq key_eq in_cap_set get_job_lease find_row status_from_row unleased_status
    dependencies_ready effective_next_need
get_run = refl

get_job_lease_lem_example :
    (lease_first ≡ (jobs, none))
    ⊎ ((row : JobRow) × (row.key ≡ key_of "first")
        × (row.archived_at ≡ none)
        × ((status_from_row jobs row 100 ≡ ok ready)
            ⊎ (status_from_row jobs row 100 ≡ ok crash_concern))
        × (in_cap_set poll.capabilities (effective_next_need row 100).0 ≡ true)
        × Granted poll "own" "L" 100 jobs lease_first row)
get_job_lease_lem_example =
    get_job_lease_lem poll "own" "L" 100 (key_of "first") jobs L-named get_run

-- The worker w holds the lease L until 900.
validate_lease_row_iff_run :
    ((validate_lease_row leased_job "L" "w" 100 ≡ ok tt) ↔ HoldsLease leased_job "L" "w" 100)
    × ((validate_lease_row leased_job "L" "w" 100 ≡ ok tt)
        ⊎ (validate_lease_row leased_job "L" "w" 100 ≡ err execution_lease_lost))
validate_lease_row_iff_run = validate_lease_row_iff leased_job "L" "w" 100

expired_run : validate_lease_row leased_job "L" "w" 900 ≡ err execution_lease_lost
unfolding str_eq key_eq validate_lease_row
expired_run = refl

abbrev completed_jobs : Table
completed_jobs = update_row (key_of "first") (complete_row "success" "" 100) leased_jobs

complete_run :
    complete_job (key_of "first") "L" "w" "succeeded" "" 100 leased_jobs ≡ ok completed_jobs
unfolding str_eq key_eq complete_job load_job_row find_row validate_lease_row
    completion_status_from_request
complete_run = refl

complete_job_lem_example :
    (row row' : JobRow) × (find_row (key_of "first") leased_jobs ≡ some row)
    × HoldsLease row "L" "w" 100
    × Updated (key_of "first") leased_jobs completed_jobs row'
    × (row'.archived_at ≡ some 100)
    × (row'.completion_status ≡ some (completion_status_from_request "succeeded"))
    × (row'.lease_id ≡ none)
    × Released row'
complete_job_lem_example =
    complete_job_lem (key_of "first") "L" "w" "succeeded" "" 100 leased_jobs complete_run

abbrev cancelled_jobs : Table
cancelled_jobs = update_row (key_of "first") (cancel_row "late" 200) completed_jobs

cancel_run : cancel_job (key_of "first") "late" 200 completed_jobs ≡ ok cancelled_jobs
unfolding str_eq key_eq cancel_job update_row find_row complete_row
cancel_run = refl

late_cancel : Steps completed_jobs cancelled_jobs
late_cancel = next here (cancels (key_of "first") "late" 200 cancel_run)

complete_job-Steps_example :
    (row : JobRow) × (find_row (key_of "first") cancelled_jobs ≡ some row)
    × (row.archived_at ≡ some 100)
    × (row.completion_status ≡ some (completion_status_from_request "succeeded"))
    × Released row
    × ((later : ℕ)
        → status_from_row cancelled_jobs row later
          ≡ ok (
              if row.cancel_requested
                || str_eq (completion_status_from_request "succeeded") "cancelled"
              then cancelled
              else completed))
complete_job-Steps_example =
    complete_job-Steps (key_of "first") "L" "w" "succeeded" "" 100 leased_jobs leased_jobs-Keyed
      complete_run late_cancel

-- A cancelled job whose completion was recorded before still has the status of the completion, but
-- the runtime reports it as cancelled.
reported_cancelled :
    status_from_row cancelled_jobs
      (cancel_row "late" 200 (complete_row "success" "" 100 leased_job))
      300
    ≡ ok cancelled
unfolding str_eq key_eq status_from_row archived_status cancel_row complete_row
reported_cancelled = refl

completed_jobs-Keyed : Keyed completed_jobs
unfolding str_eq key_eq find_row update_row complete_row
completed_jobs-Keyed = (refl, (refl, tt))

completed-Archived :
    Archived (key_of "first") 100 "success" "build" (some waiting_payload) completed_jobs
unfolding str_eq key_eq find_row update_row complete_row
completed-Archived = record {
  row = complete_row "success" "" 100 leased_job;
  found = refl;
  archived = refl;
  status_kept = refl;
  need_kept = refl;
  payload_kept = refl;
  unleased = refl;
}

Archived-Steps_example :
    Keyed cancelled_jobs
    × Archived (key_of "first") 100 "success" "build" (some waiting_payload) cancelled_jobs
Archived-Steps_example = Archived-Steps completed_jobs-Keyed completed-Archived late_cancel

abbrev wait_request : RescheduleRequest
wait_request = record {
  next_need = "publish";
  payload = some waiting_payload;
  wait_for_job_ids = "second" ∷ [];
  wait_until = some 700;
  alternate_need = "";
  alternate_after = none;
  alternate_negative = false;
}

abbrev rescheduled_jobs : Table
rescheduled_jobs =
    update_row (key_of "first") (reschedule_row wait_request waiting_payload 100) leased_jobs

reschedule_run :
    reschedule_job (key_of "first") "L" "w" wait_request 100 leased_jobs ≡ ok rescheduled_jobs
unfolding str_eq key_eq reschedule_job load_job_row find_row validate_lease_row
reschedule_run = refl

reschedule_job_lem_example :
    (row row' : JobRow) × (find_row (key_of "first") leased_jobs ≡ some row)
    × HoldsLease row "L" "w" 100
    × Updated (key_of "first") leased_jobs rescheduled_jobs row'
    × (◌≢◌ {A = String} "publish" "")
    × (row'.next_need ≡ "publish")
    × (row'.wait_for ≡ some ("second" ∷ []))
    × ((t : ℕ) → wait_request.wait_until ≡ some t → row'.available_at ≡ time_to_ns t)
    × (wait_request.wait_until ≡ none → row'.available_at ≡ time_to_ns 100)
    × (row'.archived_at ≡ none)
    × Released row'
reschedule_job_lem_example =
    reschedule_job_lem (key_of "first") "L" "w" wait_request 100 leased_jobs reschedule_run

abbrev renewed_jobs : Table
renewed_jobs =
    update_row (key_of "first") (λ r. record r { lease_expires_at = some 600; updated_at = 120 })
      leased_jobs

keep_alive_run :
    keep_alive_lease (key_of "first") "L" "w" 500 100 120 leased_jobs ≡ ok (renewed_jobs, 600)
unfolding str_eq key_eq keep_alive_lease load_job_row find_row validate_lease_row
    lease_duration_or_default time_to_ns
keep_alive_run = refl

keep_alive_lease_lem_run :
    (row row' : JobRow) × (find_row (key_of "first") leased_jobs ≡ some row)
    × HoldsLease row "L" "w" 120
    × Updated (key_of "first") leased_jobs renewed_jobs row'
    × (600 ≡ 100 + lease_duration_or_default 500)
    × ((t : ℕ) → t < time_to_ns 600 → HoldsLease row' "L" "w" t)
keep_alive_lease_lem_run =
    keep_alive_lease_lem (key_of "first") "L" "w" 500 100 120 leased_jobs keep_alive_run

abbrev task_result : CompleteTaskRequest
task_result = record {
  capability = "build";
  resume_need = "";
  input_ordinal = 1;
  output_ordinal = 2;
  input_hash = "h";
}

abbrev task_wait : TaskWait
task_wait = record { input_step = 1; output_step = 2; next = "resume"; input_hash = "h" }

abbrev resumed_jobs : Table
resumed_jobs =
    update_row (key_of "first") (resume_row task_result task_wait waiting_payload 100) jobs

check_run : check_waiting task_result first_job ≡ ok task_wait
unfolding str_eq key_eq check_waiting
check_run = refl

resume_run :
    resume_waiting (key_of "first") task_result task_wait waiting_payload "build" 100 jobs
    ≡ ok resumed_jobs
unfolding str_eq key_eq resume_waiting find_row
resume_run = refl

resume_waiting_lem_run :
    (row row' : JobRow) × (find_row (key_of "first") jobs ≡ some row)
    × (row.archived_at ≡ none)
    × (row.next_need ≡ "build")
    × Updated (key_of "first") jobs resumed_jobs row'
    × (row'.available_at ≡ 100)
    × (row'.wait_for ≡ some [])
    × Released row'
resume_waiting_lem_run =
    resume_waiting_lem (key_of "first") task_result task_wait waiting_payload "build" 100 jobs
      resume_run

abbrev over : List (Option JobStatus)
over = some completed ∷ some cancelled ∷ []

listing_run : list_store_selection over [] ≡ ok (true, true)
unfolding list_store_selection select_statuses
listing_run = refl

list_store_selection-Covers_run : Covers (true, true) (for_status cancelled)
list_store_selection-Covers_run =
    list_store_selection-Covers over [] cancelled listing_run (inr (inl refl))
