-- ===== src/Tests/Submits.antt =====
-- A job that is submitted, submitted again, and submitted again after a reschedule.
use swf_go.Prelude.{
  ◌≡◌, refl, Bool, true, false, String, some, none, [], ◌∷◌, str_eq, str_eq_refl, if◌then◌else◌, ok,
  err, arith, ◌||◌,
}
use swf_go.Runtime.{key_eq, existing_job_mismatch}
use swf_go.Sqlite.{
  JobRow, Table, find_row, time_to_ns, update_row, load_job_row, validate_lease_row,
}
use swf_go.Sqlite.Submit.{
  Start, Stored, SubmitJob, Services, Prepared, prepare_submit, normalize_from, start_of, new_row,
  read_back, find_story, same_start, same_policy, ensure_submitted_job_record, submit_job,
}
use swf_go.Sqlite.Submit.Again.{IsSane, Fits, submit_job-again}
use swf_go.Sqlite.Submit.Kept.{Keeps, submit_job-Keeps}
use swf_go.Sqlite.Submit.Moved.{submit_job-rescheduled}
use swf_go.Sqlite.Lease.{RescheduleRequest, reschedule_row, reschedule_job}
use swf_go.Tests.Jobs.{key_of, jobs}

abbrev plain : Services
plain = record {
  is_blank = λ s. str_eq s "";
  validate_metadata = λ metadata. ok tt;
  resolve_schema = λ tenant. ok "";
  envelope = λ metadata hash parent. ok metadata;
  validate_start = λ hash start. ok tt;
  same_json = λ a b. str_eq a b;
  encode_policy = λ p. p.retry;
}

abbrev same_or_empty : Services
same_or_empty = record plain { same_json = λ a b. str_eq a b || str_eq b "" }

sane : IsSane same_or_empty
sane = record {
  same = λ m. rw (str_eq_refl m) refl;
  same_start = λ m. by_blank m (str_eq m "") refl;
}
  where
    by_blank :
        (m : String) (b : Bool)
        → str_eq m "" ≡ b
        → (str_eq (if b then "{}" else m) m || str_eq m "") ≡ true
    by_blank m true e = ground arith
    by_blank m false e = rw (str_eq_refl m) refl

abbrev report : SubmitJob
report = record {
  tenant_id = "acme";
  job_id = "third";
  job_type = "report";
  input_hash = "h";
  metadata = "{\"team\":1}";
  run_policy = record {
    retry = "3";
    non_retryable_error_types = none;
    invocation_timeout = some 60;
    total_timeout = none;
  };
  prerequisites = record { job_id = "first"; condition = "" } ∷ [];
  available_at = some 500;
  parent_job_id = "";
}

abbrev before : Stored
before = record { rows = jobs; stories = [] }

abbrev start : Start
start = start_of same_or_empty report (record { job_id = "first"; condition = "complete" } ∷ [])

abbrev prepared : Prepared
prepared = record { key = key_of "third"; metadata = "{\"team\":1}"; start = start }

abbrev after : Stored
after = record {
  rows = new_row same_or_empty report prepared 100 ∷ jobs;
  stories = (key_of "third", some start) ∷ [];
}

prepared_run : prepare_submit same_or_empty report "F" ≡ ok prepared
unfolding prepare_submit normalize_from str_eq
prepared_run = refl

submitted : submit_job same_or_empty report "F" 100 before ≡ (ok (key_of "third"), after)
unfolding submit_job prepare_submit normalize_from str_eq find_story find_row key_eq
    ensure_submitted_job_record
submitted = refl

submit_job-again_example :
    submit_job same_or_empty report "G" 200 after ≡ (ok (key_of "third"), after)
unfolding str_eq read_back Fits time_to_ns
submit_job-again_example =
    submit_job-again same_or_empty report sane "F" "G" 100 200 before refl refl refl submitted

submit_job-Keeps_example : Keeps before (submit_job same_or_empty report "F" 100 before).1
submit_job-Keeps_example = submit_job-Keeps same_or_empty report "F" 100 before

-- The job under a lease, its submission repeated, and its reschedule to the time 900.
abbrev leased_row : JobRow
leased_row = record (new_row same_or_empty report prepared 100) {
  lease_id = some "L";
  lease_worker_id = some "w";
  lease_expires_at = some 700;
}

abbrev leased : Stored
leased = record after { rows = leased_row ∷ jobs }

submitted_leased : submit_job same_or_empty report "G" 550 leased ≡ (ok (key_of "third"), leased)
unfolding submit_job prepare_submit normalize_from str_eq find_story find_row key_eq
    ensure_submitted_job_record same_start same_policy read_back time_to_ns
submitted_leased = refl

abbrev postponed : RescheduleRequest
postponed = record {
  next_need = "report";
  payload = some (record { run_policy = "p"; task_wait = none; visible_payload = "" });
  wait_for_job_ids = [];
  wait_until = some 900;
  alternate_need = "";
  alternate_after = none;
  alternate_negative = false;
}

abbrev moved : Table
moved =
    update_row (key_of "third")
      (reschedule_row postponed
        (record { run_policy = "p"; task_wait = none; visible_payload = "" }) 600)
      (leased_row ∷ jobs)

rescheduled : reschedule_job (key_of "third") "L" "w" postponed 600 (leased_row ∷ jobs) ≡ ok moved
unfolding str_eq key_eq reschedule_job load_job_row find_row validate_lease_row
rescheduled = refl

submit_job-rescheduled_example :
    submit_job same_or_empty report "H" 800 (record leased { rows = moved })
    ≡ (err existing_job_mismatch, record leased { rows = moved })
unfolding str_eq time_to_ns read_back
submit_job-rescheduled_example =
    submit_job-rescheduled same_or_empty report sane refl 500 refl refl "G" "H" "L" "w" postponed
      550 600 800 leased submitted_leased rescheduled refl
