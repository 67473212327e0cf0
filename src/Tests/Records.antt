-- ===== src/Tests/Records.antt =====
-- Concrete runs of the toy runtime.
use swf_go.Claims.{LeaseClaims, authorize, authorize_iff}
use swf_go.Prelude.{
  ◌-◌, ◌<◌, ◌≡◌, ◌↔◌, ◌⊎◌, err, refl, true, false, String, none, some, List, [], ◌∷◌, ok, str_eq,
}
use swf_go.Runtime.{
  JobKey, execution_lease_lost, key_eq, ready, completed, active, JobStatus, in_cap_set,
}
use swf_go.Sqlite.Lease.{RescheduleRequest}
use swf_go.Toy.{
  Chapter, job_attempt_outcome, other_chapter, ToyJob, Engine, find_job, all_settled, settled,
  advance, update_job,
}
use swf_go.Toy.Chapters.{Services, find_chapter, has_chapter, appendable, store_runtime_chapter}
use swf_go.Toy.Chapters.Append.{Durable, chapters_of}
use swf_go.Toy.Leases.{
  ToyLease, reschedule_lease, get_toy_lease, reschedule_record, add_waiting_task,
}
use swf_go.Toy.Leases.Revival.{reschedule_lease_revival, reschedule_lease_forgets}
use swf_go.Toy.Calls.{Call, run, completes}
use swf_go.Toy.Calls.Exclusive.{AllSound}
use swf_go.Toy.Calls.Kept.{run-AllSound}
use swf_go.Toy.Calls.Storing.{run-Durable}
use swf_go.Toy.Calls.Appends.{store_runtime_chapter_lem}

abbrev services : Services
services = record {
  authorize = λ key id. ok false;
  prepare = λ chapter. ok chapter;
  validate = λ metadata chapter. ok tt;
  decode = λ chapter. record { task_data = some chapter.content; error = none };
  attempt_of = λ chapter. 1;
  payload_of = λ chapter. chapter.content;
}

abbrev key_of : String → JobKey
key_of id = record { tenant_id = "acme"; job_id = id }

abbrev start_chapter : Chapter
start_chapter = record {
  ordinal = 0;
  kind = other_chapter;
  task_type = "start";
  created_at = 1;
  content = "in";
}

abbrev last_chapter : Chapter
last_chapter = record {
  ordinal = 1;
  kind = job_attempt_outcome;
  task_type = "";
  created_at = 5;
  content = "out";
}

abbrev new_job : String → JobStatus → List String → ToyJob
new_job id status waits = record {
  key = key_of id;
  status = status;
  capability = "build";
  payload = none;
  metadata = "{}";
  wait_for = waits;
  available_at = 0;
  leased = false;
  lease_id = "";
  cancel_flag = false;
  archived = none;
  step = 0;
  completion_detail = "";
  result = none;
  error = none;
  tasks = [];
  chapters = start_chapter ∷ [];
}

abbrev done_job : ToyJob
done_job = record (new_job "done" completed []) { archived = some 4 }

abbrev held_job : ToyJob
held_job = record (new_job "held" active []) { leased = true; lease_id = "L" }

abbrev jobs : Engine
jobs = held_job ∷ done_job ∷ []

jobs-AllSound : AllSound jobs
unfolding str_eq
jobs-AllSound = (
  record { while_active = refl; has_id = refl },
  (record { while_active = refl; has_id = refl }, tt),
)

abbrev complete_held : Call
complete_held = completes (key_of "held") "L" "succeeded" "" last_chapter 9

run-AllSound_example : AllSound (run services (λ need. need) complete_held jobs)
run-AllSound_example = run-AllSound services (λ need. need) complete_held jobs jobs-AllSound

run-Durable_example : Durable jobs (run services (λ need. need) complete_held jobs)
run-Durable_example = run-Durable services (λ need. need) complete_held jobs

abbrev again : RescheduleRequest
again = record {
  next_need = "build";
  payload = none;
  wait_for_job_ids = [];
  wait_until = none;
  alternate_need = "";
  alternate_after = none;
  alternate_negative = false;
}

done_found : find_job (key_of "done") jobs ≡ some done_job
unfolding find_job key_eq str_eq
done_found = refl

held_found : find_job (key_of "held") jobs ≡ some held_job
unfolding find_job key_eq str_eq
held_found = refl

reschedule_lease_revival_example :
    ((reschedule_lease (λ need. need) (key_of "done") "" again 9 jobs).1 ≡ ok tt)
    × ((lease : ToyLease) × ((get_toy_lease
            ("build" ∷ [])
            "M"
            30
            10
            (key_of "done")
            (reschedule_lease (λ need. need) (key_of "done") "" again 9 jobs).0).1
          ≡ ok (some lease))
        × (lease.capability ≡ "build"))
unfolding in_cap_set str_eq
reschedule_lease_revival_example =
    reschedule_lease_revival (λ need. need) (key_of "done") again 9 jobs ("build" ∷ []) "M" 30 10
      done_found refl refl refl refl refl

abbrev after_done : RescheduleRequest
after_done = record again { wait_for_job_ids = "done" ∷ []; wait_until = some 1000 }

abbrev settled_jobs : Engine
settled_jobs = (reschedule_lease (λ need. need) (key_of "held") "L" after_done 9 jobs).0

done_settled : all_settled settled_jobs "acme" ("done" ∷ []) ≡ true
unfolding all_settled settled find_job key_eq str_eq reschedule_lease update_job reschedule_record
    add_waiting_task
done_settled = refl

reschedule_lease_forgets_example :
    (job' : ToyJob) × (find_job
        (key_of "held")
        (reschedule_lease (λ need. need) (key_of "held") "L" after_done 9 jobs).0
      ≡ some job')
    × ((advance settled_jobs 10 job').status ≡ ready)
reschedule_lease_forgets_example =
    reschedule_lease_forgets (λ need. need) (key_of "held") "L" after_done 9 10 jobs settled_jobs
      held_found refl refl done_settled

abbrev note : Chapter
note = record {
  ordinal = 1;
  kind = other_chapter;
  task_type = "note";
  created_at = 3;
  content = "x";
}

store_run : (store_runtime_chapter services (key_of "held") 1 note jobs).1 ≡ ok tt
unfolding store_runtime_chapter appendable find_chapter find_job key_eq str_eq
store_run = refl

store_runtime_chapter_lem_run :
    (job : ToyJob) × (find_job (key_of "held") jobs ≡ some job)
    × (note.ordinal ≡ 1)
    × (has_chapter 1 job.chapters ≡ false)
    × (0 < 1 → has_chapter (1 - 1) job.chapters ≡ true)
    × (find_chapter 1 (
          chapters_of (
            find_job
              (key_of "held")
              (store_runtime_chapter services (key_of "held") 1 note jobs).0))
        ≡ some note)
store_runtime_chapter_lem_run =
    store_runtime_chapter_lem services (key_of "held") 1 note jobs store_run

abbrev token : LeaseClaims
token = record {
  tenant_id = "acme";
  job_id = "held";
  lease_id = "L";
  worker_id = "w";
  schema_hash = "";
  expires_at = 50;
}

authorize_iff_run :
    ((authorize (some token) (key_of "held") "L" 9 ≡ (true, ok tt)) ↔ (
      (token.tenant_id ≡ "acme")
      × (token.job_id ≡ "held")
      × (token.lease_id ≡ "L")
      × ((token.expires_at ≡ 0) ⊎ (9 < token.expires_at))))
    × ((authorize (some token) (key_of "held") "L" 9 ≡ (true, ok tt))
        ⊎ (authorize (some token) (key_of "held") "L" 9 ≡ (true, err execution_lease_lost)))
authorize_iff_run = authorize_iff token (key_of "held") "L" 9
