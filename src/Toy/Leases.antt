-- ===== src/Toy/Leases.antt =====
-- The toy runtime's leases: PollWork, GetJobLease, CancelJob, KeepAliveLeaseByIDWithExpiry,
-- completeLease, rescheduleLease and CompleteTaskIfWaiting. Fresh lease ids and the order in which
-- the map of jobs is visited are arguments. The schedule preflight on a new lease is left out.
pub mod Revival
use swf_go.Prelude.{
  ℕ, ◌-◌, ◌+◌, Bool, true, false, not, ◌&&◌, ◌||◌, String, Option, none, some, List, [], ◌∷◌, ◌++◌,
  length, str_eq, ltb, leb, ◌==◌, if◌then◌else◌, Result, ok, err, ◌>>=◌, ◌>>◌, fail_if,
}
use swf_go.Runtime.{
  JobKey, JobStatus, ready, pending_jobs, awaiting_future, active, cancelled, completed, Try,
  job_not_found, execution_lease_lost, conflict, other_error, in_cap_set, is_empty_set,
}
use swf_go.Sqlite.{JobPayload, TaskWait, lease_duration_or_default}
use swf_go.Sqlite.Acquire.{LeaseRequest}
use swf_go.Sqlite.Lease.{CompleteTaskRequest, RescheduleRequest, differs}
use swf_go.Toy.{
  Chapter, job_attempt_outcome, other_chapter, ToyTask, ToyJob, Engine, Outcome, find_job,
  update_job, advance, is_ready, is_empty,
}
use swf_go.Toy.Chapters.{
  Services, is_outcome, put_task, store_runtime_chapter, ensure_completion_chapter,
}

pub record ToyLease : Type 0 where
  pub job_key : JobKey
  pub lease_id : String
  pub capability : String
  pub payload : Option JobPayload
  pub expires_at : ℕ
  pub duration : ℕ

-- The tests on a record that has been advanced.
unfoldable pub offered : LeaseRequest → ToyJob → Try Bool
offered req job =
    if job.leased || not (is_ready job.status)
    then ok false
    else if not (in_cap_set req.capabilities job.capability)
    then ok false
    else req.metadata_matches job.metadata

unfoldable pub lease_job : String → ToyJob → ToyJob
lease_job lease_id job = record job { leased = true; status = active; lease_id = lease_id }

unfoldable pub toy_lease : String → ℕ → ℕ → ToyJob → ToyLease
toy_lease lease_id duration now job = record {
  job_key = job.key;
  lease_id = lease_id;
  capability = job.capability;
  payload = job.payload;
  expires_at = now + lease_duration_or_default duration;
  duration = lease_duration_or_default duration;
}

abbrev pub set_job : ToyJob → Engine → Engine
set_job job engine = update_job job.key (λ (old : ToyJob). job) engine

abbrev pub Polled : Type 0
Polled = Outcome (List ToyLease)

-- A record that was advanced to `current`, after its tests; `rest` goes on with the next key. A
-- failing metadata test ends the call, with the leases so far taken in the engine.
abbrev pub poll_tested :
    LeaseRequest
    → String
    → ℕ
    → ℕ
    → ToyJob
    → (Engine → List ToyLease → Polled)
    → Engine
    → List ToyLease
    → Try Bool
    → Polled
poll_tested req id limit now current rest engine out (err e) = (engine, err e)
poll_tested req id limit now current rest engine out (ok false) = rest engine out
poll_tested req id limit now current rest engine out (ok true) =
    let leased : Engine = set_job (lease_job id current) engine in
    let out' : List ToyLease = out ++ toy_lease id req.lease_duration now current ∷ [] in
    if leb limit (length out') then (leased, ok out') else rest leased out'

abbrev pub poll_found :
    LeaseRequest
    → String
    → ℕ
    → ℕ
    → (Engine → List ToyLease → Polled)
    → Engine
    → List ToyLease
    → Option ToyJob
    → Polled
poll_found req id limit now rest engine out none = rest engine out
poll_found req id limit now rest engine out (some job) =
    let current : ToyJob = advance engine now job in
    poll_tested req id limit now current rest (set_job current engine) out (offered req current)

-- The loop of PollWork over the keys in the order of the map, `out` the leases so far; ids gives
-- fresh lease ids.
unfoldable pub poll_jobs :
    LeaseRequest → (ℕ → String) → ℕ → ℕ → List JobKey → Engine → List ToyLease → Polled
poll_jobs req ids limit now [] engine out = (engine, ok out)
poll_jobs req ids limit now (key ∷ keys) engine out =
    let rest : Engine → List ToyLease → Polled = λ e o. poll_jobs req ids limit now keys e o in
    if not (str_eq key.tenant_id req.tenant_id)
    then rest engine out
    else poll_found req (ids (length out)) limit now rest engine out (find_job key engine)

-- PollWork up to the check of a schedule's runs on the granted leases; a limit that is not positive
-- is 0.
unfoldable pub poll_work :
    LeaseRequest → (ℕ → String) → ℕ → ℕ → List JobKey → Engine → Outcome (List ToyLease)
poll_work req ids limit now keys engine =
    if str_eq req.tenant_id ""
    then (engine, err (other_error "tenant_id is required for PollWork"))
    else poll_jobs req ids (if limit == 0 then 1 else limit) now keys engine []

abbrev pub get_found :
    List String → String → ℕ → ℕ → Engine → Option ToyJob → Outcome (Option ToyLease)
get_found capabilities lease_id duration now engine none = (engine, ok none)
get_found capabilities lease_id duration now engine (some job) =
    let current : ToyJob = advance engine now job in
    let advanced : Engine = set_job current engine in
    if current.leased || not (is_ready current.status)
    then (advanced, ok none)
    else if not (in_cap_set capabilities current.capability)
    then (advanced, ok none)
    else (
      set_job (lease_job lease_id current) advanced,
      ok (some (toy_lease lease_id duration now current)),
    )

-- GetJobLease up to the check of a schedule's run on the granted lease; it has no metadata test.
unfoldable pub get_toy_lease :
    List String → String → ℕ → ℕ → JobKey → Engine → Outcome (Option ToyLease)
get_toy_lease capabilities lease_id duration now key engine =
    if is_empty_set capabilities
    then (engine, err (other_error "at least one capability is required"))
    else get_found capabilities lease_id duration now engine (find_job key engine)

unfoldable pub cancel_record : ℕ → ToyJob → ToyJob
cancel_record now job = record job {
  cancel_flag = true;
  status = cancelled;
  error = some "context canceled";
  archived = some now;
  leased = false;
  lease_id = "";
}

-- A change of a record that was found under the condition of the call.
abbrev pub change_found :
    JobKey → (ToyJob → Bool) → (ToyJob → ToyJob) → Engine → Option ToyJob → Outcome (Unit {0})
change_found key holds change engine none = (engine, err job_not_found)
change_found key holds change engine (some job) =
    if holds job then (update_job key change engine, ok tt) else (engine, err execution_lease_lost)

-- CancelJob
unfoldable pub cancel_toy_job : JobKey → ℕ → Engine → Outcome (Unit {0})
cancel_toy_job key now engine =
    change_found key (λ job. true) (cancel_record now) engine (find_job key engine)

-- `record.leaseID != leaseID`, negated
abbrev pub under_lease : String → ToyJob → Bool
under_lease lease_id job = str_eq job.lease_id lease_id

-- KeepAliveLeaseByIDWithExpiry
unfoldable pub keep_alive_toy : JobKey → String → ℕ → ℕ → Engine → Outcome ℕ
keep_alive_toy key lease_id duration now engine = (
  engine,
  elim (find_job key engine) [
    | none ↦ err job_not_found
    | some job ↦
        if under_lease lease_id job
        then ok (now + lease_duration_or_default duration)
        else err execution_lease_lost
  ],
)

unfoldable pub complete_record : String → String → ℕ → ToyJob → ToyJob
complete_record status detail now job =
    let cancelling : Bool = str_eq status "cancelled" in
    record job {
      leased = false;
      lease_id = "";
      archived = some now;
      completion_detail = detail;
      status = if cancelling then cancelled else completed;
      cancel_flag = if cancelling then true else job.cancel_flag;
      error = if cancelling then some "job cancelled" else job.error;
    }

abbrev pub finish : JobKey → String → String → ℕ → Outcome (Unit {0}) → Outcome (Unit {0})
finish key status detail now (engine, err e) = (engine, err e)
finish key status detail now (engine, ok u) =
    (update_job key (complete_record status detail now) engine, ok tt)

abbrev pub complete_found :
    Services
    → JobKey
    → String
    → String
    → String
    → Chapter
    → ℕ
    → Engine
    → Option ToyJob
    → Outcome (Unit {0})
complete_found services key lease_id status detail chapter now engine none =
    (engine, err job_not_found)
complete_found services key lease_id status detail chapter now engine (some job) =
    if under_lease lease_id job
    then finish key status detail now (ensure_completion_chapter services job chapter engine)
    else (engine, err execution_lease_lost)

-- completeLease with its final chapter. A call runs alone, so that the second check of the lease id
-- passes when the first one does.
unfoldable pub complete_lease :
    Services → JobKey → String → String → String → Chapter → ℕ → Engine → Outcome (Unit {0})
complete_lease services key lease_id status detail chapter now engine =
    if not (is_outcome chapter.kind)
    then (engine, err (other_error "final chapter has another kind"))
    else complete_found services key lease_id status detail chapter now engine (find_job key engine)

unfoldable pub find_task : ℕ → List ToyTask → Option ToyTask
find_task ordinal [] = none
find_task ordinal (t ∷ ts) = if t.ordinal == ordinal then some t else find_task ordinal ts

abbrev task_data : Option ToyTask → Option String
task_data none = none
task_data (some task) = elim task.output [ none ↦ task.input | some out ↦ some out ]

-- The task that a worker waits for gets its place in the record.
unfoldable pub add_waiting_task : Option TaskWait → String → ℕ → ToyJob → ToyJob
add_waiting_task none task_type now job = record job { step = 0 }
add_waiting_task (some wait) task_type now job = record job {
  step = wait.output_step;
  tasks = elim (find_task wait.output_step job.tasks) [
    | some task ↦ job.tasks
    | none ↦
        put_task
          (record {
            ordinal = wait.output_step;
            task_type = task_type;
            created_at = now;
            input = task_data (find_task wait.input_step job.tasks);
            output = none;
            attempt = 1;
            error = none;
          })
          job.tasks
  ];
}

abbrev pub wait_of : Option JobPayload → Option TaskWait
wait_of none = none
wait_of (some payload) = payload.task_wait

abbrev pub future_wait : Option ℕ → ℕ → Option ℕ
future_wait none now = none
future_wait (some t) now = if ltb now t then some t else none

-- The switch at the end of rescheduleLease, as the status and the waiting time.
abbrev pub next_status : RescheduleRequest → ℕ → JobStatus × ℕ
next_status req now =
    if not (is_empty req.wait_for_job_ids)
    then (pending_jobs, 0)
    else elim (future_wait req.wait_until now) [ none ↦ (ready, 0) | some t ↦ (awaiting_future, t) ]

unfoldable pub reschedule_record : RescheduleRequest → String → ℕ → ToyJob → ToyJob
reschedule_record req task_type now job =
    let waiting : ToyJob = add_waiting_task (wait_of req.payload) task_type now (record job {
      leased = false;
      lease_id = "";
      capability = req.next_need;
      payload = req.payload;
      wait_for = req.wait_for_job_ids;
    }) in
    record waiting { status = (next_status req now).0; available_at = (next_status req now).1 }

-- rescheduleLease; task_type_of is extractTaskType.
unfoldable pub reschedule_lease :
    (String → String) → JobKey → String → RescheduleRequest → ℕ → Engine → Outcome (Unit {0})
reschedule_lease task_type_of key lease_id req now engine =
    change_found key (under_lease lease_id) (reschedule_record req (task_type_of req.next_need) now)
      engine (find_job key engine)

-- The guards of CompleteTaskIfWaiting.
unfoldable pub check_task : CompleteTaskRequest → ToyJob → Try TaskWait
check_task req job = do
  payload ← elim job.payload [ none ↦ err (other_error "undecodable payload") | some p ↦ ok p ]
  wait ← elim payload.task_wait [ none ↦ err conflict | some wait ↦ ok wait ]
  fail_if (differs req.capability job.capability) conflict
  fail_if (differs req.resume_need wait.next) conflict
  fail_if (not (req.input_ordinal == 0) && not (wait.input_step == req.input_ordinal)) conflict
  fail_if (not (wait.output_step == req.output_ordinal)) conflict
  fail_if (differs req.input_hash wait.input_hash) conflict
  ok wait

abbrev policy_of : Option JobPayload → String
policy_of none = ""
policy_of (some payload) = payload.run_policy

unfoldable pub resume_record : CompleteTaskRequest → TaskWait → ToyJob → ToyJob
resume_record req wait job = record job {
  capability = if str_eq req.resume_need "" then wait.next else req.resume_need;
  payload =
      some (record { run_policy = policy_of job.payload; task_wait = none; visible_payload = "" });
  status = ready;
  leased = false;
  lease_id = "";
  step = wait.output_step;
}

abbrev pub resume :
    JobKey → CompleteTaskRequest → TaskWait → Outcome (Unit {0}) → Outcome (Unit {0})
resume key req wait (engine, err e) = (engine, err e)
resume key req wait (engine, ok u) = (update_job key (resume_record req wait) engine, ok tt)

-- The checks between the guards and the store: the chapter of the result, as the arguments give it.
unfoldable pub check_result : Services → (String → String) → Chapter → ToyJob → Try (Unit {0})
check_result services task_type_of chapter job = do
  prepared ← services.prepare chapter
  fail_if
      (str_eq (task_type_of job.capability) ""
        || str_eq (task_type_of job.capability) job.capability)
      (other_error "task type not found in capability")
  services.validate job.metadata chapter

abbrev pub store_result :
    Services
    → JobKey
    → CompleteTaskRequest
    → TaskWait
    → Chapter
    → Engine
    → Try (Unit {0})
    → Outcome (Unit {0})
store_result services key req wait chapter engine (err e) = (engine, err e)
store_result services key req wait chapter engine (ok u) =
    resume key req wait (store_runtime_chapter services key wait.output_step chapter engine)

abbrev pub finish_task :
    Services
    → (String → String)
    → (TaskWait → String → Chapter)
    → JobKey
    → CompleteTaskRequest
    → Engine
    → ToyJob
    → Try TaskWait
    → Outcome (Unit {0})
finish_task services task_type_of result_chapter key req engine job (err e) = (engine, err e)
finish_task services task_type_of result_chapter key req engine job (ok wait) =
    let chapter : Chapter = result_chapter wait (task_type_of job.capability) in
    store_result services key req wait chapter engine
      (check_result services task_type_of chapter job)

abbrev pub task_found :
    Services
    → (String → String)
    → (TaskWait → String → Chapter)
    → JobKey
    → CompleteTaskRequest
    → Engine
    → Option ToyJob
    → Outcome (Unit {0})
task_found services task_type_of result_chapter key req engine none = (engine, err job_not_found)
task_found services task_type_of result_chapter key req engine (some job) =
    finish_task services task_type_of result_chapter key req engine job (check_task req job)

-- CompleteTaskIfWaiting; result_chapter makes the chapter of the result.
unfoldable pub complete_task_if_waiting :
    Services
    → (String → String)
    → (TaskWait → String → Chapter)
    → JobKey
    → CompleteTaskRequest
    → Engine
    → Outcome (Unit {0})
complete_task_if_waiting services task_type_of result_chapter key req engine =
    task_found services task_type_of result_chapter key req engine (find_job key engine)
