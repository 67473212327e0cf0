-- ===== src/Toy/Calls/Storing.antt =====
-- Every call of the toy runtime, as a whole, keeps the stored chapters.
use swf_go.Prelude.{
  ℕ, ◌≡◌, refl, Bool, true, not, ◌&&◌, String, Option, none, some, [], str_eq, ◌==◌, if◌then◌else◌,
  ok, err, arith,
}
use swf_go.Runtime.{JobKey, Try, is_empty_set}
use swf_go.Sqlite.{TaskWait}
use swf_go.Sqlite.Lease.{CompleteTaskRequest, RescheduleRequest}
use swf_go.Toy.{Chapter, ToyJob, Engine, Outcome, find_job, update_job}
use swf_go.Toy.Chapters.{
  Services, record_chapter, add_chapter, appendable, undecodable, store_checked, store_found,
  store_prepared, put_found, ensure_found, store_runtime_chapter, put_chapter, check_put,
  ensure_completion_chapter, check_completion, is_outcome, find_chapter,
}
use swf_go.Toy.Leases.{
  change_found, complete_found, finish, resume, store_result, finish_task, task_found, under_lease,
  poll_work, get_toy_lease, cancel_toy_job, cancel_record, keep_alive_toy, complete_record,
  complete_lease, add_waiting_task, wait_of, reschedule_record, reschedule_lease, check_task,
  resume_record, check_result, complete_task_if_waiting,
}
use swf_go.Toy.Calls.{
  Call, run, polls, leases, cancels, renews, puts, completes, reschedules, finishes_task,
}
use swf_go.Toy.Chapters.Append.{Durable, Durable-same, Durable-add_chapter}
use swf_go.Toy.Calls.Durability.{
  Durable-refl, Durable-trans, if-Durable, find_job-Located, poll_jobs-Durable, get_found-Durable,
}

change_found-Durable :
    (key : JobKey) (holds : ToyJob → Bool) (change : ToyJob → ToyJob) (engine : Engine)
    (found : Option ToyJob)
    → ((j : ToyJob) → ((change j).key ≡ j.key) × ((change j).chapters ≡ j.chapters))
    → Durable engine (change_found key holds change engine found).0
change_found-Durable key holds change engine none s = Durable-refl engine
change_found-Durable key holds change engine (some job) s =
    if-Durable (holds job) engine _ _ (Durable-same key change engine s) (Durable-refl engine)

pub record_chapter_same :
    (services : Services) (chapter : Chapter) (j : ToyJob)
    → ((record_chapter services chapter j).key ≡ j.key)
      × ((record_chapter services chapter j).chapters ≡ j.chapters)
unfolding record_chapter
record_chapter_same services chapter j = ground arith

add_waiting_task_same :
    (wait : Option TaskWait) (task_type : String) (now : ℕ) (job : ToyJob)
    → ((add_waiting_task wait task_type now job).key ≡ job.key)
      × ((add_waiting_task wait task_type now job).chapters ≡ job.chapters)
unfolding add_waiting_task
add_waiting_task_same none task_type now job = (refl, refl)
add_waiting_task_same (some wait) task_type now job = (refl, refl)

reschedule_record_same :
    (req : RescheduleRequest) (task_type : String) (now : ℕ) (j : ToyJob)
    → ((reschedule_record req task_type now j).key ≡ j.key)
      × ((reschedule_record req task_type now j).chapters ≡ j.chapters)
unfolding reschedule_record
reschedule_record_same req task_type now j =
    add_waiting_task_same (wait_of req.payload) task_type now _

module _ (services : Services) (key : JobKey) where
  store_runtime_chapter-Durable :
      (ordinal : ℕ) (chapter : Chapter) (engine : Engine)
      → Durable engine (store_runtime_chapter services key ordinal chapter engine).0
  unfolding store_runtime_chapter
  store_runtime_chapter-Durable ordinal chapter engine = found (find_job key engine) refl
    where
      checked :
          (job : ToyJob) (t : Try (Unit {0}))
          → find_job key engine ≡ some job
          → appendable ordinal chapter job ≡ t
          → Durable engine (store_checked services key chapter engine t).0
      checked job (err e) f p = Durable-refl engine
      checked job (ok u) f p =
          let d : Durable engine (update_job key (add_chapter chapter) engine) =
            Durable-add_chapter key ordinal chapter engine job f p in
          if-Durable (not (is_outcome chapter.kind) && undecodable (services.decode chapter)) engine
            _ _ d
            (Durable-trans engine _ _ d (
              Durable-same key (record_chapter services chapter) _
                (record_chapter_same services chapter)))

      found :
          (o : Option ToyJob)
          → find_job key engine ≡ o
          → Durable engine (store_found services key ordinal chapter engine o).0
      found none f = Durable-refl engine
      found (some job) f = checked job (appendable ordinal chapter job) f refl

  store_prepared-Durable :
      (ordinal : ℕ) (engine : Engine) (t : Try Chapter)
      → Durable engine (store_prepared services key ordinal engine t).0
  store_prepared-Durable ordinal engine (err e) = Durable-refl engine
  store_prepared-Durable ordinal engine (ok c) = store_runtime_chapter-Durable ordinal c engine

  put_found-Durable :
      (id : String) (ordinal : ℕ) (chapter : Chapter) (engine : Engine) (o : Option ToyJob)
      → Durable engine (put_found services key id ordinal chapter engine o).0
  put_found-Durable id ordinal chapter engine none = Durable-refl engine
  put_found-Durable id ordinal chapter engine (some job) =
      store_prepared-Durable ordinal engine (check_put services key id ordinal chapter job)

  finish-Durable :
      (status detail : String) (now : ℕ) (engine : Engine) (out : Outcome (Unit {0}))
      → Durable engine out.0
      → Durable engine (finish key status detail now out).0
  unfolding complete_record
  finish-Durable status detail now engine (e, err x) d = d
  finish-Durable status detail now engine (e, ok u) d =
      Durable-trans engine e _ d
        (Durable-same key (complete_record status detail now) e (λ j. (refl, refl)))

  resume-Durable :
      (req : CompleteTaskRequest) (wait : TaskWait) (engine : Engine) (out : Outcome (Unit {0}))
      → Durable engine out.0
      → Durable engine (resume key req wait out).0
  unfolding resume_record
  resume-Durable req wait engine (e, err x) d = d
  resume-Durable req wait engine (e, ok u) d =
      Durable-trans engine e _ d (Durable-same key (resume_record req wait) e (λ j. (refl, refl)))

module _ (services : Services) (key : JobKey) where
  complete_found-Durable :
      (id status detail : String) (chapter : Chapter) (now : ℕ) (engine : Engine)
      (o : Option ToyJob)
      → Durable engine (complete_found services key id status detail chapter now engine o).0
  unfolding ensure_completion_chapter
  complete_found-Durable id status detail chapter now engine none = Durable-refl engine
  complete_found-Durable id status detail chapter now engine (some job) =
      if-Durable (under_lease id job) engine _ _
        (finish-Durable services key status detail now engine
          (ensure_completion_chapter services job chapter engine)
          (ensured (find_chapter chapter.ordinal job.chapters)))
        (Durable-refl engine)
    where
      ensured : (o : Option Chapter) → Durable engine (ensure_found services job chapter engine o).0
      ensured (some existing) = Durable-refl engine
      ensured none =
          store_prepared-Durable services job.key chapter.ordinal engine
            (check_completion services chapter job)

  task_found-Durable :
      (types : String → String) (make : TaskWait → String → Chapter) (req : CompleteTaskRequest)
      (engine : Engine) (o : Option ToyJob)
      → Durable engine (task_found services types make key req engine o).0
  task_found-Durable types make req engine none = Durable-refl engine
  task_found-Durable types make req engine (some job) = checked (check_task req job)
    where
      stored :
          (wait : TaskWait) (chapter : Chapter) (t : Try (Unit {0}))
          → Durable engine (store_result services key req wait chapter engine t).0
      stored wait chapter (err e) = Durable-refl engine
      stored wait chapter (ok u) =
          resume-Durable services key req wait engine
            (store_runtime_chapter services key wait.output_step chapter engine)
            (store_runtime_chapter-Durable services key wait.output_step chapter engine)

      checked :
          (t : Try TaskWait)
          → Durable engine (finish_task services types make key req engine job t).0
      checked (err e) = Durable-refl engine
      checked (ok wait) =
          let chapter : Chapter = make wait (types job.capability) in
          stored wait chapter (check_result services types chapter job)

-- The history of a job of the toy runtime is append-only under polling, asking for one lease,
-- cancelling, keeping a lease alive, storing a chapter, completing, rescheduling and finishing a task,
-- also where the call fails: every chapter that was stored is still there under its ordinal,
-- unchanged. What polling and asking for a lease do after they have granted leases, the check of a
-- schedule's runs, is not part of these calls here.
pub run-Durable :
    (services : Services) (types : String → String) (call : Call) (engine : Engine)
    → Durable engine (run services types call engine)
unfolding run poll_work get_toy_lease cancel_toy_job cancel_record keep_alive_toy put_chapter
    complete_lease reschedule_lease complete_task_if_waiting
run-Durable s types (polls req ids fresh limit now keys) engine =
    if-Durable (str_eq req.tenant_id "") engine _ _ (Durable-refl engine)
      (poll_jobs-Durable req ids (if limit == 0 then 1 else limit) now keys engine [])
run-Durable s types (leases caps id fresh duration now key) engine =
    if-Durable (is_empty_set caps) engine _ _ (Durable-refl engine) (
      get_found-Durable caps id duration now engine (find_job key engine)
        (find_job-Located key engine))
run-Durable s types (cancels key now) engine =
    change_found-Durable key (λ job. true) (cancel_record now) engine (find_job key engine)
      (λ j. (refl, refl))
run-Durable s types (renews key id duration now) engine = Durable-refl engine
run-Durable s types (puts key id ordinal chapter) engine =
    if-Durable (str_eq id "") engine _ _ (Durable-refl engine) (
      if-Durable (not (chapter.ordinal == ordinal)) engine _ _ (Durable-refl engine)
        (put_found-Durable s key id ordinal chapter engine (find_job key engine)))
run-Durable s types (completes key id status detail chapter now) engine =
    if-Durable (not (is_outcome chapter.kind)) engine _ _ (Durable-refl engine)
      (complete_found-Durable s key id status detail chapter now engine (find_job key engine))
run-Durable s types (reschedules key id req now) engine =
    change_found-Durable key (under_lease id) (reschedule_record req (types req.next_need) now)
      engine (find_job key engine) (reschedule_record_same req (types req.next_need) now)
run-Durable s types (finishes_task make key req) engine =
    task_found-Durable s key types make req engine (find_job key engine)
