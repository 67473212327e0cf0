-- ===== src/Toy/Calls/Kept.antt =====
-- Every call of the toy runtime keeps the leases sound.
use swf_go.Prelude.{
  ℕ, ◌≡◌, ◌≢◌, refl, Bool, true, false, not, ◌&&◌, ◌||◌, String, Option, none, some, List, [], ◌∷◌,
  ◌++◌, length, str_eq, leb, ◌==◌, if◌then◌else◌, ok, err,
}
use swf_go.Runtime.{JobKey, Try, in_cap_set, is_empty_set}
use swf_go.Sqlite.{TaskWait}
use swf_go.Sqlite.Acquire.{LeaseRequest}
use swf_go.Sqlite.Lease.{CompleteTaskRequest}
use swf_go.Toy.{Chapter, ToyJob, Engine, Outcome, find_job, update_job, is_ready, advance}
use swf_go.Toy.Chapters.{
  Services, record_chapter, add_chapter, appendable, undecodable, store_checked, store_found,
  store_prepared, put_found, ensure_found, store_runtime_chapter, put_chapter, check_put,
  ensure_completion_chapter, check_completion, is_outcome, find_chapter,
}
use swf_go.Toy.Leases.{
  ToyLease, offered, lease_job, set_job, Polled, poll_found, poll_tested, toy_lease, get_found,
  change_found, complete_found, finish, resume, store_result, finish_task, task_found, under_lease,
  poll_jobs, poll_work, get_toy_lease, cancel_toy_job, cancel_record, keep_alive_toy,
  complete_record, complete_lease, reschedule_record, reschedule_lease, check_task, resume_record,
  check_result, complete_task_if_waiting,
}
use swf_go.Toy.Calls.{
  Call, run, polls, leases, cancels, renews, puts, completes, reschedules, finishes_task,
}
use swf_go.Toy.Calls.Exclusive.{
  Sound, AllSound, AllSound-find, AllSound-update, advance-Sound, lease_job-Sound, set_job-AllSound,
  cancel_record-Sound, complete_record-Sound, resume_record-Sound, reschedule_record-Sound,
  record_chapter-Sound,
}

if-AllSound :
    {A : Type 0} (b : Bool) (x y : Outcome A)
    → AllSound x.0
    → AllSound y.0
    → AllSound (if b then x else y).0
if-AllSound true x y p q = p
if-AllSound false x y p q = q

poll_found-AllSound :
    (req : LeaseRequest) (id : String) (limit now : ℕ) (rest : Engine → List ToyLease → Polled)
    (engine : Engine) (out : List ToyLease) (found : Option ToyJob)
    → id ≢ ""
    → ((e : Engine) (o : List ToyLease) → AllSound e → AllSound (rest e o).0)
    → AllSound engine
    → ((job : ToyJob) → found ≡ some job → Sound job)
    → AllSound (poll_found req id limit now rest engine out found).0
poll_found-AllSound req id limit now rest engine out none n r a s = r engine out a
poll_found-AllSound req id limit now rest engine out (some job) n r a s =
    tested (offered req current)
      (set_job-AllSound current engine (advance-Sound engine now job (s job refl)) a)
  where
    current : ToyJob
    current = advance engine now job

    tested :
        (t : Try Bool)
        → AllSound (set_job current engine)
        → AllSound (poll_tested req id limit now current rest (set_job current engine) out t).0
    tested (err e) b = b
    tested (ok false) b = r (set_job current engine) out b
    tested (ok true) b =
        let c : AllSound (set_job (lease_job id current) (set_job current engine)) =
          set_job-AllSound (lease_job id current) (set_job current engine)
            (lease_job-Sound id current n) b in
        if-AllSound (leb limit (length (out ++ toy_lease id req.lease_duration now current ∷ []))) _
          _ c (r _ _ c)

poll_jobs-AllSound :
    (req : LeaseRequest) (ids : ℕ → String) (limit now : ℕ) (keys : List JobKey) (engine : Engine)
    (out : List ToyLease)
    → ((n : ℕ) → ids n ≢ "")
    → AllSound engine
    → AllSound (poll_jobs req ids limit now keys engine out).0
unfolding poll_jobs
poll_jobs-AllSound req ids limit now [] engine out n a = a
poll_jobs-AllSound req ids limit now (key ∷ keys) engine out n a =
    if-AllSound (not (str_eq key.tenant_id req.tenant_id)) _ _
      (poll_jobs-AllSound req ids limit now keys engine out n a)
      (poll_found-AllSound req (ids (length out)) limit now
        (λ e o. poll_jobs req ids limit now keys e o) engine out (find_job key engine)
        (n (length out)) (λ e o b. poll_jobs-AllSound req ids limit now keys e o n b) a
        (λ job f. AllSound-find key engine a f))

get_found-AllSound :
    (capabilities : List String) (id : String) (duration now : ℕ) (engine : Engine)
    (found : Option ToyJob)
    → id ≢ ""
    → AllSound engine
    → ((job : ToyJob) → found ≡ some job → Sound job)
    → AllSound (get_found capabilities id duration now engine found).0
get_found-AllSound capabilities id duration now engine none n a s = a
get_found-AllSound capabilities id duration now engine (some job) n a s =
    let current : ToyJob = advance engine now job in
    let b : AllSound (set_job current engine) =
      set_job-AllSound current engine (advance-Sound engine now job (s job refl)) a in
    if-AllSound (current.leased || not (is_ready current.status)) _ _ b (
      if-AllSound (not (in_cap_set capabilities current.capability)) _ _ b (
        set_job-AllSound (lease_job id current) (set_job current engine)
          (lease_job-Sound id current n) b))

change_found-AllSound :
    (key : JobKey) (holds : ToyJob → Bool) (change : ToyJob → ToyJob) (engine : Engine)
    (found : Option ToyJob)
    → ((job : ToyJob) → Sound (change job))
    → AllSound engine
    → AllSound (change_found key holds change engine found).0
change_found-AllSound key holds change engine none s a = a
change_found-AllSound key holds change engine (some job) s a =
    if-AllSound (holds job) _ _ (AllSound-update key change engine (λ j h. s j) a) a

module _ (services : Services) (key : JobKey) where
  store_checked-AllSound :
      (chapter : Chapter) (engine : Engine) (t : Try (Unit {0}))
      → AllSound engine
      → AllSound (store_checked services key chapter engine t).0
  store_checked-AllSound chapter engine (err e) a = a
  store_checked-AllSound chapter engine (ok u) a =
      let b : AllSound (update_job key (add_chapter chapter) engine) =
        AllSound-update key (add_chapter chapter) engine
          (λ j h. record { while_active = h.while_active; has_id = h.has_id }) a in
      if-AllSound (not (is_outcome chapter.kind) && undecodable (services.decode chapter)) _ _ b (
        AllSound-update key (record_chapter services chapter) _
          (record_chapter-Sound services chapter) b)

  store_runtime_chapter-AllSound :
      (ordinal : ℕ) (chapter : Chapter) (engine : Engine)
      → AllSound engine
      → AllSound (store_runtime_chapter services key ordinal chapter engine).0
  unfolding store_runtime_chapter
  store_runtime_chapter-AllSound ordinal chapter engine a = found (find_job key engine)
    where
      found : (o : Option ToyJob) → AllSound (store_found services key ordinal chapter engine o).0
      found none = a
      found (some job) = store_checked-AllSound chapter engine (appendable ordinal chapter job) a

  store_prepared-AllSound :
      (ordinal : ℕ) (engine : Engine) (t : Try Chapter)
      → AllSound engine
      → AllSound (store_prepared services key ordinal engine t).0
  store_prepared-AllSound ordinal engine (err e) a = a
  store_prepared-AllSound ordinal engine (ok c) a =
      store_runtime_chapter-AllSound ordinal c engine a

  put_found-AllSound :
      (id : String) (ordinal : ℕ) (chapter : Chapter) (engine : Engine) (o : Option ToyJob)
      → AllSound engine
      → AllSound (put_found services key id ordinal chapter engine o).0
  put_found-AllSound id ordinal chapter engine none a = a
  put_found-AllSound id ordinal chapter engine (some job) a =
      store_prepared-AllSound ordinal engine (check_put services key id ordinal chapter job) a

  finish-AllSound :
      (status detail : String) (now : ℕ) (out : Outcome (Unit {0}))
      → AllSound out.0
      → AllSound (finish key status detail now out).0
  finish-AllSound status detail now (engine, err e) a = a
  finish-AllSound status detail now (engine, ok u) a =
      AllSound-update key (complete_record status detail now) engine
        (λ j h. complete_record-Sound status detail now j) a

  resume-AllSound :
      (req : CompleteTaskRequest) (wait : TaskWait) (out : Outcome (Unit {0}))
      → AllSound out.0
      → AllSound (resume key req wait out).0
  resume-AllSound req wait (engine, err e) a = a
  resume-AllSound req wait (engine, ok u) a =
      AllSound-update key (resume_record req wait) engine (λ j h. resume_record-Sound req wait j) a

module _ (services : Services) (key : JobKey) where
  complete_found-AllSound :
      (id status detail : String) (chapter : Chapter) (now : ℕ) (engine : Engine)
      (o : Option ToyJob)
      → AllSound engine
      → AllSound (complete_found services key id status detail chapter now engine o).0
  unfolding ensure_completion_chapter
  complete_found-AllSound id status detail chapter now engine none a = a
  complete_found-AllSound id status detail chapter now engine (some job) a =
      if-AllSound (under_lease id job) _ _
        (finish-AllSound services key status detail now
          (ensure_completion_chapter services job chapter engine)
          (ensured (find_chapter chapter.ordinal job.chapters)))
        a
    where
      ensured : (o : Option Chapter) → AllSound (ensure_found services job chapter engine o).0
      ensured (some existing) = a
      ensured none =
          store_prepared-AllSound services job.key chapter.ordinal engine
            (check_completion services chapter job) a

  task_found-AllSound :
      (types : String → String) (make : TaskWait → String → Chapter) (req : CompleteTaskRequest)
      (engine : Engine) (o : Option ToyJob)
      → AllSound engine
      → AllSound (task_found services types make key req engine o).0
  task_found-AllSound types make req engine none a = a
  task_found-AllSound types make req engine (some job) a = checked (check_task req job)
    where
      stored :
          (wait : TaskWait) (chapter : Chapter) (t : Try (Unit {0}))
          → AllSound (store_result services key req wait chapter engine t).0
      stored wait chapter (err e) = a
      stored wait chapter (ok u) =
          resume-AllSound services key req wait
            (store_runtime_chapter services key wait.output_step chapter engine)
            (store_runtime_chapter-AllSound services key wait.output_step chapter engine a)

      checked :
          (t : Try TaskWait) → AllSound (finish_task services types make key req engine job t).0
      checked (err e) = a
      checked (ok wait) =
          let chapter : Chapter = make wait (types job.capability) in
          stored wait chapter (check_result services types chapter job)

-- In the toy runtime, every job of the engine stays sound under polling, asking for one lease,
-- cancelling, keeping a lease alive, storing a chapter, completing, rescheduling and finishing a task,
-- also where the call fails: it is leased exactly while its status is ACTIVE, and it has a lease id
-- exactly then. What polling and asking for a lease do after they have granted leases, the check of
-- a schedule's runs, is not part of these calls here.
pub run-AllSound :
    (services : Services) (types : String → String) (call : Call) (engine : Engine)
    → AllSound engine
    → AllSound (run services types call engine)
unfolding run poll_work get_toy_lease cancel_toy_job keep_alive_toy put_chapter complete_lease
    reschedule_lease complete_task_if_waiting
run-AllSound s types (polls req ids fresh limit now keys) engine a =
    if-AllSound (str_eq req.tenant_id "") _ _ a
      (poll_jobs-AllSound req ids (if limit == 0 then 1 else limit) now keys engine [] fresh a)
run-AllSound s types (leases caps id fresh duration now key) engine a =
    if-AllSound (is_empty_set caps) _ _ a (
      get_found-AllSound caps id duration now engine (find_job key engine) fresh a
        (λ job f. AllSound-find key engine a f))
run-AllSound s types (cancels key now) engine a =
    change_found-AllSound key (λ job. true) (cancel_record now) engine (find_job key engine)
      (cancel_record-Sound now) a
run-AllSound s types (renews key id duration now) engine a = a
run-AllSound s types (puts key id ordinal chapter) engine a = if-AllSound (str_eq id "") _ _ a (
    if-AllSound (not (chapter.ordinal == ordinal)) _ _ a
      (put_found-AllSound s key id ordinal chapter engine (find_job key engine) a))
run-AllSound s types (completes key id status detail chapter now) engine a =
    if-AllSound (not (is_outcome chapter.kind)) _ _ a
      (complete_found-AllSound s key id status detail chapter now engine (find_job key engine) a)
run-AllSound s types (reschedules key id req now) engine a =
    change_found-AllSound key (under_lease id) (reschedule_record req (types req.next_need) now)
      engine (find_job key engine) (reschedule_record-Sound req (types req.next_need) now) a
run-AllSound s types (finishes_task make key req) engine a =
    task_found-AllSound s key types make req engine (find_job key engine) a
