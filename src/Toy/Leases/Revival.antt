-- ===== src/Toy/Leases/Revival.antt =====
-- Rescheduling in the toy runtime without a lease, and with a waiting time.
use swf_go.Prelude.{
  ℕ, ◌≡◌, refl, ap, ◌∙◌, true, false, String, Option, none, some, List, [], ok, str_eq_iff,
}
use swf_go.Runtime.{JobKey, ready, pending_jobs, in_cap_set, is_empty_set}
use swf_go.Sqlite.{TaskWait}
use swf_go.Sqlite.Lease.{RescheduleRequest}
use swf_go.Toy.{ToyJob, Engine, find_job, advance, awake, release, all_settled, is_empty}
use swf_go.Toy.Chapters.Append.{find_job-update_job, find_job-key}
use swf_go.Toy.Leases.{
  reschedule_lease, reschedule_record, add_waiting_task, wait_of, under_lease, change_found,
  get_found, get_toy_lease, ToyLease, toy_lease,
}

add_waiting_task-rest :
    (wait : Option TaskWait) (task_type : String) (now : ℕ) (job : ToyJob)
    → ((add_waiting_task wait task_type now job).key ≡ job.key)
      × ((add_waiting_task wait task_type now job).wait_for ≡ job.wait_for)
      × ((add_waiting_task wait task_type now job).leased ≡ job.leased)
      × ((add_waiting_task wait task_type now job).capability ≡ job.capability)
unfolding add_waiting_task
add_waiting_task-rest none task_type now job = (refl, refl, refl, refl)
add_waiting_task-rest (some wait) task_type now job = (refl, refl, refl, refl)

reschedule_record-key :
    (req : RescheduleRequest) (task_type : String) (now : ℕ) (job : ToyJob)
    → (reschedule_record req task_type now job).key ≡ job.key
unfolding reschedule_record
reschedule_record-key req task_type now job =
    (add_waiting_task-rest (wait_of req.payload) task_type now _).0

rescheduled :
    (types : String → String) (key : JobKey) (lease_id : String) (req : RescheduleRequest) (now : ℕ)
    (engine : Engine) {job : ToyJob}
    → find_job key engine ≡ some job
    → job.lease_id ≡ lease_id
    → find_job key (reschedule_lease types key lease_id req now engine).0
      ≡ some (reschedule_record req (types req.next_need) now job)
unfolding reschedule_lease
rescheduled types key lease_id req now engine {job} f e =
    let change : ToyJob → ToyJob = reschedule_record req (types req.next_need) now in
    let held : under_lease lease_id job ≡ true = (str_eq_iff job.lease_id lease_id).1 e in
    ap (λ o. find_job key (change_found key (under_lease lease_id) change engine o).0) f
    ∙ rw held (
        find_job-update_job key change
          (λ j k. reschedule_record-key req (types req.next_need) now j ∙ k) engine f)

ready_kept :
    (engine : Engine) (now : ℕ) (job : ToyJob) → job.status ≡ ready → advance engine now job ≡ job
unfolding advance awake release
ready_kept engine now job s = simp s refl

-- A READY job without a lease is leased to whoever asks for it with its capability.
ready_leased :
    (capabilities : List String) (id : String) (duration now : ℕ) (engine : Engine) (job : ToyJob)
    → job.status ≡ ready
    → job.leased ≡ false
    → in_cap_set capabilities job.capability ≡ true
    → (get_found capabilities id duration now engine (some job)).1
      ≡ ok (some (toy_lease id duration now job))
ready_leased capabilities id duration now engine job s l c =
    simp (ready_kept engine now job s, l, s, c) refl

-- The toy runtime lets a caller without a lease revive a job that is over: under the empty lease id,
-- which every job without a lease has, a reschedule that waits for nothing succeeds whatever the
-- status of the job is, completed and cancelled included, and after it the job is leased again to
-- whoever asks for it with the new capability. (The check of a schedule's runs, which follows the
-- grant of a lease, is not part of this.)
pub reschedule_lease_revival :
    (types : String → String) (key : JobKey) (req : RescheduleRequest) (now : ℕ) (engine : Engine)
    (capabilities : List String) (id : String) (duration later : ℕ) {job : ToyJob}
    → find_job key engine ≡ some job
    → job.lease_id ≡ ""
    → req.wait_for_job_ids ≡ []
    → req.wait_until ≡ none
    → is_empty_set capabilities ≡ false
    → in_cap_set capabilities req.next_need ≡ true
    → ((reschedule_lease types key "" req now engine).1 ≡ ok tt)
      × ((lease : ToyLease) × ((get_toy_lease capabilities id duration later key
              (reschedule_lease types key "" req now engine).0).1
            ≡ ok (some lease))
          × (lease.capability ≡ req.next_need))
unfolding reschedule_lease reschedule_record get_toy_lease toy_lease add_waiting_task
reschedule_lease_revival types key req now engine capabilities id duration later {job} f e w u full
      c =
    let (_, _, free, need) =
      add_waiting_task-rest (wait_of req.payload) (types req.next_need) now _ in
    let revived : ToyJob = reschedule_record req (types req.next_need) now job in
    let held : under_lease "" job ≡ true = (str_eq_iff job.lease_id "").1 e in
    let is_revived : revived.status ≡ ready = rw w (rw u refl) in
    let after : Engine = (reschedule_lease types key "" req now engine).0 in
    (
      simp (f, held) refl,
      (
        toy_lease id duration later revived,
        simp full (
            ap (λ o. (get_found capabilities id duration later after o).1)
              (rescheduled types key "" req now engine f e)
            ∙ ready_leased capabilities id duration later after revived is_revived free
                (rw need c)),
        need,
      ),
    )

advance_pending :
    (engine : Engine) (now : ℕ) (job : ToyJob)
    → job.status ≡ pending_jobs
    → job.available_at ≡ 0
    → is_empty job.wait_for ≡ false
    → all_settled engine job.key.tenant_id job.wait_for ≡ true
    → (advance engine now job).status ≡ ready
unfolding advance
advance_pending engine now job s a w d =
    let same : awake now job ≡ job = unfold awake in (rw s refl) in
    rw same (unfold release in (rw (s, w, d, a) refl))

-- The toy runtime forgets the waiting time of a reschedule that also waits for jobs: in every engine
-- in which these are settled, the job that the call has left becomes READY at every time, before the
-- requested one too.
pub reschedule_lease_forgets :
    (types : String → String) (key : JobKey) (lease_id : String) (req : RescheduleRequest)
    (now later : ℕ) (engine after : Engine) {job : ToyJob}
    → find_job key engine ≡ some job
    → job.lease_id ≡ lease_id
    → is_empty req.wait_for_job_ids ≡ false
    → all_settled after key.tenant_id req.wait_for_job_ids ≡ true
    → (job' : ToyJob) × (find_job key (reschedule_lease types key lease_id req now engine).0
        ≡ some job')
      × ((advance after later job').status ≡ ready)
unfolding reschedule_record
reschedule_lease_forgets types key lease_id req now later engine after {job} f e w d =
    let (_, waits, _, _) =
      add_waiting_task-rest (wait_of req.payload) (types req.next_need) now _ in
    let job' : ToyJob = reschedule_record req (types req.next_need) now job in
    let k : job'.key ≡ key =
      reschedule_record-key req (types req.next_need) now job ∙ find_job-key key engine f in
    (
      job',
      rescheduled types key lease_id req now engine f e,
      advance_pending after later job' (rw w refl) (rw w refl) (ap is_empty waits ∙ w) (
          ap (λ (q : JobKey). all_settled after q.tenant_id job'.wait_for) k
          ∙ ap (all_settled after key.tenant_id) waits
          ∙ d),
    )
