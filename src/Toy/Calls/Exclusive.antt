-- ===== src/Toy/Calls/Exclusive.antt =====
-- The state of a lease in the toy runtime: the flag, the id and the status of a record agree.
use swf_go.Prelude.{
  ℕ, ◌≡◌, ◌≢◌, refl, sym, ◌∙◌, inl, inr, Bool, true, false, not, ◌&&◌, String, Option, none, some,
  [], ◌∷◌, str_eq, str_eq_iff, ltb, ◌==◌, if◌then◌else◌, arith, Bool-cases, Option-cases, some-inj,
  subst,
}
use swf_go.Runtime.{
  JobKey, key_eq, JobStatus, ready, expired, pending_jobs, awaiting_future, active, crash_concern,
  cancelled, completed,
}
use swf_go.Sqlite.{TaskWait}
use swf_go.Sqlite.Lease.{CompleteTaskRequest, RescheduleRequest}
use swf_go.Toy.{
  Chapter, ToyJob, Engine, find_job, update_job, is_active, is_pending, is_awaiting, is_empty,
  is_later, advance, awake, release, all_settled,
}
use swf_go.Toy.Chapters.{Services, record_chapter, is_outcome}
use swf_go.Toy.Leases.{
  lease_job, set_job, cancel_record, complete_record, add_waiting_task, wait_of, reschedule_record,
  next_status, future_wait, resume_record,
}

-- A job is leased exactly while its status is ACTIVE, and has a lease id exactly then.
pub record Sound (job : ToyJob) : Type 0 where
  pub while_active : job.leased ≡ is_active job.status
  pub has_id : str_eq job.lease_id "" ≡ not job.leased

abbrev pub AllSound : Engine → Type 0
AllSound [] = Unit
AllSound (job ∷ jobs) = Sound job × AllSound jobs

pub AllSound-find :
    (key : JobKey) (engine : Engine) {job : ToyJob}
    → AllSound engine
    → find_job key engine ≡ some job
    → Sound job
unfolding find_job
AllSound-find key [] s e = absurd (ground arith)
AllSound-find key (j ∷ jobs) {job} (h, t) e = elim (Bool-cases (key_eq j.key key)) [
  | inl hit ↦ subst Sound (some-inj (rw hit at e)) h
  | inr miss ↦ AllSound-find key jobs t (rw miss at e)
]

pub AllSound-update :
    (key : JobKey) (change : ToyJob → ToyJob) (engine : Engine)
    → ((job : ToyJob) → Sound job → Sound (change job))
    → AllSound engine
    → AllSound (update_job key change engine)
unfolding update_job
AllSound-update key change [] f s = tt
AllSound-update key change (j ∷ jobs) f (h, t) = elim (Bool-cases (key_eq j.key key)) [
  | inl hit ↦ rw hit (f j h, AllSound-update key change jobs f t)
  | inr miss ↦ rw miss (h, AllSound-update key change jobs f t)
]

awaiting_not_active : (s : JobStatus) → is_awaiting s ≡ true → is_active s ≡ false
awaiting_not_active ready e = refl
awaiting_not_active expired e = refl
awaiting_not_active pending_jobs e = refl
awaiting_not_active awaiting_future e = refl
awaiting_not_active active e = absurd (ground arith)
awaiting_not_active crash_concern e = refl
awaiting_not_active cancelled e = refl
awaiting_not_active completed e = refl

pending_not_active : (s : JobStatus) → is_pending s ≡ true → is_active s ≡ false
pending_not_active ready e = refl
pending_not_active expired e = refl
pending_not_active pending_jobs e = refl
pending_not_active awaiting_future e = refl
pending_not_active active e = absurd (ground arith)
pending_not_active crash_concern e = refl
pending_not_active cancelled e = refl
pending_not_active completed e = refl

awake-Sound : (now : ℕ) (job : ToyJob) → Sound job → Sound (awake now job)
unfolding awake
awake-Sound now job s =
    elim (Bool-cases
      (is_awaiting job.status && (not (job.available_at == 0) && not (ltb now job.available_at)))) [
        | inl e ↦ rw e (record {
          while_active = s.while_active ∙ awaiting_not_active job.status (ground arith);
          has_id = s.has_id;
        })
        | inr e ↦ rw e s
      ]

waking_active : (b : Bool) → is_active (if b then awaiting_future else ready) ≡ false
waking_active true = refl
waking_active false = refl

release-Sound :
    (engine : Engine) (now : ℕ) (job : ToyJob) → Sound job → Sound (release engine now job)
unfolding release
release-Sound engine now job s =
    elim (Bool-cases (
      is_pending job.status
      && (not (is_empty job.wait_for) && all_settled engine job.key.tenant_id job.wait_for))) [
        | inl e ↦ rw e (record {
          while_active =
              s.while_active
              ∙ pending_not_active job.status (ground arith)
              ∙ sym (waking_active (is_later job.available_at now));
          has_id = s.has_id;
        })
        | inr e ↦ rw e s
      ]

pub advance-Sound :
    (engine : Engine) (now : ℕ) (job : ToyJob) → Sound job → Sound (advance engine now job)
unfolding advance
advance-Sound engine now job s = release-Sound engine now (awake now job) (awake-Sound now job s)

pub lease_job-Sound : (id : String) (job : ToyJob) → id ≢ "" → Sound (lease_job id job)
unfolding lease_job
lease_job-Sound id job n = record { while_active = refl; has_id = ground (arith, str_eq_iff id "") }

pub set_job-AllSound :
    (job : ToyJob) (engine : Engine) → Sound job → AllSound engine → AllSound (set_job job engine)
set_job-AllSound job engine s a = AllSound-update job.key (λ old. job) engine (λ j h. s) a

pub cancel_record-Sound : (now : ℕ) (job : ToyJob) → Sound (cancel_record now job)
unfolding cancel_record str_eq
cancel_record-Sound now job = record { while_active = refl; has_id = refl }

pub complete_record-Sound :
    (status detail : String) (now : ℕ) (job : ToyJob)
    → Sound (complete_record status detail now job)
unfolding complete_record str_eq
complete_record-Sound status detail now job = record {
  while_active = elim (Bool-cases (str_eq status "cancelled")) [
    | inl e ↦ rw e refl
    | inr e ↦ rw e refl
  ];
  has_id = refl;
}

pub resume_record-Sound :
    (req : CompleteTaskRequest) (wait : TaskWait) (job : ToyJob)
    → Sound (resume_record req wait job)
unfolding resume_record str_eq
resume_record-Sound req wait job = record { while_active = refl; has_id = refl }

add_waiting_task-leased :
    (wait : Option TaskWait) (task_type : String) (now : ℕ) (job : ToyJob)
    → ((add_waiting_task wait task_type now job).leased ≡ job.leased)
      × ((add_waiting_task wait task_type now job).lease_id ≡ job.lease_id)
unfolding add_waiting_task
add_waiting_task-leased none task_type now job = (refl, refl)
add_waiting_task-leased (some wait) task_type now job = (refl, refl)

next_status-inactive :
    (req : RescheduleRequest) (now : ℕ) → is_active (next_status req now).0 ≡ false
next_status-inactive req now = elim (Bool-cases (not (is_empty req.wait_for_job_ids))) [
  | inl e ↦ rw e refl
  | inr e ↦ rw e (elim (Option-cases (future_wait req.wait_until now)) [
    | inl f ↦ rw f refl
    | inr (t, f) ↦ rw f refl
  ])
]

pub reschedule_record-Sound :
    (req : RescheduleRequest) (task_type : String) (now : ℕ) (job : ToyJob)
    → Sound (reschedule_record req task_type now job)
unfolding reschedule_record str_eq
reschedule_record-Sound req task_type now job =
    let (l, i) = add_waiting_task-leased (wait_of req.payload) task_type now _ in
    record { while_active = l ∙ sym (next_status-inactive req now); has_id = rw (l, i) refl }

pub record_chapter-Sound :
    (services : Services) (chapter : Chapter) (job : ToyJob)
    → Sound job
    → Sound (record_chapter services chapter job)
unfolding record_chapter
record_chapter-Sound services chapter job s = elim (Bool-cases (is_outcome chapter.kind)) [
  | inl e ↦ rw e (record { while_active = s.while_active; has_id = s.has_id })
  | inr e ↦ rw e (record { while_active = s.while_active; has_id = s.has_id })
]
