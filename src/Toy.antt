-- ===== src/Toy.antt =====
-- pkg/jobdb/runtime/toy/internal/toyimpl: the in-memory runtime. The engine is the list of its jobs,
-- each with its record (jobRecord) and its chapters (runtimeChapters), one for each key. A call runs
-- alone, as under the engine's lock. Of a payload only its decoding is kept: `none` does not decode,
-- and the empty payload is one without a task wait. Ordinals are not negative.
pub mod Chapters
pub mod Leases
pub mod Calls
use swf_go.Prelude.{
  ℕ, ◌-◌, Bool, true, false, not, ◌&&◌, ◌||◌, String, Option, none, some, List, [], ◌∷◌, str_eq,
  ltb, ◌==◌, if◌then◌else◌, Result, ok, err,
}
use swf_go.Runtime.{
  JobKey, key_eq, JobStatus, ready, expired, pending_jobs, awaiting_future, active, crash_concern,
  cancelled, completed, Try,
}
use swf_go.Sqlite.{JobPayload}

pub data ChapterKind : Type 0 where
  job_attempt_outcome other_chapter : ChapterKind

-- jobdb.Chapter; the body, the metadata and the artifacts are one text.
pub record Chapter : Type 0 where
  pub ordinal : ℕ
  pub kind : ChapterKind
  pub task_type : String
  pub created_at : ℕ
  pub content : String

-- toyChapter
pub record ToyTask : Type 0 where
  pub ordinal : ℕ
  pub task_type : String
  pub created_at : ℕ
  pub input : Option String
  pub output : Option String
  pub attempt : ℕ
  pub error : Option String

pub record ToyJob : Type 0 where
  pub key : JobKey
  pub status : JobStatus
  pub capability : String
  pub payload : Option JobPayload
  pub metadata : String
  pub wait_for : List String
  pub available_at : ℕ
  pub leased : Bool
  pub lease_id : String
  pub cancel_flag : Bool
  pub archived : Option ℕ
  pub step : ℕ
  pub completion_detail : String
  pub result : Option String
  pub error : Option String
  pub tasks : List ToyTask
  pub chapters : List Chapter

abbrev pub Engine : Type 0
Engine = List ToyJob

-- A call leaves an engine behind whether it succeeds or not.
abbrev pub Outcome : Type 0 → Type 0
Outcome A = Engine × Try A

unfoldable pub find_job : JobKey → Engine → Option ToyJob
find_job key [] = none
find_job key (job ∷ jobs) = if key_eq job.key key then some job else find_job key jobs

unfoldable pub update_job : JobKey → (ToyJob → ToyJob) → Engine → Engine
update_job key change [] = []
update_job key change (job ∷ jobs) =
    (if key_eq job.key key then change job else job) ∷ update_job key change jobs

abbrev pub is_ready : JobStatus → Bool
is_ready ready = true
is_ready _ = false

abbrev pub is_active : JobStatus → Bool
is_active active = true
is_active _ = false

abbrev pub is_pending : JobStatus → Bool
is_pending pending_jobs = true
is_pending _ = false

abbrev pub is_awaiting : JobStatus → Bool
is_awaiting awaiting_future = true
is_awaiting _ = false

abbrev pub is_final : JobStatus → Bool
is_final completed = true
is_final cancelled = true
is_final _ = false

abbrev pub is_empty : List String → Bool
is_empty [] = true
is_empty (x ∷ xs) = false

-- `!t.IsZero() && t.After(now)`
abbrev pub is_later : ℕ → ℕ → Bool
is_later t now = not (t == 0) && ltb now t

unfoldable pub settled : Engine → String → String → Bool
settled engine tenant id = elim (find_job (record { tenant_id = tenant; job_id = id }) engine) [
  | none ↦ true
  | some job ↦ is_final job.status
]

unfoldable pub all_settled : Engine → String → List String → Bool
all_settled engine tenant [] = true
all_settled engine tenant (id ∷ ids) =
    if settled engine tenant id then all_settled engine tenant ids else false

unfoldable pub awake : ℕ → ToyJob → ToyJob
awake now job =
    if is_awaiting job.status && (not (job.available_at == 0) && not (ltb now job.available_at))
    then record job { status = ready }
    else job

unfoldable pub release : Engine → ℕ → ToyJob → ToyJob
release engine now job =
    if is_pending job.status
      && (not (is_empty job.wait_for) && all_settled engine job.key.tenant_id job.wait_for)
    then record job {
      status = if is_later job.available_at now then awaiting_future else ready;
      wait_for = [];
    }
    else job

-- advanceRecordStateLocked
unfoldable pub advance : Engine → ℕ → ToyJob → ToyJob
unfolding awake release
advance engine now job = release engine now (awake now job)
