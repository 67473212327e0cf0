-- ===== src/Toy/Chapters.antt =====
-- The chapters of a job in the toy runtime: PutChapter, storeRuntimeChapter, ensureCompletionChapter.
-- What the calls leave to other parts are the fields of Services: the token in the context
-- (leaseauth), the upload of artifacts, the schema registry and the codec of task data.
pub mod Append
use swf_go.Prelude.{
  ℕ, ◌-◌, ◌+◌, Bool, true, false, not, ◌&&◌, ◌||◌, String, Option, none, some, List, [], ◌∷◌,
  str_eq, ltb, ◌==◌, if◌then◌else◌, Result, ok, err, ◌>>=◌, ◌>>◌, fail_if,
}
use swf_go.Runtime.{JobKey, Try, job_not_found, execution_lease_lost, conflict, other_error}
use swf_go.Toy.{
  ChapterKind, job_attempt_outcome, other_chapter, Chapter, ToyTask, ToyJob, Engine, Outcome,
  find_job, update_job,
}

-- taskDataFromChapter: the data, if any, and the error, if any.
pub record Decoded : Type 0 where
  pub task_data : Option String
  pub error : Option String

pub record Services : Type 0 where
  pub authorize : JobKey → String → Try Bool
  pub prepare : Chapter → Try Chapter
  pub validate : String → Chapter → Try (Unit {0})
  pub decode : Chapter → Decoded
  pub attempt_of : Chapter → ℕ
  pub payload_of : Chapter → String

unfoldable pub find_chapter : ℕ → List Chapter → Option Chapter
find_chapter ordinal [] = none
find_chapter ordinal (c ∷ cs) = if c.ordinal == ordinal then some c else find_chapter ordinal cs

abbrev pub has_chapter : ℕ → List Chapter → Bool
has_chapter ordinal cs = elim (find_chapter ordinal cs) [ none ↦ false | some c ↦ true ]

abbrev pub is_outcome : ChapterKind → Bool
is_outcome job_attempt_outcome = true
is_outcome other_chapter = false

-- record.chapters[ordinal] = task
unfoldable pub put_task : ToyTask → List ToyTask → List ToyTask
put_task task [] = task ∷ []
put_task task (t ∷ ts) = if t.ordinal == task.ordinal then task ∷ ts else t ∷ put_task task ts

abbrev or_payload : Option String → String → String
or_payload none payload = payload
or_payload (some found) payload = found

-- The record's part of a stored chapter.
unfoldable pub record_chapter : Services → Chapter → ToyJob → ToyJob
record_chapter services chapter job =
    let decoded : Decoded = services.decode chapter in
    if is_outcome chapter.kind
    then record job {
      result = some (or_payload decoded.task_data (services.payload_of chapter));
      error = decoded.error;
    }
    else record job {
      tasks =
          put_task
            (record {
              ordinal = chapter.ordinal;
              task_type = chapter.task_type;
              created_at = chapter.created_at;
              input = decoded.task_data;
              output = decoded.task_data;
              attempt = services.attempt_of chapter;
              error = decoded.error;
            })
            job.tasks;
    }

abbrev pub undecodable : Decoded → Bool
undecodable decoded = elim decoded.error [
  | none ↦ false
  | some e ↦ elim decoded.task_data [ none ↦ true | some d ↦ false ]
]

-- The checks of storeRuntimeChapter.
unfoldable pub appendable : ℕ → Chapter → ToyJob → Try (Unit {0})
appendable ordinal chapter job = do
  fail_if (not (chapter.ordinal == ordinal)) (other_error "chapter ordinal does not match target")
  fail_if (has_chapter ordinal job.chapters) conflict
  fail_if (ltb 0 ordinal && not (has_chapter (ordinal - 1) job.chapters)) conflict

abbrev pub add_chapter : Chapter → ToyJob → ToyJob
add_chapter chapter job = record job { chapters = chapter ∷ job.chapters }

abbrev pub store_checked :
    Services → JobKey → Chapter → Engine → Try (Unit {0}) → Outcome (Unit {0})
store_checked services key chapter engine (err e) = (engine, err e)
store_checked services key chapter engine (ok u) =
    let stored : Engine = update_job key (add_chapter chapter) engine in
    if not (is_outcome chapter.kind) && undecodable (services.decode chapter)
    then (stored, err (other_error "undecodable chapter"))
    else (update_job key (record_chapter services chapter) stored, ok tt)

abbrev pub store_found :
    Services → JobKey → ℕ → Chapter → Engine → Option ToyJob → Outcome (Unit {0})
store_found services key ordinal chapter engine none = (engine, err job_not_found)
store_found services key ordinal chapter engine (some job) =
    store_checked services key chapter engine (appendable ordinal chapter job)

-- storeRuntimeChapter: the chapter is stored before its data is decoded, and stays if that fails.
unfoldable pub store_runtime_chapter : Services → JobKey → ℕ → Chapter → Engine → Outcome (Unit {0})
store_runtime_chapter services key ordinal chapter engine =
    store_found services key ordinal chapter engine (find_job key engine)

-- The lease check of PutChapter.
unfoldable pub may_write : Services → JobKey → String → ToyJob → Try (Unit {0})
may_write services key lease_id job = do
  authorized ← services.authorize key lease_id
  fail_if (not authorized && not (str_eq job.lease_id lease_id)) execution_lease_lost

unfoldable pub check_put : Services → JobKey → String → ℕ → Chapter → ToyJob → Try Chapter
check_put services key lease_id ordinal chapter job = do
  may_write services key lease_id job
  prepared ← services.prepare chapter
  services.validate job.metadata prepared
  ok prepared

abbrev pub store_prepared : Services → JobKey → ℕ → Engine → Try Chapter → Outcome (Unit {0})
store_prepared services key ordinal engine (err e) = (engine, err e)
store_prepared services key ordinal engine (ok prepared) =
    store_runtime_chapter services key ordinal prepared engine

abbrev pub put_found :
    Services → JobKey → String → ℕ → Chapter → Engine → Option ToyJob → Outcome (Unit {0})
put_found services key lease_id ordinal chapter engine none = (engine, err job_not_found)
put_found services key lease_id ordinal chapter engine (some job) =
    store_prepared services key ordinal engine (check_put services key lease_id ordinal chapter job)

-- PutChapter
unfoldable pub put_chapter : Services → JobKey → String → ℕ → Chapter → Engine → Outcome (Unit {0})
put_chapter services key lease_id ordinal chapter engine =
    if str_eq lease_id ""
    then (engine, err (other_error "lease id is required for PutChapter"))
    else if not (chapter.ordinal == ordinal)
    then (engine, err (other_error "chapter ordinal does not match target"))
    else put_found services key lease_id ordinal chapter engine (find_job key engine)

abbrev same_kind : ChapterKind → ChapterKind → Bool
same_kind job_attempt_outcome b = is_outcome b
same_kind other_chapter b = not (is_outcome b)

-- reflect.DeepEqual
abbrev pub same_chapter : Chapter → Chapter → Bool
same_chapter a b =
    a.ordinal == b.ordinal
    && same_kind a.kind b.kind
    && str_eq a.task_type b.task_type
    && a.created_at == b.created_at
    && str_eq a.content b.content

unfoldable pub check_completion : Services → Chapter → ToyJob → Try Chapter
check_completion services chapter job = do
  prepared ← services.prepare chapter
  services.validate job.metadata prepared
  ok prepared

abbrev pub ensure_found : Services → ToyJob → Chapter → Engine → Option Chapter → Outcome (Unit {0})
ensure_found services job chapter engine (some existing) =
    (engine, fail_if (not (same_chapter existing chapter)) conflict)
ensure_found services job chapter engine none =
    store_prepared services job.key chapter.ordinal engine (check_completion services chapter job)

-- ensureCompletionChapter for a chapter without uploads, in a job that was found.
unfoldable pub ensure_completion_chapter : Services → ToyJob → Chapter → Engine → Outcome (Unit {0})
ensure_completion_chapter services job chapter engine =
    ensure_found services job chapter engine (find_chapter chapter.ordinal job.chapters)
