-- ===== src/Sqlite/Submit.antt =====
-- sqlite/runtime.go, SubmitJob, with reconcileExistingSubmitJob of reconcile.go and
-- ensureSubmittedJobRecord of scheduler.go. A story is its first chapter, if that is a start's.
-- What the codecs and the schema registry do is a record of functions; a failed statement of the
-- database, and a story that goes away between two calls, are left out.
pub mod Again
pub mod Kept
pub mod Moved
use swf_go.Prelude.{
  ℕ, ◌+◌, Bool, true, false, not, ◌&&◌, ◌||◌, String, Option, none, some, List, [], ◌∷◌, ◌++◌,
  str_eq, ◌==◌, if◌then◌else◌, Result, ok, err, ◌>>=◌, ◌>>◌, fail_if,
}
use swf_go.Runtime.{JobKey, key_eq, Try, other_error, conflict, existing_job_mismatch, RuntimeError}
use swf_go.Sqlite.{JobRow, JobPayload, Table, find_row, time_to_ns}

pub record JobPrerequisite : Type 0 where
  pub job_id : String
  pub condition : String

-- A normalized run policy. The numbers of its retry policy, which come back from storage as they
-- are, are one text; a list that is nil is `none`.
pub record JobPolicy : Type 0 where
  pub retry : String
  pub non_retryable_error_types : Option (List String)
  pub invocation_timeout : Option ℕ
  pub total_timeout : Option ℕ

-- durationToProto and durationFromProto: a duration of 0 comes back as nil.
abbrev read_timeout : Option ℕ → Option ℕ
read_timeout none = none
read_timeout (some d) = if d == 0 then none else some d

-- append([]string(nil), names...): an empty list comes back as nil.
abbrev read_names : Option (List String) → Option (List String)
read_names none = none
read_names (some []) = none
read_names (some (name ∷ names)) = some (name ∷ names)

-- runPolicyToProto, and runPolicyFromProto of what it gives.
unfoldable pub read_back : JobPolicy → JobPolicy
read_back p = record p {
  non_retryable_error_types = read_names p.non_retryable_error_types;
  invocation_timeout = read_timeout p.invocation_timeout;
  total_timeout = read_timeout p.total_timeout;
}

abbrev pub same_timeout : Option ℕ → Option ℕ → Bool
same_timeout none none = true
same_timeout (some a) (some b) = a == b
same_timeout none (some b) = false
same_timeout (some a) none = false

abbrev pub same_texts : List String → List String → Bool
same_texts [] [] = true
same_texts [] (b ∷ ys) = false
same_texts (a ∷ xs) [] = false
same_texts (a ∷ xs) (b ∷ ys) = str_eq a b && same_texts xs ys

abbrev pub same_names : Option (List String) → Option (List String) → Bool
same_names none none = true
same_names (some a) (some b) = same_texts a b
same_names none (some b) = false
same_names (some a) none = false

-- reflect.DeepEqual of two policies
unfoldable pub same_policy : JobPolicy → JobPolicy → Bool
same_policy a b =
    str_eq a.retry b.retry
    && same_names a.non_retryable_error_types b.non_retryable_error_types
    && same_timeout a.invocation_timeout b.invocation_timeout
    && same_timeout a.total_timeout b.total_timeout

-- The start's chapter, as far as a submission is compared with it; its run policy is as it was given
-- to storage.
pub record Start : Type 0 where
  pub is_start : Bool
  pub task_type : String
  pub input_hash : String
  pub metadata : String
  pub run_policy : JobPolicy
  pub prerequisites : List JobPrerequisite

pub record Stored : Type 0 where
  pub rows : Table
  pub stories : List (JobKey × Option Start)

-- The run policy is normalized, and the input is its hash.
pub record SubmitJob : Type 0 where
  pub tenant_id : String
  pub job_id : String
  pub job_type : String
  pub input_hash : String
  pub metadata : String
  pub run_policy : JobPolicy
  pub prerequisites : List JobPrerequisite
  pub available_at : Option ℕ
  pub parent_job_id : String

pub record Services : Type 0 where
  pub is_blank : String → Bool
  pub validate_metadata : String → Try (Unit {0})
  pub resolve_schema : String → Try String
  pub envelope : String → String → String → Try String
  pub validate_start : String → Start → Try (Unit {0})
  pub same_json : String → String → Bool
  pub encode_policy : JobPolicy → String

abbrev pub has_id : String → List JobPrerequisite → Bool
has_id id [] = false
has_id id (p ∷ ps) = str_eq p.job_id id || has_id id ps

abbrev pub condition_of : JobPrerequisite → String
condition_of p = if str_eq p.condition "" then "complete" else p.condition

-- The loop of normalizePrerequisites, with the prerequisites that it has seen.
unfoldable pub normalize_from :
    Services → JobKey → List JobPrerequisite → List JobPrerequisite → Try (List JobPrerequisite)
normalize_from services key seen [] = ok seen
normalize_from services key seen (p ∷ ps) =
    let again = normalize_from services key seen ps in
    let next =
      normalize_from services key (seen ++ record p { condition = condition_of p } ∷ []) ps in
    if services.is_blank p.job_id
    then err (other_error "prerequisite job id is required")
    else if str_eq p.job_id key.job_id
    then err (other_error "prerequisite job id cannot reference self")
    else if has_id p.job_id seen
    then again
    else if not (str_eq (condition_of p) "complete" || str_eq (condition_of p) "success")
    then err (other_error "invalid prerequisite condition")
    else next

abbrev pub ids : List JobPrerequisite → List String
ids [] = []
ids (p ∷ ps) = p.job_id ∷ ids ps

-- metadataForStartChapter
abbrev pub metadata_for_start : Services → String → String
metadata_for_start services raw = if services.is_blank raw then "{}" else raw

-- What a submission writes.
pub record Prepared : Type 0 where
  pub key : JobKey
  pub metadata : String
  pub start : Start

abbrev pub start_of : Services → SubmitJob → List JobPrerequisite → Start
start_of services job prerequisites = record {
  is_start = true;
  task_type = job.job_type;
  input_hash = job.input_hash;
  metadata = metadata_for_start services job.metadata;
  run_policy = job.run_policy;
  prerequisites = prerequisites;
}

abbrev pub key_for : SubmitJob → String → JobKey
key_for job fresh = record {
  tenant_id = job.tenant_id;
  job_id = if str_eq job.job_id "" then fresh else job.job_id;
}

-- submitJobWithParent, up to the creation of the story.
unfoldable pub prepare_submit : Services → SubmitJob → String → Try Prepared
prepare_submit services job fresh = do
  fail_if (str_eq job.tenant_id "" || str_eq (key_for job fresh).job_id "")
      (other_error "invalid job key")
  services.validate_metadata job.metadata
  hash ← services.resolve_schema job.tenant_id
  stored ← services.envelope job.metadata hash job.parent_job_id
  prerequisites ← normalize_from services (key_for job fresh) [] job.prerequisites
  services.validate_start hash (start_of services job prerequisites)
  ok (record {
    key = key_for job fresh;
    metadata = stored;
    start = start_of services job prerequisites;
  })

unfoldable pub find_story : JobKey → List (JobKey × Option Start) → Option (Option Start)
find_story key [] = none
find_story key ((k, story) ∷ stories) = if key_eq k key then some story else find_story key stories

abbrev pub same_prerequisites : List JobPrerequisite → List JobPrerequisite → Bool
same_prerequisites [] [] = true
same_prerequisites [] (q ∷ qs) = false
same_prerequisites (p ∷ ps) [] = false
same_prerequisites (p ∷ ps) (q ∷ qs) =
    (str_eq p.job_id q.job_id && str_eq p.condition q.condition) && same_prerequisites ps qs

-- compareSubmitStartChapter
unfoldable pub same_start : Services → Start → SubmitJob → Start → Bool
same_start services old job new =
    old.is_start
    && str_eq old.task_type job.job_type
    && str_eq old.input_hash job.input_hash
    && (services.is_blank old.metadata || services.same_json old.metadata job.metadata)
    && same_policy (read_back old.run_policy) job.run_policy
    && same_prerequisites old.prerequisites new.prerequisites

abbrev pub available_or : Option ℕ → ℕ → ℕ
available_or none now = now
available_or (some t) now = t

-- insertJobRecord
abbrev pub new_row : Services → SubmitJob → Prepared → ℕ → JobRow
new_row services job p now = record {
  key = p.key;
  job_type = job.job_type;
  next_need = job.job_type;
  payload = some (record {
    run_policy = services.encode_policy job.run_policy;
    task_wait = none;
    visible_payload = "";
  });
  metadata = p.metadata;
  wait_for = some (ids p.start.prerequisites);
  available_at = time_to_ns (available_or job.available_at now);
  created_at = now;
  updated_at = now;
  archived_at = none;
  cancel_requested = false;
  completion_status = none;
  completion_detail = none;
  lease_id = none;
  lease_worker_id = none;
  lease_expires_at = none;
  alternate_need = none;
  alternate_at = none;
}

abbrev pub other_time : Option ℕ → ℕ → Bool
other_time none t = false
other_time (some a) t = not (t == a)

abbrev pub Submitted : Type 0
Submitted = Try JobKey × Stored

abbrev pub record_or : Services → SubmitJob → Prepared → ℕ → Stored → Option JobRow → Submitted
record_or services job p now s none =
    (ok p.key, record s { rows = new_row services job p now ∷ s.rows })
record_or services job p now s (some row) =
    if not (services.same_json row.metadata p.metadata)
    then (err existing_job_mismatch, s)
    else if other_time job.available_at row.available_at
    then (err existing_job_mismatch, s)
    else (ok p.key, s)

-- ensureSubmittedJobRecord: the INSERT fails where the key has a row.
unfoldable pub ensure_submitted_job_record :
    Services → SubmitJob → Prepared → ℕ → Stored → Submitted
ensure_submitted_job_record services job p now s =
    record_or services job p now s (find_row p.key s.rows)

-- CreateStory, and reconcileExistingSubmitJob where it reports a conflict.
abbrev pub create_or :
    Services → SubmitJob → Prepared → ℕ → Stored → Option (Option Start) → Submitted
create_or services job p now s none =
    ensure_submitted_job_record services job p now
      (record s { stories = (p.key, some p.start) ∷ s.stories })
create_or services job p now s (some none) =
    (err (if str_eq job.job_id "" then conflict else existing_job_mismatch), s)
create_or services job p now s (some (some old)) =
    if str_eq job.job_id ""
    then (err conflict, s)
    else if not (same_start services old job p.start)
    then (err existing_job_mismatch, s)
    else ensure_submitted_job_record services job p now s

abbrev pub submit_prepared : Services → SubmitJob → ℕ → Stored → Try Prepared → Submitted
submit_prepared services job now s (err e) = (err e, s)
submit_prepared services job now s (ok p) =
    create_or services job p now s (find_story p.key s.stories)

-- SubmitJob
unfoldable pub submit_job : Services → SubmitJob → String → ℕ → Stored → Submitted
submit_job services job fresh now s =
    submit_prepared services job now s (prepare_submit services job fresh)
