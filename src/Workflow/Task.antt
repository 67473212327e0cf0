-- ===== src/Workflow/Task.antt =====
-- The state and the replay of DoTask of worker_runner.go of pkg/workflow: the attempts of one task
-- over the story, a job's stored chapters. Left out: what observers are told, start and end times,
-- artifacts and their clean-up, the copy of the input in a chapter, and the texts of the errors that
-- DoTask makes itself.
pub mod Live
pub mod Replay
pub mod Round
pub mod Story
pub mod Run
pub mod Fuel
pub mod Deadline
pub mod Inspect
use swf_go.Prelude.{
  ℕ, zero, suc, ◌+◌, ◌-◌, Bool, true, false, not, ◌&&◌, ◌||◌, String, Option, none, some, List, [],
  ◌∷◌, ltb, leb, ◌==◌, str_eq, if◌then◌else◌,
}
use swf_go.Workflow.Errors.{
  TimeoutPayload, StoredError, Chain, timeout_error, error_payload, stored_error, is_retryable,
}
use swf_go.Workflow.Policy.{Signed, plus, positive, Limits}
use swf_go.Workflow.Await.{
  Rescheduled, accepted, lease_lost, refused, Attempt, failed, produced, unreadable, Arrival,
  finished, exited, Host, total_timeout_error, invocation_timeout_error, past, Wait, Awaited, ready,
  expired, not_ready, reschedule_refused, done, leaves, await_until, Prerequisite,
  check_prerequisites,
}

pub data ChapterType : Type 0 where
  job_start job_attempt_outcome task_attempt_outcome restart_extra : ChapterType

-- A chapter's payload; `unsupported` is one that chapterToTaskData has no reading of.
pub data Payload : Type 0 where
  app_payload : String → Payload
  error_stored : StoredError → Payload
  unsupported : Chain → Payload

-- A chapter, as far as DoTask reads it.
pub record Entry : Type 0 where
  pub chapter_type : ChapterType
  pub input_hash : String
  pub attempt : Signed
  pub created_at : ℕ
  pub prerequisites : List Prerequisite
  pub payload : Payload

-- The chapters by ordinal, the next ordinal, the ticks that passed, and how often a task's worker was
-- started.
pub record Runner : Type 0 where
  pub story : ℕ → Option Entry
  pub story_counter : ℕ
  pub ticks : ℕ
  pub runs : ℕ

-- The errors that DoTask returns without recording them in the story; and `no_result`, where DoJob
-- returns neither data nor an error, as the job's worker did.
pub data Refusal : Type 0 where
  unread_deadline unread_chapter : String → Refusal
  not_deterministic missing_input_hash : Refusal
  prerequisites_unmet : Chain → Refusal
  input_mismatch : (cached computed : String) → Refusal
  result_missing await_not_ready : Refusal
  timed_out : TimeoutPayload → Refusal
  not_rescheduled unreadable_output not_persisted : String → Refusal
  context_done no_result : Refusal

-- What DoTask returns: data; the error of the last attempt; another error. Or its goroutine ends.
pub data Verdict : Type 0 where
  returns : String → Verdict
  fails : Chain → Verdict
  refuses : Refusal → Verdict
  exits : Verdict

-- One round of the loop.
pub data Turn : Type 0 where
  stop : Verdict → Runner → Turn
  again : ℕ → Runner → Turn

-- The answer of getChapter.
pub data Reading : Type 0 where
  unread : String → Reading
  missing : Reading
  found : Entry → Reading

abbrev pub reading_of : Option Entry → Reading
reading_of none = missing
reading_of (some e) = found e

abbrev pub reading_or : Option String → Reading → Reading
reading_or none reading = reading
reading_or (some message) reading = unread message

-- getChapter
abbrev pub get_chapter : Host → Runner → ℕ → ℕ → Reading
get_chapter host r tick ordinal = reading_or (host.read_error tick) (reading_of (r.story ordinal))

-- markStoryOrdinalConsumed
abbrev pub mark_consumed : ℕ → Runner → Runner
mark_consumed ordinal r =
    if leb r.story_counter ordinal then record r { story_counter = suc ordinal } else r

abbrev pub store : (ℕ → Option Entry) → ℕ → Entry → ℕ → Option Entry
store story ordinal e n = if n == ordinal then some e else story n

-- What chapterToTaskData gives: data, or an error.
pub data Decoded : Type 0 where
  decoded : String → Decoded
  undecoded : Chain → Decoded

-- chapterToTaskData
abbrev pub chapter_to_task_data : Payload → Decoded
chapter_to_task_data (app_payload text) = decoded text
chapter_to_task_data (error_stored s) = undecoded (stored_error s)
chapter_to_task_data (unsupported err) = undecoded err

abbrev pub is_task_chapter : ChapterType → Bool
is_task_chapter job_start = false
is_task_chapter job_attempt_outcome = false
is_task_chapter task_attempt_outcome = true
is_task_chapter restart_extra = true

abbrev pub is_restart_extra : ChapterType → Bool
is_restart_extra restart_extra = true
is_restart_extra _ = false

-- `priorAttempt := meta.Attempt; if priorAttempt <= 0 { priorAttempt = 1 }`
abbrev pub prior_attempt : Signed → ℕ
prior_attempt n = if positive n == 0 then 1 else positive n

abbrev pub ended_wait : Awaited → ℕ → Runner → Turn
ended_wait ready attempt r = again attempt r
ended_wait (expired t) attempt r = stop (refuses (timed_out t)) r
ended_wait not_ready attempt r = stop (refuses await_not_ready) r
ended_wait (reschedule_refused message) attempt r = stop (refuses (not_rescheduled message)) r
ended_wait done attempt r = stop (refuses context_done) r
ended_wait leaves attempt r = stop exits r

module _ (host : Host) (limits : Limits) (hash : String) where
  abbrev pub backoff_wait : ℕ → ℕ → Option ℕ → Wait
  backoff_wait prior from deadline = record {
    wake = from + limits.backoff prior;
    kind = "task";
    invocation_deadline = none;
    total_deadline = deadline;
    invocation_limit = 0;
    total_limit = limits.total_timeout;
  }

  -- The wait between two attempts, from `from` on.
  abbrev pub back_off : ℕ → ℕ → ℕ → Option ℕ → Runner → Turn
  back_off prior from tick deadline r =
      if not (ltb 0 (limits.backoff prior))
      then again (suc prior) r
      else ended_wait (await_until host (backoff_wait prior from deadline) tick) (suc prior) r

  -- The branch of a chapter that is there, from chapterToTaskData on.
  abbrev pub replay_payload : Entry → Decoded → ℕ → Option ℕ → Runner → Turn
  replay_payload e (decoded text) tick deadline r = stop (returns text) r
  replay_payload e (undecoded err) tick deadline r =
      if not (is_retryable limits.names err) || leb limits.max_attempts (prior_attempt e.attempt)
      then stop (fails err) r
      else back_off (prior_attempt e.attempt) e.created_at tick deadline r

  -- That branch from the check of prerequisites on, whose error is given.
  abbrev pub replay_checked : Entry → Option Chain → ℕ → Option ℕ → Runner → Turn
  replay_checked e (some err) tick deadline r = stop (refuses (prerequisites_unmet err)) r
  replay_checked e none tick deadline r =
      if str_eq e.input_hash ""
      then stop (refuses missing_input_hash) r
      else if not (str_eq e.input_hash hash)
      then stop (refuses (input_mismatch e.input_hash hash)) r
      else replay_payload e (chapter_to_task_data e.payload) tick deadline r

  -- The branch of a chapter that is there.
  unfoldable pub replay_entry : Entry → ℕ → Option ℕ → Runner → Turn
  replay_entry e tick deadline r =
      if not (is_task_chapter e.chapter_type)
      then stop (refuses not_deterministic) r
      else replay_checked e
          (if is_restart_extra e.chapter_type && (not host.replay && host.has_lease)
            then check_prerequisites (host.job tick) e.prerequisites
            else none)
          (tick + 1) deadline r
