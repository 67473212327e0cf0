-- ===== src/Workflow/Job.antt =====
-- The state of DoJob of worker_runner.go of pkg/workflow, a job's worker as a program of tasks, the
-- completion of a job's lease, and recorded job outcomes. Left out: what observers are told, start
-- and end times, artifacts, the renewal of the lease while the job runs, and the texts of the errors
-- that DoJob makes itself. Once a timer has
-- come first, the worker that it leaves behind is taken to do nothing more.
pub mod Turns
pub mod Start
pub mod Along
pub mod Once
pub mod Stuck
pub mod Quiet
pub mod Retold
use swf_go.Prelude.{
  ℕ, zero, suc, ◌+◌, Bool, true, false, not, ◌&&◌, ◌||◌, String, Option, none, some, List, [], ◌∷◌,
  ltb, leb, ◌==◌, str_eq, if◌then◌else◌,
}
use swf_go.Workflow.Errors.{
  TimeoutPayload, Chain, timeout_error, error_payload, is_retryable, completion_status,
}
use swf_go.Workflow.Policy.{plus, Limits}
use swf_go.Workflow.Await.{
  Host, Wait, total_timeout_error, invocation_timeout_error, past, Awaited, ready, expired,
  not_ready, reschedule_refused, done, leaves, await_until,
}
use swf_go.Workflow.Task.{
  ChapterType, job_start, job_attempt_outcome, task_attempt_outcome, restart_extra, Payload,
  app_payload, error_stored, Entry, Runner, Refusal, unread_chapter, not_deterministic, timed_out,
  await_not_ready, not_rescheduled, not_persisted, context_done, Verdict, returns, fails, refuses,
  exits, Reading, unread, missing, found, get_chapter, mark_consumed, store, Decoded, decoded,
  undecoded, chapter_to_task_data, prior_attempt,
}
use swf_go.Workflow.Task.Live.{do_task}

-- What a job's worker does: it returns data, or an output that cannot be read, or an error, or
-- neither; or it calls DoTask, for a task type under a policy with an input of a hash, and goes on
-- with what that returns.
pub data Program : Type 0 where
  gives garbles : String → Program
  breaks : Chain → Program
  gives_nothing : Program
  calls : (task_type : String) (limits : Limits) (hash : String) → (Verdict → Program) → Program

-- What arrives from the worker's goroutine.
pub data Answer : Type 0 where
  output unreadable_data : String → Answer
  job_error : Chain → Answer
  nothing : Answer

-- The world of a job: the one of its own, the one of each task type, what Complete answers apart
-- from the check of its chapter and whether the chapter is stored all the same, the comparison of
-- two chapters, and how many tasks a worker has called when a timer comes first.
pub record World : Type 0 where
  pub host : Host
  pub task_host : String → Host
  pub complete_error : ℕ → Option String
  pub half_done : ℕ → Bool
  pub same_chapter : Entry → Entry → Bool
  pub progress : ℕ → ℕ

-- The runner, and the statuses of the accepted completions of the job's lease, the last one first.
pub record JobState : Type 0 where
  pub runner : Runner
  pub completions : List String

pub data JobTurn : Type 0 where
  job_stops : Verdict → JobState → JobTurn
  job_again : ℕ → JobState → JobTurn

abbrev pub after_task :
    (Program → Runner → Option Answer × Runner)
    → (Verdict → Program)
    → Runner
    → Option (Verdict × Runner)
    → Option Answer × Runner
after_task rest next r none = (none, r)
after_task rest next r (some (returns text, s)) = rest (next (returns text)) s
after_task rest next r (some (fails err, s)) = rest (next (fails err)) s
after_task rest next r (some (refuses refusal, s)) = rest (next (refuses refusal)) s
after_task rest next r (some (exits, s)) = (some nothing, s)

-- JobWorker.Run, as far as a number of calls of DoTask goes: no answer if the worker is not done by
-- then. A task that ends the goroutine leaves the channel with neither data nor error.
unfoldable pub run_program : World → ℕ → ℕ → Program → Runner → Option Answer × Runner
run_program w rounds n (gives text) r = (some (output text), r)
run_program w rounds n (garbles message) r = (some (unreadable_data message), r)
run_program w rounds n (breaks err) r = (some (job_error err), r)
run_program w rounds n gives_nothing r = (some nothing, r)
run_program w rounds zero (calls task_type limits hash next) r = (none, r)
run_program w rounds (suc n) (calls task_type limits hash next) r =
    after_task (run_program w rounds n) next r
      (do_task (w.task_host task_type) limits hash rounds 1 r)

-- What Complete with a chapter does, and the state that it leaves.
pub data Completion : Type 0 where
  completed : JobState → Completion
  not_completed : String → JobState → Completion

abbrev pub put_missing : (ℕ → Option Entry) → ℕ → Entry → Option Entry → ℕ → Option Entry
put_missing story ordinal e none = store story ordinal e
put_missing story ordinal e (some old) = story

abbrev pub conflicts : World → Entry → Option Entry → Bool
conflicts w e none = false
conflicts w e (some old) = not (w.same_chapter old e)

abbrev pub with_chapter : Entry → JobState → JobState
with_chapter e s =
    let r : Runner = s.runner in
    record s {
      runner = record r { story = put_missing r.story r.story_counter e (r.story r.story_counter) };
    }

abbrev pub complete_answered : Option String → Bool → Entry → String → JobState → Completion
complete_answered none half e status s =
    completed (record (with_chapter e s) { completions = status ∷ s.completions })
complete_answered (some message) half e status s =
    not_completed message (if half then with_chapter e s else s)

-- completeLeaseWithChapter and the Complete of completeJobOutcome, with the check of its chapter by
-- ensureCompletionChapter of the runtime: a chapter under its ordinal has to be the same.
unfoldable pub complete_chapter : World → Entry → Option Chain → ℕ → JobState → Completion
complete_chapter w e err tick s =
    if w.host.replay
    then not_completed "replay" s
    else if not w.host.has_lease
    then not_completed "lease is required" s
    else if conflicts w e (s.runner.story s.runner.story_counter)
    then not_completed "conflict" s
    else complete_answered (w.complete_error tick) (w.half_done tick) e (completion_status err) s

abbrev pub consume : JobState → JobState
consume s = record s { runner = mark_consumed s.runner.story_counter s.runner }

abbrev pub job_entry : String → ℕ → ℕ → Payload → Entry
job_entry hash attempt created_at payload = record {
  chapter_type = job_attempt_outcome;
  input_hash = hash;
  attempt = plus attempt;
  created_at = created_at;
  prerequisites = [];
  payload = payload;
}

-- What follows a completion: it ends the job with a verdict.
abbrev pub ends_with : Verdict → Completion → JobTurn
ends_with v (completed s) = job_stops v (consume s)
ends_with v (not_completed message s) = job_stops (refuses (not_persisted message)) s

-- What checkCachedJobResult gives.
pub data Cached : Type 0 where
  not_cached : Cached
  cached_error : Verdict → Cached
  cached_output : Entry → String → Cached
  cached_retry : ℕ → Cached

abbrev pub is_job_outcome : ChapterType → Bool
is_job_outcome job_start = false
is_job_outcome job_attempt_outcome = true
is_job_outcome task_attempt_outcome = false
is_job_outcome restart_extra = false

abbrev pub cached_wait : ℕ → Awaited → Cached
cached_wait next ready = cached_retry next
cached_wait next (expired t) = cached_error (refuses (timed_out t))
cached_wait next not_ready = cached_error (refuses await_not_ready)
cached_wait next (reschedule_refused message) = cached_error (refuses (not_rescheduled message))
cached_wait next done = cached_error (refuses context_done)
cached_wait next leaves = cached_error exits

module _ (w : World) (limits : Limits) (hash : String) (deadline : Option ℕ) where
  abbrev pub job_wait : ℕ → ℕ → Wait
  job_wait prior from = record {
    wake = from + limits.backoff prior;
    kind = "job";
    invocation_deadline = none;
    total_deadline = deadline;
    invocation_limit = 0;
    total_limit = limits.total_timeout;
  }

  -- The last part of checkCachedJobResult.
  abbrev pub cached_payload : Entry → Decoded → ℕ → Cached
  cached_payload e (decoded text) tick = cached_output e text
  cached_payload e (undecoded err) tick =
      let prior : ℕ = prior_attempt e.attempt in
      if not (is_retryable limits.names err) || leb limits.max_attempts prior
      then cached_error (fails err)
      else if ltb 0 (limits.backoff prior)
          && ltb (w.host.now tick) (e.created_at + limits.backoff prior)
      then cached_wait (suc prior) (await_until w.host (job_wait prior e.created_at) (tick + 1))
      else cached_retry (suc prior)

  -- checkCachedJobResult of a chapter that is there.
  abbrev pub cached_found : Entry → ℕ → Cached
  cached_found e tick =
      if not (is_job_outcome e.chapter_type)
      then cached_error (refuses not_deterministic)
      else if not (str_eq e.input_hash "") && not (str_eq e.input_hash hash)
      then cached_error (refuses not_deterministic)
      else if past (w.host.now tick) deadline
      then cached_error
          (refuses (timed_out (total_timeout_error w.host "job" limits.total_timeout)))
      else cached_payload e (chapter_to_task_data e.payload) (tick + 1)

  abbrev pub cached_reading : Reading → ℕ → Cached
  cached_reading (unread message) tick = cached_error (refuses (unread_chapter message))
  cached_reading missing tick = not_cached
  cached_reading (found e) tick = cached_found e tick

  -- checkCachedJobResult
  unfoldable pub check_cached_job_result : JobState → ℕ → Cached
  check_cached_job_result s tick =
      cached_reading (get_chapter w.host s.runner tick s.runner.story_counter) (tick + 1)
