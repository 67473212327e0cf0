-- ===== src/Workflow/Job/Turns.antt =====
-- DoJob of worker_runner.go of pkg/workflow: a round of its loop, and the loop.
use swf_go.Prelude.{
  ℕ, zero, suc, ◌+◌, Bool, false, not, ◌||◌, String, Option, none, some, [], ◌∷◌, ltb, leb, ◌==◌,
  if◌then◌else◌,
}
use swf_go.Workflow.Errors.{Chain, timeout_error, error_payload, is_retryable}
use swf_go.Workflow.Policy.{Limits}
use swf_go.Workflow.Await.{
  total_timeout_error, invocation_timeout_error, past, Awaited, ready, expired, not_ready,
  reschedule_refused, done, leaves, await_until,
}
use swf_go.Workflow.Task.{
  app_payload, error_stored, Entry, Runner, unread_chapter, timed_out, await_not_ready,
  not_rescheduled, not_persisted, unreadable_output, result_missing, no_result, context_done,
  Verdict, returns, fails, refuses, exits, Reading, unread, missing, found, get_chapter, store,
}
use swf_go.Workflow.Task.Live.{select_deadline}
use swf_go.Workflow.Job.{
  Program, Answer, output, unreadable_data, job_error, nothing, World, JobState, JobTurn, job_stops,
  job_again, run_program, complete_chapter, consume, job_entry, ends_with, Cached, not_cached,
  cached_error, cached_output, cached_retry, is_job_outcome, job_wait, check_cached_job_result,
}

abbrev pub with_runner : JobState → Runner → JobState
with_runner s r = record s { runner = r }

abbrev pub later : ℕ → JobState → JobState
later n s = record s { runner = record s.runner { ticks = s.runner.ticks + n } }

abbrev pub waited : Awaited → ℕ → JobState → JobTurn
waited ready attempt s = job_again attempt s
waited (expired t) attempt s = job_stops (refuses (timed_out t)) s
waited not_ready attempt s = job_stops (refuses await_not_ready) s
waited (reschedule_refused message) attempt s = job_stops (refuses (not_rescheduled message)) s
waited done attempt s = job_stops (refuses context_done) s
waited leaves attempt s = job_stops exits s

abbrev pub is_total : Option ℕ → ℕ → Bool
is_total none at = false
is_total (some total) at = at == total

module _ (w : World) (limits : Limits) (hash : String) (deadline : Option ℕ) (program : Program)
    (rounds fuel : ℕ) where
  abbrev pub job_timeout : Chain
  job_timeout = timeout_error (total_timeout_error w.host "job" limits.total_timeout) ∷ []

  abbrev pub attempt_timeout : Chain
  attempt_timeout =
      timeout_error (invocation_timeout_error w.host "job" limits.invocation_timeout) ∷ []

  -- completeJobOutcome with what prepareJobResultPayload makes of an error or of data.
  abbrev pub complete_failure : ℕ → Chain → ℕ → JobState → JobTurn
  complete_failure attempt err tick s = ends_with (fails err) (
      complete_chapter w
        (job_entry hash attempt (w.host.now tick) (error_stored (error_payload err))) (some err)
        (tick + 1) s)

  abbrev pub complete_data : ℕ → String → ℕ → JobState → JobTurn
  complete_data attempt text tick s = ends_with (returns text) (
      complete_chapter w (job_entry hash attempt (w.host.now tick) (app_payload text)) none
        (tick + 1) s)

  abbrev pub stored_state : ℕ → Chain → ℕ → JobState → JobState
  stored_state attempt err tick s = consume (
      with_runner s (record s.runner {
        story =
            store s.runner.story s.runner.story_counter
              (job_entry hash attempt (w.host.now tick) (error_stored (error_payload err)));
      }))

  abbrev pub back_off_job : ℕ → ℕ → JobState → JobTurn
  back_off_job attempt tick s =
      if not (ltb 0 (limits.backoff attempt))
      then job_again (suc attempt) s
      else waited
          (await_until w.host (job_wait w limits hash deadline attempt (w.host.now tick))
            (tick + 1))
          (suc attempt) s

  abbrev pub put_answer : ℕ → Option String
  put_answer tick = if w.host.has_lease then w.host.put_error tick else some "lease is required"

  abbrev pub persisted : Option String → ℕ → Chain → ℕ → JobState → JobTurn
  persisted none attempt err tick s = back_off_job attempt tick (stored_state attempt err tick s)
  persisted (some message) attempt err tick s = job_stops (refuses (not_persisted message)) s

  -- From prepareJobResultPayload on.
  abbrev pub settle_job : ℕ → Answer → ℕ → JobState → JobTurn
  settle_job attempt (output text) tick s = complete_data attempt text tick s
  settle_job attempt (unreadable_data message) tick s =
      job_stops (refuses (unreadable_output message)) s
  settle_job attempt (job_error err) tick s =
      if not (is_retryable limits.names err) || leb limits.max_attempts attempt
      then complete_failure attempt err tick s
      else persisted (put_answer (tick + 1)) attempt err (tick + 2) s
  settle_job attempt nothing tick s = job_stops (refuses no_result) s

  abbrev pub replay_ends : Answer → JobState → JobTurn
  replay_ends (job_error err) s = job_stops (fails err) s
  replay_ends (output text) s = job_stops (refuses result_missing) s
  replay_ends (unreadable_data message) s = job_stops (refuses result_missing) s
  replay_ends nothing s = job_stops (refuses no_result) s

  abbrev pub complete_cached : Entry → String → ℕ → JobState → JobTurn
  complete_cached e text tick s =
      if w.host.replay
      then job_stops (returns text) (consume s)
      else ends_with (returns text) (complete_chapter w e none tick s)

  -- The chapter of a result is read once more before it completes the job.
  abbrev pub reread : Option String → Entry → String → ℕ → JobState → JobTurn
  reread none e text tick s = complete_cached e text tick s
  reread (some message) e text tick s = job_stops (refuses (unread_chapter message)) s

  -- A cached result, or what else there is to do.
  abbrev pub by_cached : Cached → JobTurn → ℕ → JobState → JobTurn
  by_cached not_cached rest tick s = rest
  by_cached (cached_error v) rest tick s = job_stops v s
  by_cached (cached_output e text) rest tick s = reread (w.host.read_error tick) e text (tick + 1) s
  by_cached (cached_retry next) rest tick s = job_again next (consume s)

  -- validatePostExecutionTimeouts
  abbrev pub in_time : Answer → ℕ → Option ℕ → Answer
  in_time (job_error err) now invocation = job_error err
  in_time nothing now invocation = nothing
  in_time (output text) now invocation =
      if past now deadline
      then job_error job_timeout
      else if past now invocation
      then job_error attempt_timeout
      else output text
  in_time (unreadable_data message) now invocation =
      if past now deadline
      then job_error job_timeout
      else if past now invocation
      then job_error attempt_timeout
      else unreadable_data message

  -- What follows an answer that is there: from validatePostExecutionTimeouts on.
  abbrev pub answered : ℕ → Answer → ℕ → JobState → JobTurn
  answered attempt a tick s =
      by_cached (check_cached_job_result w limits hash deadline s tick)
        (if w.host.replay then replay_ends a s else settle_job attempt a (tick + 9) s) (tick + 9) s

  unfoldable pub after_worker : ℕ → Answer → Option ℕ → JobState → JobTurn
  after_worker attempt nothing invocation s = job_stops (refuses no_result) s
  after_worker attempt (output text) invocation s =
      answered attempt (in_time (output text) (w.host.now s.runner.ticks) invocation)
        (s.runner.ticks + 1) (later 32 s)
  after_worker attempt (unreadable_data message) invocation s =
      answered attempt (in_time (unreadable_data message) (w.host.now s.runner.ticks) invocation)
        (s.runner.ticks + 1) (later 32 s)
  after_worker attempt (job_error err) invocation s =
      answered attempt (job_error err) (s.runner.ticks + 1) (later 32 s)

  abbrev pub timer_answer : Option ℕ → ℕ → Answer
  timer_answer total at =
      if is_total total at then job_error job_timeout else job_error attempt_timeout

  -- waitForJobResultWithDeadline of the worker's run. Where the timer comes first, the worker has
  -- made a number of calls; what it does after that, next to DoJob, is left out.
  abbrev pub wait_for_job_result : Option ℕ → ℕ → Runner → Option Answer × Runner
  wait_for_job_result none tick r = run_program w rounds fuel program r
  wait_for_job_result (some at) tick r =
      if w.host.timer_first tick
      then (some (timer_answer deadline at), (run_program w rounds (w.progress tick) program r).1)
      else run_program w rounds fuel program r

  abbrev pub invocation_deadline : ℕ → Option ℕ
  invocation_deadline now =
      if ltb 0 limits.invocation_timeout then some (now + limits.invocation_timeout) else none

  abbrev pub with_answer : ℕ → Option ℕ → JobState → Option Answer × Runner → Option JobTurn
  with_answer attempt invocation s (none, r) = none
  with_answer attempt invocation s (some a, r) =
      some (after_worker attempt a invocation (with_runner s r))

  -- From setupAttemptDeadlines on; no turn if the worker calls more tasks than the fuel allows.
  unfoldable pub run_worker : ℕ → ℕ → JobState → Option JobTurn
  run_worker attempt tick s =
      let invocation : Option ℕ = invocation_deadline (w.host.now tick) in
      with_answer attempt invocation s (
        wait_for_job_result (select_deadline w.host limits hash invocation deadline) (tick + 1)
          s.runner)

  -- The check of the job's total timeout fails.
  abbrev pub late_job : ℕ → ℕ → JobState → JobTurn
  late_job attempt tick s =
      if w.host.replay
      then job_stops (refuses result_missing) s
      else complete_failure attempt job_timeout tick s

  abbrev pub at_cached : ℕ → Cached → ℕ → JobState → Option JobTurn
  at_cached attempt not_cached tick s = run_worker attempt tick s
  at_cached attempt (cached_error v) tick s = some (job_stops v s)
  at_cached attempt (cached_output e text) tick s = some (complete_cached e text tick s)
  at_cached attempt (cached_retry next) tick s = some (job_again next (consume s))

  -- The chapter at the runner's ordinal, before the worker runs: only a job's outcome is looked at.
  abbrev pub at_chapter : ℕ → Reading → ℕ → JobState → Option JobTurn
  at_chapter attempt (unread message) tick s = some (job_stops (refuses (unread_chapter message)) s)
  at_chapter attempt missing tick s = run_worker attempt tick s
  at_chapter attempt (found e) tick s =
      if is_job_outcome e.chapter_type
      then at_cached attempt (check_cached_job_result w limits hash deadline s tick) (tick + 9) s
      else run_worker attempt tick s

  -- One round of the loop of DoJob.
  unfoldable pub job_turn : ℕ → JobState → Option JobTurn
  job_turn attempt s =
      let tick : ℕ = s.runner.ticks in
      if past (w.host.now tick) deadline
      then some (late_job attempt (tick + 1) (later 32 s))
      else at_chapter attempt (get_chapter w.host s.runner (tick + 1) s.runner.story_counter)
          (tick + 2) (later 32 s)

  abbrev pub next_turn :
      (ℕ → JobState → Option (Verdict × JobState)) → Option JobTurn → Option (Verdict × JobState)
  next_turn loop none = none
  next_turn loop (some (job_stops v s)) = some (v, s)
  next_turn loop (some (job_again attempt s)) = loop attempt s

  -- The loop of DoJob, on fuel.
  unfoldable pub job_loop : ℕ → ℕ → JobState → Option (Verdict × JobState)
  job_loop zero attempt s = none
  job_loop (suc n) attempt s = next_turn (job_loop n) (job_turn attempt s)
