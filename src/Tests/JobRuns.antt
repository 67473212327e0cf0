-- ===== src/Tests/JobRuns.antt =====
-- A job with one task, over a story with only the job's start, and its replay.
use swf_go.Prelude.{
  ℕ, ◌+◌, ◌≤◌, ◌≡◌, refl, subst, true, false, String, Option, none, some, [], ◌∷◌, ◌==◌, str_eq,
  arith, Bool-cases, inl, inr, some-injective,
}
use swf_go.Workflow.Errors.{
  completion_status, error_payload, stored_error, decode_app, is_job_failed, as_timeout, as_system,
  as_app, is_retryable, non_retryable, matches_any_name,
}
use swf_go.Workflow.Await.{await_until, check_prerequisites}
use swf_go.Workflow.Task.{
  app_payload, error_stored, Entry, Verdict, returns, fails, refuses, exits, store, not_persisted,
  result_missing, replay_entry,
}
use swf_go.Workflow.Task.Live.{do_task, task_turn, live_turn, run_attempt, settle, outcome_entry}
use swf_go.Workflow.Task.Round.{store_preserves, ends}
use swf_go.Workflow.Task.Story.{NoExtra, Settled, store-NoExtra}
use swf_go.Workflow.Job.{
  Program, gives, breaks, calls, output, World, JobState, job_stops, run_program, job_entry,
  complete_chapter, check_cached_job_result,
}
use swf_go.Workflow.Job.Turns.{later, job_turn, job_loop, run_worker, after_worker}
use swf_go.Workflow.Job.Start.{do_job}
use swf_go.Workflow.Job.Once.{Fine}
use swf_go.Workflow.Job.Start.Once.{do_job-Fine}
use swf_go.Workflow.Job.Quiet.{Quiet}
use swf_go.Workflow.Job.Quiet.Whole.{do_job-Quiet}
use swf_go.Workflow.Job.Stuck.{job_loop-late, job_loop-failed}
use swf_go.Workflow.Job.Retold.{with_task, with_data, IsRegular}
use swf_go.Workflow.Job.Retold.Closed.{closed_data}
use swf_go.Workflow.Job.Retold.Reproduces.{Reproduces, job_at, do_job-Reproduces}
use swf_go.Tests.Runs.{
  worker_error, three_attempts, worker, inspector, start, started_story, told_story, first, begun,
  ended, run_lem, no_extra, keeps, ready, settled,
}

-- The job's code: it goes on with what the task returns.
abbrev after : Verdict → Program
after (returns text) = gives text
after (fails err) = breaks err
after (refuses refusal) = breaks worker_error
after exits = breaks worker_error

abbrev code : String → Program
code input = calls "task" three_attempts "hash" after

abbrev live : World
live = record {
  host = worker;
  task_host = λ task_type. worker;
  complete_error = λ n. none;
  half_done = λ n. false;
  same_chapter = λ a b. str_eq a.input_hash b.input_hash;
  progress = λ n. 0;
}

abbrev replaying : World
replaying = record live { host = inspector; task_host = λ task_type. inspector }

abbrev outcome : Entry
outcome = job_entry "job hash" 1 90 (app_payload "result")

abbrev whole_story : ℕ → Option Entry
whole_story = store told_story 3 outcome

abbrev open_job : JobState
open_job = job_at started_story 1 0 0 []

abbrev closed_job : JobState
closed_job =
    job_at
      (store (store started_story 1 (outcome_entry "hash" 1 46 (app_payload "result"))) 2
        (job_entry "job hash" 1 68 (app_payload "result")))
      3 90 1 ("success" ∷ [])

-- The job succeeds: its lease is completed.
job_done :
    do_job live three_attempts "job hash" code 9 9 9 open_job ≡ some (returns "result", closed_job)
unfolding do_job job_loop job_turn run_worker after_worker run_program check_cached_job_result
    complete_chapter completion_status do_task task_turn live_turn run_attempt settle await_until
    check_prerequisites
job_done = refl

do_job-Fine_example : Fine open_job (job_stops (returns "result") closed_job)
do_job-Fine_example = do_job-Fine live three_attempts "job hash" code 9 9 refl 9 open_job job_done

extra : NoExtra whole_story
extra =
    store-NoExtra told_story 3 outcome refl
      (store-NoExtra _ 2 _ refl (store-NoExtra started_story 1 _ refl no_extra))

whole_settled : Settled three_attempts 3600000000000 whole_story
whole_settled n e h = elim (Bool-cases (n == 3)) [
  | inl b ↦ subst (λ (x : Entry). x.created_at + 1 ≤ 3600000000000) (same (rw b at h)) (omega arith)
  | inr b ↦ settled n e (rw b at h)
]
  where
    same : some outcome ≡ some e → outcome ≡ e
    same p = some-injective p

regular : IsRegular worker three_attempts "hash" after 3600000000000 whole_story (returns "result")
unfolding str_eq
regular = record {
  hashed = refl;
  no_total = refl;
  keeps = keeps;
  settled = whole_settled;
  ended = refl;
  same_next = refl;
}

worked : run_program live 5 9 (code "input") begun ≡ (some (output "result"), ended)
unfolding run_program
worked = rw run_lem refl

do_job-Reproduces_example :
    Reproduces replaying three_attempts "job hash" code 9 9 9
      (job_at whole_story 1 0 0 [])
      (returns "result")
do_job-Reproduces_example =
    do_job-Reproduces live 5 3600000000000 whole_story extra replaying (λ task_type. ready)
      (record { job = refl; tasks = λ task_type. refl })
      (record { replays = refl; reads = λ tick. refl; patient = λ tick. refl }) three_attempts refl
      "job hash" "input" code 8 9 9 begun 0 0 [] start outcome (returns "result")
      (with_task run_lem regular (with_data "result")) worked refl
      (store_preserves told_story 3 outcome refl) (omega arith) refl
      (record { start = refl; reads = refl }) refl
      (record { outcome = refl; same_input = refl; closed = closed_data refl })

-- The job's deadline has passed, and the story has the task's chapter at the first ordinal.
abbrev late_job : JobState
late_job = job_at told_story 1 10 0 []

job_loop-late_run :
    (message : String) × (job_loop live three_attempts "job hash"
        (some 5)
        (code "input")
        9
        9
        9
        1
        late_job
      ≡ some (refuses (not_persisted message), later 32 late_job))
unfolding str_eq
job_loop-late_run =
    job_loop-late live three_attempts "job hash" (code "input") 9 9 8 1 5 late_job first refl
      (omega arith) refl (λ time. refl)

abbrev failed_outcome : Entry
failed_outcome = job_entry "job hash" 3 90 (error_stored (error_payload worker_error))

abbrev failed_job : JobState
failed_job = job_at (store started_story 1 failed_outcome) 1 0 0 []

no_more_attempts : ends three_attempts (stored_error (error_payload worker_error)) 3 ≡ true
unfolding stored_error error_payload decode_app is_job_failed as_timeout as_system as_app
    is_retryable non_retryable matches_any_name
no_more_attempts = refl

job_loop-failed_run :
    job_loop live three_attempts "job hash" none (code "input") 9 9 9 1 failed_job
    ≡ some (fails (stored_error (error_payload worker_error)), later 32 failed_job)
job_loop-failed_run =
    job_loop-failed live three_attempts "job hash" none (code "input") 9 9 8 1 failed_job
      failed_outcome (stored_error (error_payload worker_error)) (λ tick. refl) (λ tick. refl) refl
      refl refl refl no_more_attempts

-- The story of the job's task lacks the outcome.
unfinished :
    do_job replaying three_attempts "job hash" code 9 9 9 (job_at told_story 1 0 0 [])
    ≡ some (refuses result_missing, job_at told_story 3 108 0 [])
unfolding do_job job_loop job_turn run_worker after_worker run_program check_cached_job_result
    complete_chapter completion_status do_task task_turn live_turn run_attempt settle await_until
    check_prerequisites replay_entry stored_error error_payload decode_app is_job_failed as_timeout
    as_system as_app is_retryable non_retryable matches_any_name str_eq
unfinished = refl

do_job-Quiet_example : Quiet (job_at told_story 1 0 0 []) (job_at told_story 3 108 0 [])
do_job-Quiet_example =
    do_job-Quiet replaying (record { job = refl; tasks = λ task_type. refl }) three_attempts
      "job hash" code 9 9 9 (job_at told_story 1 0 0 []) unfinished
