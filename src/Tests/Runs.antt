-- ===== src/Tests/Runs.antt =====
-- A task with a worker that fails once, over a story with only the job's start.
use swf_go.Prelude.{
  ℕ, ◌+◌, ◌≤◌, ◌≡◌, ◌↔◌, refl, subst, true, false, Option, none, some, List, [], ◌∷◌, leb, ◌==◌,
  str_eq, if◌then◌else◌, arith, Bool-cases, inl, inr, none-some, some-injective,
}
use swf_go.Workflow.Errors.{
  Chain, other_link, OtherError, decode_app, stored_error, error_payload, is_retryable, as_timeout,
  as_app, as_system, non_retryable, is_job_failed, matches_any_name,
}
use swf_go.Workflow.Errors.Stored.{Plain, is_retryable-stored_error}
use swf_go.Workflow.Policy.{plus, Limits}
use swf_go.Workflow.Await.{
  Host, accepted, finished, failed, produced, known_job, await_until, total_timeout_error,
  Prerequisite, check_prerequisites,
}
use swf_go.Workflow.Await.Prerequisites.{AllSucceeded, check_prerequisites_iff}
use swf_go.Workflow.Task.{
  job_start, app_payload, error_stored, Entry, Runner, Verdict, returns, refuses, timed_out,
  result_missing, store,
}
use swf_go.Workflow.Task.Live.{outcome_entry, run_attempt, settle, live_turn, task_turn, do_task}
use swf_go.Workflow.Task.Replay.{
  IsAttempt, Recorded, success, retried, Ready, runner_at, do_task-Recorded,
}
use swf_go.Workflow.Task.Round.Turns.{task_turn-Round}
use swf_go.Workflow.Task.Round.{Round, KeepsErrors, KeepsRetry, ends}
use swf_go.Workflow.Task.Story.{NoExtra, Settled, Replays}
use swf_go.Workflow.Task.Run.{do_task-kept, do_task-Replays}
use swf_go.Workflow.Task.Fuel.{EndsAt, do_task-runs, do_task-total}
use swf_go.Workflow.Task.Deadline.{do_task-late}
use swf_go.Workflow.Task.Inspect.{do_task-Idle}

abbrev pub broken : OtherError
broken = record {
  name = "errorString";
  full_name = "*errors.errorString";
  message = "broken";
  non_retryable = none;
  is_job_failed = false;
  is_cancelled = false;
}

abbrev pub worker_error : Chain
worker_error = other_link broken ∷ []

abbrev pub three_attempts : Limits
three_attempts = record {
  max_attempts = 3;
  names = [];
  backoff = λ n. 1;
  invocation_timeout = 0;
  total_timeout = 0;
}

-- The worker fails in the first round, and succeeds later.
abbrev pub worker : Host
worker = record {
  now = λ n. n;
  replay = false;
  has_lease = true;
  await_threshold = 0;
  reschedule = λ n. accepted;
  is_done = λ n. false;
  has_worker = true;
  timer_first = λ n. false;
  arrival = λ n. if leb 18 n then finished (produced "result") else finished (failed worker_error);
  read_error = λ n. none;
  put_error = λ n. none;
  job = λ n id. known_job true (some none);
  timeout_text = λ kind scope after. "timed out";
}

-- One that replays the story an hour later.
abbrev pub inspector : Host
inspector = record worker {
  replay = true;
  has_lease = false;
  has_worker = false;
  now = λ n. 3600000000000 + n;
}

abbrev pub start : Entry
start = record {
  chapter_type = job_start;
  input_hash = "";
  attempt = plus 0;
  created_at = 0;
  prerequisites = [];
  payload = app_payload "input";
}

abbrev pub first : Entry
first = outcome_entry "hash" 1 6 (error_stored (error_payload worker_error))

abbrev pub second : Entry
second = outcome_entry "hash" 2 24 (app_payload "result")

abbrev pub started_story : ℕ → Option Entry
started_story n = if n == 0 then some start else none

abbrev pub told_story : ℕ → Option Entry
told_story = store (store started_story 1 first) 2 second

abbrev pub begun : Runner
begun = runner_at started_story 1 0 0

abbrev pub ended : Runner
ended = runner_at told_story 3 36 2

pub run_lem : do_task worker three_attempts "hash" 5 1 begun ≡ some (returns "result", ended)
unfolding do_task task_turn live_turn run_attempt settle await_until is_retryable as_timeout
    non_retryable matches_any_name
run_lem = refl

pub no_extra : NoExtra started_story
no_extra n e h = ground arith

started_ends : EndsAt 1 started_story
started_ends n l = ground arith

worker_error-Plain : Plain worker_error
unfolding is_job_failed as_app
worker_error-Plain = record { own = refl; unmarked = λ a h. absurd (none-some h) }

worker_error_kept : KeepsRetry three_attempts worker_error
unfolding non_retryable
worker_error_kept = is_retryable-stored_error worker_error worker_error-Plain refl

pub keeps : KeepsErrors worker three_attempts
keeps n err h = elim (Bool-cases (leb 18 n)) [
  | inl b ↦ absurd (other (rw b at h))
  | inr b ↦ subst (KeepsRetry three_attempts) (same (rw b at h)) worker_error_kept
]
  where
    other : finished (produced "result") ≡ finished (failed err) → ⊥
    other p = cc

    same : finished (failed worker_error) ≡ finished (failed err) → worker_error ≡ err
    same p = cc

pub ready : Ready inspector 3600000000000
ready = record { reads = λ n. refl; late = λ n. omega arith }

pub settled : Settled three_attempts 3600000000000 told_story
settled n e h = elim (Bool-cases (n == 2)) [
  | inl b ↦ bound second (omega arith) (rw b at h)
  | inr b ↦ elim (Bool-cases (n == 1)) [
    | inl c ↦ bound first (omega arith) (rw (b, c) at h)
    | inr c ↦ elim (Bool-cases (n == 0)) [
      | inl d ↦ bound start (omega arith) (rw (b, c, d) at h)
      | inr d ↦ absurd (none-some (rw (b, c, d) at h))
    ]
  ]
]
  where
    bound :
        (a : Entry)
        → a.created_at + 1 ≤ 3600000000000
        → some a ≡ some e
        → e.created_at + 1 ≤ 3600000000000
    bound a l p = subst (λ (x : Entry). x.created_at + 1 ≤ 3600000000000) (some-injective p) l

first-IsAttempt : IsAttempt "hash" first
unfolding str_eq
first-IsAttempt = record { outcome = refl; same_input = refl; has_hash = refl }

second-IsAttempt : IsAttempt "hash" second
unfolding str_eq
second-IsAttempt = record { outcome = refl; same_input = refl; has_hash = refl }

first_ends : ends three_attempts (stored_error (error_payload worker_error)) 1 ≡ false
unfolding stored_error error_payload decode_app is_job_failed as_timeout as_system as_app
    is_retryable non_retryable matches_any_name
first_ends = refl

told : Recorded three_attempts "hash" 3600000000000 told_story 1 (returns "result") 3
told =
    retried refl first-IsAttempt refl first_ends (omega arith) (success refl second-IsAttempt refl)

do_task-Recorded_example :
    (end : ℕ) × (do_task inspector three_attempts "hash" 2 1 (runner_at told_story 1 0 0)
      ≡ some (returns "result", runner_at told_story 3 end 0))
do_task-Recorded_example =
    do_task-Recorded inspector three_attempts "hash" refl ready told 2 1 0 0 (omega arith)

do_task-Replays_example :
    Replays inspector three_attempts "hash" 5 (runner_at told_story 1 0 0) (returns "result") 3
unfolding str_eq
do_task-Replays_example =
    do_task-Replays worker three_attempts "hash" 5 begun inspector 3600000000000 5 0 refl refl
      no_extra keeps run_lem refl settled ready (omega arith)

do_task-total_example :
    (v : Verdict) × (end : Runner) × (do_task worker three_attempts "hash" 4 1 begun
      ≡ some (v, end))
do_task-total_example =
    do_task-total worker three_attempts "hash" 4 1 begun 1 (omega arith) started_ends (omega arith)

do_task-runs_example : ended.runs ≤ 0 + 3
do_task-runs_example =
    do_task-runs worker three_attempts "hash" 5 begun 1 (omega arith) (omega arith) started_ends
      (λ n l m. absurd (omega (arith, l, m))) run_lem

do_task-kept_run : ended.story 0 ≡ some start
do_task-kept_run = do_task-kept worker three_attempts "hash" 5 1 begun run_lem 0 start refl

inspected :
    do_task inspector three_attempts "hash" 3 1 begun
    ≡ some (refuses result_missing, record begun { ticks = 18 })
unfolding do_task task_turn live_turn
inspected = refl

do_task-Idle_example : (started_story ≡ begun.story) × (0 ≡ begun.runs)
do_task-Idle_example = do_task-Idle inspector three_attempts "hash" refl 3 1 begun inspected

abbrev one_second : Limits
one_second = record three_attempts { total_timeout = 1000000000 }

-- The story records a success, and its replay an hour later gives a timeout.
do_task-late_example :
    do_task inspector one_second "hash" 5 1 (runner_at told_story 1 0 0)
    ≡ some (
      refuses (timed_out (total_timeout_error inspector "task" 1000000000)),
      runner_at told_story 2 18 0,
    )
unfolding do_task
do_task-late_example =
    do_task-late inspector one_second "hash" (λ n. refl) 1 1 0 0 4 told_story first start
      (stored_error (error_payload worker_error)) (omega arith) refl (λ n. omega arith) refl
      first-IsAttempt refl first_ends (omega arith)

task_turn-Round_example :
    Round worker three_attempts "hash" 1 begun (task_turn worker three_attempts "hash" 1 begun)
task_turn-Round_example = task_turn-Round worker three_attempts "hash" 1 begun

abbrev needed : List Prerequisite
needed =
    record { job_id = "import"; of_success = true }
    ∷ record { job_id = "report"; of_success = false }
    ∷ []

check_prerequisites_iff_example :
    (check_prerequisites (worker.job 0) needed ≡ none) ↔ AllSucceeded (worker.job 0) needed
check_prerequisites_iff_example = check_prerequisites_iff (worker.job 0) needed
