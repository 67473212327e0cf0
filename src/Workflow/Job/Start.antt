-- ===== src/Workflow/Job/Start.antt =====
-- DoJob of worker_runner.go of pkg/workflow from its beginning: loadInitialChapterAndPolicy,
-- setupJobExecutionConfig and the prerequisites. The policy that the job ends up with, and the hash
-- of its input, are arguments.
pub mod Once
use swf_go.Prelude.{
  ℕ, zero, suc, ◌+◌, Bool, true, false, not, ◌&&◌, String, Option, none, some, ltb, if◌then◌else◌,
}
use swf_go.Workflow.Errors.{Chain}
use swf_go.Workflow.Policy.{Limits}
use swf_go.Workflow.Await.{check_prerequisites}
use swf_go.Workflow.Task.{
  ChapterType, job_start, job_attempt_outcome, task_attempt_outcome, restart_extra, Entry,
  unread_chapter, not_deterministic, Verdict, returns, fails, refuses, Reading, unread, missing,
  found, get_chapter, Decoded, decoded, undecoded, chapter_to_task_data,
}
use swf_go.Workflow.Job.{Program, World, JobState, JobTurn, job_stops, job_again}
use swf_go.Workflow.Job.Turns.{later, complete_failure, next_turn, job_loop}

abbrev pub is_job_start : ChapterType → Bool
is_job_start job_start = true
is_job_start job_attempt_outcome = false
is_job_start task_attempt_outcome = false
is_job_start restart_extra = false

-- jobTotalDeadline
abbrev pub job_total_deadline : Limits → Entry → Option ℕ
job_total_deadline limits e =
    if ltb 0 limits.total_timeout then some (e.created_at + limits.total_timeout) else none

module _ (w : World) (limits : Limits) (hash : String) (program : String → Program)
    (rounds fuel : ℕ) where
  -- The check of the prerequisites gave an error, or none; failJobPrerequisites completes the job.
  abbrev pub from_prerequisites :
      Option Chain → Entry → String → ℕ → ℕ → JobState → Option (Verdict × JobState)
  from_prerequisites none e text n tick s =
      job_loop w limits hash (job_total_deadline limits e) (program text) rounds fuel n 1 s
  from_prerequisites (some err) e text n tick s =
      next_turn w limits hash (job_total_deadline limits e) (program text) rounds fuel
        (λ attempt t. none)
        (some (
          complete_failure w limits hash (job_total_deadline limits e) (program text) rounds fuel 1
            err tick s))

  abbrev pub from_input : Entry → Decoded → ℕ → ℕ → JobState → Option (Verdict × JobState)
  from_input e (undecoded err) n tick s = some (fails err, s)
  from_input e (decoded text) n tick s =
      from_prerequisites
        (if not w.host.replay && w.host.has_lease
          then check_prerequisites (w.host.job tick) e.prerequisites
          else none)
        e text n (tick + 1) s

  abbrev pub from_first : Reading → ℕ → ℕ → JobState → Option (Verdict × JobState)
  from_first (unread message) n tick s = some (refuses (unread_chapter message), s)
  from_first missing n tick s = some (refuses (unread_chapter "chapter not found"), s)
  from_first (found e) n tick s =
      if not (is_job_start e.chapter_type)
      then some (refuses not_deterministic, s)
      else from_input e (chapter_to_task_data e.payload) n tick s

  -- DoJob
  unfoldable pub do_job : ℕ → JobState → Option (Verdict × JobState)
  do_job n s =
      from_first (get_chapter w.host s.runner s.runner.ticks 0) n (s.runner.ticks + 1) (later 8 s)
