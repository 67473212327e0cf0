-- ===== src/Workflow/Job/Quiet.antt =====
-- DoJob of worker_runner.go of pkg/workflow as the inspector of a job runs it, only to replay.
pub mod Whole
use swf_go.Prelude.{
  ℕ, zero, suc, ◌≡◌, refl, sym, ap, ◌∙◌, subst, Bool, true, false, not, ◌&&◌, ◌||◌, String, Option,
  none, some, ltb, leb, ◌+◌, some-injective, none-some, if◌then◌else◌,
}
use swf_go.Workflow.Errors.{Chain}
use swf_go.Workflow.Policy.{Limits}
use swf_go.Workflow.Await.{past}
use swf_go.Workflow.Task.{
  Entry, Runner, Verdict, returns, fails, refuses, exits, Reading, unread, missing, found,
  get_chapter, Decoded, decoded, undecoded, chapter_to_task_data, not_deterministic,
}
use swf_go.Workflow.Task.Replay.{leb_refl}
use swf_go.Workflow.Task.Live.{select_deadline, do_task}
use swf_go.Workflow.Task.Inspect.{do_task-Idle}
use swf_go.Workflow.Job.{
  Program, Answer, output, unreadable_data, job_error, nothing, consume, World, JobState, JobTurn,
  job_stops, job_again, Cached, not_cached, cached_error, cached_output, cached_retry,
  is_job_outcome, check_cached_job_result, run_program,
}
use swf_go.Workflow.Job.Along.{run_program-Along}
use swf_go.Workflow.Job.Once.{either_of}
use swf_go.Workflow.Job.Start.{
  is_job_start, job_total_deadline, from_prerequisites, from_input, from_first, do_job,
}
use swf_go.Workflow.Job.Turns.{
  with_runner, later, complete_cached, reread, in_time, replay_ends, settle_job, by_cached,
  answered, after_worker, wait_for_job_result, timer_answer, invocation_deadline, with_answer,
  run_worker, late_job, at_cached, at_chapter, job_turn, next_turn, job_loop,
}

-- The story, the workers that were started and the completions of the lease are the same.
pub record Quiet (s t : JobState) : Type 0 where
  pub same_story : t.runner.story ≡ s.runner.story
  pub no_run : t.runner.runs ≡ s.runner.runs
  pub no_completion : t.completions ≡ s.completions

pub quiet : (s : JobState) → Quiet s s
quiet s = record { same_story = refl; no_run = refl; no_completion = refl }

pub Quiet-trans : {s t u : JobState} → Quiet s t → Quiet t u → Quiet s u
Quiet-trans p q = record {
  same_story = q.same_story ∙ p.same_story;
  no_run = q.no_run ∙ p.no_run;
  no_completion = q.no_completion ∙ p.no_completion;
}

pub later-Quiet : (k : ℕ) (s : JobState) → Quiet s (later k s)
later-Quiet k s = record { same_story = refl; no_run = refl; no_completion = refl }

abbrev pub state_of : JobTurn → JobState
state_of (job_stops v t) = t
state_of (job_again n t) = t

abbrev pub QuietTurn : JobState → JobTurn → Type 0
QuietTurn s turn = Quiet s (state_of turn)

abbrev pub QuietIfAny : JobState → Option JobTurn → Type 0
QuietIfAny s o = (turn : JobTurn) → o ≡ some turn → QuietTurn s turn

pub QuietIfAny-some : {s : JobState} {turn : JobTurn} → QuietTurn s turn → QuietIfAny s (some turn)
QuietIfAny-some {s} f turn e = subst (QuietTurn s) (some-injective e) f

pub QuietIfAny-none : {s : JobState} → QuietIfAny s none
QuietIfAny-none turn e = absurd (none-some e)

pub record OnlyReplays (w : World) : Type 0 where
  pub job : w.host.replay ≡ true
  pub tasks : (task_type : String) → (w.task_host task_type).replay ≡ true

module _ (w : World) (only : OnlyReplays w) (limits : Limits) (hash : String) (deadline : Option ℕ)
    (program : Program) (rounds fuel : ℕ) where
  pub consumed : (s : JobState) → Quiet s (consume s)
  consumed s =
      simp (leb_refl s.runner.story_counter)
        (record { same_story = refl; no_run = refl; no_completion = refl })

  replay_ends-Quiet :
      (a : Answer) (s : JobState)
      → QuietTurn s (replay_ends w limits hash deadline program rounds fuel a s)
  replay_ends-Quiet (job_error err) s = quiet s
  replay_ends-Quiet (output text) s = quiet s
  replay_ends-Quiet (unreadable_data message) s = quiet s
  replay_ends-Quiet nothing s = quiet s

  pub complete_cached-Quiet :
      (e : Entry) (text : String) (tick : ℕ) (s : JobState)
      → QuietTurn s (complete_cached w limits hash deadline program rounds fuel e text tick s)
  complete_cached-Quiet e text tick s = simp (only.job) (consumed s)

  answered-Quiet :
      (attempt : ℕ) (a : Answer) (tick : ℕ) (s : JobState)
      → QuietTurn s (answered w limits hash deadline program rounds fuel attempt a tick s)
  answered-Quiet attempt a tick s = by_case (check_cached_job_result w limits hash deadline s tick)
    where
      rest : QuietTurn s (
          if w.host.replay
          then replay_ends w limits hash deadline program rounds fuel a s
          else settle_job w limits hash deadline program rounds fuel attempt a (tick + 9) s)
      rest = simp (only.job) (replay_ends-Quiet a s)

      by_reading :
          (c : Option String) (e : Entry) (text : String)
          → QuietTurn s
              (reread w limits hash deadline program rounds fuel c e text (tick + 9 + 1) s)
      by_reading none e text = complete_cached-Quiet e text (tick + 9 + 1) s
      by_reading (some message) e text = quiet s

      by_case :
          (c : Cached)
          → QuietTurn s (
              by_cached w limits hash deadline program rounds fuel c
                (if w.host.replay
                  then replay_ends w limits hash deadline program rounds fuel a s
                  else settle_job w limits hash deadline program rounds fuel attempt a (tick + 9) s)
                (tick + 9)
                s)
      by_case not_cached = rest
      by_case (cached_error v) = quiet s
      by_case (cached_output e text) = by_reading (w.host.read_error (tick + 9)) e text
      by_case (cached_retry next) = consumed s

  pub after_worker-Quiet :
      (attempt : ℕ) (a : Answer) (invocation : Option ℕ) (s : JobState)
      → QuietTurn s (after_worker w limits hash deadline program rounds fuel attempt a invocation s)
  unfolding after_worker
  after_worker-Quiet attempt nothing invocation s = quiet s
  after_worker-Quiet attempt (output text) invocation s = Quiet-trans (later-Quiet 32 s) (
      answered-Quiet attempt
        (in_time w limits hash deadline program rounds fuel (output text)
          (w.host.now s.runner.ticks) invocation)
        (s.runner.ticks + 1) (later 32 s))
  after_worker-Quiet attempt (unreadable_data message) invocation s =
      Quiet-trans (later-Quiet 32 s) (
        answered-Quiet attempt
          (in_time w limits hash deadline program rounds fuel (unreadable_data message)
            (w.host.now s.runner.ticks) invocation)
          (s.runner.ticks + 1) (later 32 s))
  after_worker-Quiet attempt (job_error err) invocation s =
      Quiet-trans (later-Quiet 32 s)
        (answered-Quiet attempt (job_error err) (s.runner.ticks + 1) (later 32 s))
