-- ===== src/Workflow/Job/Retold/Reproduces.antt =====
-- DoJob over the story of a job that is over: the runs that only replay.
use swf_go.Prelude.{
  ℕ, suc, ◌+◌, ◌≤◌, ◌≡◌, refl, ap, ◌∙◌, true, false, String, Option, none, some, List, ◌⊎◌, inl,
  inr,
}
use swf_go.Workflow.Policy.{Limits}
use swf_go.Workflow.Task.{job_start, Entry, Runner, Verdict, decoded, chapter_to_task_data}
use swf_go.Workflow.Task.Replay.{Ready, runner_at}
use swf_go.Workflow.Task.Story.{NoExtra}
use swf_go.Workflow.Job.{Program, Answer, World, JobState, job_stops, Cached, run_program}
use swf_go.Workflow.Job.Quiet.{Quiet, OnlyReplays}
use swf_go.Workflow.Job.Turns.{at_cached, job_turn, job_loop}
use swf_go.Workflow.Job.Start.{do_job}
use swf_go.Workflow.Job.Retold.{IsPartOf, Regular, Retells}
use swf_go.Workflow.Job.Retold.Closed.{IsJobOutcome, IsCalm, check_closed}
use swf_go.Workflow.Job.{is_job_outcome}
use swf_go.Workflow.Job.Quiet.Whole.{do_job-Quiet}
use swf_go.Workflow.Job.Retold.Tasks.{run_program-Retells, Regular-first}
use swf_go.Workflow.Job.Retold.Stops.{gives_answer, at_cached-Stops, run_worker-Stops}

abbrev pub job_at : (ℕ → Option Entry) → ℕ → ℕ → ℕ → List String → JobState
job_at story from ticks runs completions = record {
  runner = runner_at story from ticks runs;
  completions = completions;
}

module _ (w : World) (calm : IsCalm w) (limits : Limits) (hash : String) (program : Program)
    (rounds fuel : ℕ) where
  job_turn-Stops :
      (attempt : ℕ) (final : ℕ → Option Entry) (from to ticks runs : ℕ) (completions : List String)
      (a : Answer) (e : Entry) (v : Verdict)
      → Retells w rounds fuel program final from (ticks + 32) runs a to
      → gives_answer a ≡ true
      → final to ≡ some e
      → IsJobOutcome limits hash v e
      → (from ≡ to)
        ⊎ ((f : Entry) × (final from ≡ some f) × (is_job_outcome f.chapter_type ≡ false))
      → (t : JobState) × (job_turn w limits hash none program rounds fuel attempt
            (job_at final from ticks runs completions)
          ≡ some (job_stops v t))
  unfolding job_turn
  job_turn-Stops attempt final from to ticks runs completions a e v told g at o
        (inr (f, first, other)) =
      let (t, p) =
        run_worker-Stops w calm limits hash program rounds fuel attempt (ticks + 2)
          (job_at final from (ticks + 32) runs completions) a to told.after e v told.run g at o in
      (t, simp (calm.reads (ticks + 1), first, other) p)
  job_turn-Stops attempt final from to ticks runs completions a e v told g at o (inl same) =
      let here : final from ≡ some e = ap final same ∙ at in
      let s : JobState = job_at final from (ticks + 32) runs completions in
      let (t, p) =
        at_cached-Stops w calm limits hash program rounds fuel v e attempt (ticks + 2 + 9) s
          (o.closed) in
      (
        t,
        simp (calm.reads (ticks + 1), here, o.outcome)
            (ap
                (λ (c : Cached).
                  at_cached w limits hash none program rounds fuel attempt c (ticks + 2 + 9) s)
                (check_closed w calm limits hash s (ticks + 2) e v here o)
              ∙ p),
      )

-- A run of DoJob that ends with a verdict, and leaves the story, the workers that were started and the
-- completions of the lease as they were.
pub record Reproduces (w : World) (limits : Limits) (hash : String) (program : String → Program)
    (rounds fuel n : ℕ) (s : JobState) (v : Verdict) : Type 0 where
  pub after : JobState
  pub run : do_job w limits hash program rounds fuel n s ≡ some (v, after)
  pub quiet : Quiet s after

-- The first chapter of a job, with its input.
pub record Begins (e : Entry) (input : String) : Type 0 where
  pub start : e.chapter_type ≡ job_start
  pub reads : chapter_to_task_data e.payload ≡ decoded input

module _ (w : World) (rounds time : ℕ) (final : ℕ → Option Entry) (extra : NoExtra final)
    (other : World) (ok : (task_type : String) → Ready (other.task_host task_type) time)
    (only : OnlyReplays other) (calm : IsCalm other) (limits : Limits)
    (no_total : limits.total_timeout ≡ 0) (hash input : String) (program : String → Program) where
  do_job-job_turn :
      (n more fuel from ticks runs : ℕ) (completions : List String) (start : Entry) (v : Verdict)
      (t : JobState)
      → final 0 ≡ some start
      → Begins start input
      → job_turn other limits hash none
          (program input)
          more
          fuel
          1
          (job_at final from (ticks + 8) runs completions)
        ≡ some (job_stops v t)
      → do_job other limits hash program more fuel
          (suc n)
          (job_at final from ticks runs completions)
        ≡ some (v, t)
  unfolding do_job job_loop
  do_job-job_turn n more fuel from ticks runs completions start v t at begins turn =
      simp (calm.reads ticks, at, begins.start, begins.reads, only.job, no_total, turn) refl

  -- A job that is over is told again as it was. Where a job's worker has come to an end, over calls
  -- of DoTask that returned data or an attempt's error, and the chapter after them is the job's
  -- outcome, with data or an error that ends the job, a run of DoJob that only replays the
  -- story, by another worker with the same code, returns that data or error as it is stored. It
  -- writes no chapter, starts no worker of a task and does not complete the lease. The story's first
  -- chapter is the job's start, no chapter is a restart's, the job has no total timeout, the store
  -- answers, no timer comes first, and the clock is past the tasks' backoffs. Each task that the
  -- worker called has an input hash that is not empty, a policy without a total timeout that treats
  -- the worker's errors as before once they are stored, and code after it that goes on in the same
  -- way from a stored error as from the error itself.
  pub do_job-Reproduces :
      (n more fuel : ℕ) (r : Runner) {end : Runner} {a : Answer} (ticks runs : ℕ)
      (completions : List String) (start e : Entry) (v : Verdict)
      → Regular w rounds time final fuel (program input) r
      → run_program w rounds fuel (program input) r ≡ (some a, end)
      → gives_answer a ≡ true
      → IsPartOf end.story final
      → end.story_counter ≤ more
      → final 0 ≡ some start
      → Begins start input
      → final end.story_counter ≡ some e
      → IsJobOutcome limits hash v e
      → Reproduces other limits hash program more fuel
          (suc n)
          (job_at final r.story_counter ticks runs completions)
          v
  do_job-Reproduces n more fuel r {end = end} {a = a} ticks runs completions start e v regular run g
        part l first begins at o =
      let (t, turn) =
        job_turn-Stops other calm limits hash (program input) more fuel 1 final r.story_counter
          end.story_counter (ticks + 8) runs completions a e v
          (run_program-Retells w rounds time final extra other ok more fuel (program input) r
            (ticks + 8 + 32) runs regular run part l)
          g at o (Regular-first w rounds time final extra other ok more regular run part) in
      let told : do_job other limits hash program more fuel (suc n)
            (job_at final r.story_counter ticks runs completions)
          ≡ some (v, t) =
        do_job-job_turn n more fuel r.story_counter ticks runs completions start v t first begins
          turn in
      record {
        after = t;
        run = told;
        quiet = do_job-Quiet other only limits hash program more fuel (suc n) _ told;
      }
