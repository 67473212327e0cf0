-- ===== src/Workflow/Job/Stuck.antt =====
-- Runs of DoJob of worker_runner.go of pkg/workflow that leave the lease of an ended job open.
use swf_go.Prelude.{
  ℕ, suc, ◌+◌, ◌<◌, ◌≡◌, refl, true, false, String, Option, none, some, str_eq, lt→ltb, Bool-cases,
  str_eq_refl, inl, inr,
}
use swf_go.Workflow.Errors.{Chain, error_payload}
use swf_go.Workflow.Policy.{Limits}
use swf_go.Workflow.Await.{past}
use swf_go.Workflow.Task.{
  job_attempt_outcome, error_stored, Entry, fails, refuses, not_persisted, undecoded,
  chapter_to_task_data, prior_attempt,
}
use swf_go.Workflow.Task.Round.{ends}
use swf_go.Workflow.Job.{
  Program, World, JobState, complete_chapter, job_entry, check_cached_job_result,
}
use swf_go.Workflow.Job.Turns.{later, job_turn, job_loop, job_timeout}

module _ (w : World) (limits : Limits) (hash : String) (program : Program) (rounds fuel : ℕ) where
  -- The loop of DoJob, where the job's deadline has passed and another chapter than that of the
  -- timeout stands under the runner's ordinal, tries to complete the job under that ordinal and is
  -- refused. The lease and the story are left as they were.
  pub job_loop-late :
      (n attempt deadline : ℕ) (s : JobState) (e : Entry)
      → w.host.replay ≡ false
      → deadline < w.host.now s.runner.ticks
      → s.runner.story s.runner.story_counter ≡ some e
      → ((time : ℕ)
          → w.same_chapter e (
              job_entry hash attempt time (
                error_stored
                  (error_payload (job_timeout w limits hash (some deadline) program rounds fuel))))
            ≡ false)
      → (message : String) × (job_loop w limits hash
            (some deadline)
            program
            rounds
            fuel
            (suc n)
            attempt
            s
          ≡ some (refuses (not_persisted message), later 32 s))
  unfolding job_loop job_turn complete_chapter
  job_loop-late n attempt deadline s e live late at other = elim (Bool-cases w.host.has_lease) [
    | inl l ↦ (
      "conflict",
      simp (lt→ltb deadline (w.host.now s.runner.ticks) late, live, l, at, other) refl,
    )
    | inr l ↦
        ("lease is required", simp (lt→ltb deadline (w.host.now s.runner.ticks) late, live, l) refl)
  ]

module _ (w : World) (limits : Limits) (hash : String) (deadline : Option ℕ) (program : Program)
    (rounds fuel : ℕ) where
  -- The loop of DoJob, where a failing outcome with the input's hash stands under the runner's
  -- ordinal, returns the recorded error, and leaves the lease as it was. The store answers, the
  -- policy does not retry the error, and the job's deadline has not passed.
  pub job_loop-failed :
      (n attempt : ℕ) (s : JobState) (e : Entry) (err : Chain)
      → ((tick : ℕ) → w.host.read_error tick ≡ none)
      → ((tick : ℕ) → past (w.host.now tick) deadline ≡ false)
      → s.runner.story s.runner.story_counter ≡ some e
      → e.chapter_type ≡ job_attempt_outcome
      → e.input_hash ≡ hash
      → chapter_to_task_data e.payload ≡ undecoded err
      → ends limits err (prior_attempt e.attempt) ≡ true
      → job_loop w limits hash deadline program rounds fuel (suc n) attempt s
        ≡ some (fails err, later 32 s)
  unfolding job_loop job_turn check_cached_job_result
  job_loop-failed n attempt s e err reads early at outcome same_input stored over =
      elim (Bool-cases (str_eq hash "")) [
        | inl b ↦
            simp
              (
                early s.runner.ticks,
                reads (s.runner.ticks + 1),
                at,
                outcome,
                reads (s.runner.ticks + 2),
                same_input,
                b,
                early (s.runner.ticks + 2 + 1),
                stored,
                over,
              )
              refl
        | inr b ↦
            simp
              (
                early s.runner.ticks,
                reads (s.runner.ticks + 1),
                at,
                outcome,
                reads (s.runner.ticks + 2),
                same_input,
                b,
                str_eq_refl hash,
                early (s.runner.ticks + 2 + 1),
                stored,
                over,
              )
              refl
      ]
