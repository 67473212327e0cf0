-- ===== src/Workflow/Job/Retold/Closed.antt =====
-- The replay of a job whose outcome is recorded.
use swf_go.Prelude.{
  ℕ, ◌≡◌, refl, true, false, String, none, some, str_eq, inl, inr, str_eq_refl, Bool-cases,
}
use swf_go.Workflow.Errors.{Chain}
use swf_go.Workflow.Policy.{Limits}
use swf_go.Workflow.Task.{
  job_attempt_outcome, Entry, Verdict, returns, fails, refuses, exits, decoded, undecoded,
  chapter_to_task_data, prior_attempt,
}
use swf_go.Workflow.Task.Round.{ends}
use swf_go.Workflow.Job.{
  World, JobState, Cached, not_cached, cached_error, cached_output, check_cached_job_result,
}

-- The verdict of a job that a chapter records: data, or an error that ends the job.
pub data Closed (limits : Limits) (e : Entry) : Verdict → Type 0 where
  closed_data :
      {text : String}
      → chapter_to_task_data e.payload ≡ decoded text
      → Closed limits e (returns text)
  closed_error :
      {err : Chain}
      → chapter_to_task_data e.payload ≡ undecoded err
      → ends limits err (prior_attempt e.attempt) ≡ true
      → Closed limits e (fails err)

-- A job's outcome for an input of a hash.
pub record IsJobOutcome (limits : Limits) (hash : String) (v : Verdict) (e : Entry) : Type 0 where
  pub outcome : e.chapter_type ≡ job_attempt_outcome
  pub same_input : e.input_hash ≡ hash
  pub closed : Closed limits e v

abbrev pub cached_as : Verdict → Entry → Cached
cached_as (returns text) e = cached_output e text
cached_as (fails err) e = cached_error (fails err)
cached_as (refuses refusal) e = not_cached
cached_as exits e = not_cached

-- The store answers a job's replay, and no timer comes first.
pub record IsCalm (w : World) : Type 0 where
  pub replays : w.host.replay ≡ true
  pub reads : (tick : ℕ) → w.host.read_error tick ≡ none
  pub patient : (tick : ℕ) → w.host.timer_first tick ≡ false

module _ (w : World) (calm : IsCalm w) (limits : Limits) (hash : String) where
  pub check_closed :
      (s : JobState) (tick : ℕ) (e : Entry) (v : Verdict)
      → s.runner.story s.runner.story_counter ≡ some e
      → IsJobOutcome limits hash v e
      → check_cached_job_result w limits hash none s tick ≡ cached_as v e
  unfolding check_cached_job_result
  check_closed s tick e v at o = by_verdict v (o.closed)
    where
      by_verdict :
          (x : Verdict)
          → Closed limits e x
          → check_cached_job_result w limits hash none s tick ≡ cached_as x e
      by_verdict (returns text) (closed_data d) = elim (Bool-cases (str_eq hash "")) [
        | inl b ↦ simp (calm.reads tick, at, o.outcome, o.same_input, b, d) refl
        | inr b ↦ simp (calm.reads tick, at, o.outcome, o.same_input, b, str_eq_refl hash, d) refl
      ]
      by_verdict (refuses refusal) x = elim x [ ]
      by_verdict exits x = elim x [ ]
      by_verdict (fails err) (closed_error d x) = elim (Bool-cases (str_eq hash "")) [
        | inl b ↦ simp (calm.reads tick, at, o.outcome, o.same_input, b, d, x) refl
        | inr b ↦
            simp (calm.reads tick, at, o.outcome, o.same_input, b, str_eq_refl hash, d, x) refl
      ]
