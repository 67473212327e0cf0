-- ===== src/Workflow/Job/Start/Once.antt =====
-- A whole run of DoJob of worker_runner.go of pkg/workflow that is not a replay.
use swf_go.Prelude.{
  ℕ, ◌+◌, ◌≡◌, refl, subst, Bool, true, false, not, String, Option, none, some, some-injective,
  none-some, if◌then◌else◌,
}
use swf_go.Workflow.Errors.{Chain}
use swf_go.Workflow.Policy.{Limits}
use swf_go.Workflow.Task.{
  not_deterministic, Entry, Verdict, refuses, Reading, unread, missing, found, Decoded, decoded,
  undecoded, chapter_to_task_data, get_chapter,
}
use swf_go.Workflow.Job.{Program, World, JobState, JobTurn, job_stops, job_again}
use swf_go.Workflow.Job.Once.{Fine, Fine-after, stays_open}
use swf_go.Workflow.Job.Once.Rounds.{same_story, complete_failure-Fine}
use swf_go.Workflow.Job.Once.Closing.{job_loop-Fine}
use swf_go.Workflow.Job.Turns.{later, complete_failure, next_turn}
use swf_go.Workflow.Job.Start.{
  is_job_start, job_total_deadline, from_prerequisites, from_input, from_first, do_job,
}

module _ (w : World) (limits : Limits) (hash : String) (program : String → Program)
    (rounds fuel : ℕ) (live : w.host.replay ≡ false) where
  stopped :
      {s t u : JobState} {v x : Verdict}
      → Fine s (job_stops x u)
      → ◌≡◌ {A = Option (Verdict × JobState)} (some (x, u)) (some (v, t))
      → Fine s (job_stops v t)
  stopped {s} f e =
      subst (λ (p : Verdict × JobState). Fine s (job_stops p.0 p.1)) (some-injective e) f

  from_prerequisites-Fine :
      (o : Option Chain) (e : Entry) (text : String) (n tick : ℕ) (s : JobState) {v : Verdict}
      {t : JobState}
      → from_prerequisites w limits hash program rounds fuel o e text n tick s ≡ some (v, t)
      → Fine s (job_stops v t)
  from_prerequisites-Fine none e text n tick s h =
      job_loop-Fine w limits hash (job_total_deadline limits e) (program text) rounds fuel live n 1
        s h
  from_prerequisites-Fine (some err) e text n tick s {v = v} {t = t} h =
      go
        (complete_failure w limits hash (job_total_deadline limits e) (program text) rounds fuel 1
          err tick s)
        (complete_failure-Fine w limits hash (job_total_deadline limits e) (program text) rounds
          fuel 1 err tick s)
        h
    where
      go :
          (turn : JobTurn)
          → Fine s turn
          → next_turn w limits hash
              (job_total_deadline limits e)
              (program text)
              rounds
              fuel
              (λ attempt u. none)
              (some turn)
            ≡ some (v, t)
          → Fine s (job_stops v t)
      go (job_stops x u) f p = stopped f p
      go (job_again next u) f p = absurd (none-some p)

  from_first-Fine :
      (c : Reading) (n tick : ℕ) (s : JobState) {v : Verdict} {t : JobState}
      → from_first w limits hash program rounds fuel c n tick s ≡ some (v, t)
      → Fine s (job_stops v t)
  from_first-Fine (unread message) n tick s h = stopped (stays_open refl (same_story s) refl) h
  from_first-Fine missing n tick s h = stopped (stays_open refl (same_story s) refl) h
  from_first-Fine (found e) n tick s {v = v} {t = t} h = by_type (is_job_start e.chapter_type) h
    where
      by_data :
          (d : Decoded)
          → from_input w limits hash program rounds fuel e d n tick s ≡ some (v, t)
          → Fine s (job_stops v t)
      by_data (undecoded err) p = stopped (stays_open refl (same_story s) refl) p
      by_data (decoded text) p = from_prerequisites-Fine _ e text n (tick + 1) s p

      by_type :
          (b : Bool)
          → (if not b
              then some (refuses not_deterministic, s)
              else from_input w limits hash program rounds fuel e
                  (chapter_to_task_data e.payload)
                  n
                  tick
                  s)
            ≡ some (v, t)
          → Fine s (job_stops v t)
      by_type false p = stopped (stays_open refl (same_story s) refl) p
      by_type true p = by_data (chapter_to_task_data e.payload) p

  -- DoJob closes a job once and correctly. Where it returns data, it has completed the lease, once
  -- and as a success, and the data is that of the job's outcome at the end of the story; where it
  -- returns an error of the job, it has completed the lease once and with that error's status, or
  -- not at all; otherwise not at all. No chapter is changed or lost. The run is not a replay.
  pub do_job-Fine :
      (n : ℕ) (s : JobState) {v : Verdict} {t : JobState}
      → do_job w limits hash program rounds fuel n s ≡ some (v, t)
      → Fine s (job_stops v t)
  unfolding do_job
  do_job-Fine n s h = Fine-after (same_story s) refl (
      from_first-Fine (get_chapter w.host s.runner s.runner.ticks 0) n (s.runner.ticks + 1)
        (later 8 s) h)
