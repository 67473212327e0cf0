-- ===== src/Workflow/Job/Quiet/Whole.antt =====
-- A whole run of DoJob of worker_runner.go of pkg/workflow that only replays.
use swf_go.Prelude.{
  ℕ, zero, suc, ◌≡◌, refl, ◌∙◌, subst, Bool, true, false, not, String, Option, none, some, ◌+◌,
  some-injective, none-some, if◌then◌else◌,
}
use swf_go.Workflow.Policy.{Limits}
use swf_go.Workflow.Await.{past}
use swf_go.Workflow.Task.{
  Runner, Verdict, refuses, Reading, unread, missing, found, get_chapter, Decoded, decoded,
  undecoded, chapter_to_task_data, not_deterministic,
}
use swf_go.Workflow.Task.Live.{select_deadline}
use swf_go.Workflow.Task.Inspect.{do_task-Idle}
use swf_go.Workflow.Job.{
  Program, Answer, World, JobState, JobTurn, job_stops, job_again, Cached, not_cached, cached_error,
  cached_output, cached_retry, is_job_outcome, check_cached_job_result, run_program,
}
use swf_go.Workflow.Job.Along.{run_program-Along}
use swf_go.Workflow.Job.Once.{either_of}
use swf_go.Workflow.Job.Start.{is_job_start, job_total_deadline, from_input, from_first, do_job}
use swf_go.Workflow.Job.Turns.{
  with_runner, later, wait_for_job_result, timer_answer, invocation_deadline, with_answer,
  run_worker, at_cached, at_chapter, job_turn, next_turn, job_loop,
}
use swf_go.Workflow.Job.Quiet.{
  Quiet, OnlyReplays, quiet, Quiet-trans, later-Quiet, QuietIfAny, QuietIfAny-some, QuietIfAny-none,
  consumed, complete_cached-Quiet, after_worker-Quiet,
}

module _ (w : World) (only : OnlyReplays w) (limits : Limits) (hash : String) (deadline : Option ℕ)
    (program : Program) (rounds fuel : ℕ) where
  wait_for_job_result-Quiet :
      (d : Option ℕ) (tick : ℕ) (s : JobState)
      → Quiet s (
          with_runner s
            (wait_for_job_result w limits hash deadline program rounds fuel d tick s.runner).1)
  wait_for_job_result-Quiet d tick s = by_deadline d
    where
      Same : Runner → Runner → Type 0
      Same q r = (r.story ≡ q.story) × (r.runs ≡ q.runs)

      same : (m : ℕ) → Quiet s (with_runner s (run_program w rounds m program s.runner).1)
      same m =
          let (p, q) =
            run_program-Along w rounds Same (λ q. (refl, refl))
              (λ q r t f g. (g.0 ∙ f.0, g.1 ∙ f.1))
              (λ task_type policy h q v end run.
                do_task-Idle (w.task_host task_type) policy h (only.tasks task_type) rounds 1 q run)
              m program s.runner in
          record { same_story = p; no_run = q; no_completion = refl }

      by_timer :
          (at : ℕ) (b : Bool)
          → Quiet s (
              with_runner s
                (if b
                  then (
                    some (timer_answer w limits hash deadline program rounds fuel deadline at),
                    (run_program w rounds (w.progress tick) program s.runner).1,
                  )
                  else run_program w rounds fuel program s.runner).1)
      by_timer at true = same (w.progress tick)
      by_timer at false = same fuel

      by_deadline :
          (o : Option ℕ)
          → Quiet s (
              with_runner s
                (wait_for_job_result w limits hash deadline program rounds fuel o tick s.runner).1)
      by_deadline none = same fuel
      by_deadline (some at) = by_timer at (w.host.timer_first tick)

  run_worker-Quiet :
      (attempt tick : ℕ) (s : JobState)
      → QuietIfAny s (run_worker w limits hash deadline program rounds fuel attempt tick s)
  unfolding run_worker
  run_worker-Quiet attempt tick s =
      by_answer
        (wait_for_job_result w limits hash deadline program rounds fuel
          (select_deadline w.host limits hash
            (invocation_deadline w limits hash deadline program rounds fuel (w.host.now tick))
            deadline)
          (tick + 1) s.runner)
        (wait_for_job_result-Quiet
          (select_deadline w.host limits hash
            (invocation_deadline w limits hash deadline program rounds fuel (w.host.now tick))
            deadline)
          (tick + 1) s)
    where
      by_answer :
          (p : Option Answer × Runner)
          → Quiet s (with_runner s p.1)
          → QuietIfAny s (
              with_answer w limits hash deadline program rounds fuel attempt
                (invocation_deadline w limits hash deadline program rounds fuel (w.host.now tick))
                s
                p)
      by_answer (none, r) q = QuietIfAny-none
      by_answer (some a, r) q = QuietIfAny-some (
          Quiet-trans q (
            after_worker-Quiet w only limits hash deadline program rounds fuel attempt a
              (invocation_deadline w limits hash deadline program rounds fuel (w.host.now tick))
              (with_runner s r)))

  at_chapter-Quiet :
      (attempt : ℕ) (c : Reading) (tick : ℕ) (s : JobState)
      → QuietIfAny s (at_chapter w limits hash deadline program rounds fuel attempt c tick s)
  at_chapter-Quiet attempt (unread message) tick s = QuietIfAny-some (quiet s)
  at_chapter-Quiet attempt missing tick s = run_worker-Quiet attempt tick s
  at_chapter-Quiet attempt (found f) tick s =
      either_of (QuietIfAny s) (is_job_outcome f.chapter_type)
        (by_case (check_cached_job_result w limits hash deadline s tick))
        (run_worker-Quiet attempt tick s)
    where
      by_case :
          (c : Cached)
          → QuietIfAny s
              (at_cached w limits hash deadline program rounds fuel attempt c (tick + 9) s)
      by_case not_cached = run_worker-Quiet attempt (tick + 9) s
      by_case (cached_error v) = QuietIfAny-some (quiet s)
      by_case (cached_output e text) = QuietIfAny-some (
          complete_cached-Quiet w only limits hash deadline program rounds fuel e text (tick + 9) s)
      by_case (cached_retry next) =
          QuietIfAny-some (consumed w only limits hash deadline program rounds fuel s)

  job_turn-Quiet :
      (attempt : ℕ) (s : JobState)
      → QuietIfAny s (job_turn w limits hash deadline program rounds fuel attempt s)
  unfolding job_turn
  job_turn-Quiet attempt s =
      either_of (QuietIfAny s) (past (w.host.now s.runner.ticks) deadline)
        (QuietIfAny-some (simp (only.job) (later-Quiet 32 s)))
        (λ turn e.
          Quiet-trans (later-Quiet 32 s)
            (at_chapter-Quiet attempt _ (s.runner.ticks + 2) (later 32 s) turn e))

  job_loop-Quiet :
      (n attempt : ℕ) (s : JobState) {v : Verdict} {t : JobState}
      → job_loop w limits hash deadline program rounds fuel n attempt s ≡ some (v, t)
      → Quiet s t
  unfolding job_loop
  job_loop-Quiet zero attempt s h = absurd (none-some h)
  job_loop-Quiet (suc n) attempt s {v = v} {t = t} h =
      go (λ next u e. job_loop-Quiet n next u e)
        (job_turn w limits hash deadline program rounds fuel attempt s) refl h
    where
      go :
          ((next : ℕ) (u : JobState)
            → job_loop w limits hash deadline program rounds fuel n next u ≡ some (v, t)
            → Quiet u t)
          → (o : Option JobTurn) → job_turn w limits hash deadline program rounds fuel attempt s ≡ o
          → next_turn w limits hash deadline program rounds fuel
              (job_loop w limits hash deadline program rounds fuel n)
              o
            ≡ some (v, t)
          → Quiet s t
      go ih none at e = absurd (none-some e)
      go ih (some (job_stops x u)) at e =
          subst (λ (p : Verdict × JobState). Quiet s p.1) (some-injective e)
            (job_turn-Quiet attempt s _ at)
      go ih (some (job_again next u)) at e =
          Quiet-trans (job_turn-Quiet attempt s _ at) (ih next u e)

module _ (w : World) (only : OnlyReplays w) (limits : Limits) (hash : String)
    (program : String → Program) (rounds fuel : ℕ) where
  stopped :
      {s t u : JobState} {v x : Verdict}
      → Quiet s u
      → ◌≡◌ {A = Option (Verdict × JobState)} (some (x, u)) (some (v, t))
      → Quiet s t
  stopped {s} f e = subst (λ (p : Verdict × JobState). Quiet s p.1) (some-injective e) f

  from_first-Quiet :
      (c : Reading) (n tick : ℕ) (s : JobState) {v : Verdict} {t : JobState}
      → from_first w limits hash program rounds fuel c n tick s ≡ some (v, t)
      → Quiet s t
  from_first-Quiet (unread message) n tick s h = stopped (quiet s) h
  from_first-Quiet missing n tick s h = stopped (quiet s) h
  from_first-Quiet (found e) n tick s {v = v} {t = t} h = by_type (is_job_start e.chapter_type) h
    where
      by_data :
          (d : Decoded)
          → from_input w limits hash program rounds fuel e d n tick s ≡ some (v, t)
          → Quiet s t
      by_data (undecoded err) p = stopped (quiet s) p
      by_data (decoded text) p =
          job_loop-Quiet w only limits hash (job_total_deadline limits e) (program text) rounds fuel
            n 1 s (simp (only.job) at p)

      by_type :
          (b : Bool)
          → (if not b
              then some (refuses not_deterministic, s)
              else from_input w limits hash program rounds fuel e
                  (chapter_to_task_data e.payload)
                  n
                  tick
                  s)
            ≡ some (v, t)
          → Quiet s t
      by_type false p = stopped (quiet s) p
      by_type true p = by_data (chapter_to_task_data e.payload) p

  -- A run of DoJob that only replays, as the inspector of a job makes it, writes no chapter, starts
  -- no worker of a task and does not complete the lease, whatever it returns.
  pub do_job-Quiet :
      (n : ℕ) (s : JobState) {v : Verdict} {t : JobState}
      → do_job w limits hash program rounds fuel n s ≡ some (v, t)
      → Quiet s t
  unfolding do_job
  do_job-Quiet n s h = Quiet-trans (later-Quiet 8 s) (
      from_first-Quiet (get_chapter w.host s.runner s.runner.ticks 0) n (s.runner.ticks + 1)
        (later 8 s) h)
