-- ===== src/Workflow/Job/Once/Closing.antt =====
-- A run of DoJob that is not a replay: what it does to the story and to the lease.
use swf_go.Prelude.{
  ℕ, zero, suc, ◌≡◌, refl, subst, Bool, true, false, String, Option, none, some, ◌+◌,
  some-injective, none-some, if◌then◌else◌,
}
use swf_go.Workflow.Policy.{Limits}
use swf_go.Workflow.Await.{past}
use swf_go.Workflow.Task.{Entry, Runner, Verdict, Reading, unread, missing, found}
use swf_go.Workflow.Task.Replay.{leb_refl}
use swf_go.Workflow.Task.Live.{select_deadline}
use swf_go.Workflow.Task.Run.{do_task-kept}
use swf_go.Workflow.Job.{
  Program, Answer, World, JobState, JobTurn, job_stops, job_again, Cached, not_cached, cached_error,
  cached_output, cached_retry, is_job_outcome, check_cached_job_result, run_program,
}
use swf_go.Workflow.Job.Along.{run_program-Along}
use swf_go.Workflow.Job.Once.{
  Fine, goes_on, stays_open, Fine-after, either_of, Says, errs, gives, check_cached_job_result-Says,
}
use swf_go.Workflow.Job.Once.Rounds.{
  complete_failure-Fine, complete_cached-Fine, after_worker-Fine, same_story,
}
use swf_go.Workflow.Job.Turns.{
  with_runner, later, wait_for_job_result, invocation_deadline, with_answer, run_worker, at_cached,
  at_chapter, job_turn, next_turn, job_loop, timer_answer,
}

-- A turn, if there is one, is fine.
abbrev FineIfAny : JobState → Option JobTurn → Type 0
FineIfAny s o = (turn : JobTurn) → o ≡ some turn → Fine s turn

FineIfAny-some : {s : JobState} {turn : JobTurn} → Fine s turn → FineIfAny s (some turn)
FineIfAny-some {s} f turn e = subst (Fine s) (some-injective e) f

FineIfAny-none : {s : JobState} → FineIfAny s none
FineIfAny-none turn e = absurd (none-some e)

module _ (w : World) (limits : Limits) (hash : String) (deadline : Option ℕ) (program : Program)
    (rounds fuel : ℕ) where
  -- A worker's run changes no chapter, also where a timer comes first.
  wait_for_job_result-kept :
      (d : Option ℕ) (tick : ℕ) (r : Runner)
      → (n : ℕ) (e : Entry) → r.story n ≡ some e
      → (wait_for_job_result w limits hash deadline program rounds fuel d tick r).1.story n ≡ some e
  wait_for_job_result-kept d tick r = by_deadline d
    where
      Kept : Runner → Runner → Type 0
      Kept q s = (n : ℕ) (e : Entry) → q.story n ≡ some e → s.story n ≡ some e

      kept : (m : ℕ) → Kept r (run_program w rounds m program r).1
      kept m =
          run_program-Along w rounds Kept (λ q n e h. h) (λ q s t f g n e h. g n e (f n e h))
            (λ task_type policy h q v end run.
              do_task-kept (w.task_host task_type) policy h rounds 1 q run)
            m program r

      by_deadline :
          (o : Option ℕ)
          → Kept r (wait_for_job_result w limits hash deadline program rounds fuel o tick r).1
      by_deadline none = kept fuel
      by_deadline (some at) = by_timer (w.host.timer_first tick)
        where
          by_timer :
              (b : Bool)
              → Kept r
                  (if b
                    then (
                      some (timer_answer w limits hash deadline program rounds fuel deadline at),
                      (run_program w rounds (w.progress tick) program r).1,
                    )
                    else run_program w rounds fuel program r).1
          by_timer true = kept (w.progress tick)
          by_timer false = kept fuel

  module _ (live : w.host.replay ≡ false) where
    run_worker-Fine :
        (attempt tick : ℕ) (s : JobState)
        → FineIfAny s (run_worker w limits hash deadline program rounds fuel attempt tick s)
    unfolding run_worker
    run_worker-Fine attempt tick s =
        by_answer
          (wait_for_job_result w limits hash deadline program rounds fuel
            (select_deadline w.host limits hash
              (invocation_deadline w limits hash deadline program rounds fuel (w.host.now tick))
              deadline)
            (tick + 1) s.runner)
          (wait_for_job_result-kept
            (select_deadline w.host limits hash
              (invocation_deadline w limits hash deadline program rounds fuel (w.host.now tick))
              deadline)
            (tick + 1) s.runner)
      where
        by_answer :
            (p : Option Answer × Runner)
            → ((n : ℕ) (e : Entry) → s.runner.story n ≡ some e → p.1.story n ≡ some e)
            → FineIfAny s (
                with_answer w limits hash deadline program rounds fuel attempt
                  (invocation_deadline w limits hash deadline program rounds fuel (w.host.now tick))
                  s
                  p)
        by_answer (none, r) kept = FineIfAny-none
        by_answer (some a, r) kept = FineIfAny-some (
            Fine-after kept refl (
              after_worker-Fine w limits hash deadline program rounds fuel live attempt a _
                (with_runner s r)))

    at_chapter-Fine :
        (attempt : ℕ) (c : Reading) (tick : ℕ) (s : JobState)
        → FineIfAny s (at_chapter w limits hash deadline program rounds fuel attempt c tick s)
    at_chapter-Fine attempt (unread message) tick s =
        FineIfAny-some (stays_open refl (same_story s) refl)
    at_chapter-Fine attempt missing tick s = run_worker-Fine attempt tick s
    at_chapter-Fine attempt (found f) tick s =
        either_of (FineIfAny s) (is_job_outcome f.chapter_type)
          (by_cached (check_cached_job_result w limits hash deadline s tick)
            (check_cached_job_result-Says w limits hash deadline s tick))
          (run_worker-Fine attempt tick s)
      where
        by_cached :
            (c : Cached)
            → Says s c
            → FineIfAny s
                (at_cached w limits hash deadline program rounds fuel attempt c (tick + 9) s)
        by_cached not_cached says = run_worker-Fine attempt (tick + 9) s
        by_cached (cached_error v) (errs o) = FineIfAny-some (stays_open o (same_story s) refl)
        by_cached (cached_output e text) (gives at o d) = FineIfAny-some (
            complete_cached-Fine w limits hash deadline program rounds fuel live e text (tick + 9) s
              at o d)
        by_cached (cached_retry next) says =
            FineIfAny-some (simp (leb_refl s.runner.story_counter) (goes_on (same_story s) refl))

    job_turn-Fine :
        (attempt : ℕ) (s : JobState)
        → FineIfAny s (job_turn w limits hash deadline program rounds fuel attempt s)
    unfolding job_turn
    job_turn-Fine attempt s =
        either_of (FineIfAny s) (past (w.host.now s.runner.ticks) deadline)
          (FineIfAny-some (
            either_of (Fine s) w.host.replay (stays_open refl (same_story s) refl) (
              Fine-after (same_story s) refl (
                complete_failure-Fine w limits hash deadline program rounds fuel attempt _
                  (s.runner.ticks + 1) (later 32 s)))))
          (λ turn e.
            Fine-after (same_story s) refl
              (at_chapter-Fine attempt _ (s.runner.ticks + 2) (later 32 s) turn e))

    -- The loop of DoJob is fine, where the run is not a replay.
    pub job_loop-Fine :
        (n attempt : ℕ) (s : JobState) {v : Verdict} {t : JobState}
        → job_loop w limits hash deadline program rounds fuel n attempt s ≡ some (v, t)
        → Fine s (job_stops v t)
    unfolding job_loop
    job_loop-Fine zero attempt s h = absurd (none-some h)
    job_loop-Fine (suc n) attempt s {v = v} {t = t} h =
        go (λ next u e. job_loop-Fine n next u e)
          (job_turn w limits hash deadline program rounds fuel attempt s) refl h
      where
        go :
            ((next : ℕ) (u : JobState)
              → job_loop w limits hash deadline program rounds fuel n next u ≡ some (v, t)
              → Fine u (job_stops v t))
            → (o : Option JobTurn)
            → job_turn w limits hash deadline program rounds fuel attempt s ≡ o
            → next_turn w limits hash deadline program rounds fuel
                (job_loop w limits hash deadline program rounds fuel n)
                o
              ≡ some (v, t)
            → Fine s (job_stops v t)
        go ih none at e = absurd (none-some e)
        go ih (some (job_stops x u)) at e =
            subst (λ (p : Verdict × JobState). Fine s (job_stops p.0 p.1)) (some-injective e)
              (job_turn-Fine attempt s _ at)
        go ih (some (job_again next u)) at e = again (job_turn-Fine attempt s _ at) (ih next u e)
          where
            again : Fine s (job_again next u) → Fine u (job_stops v t) → Fine s (job_stops v t)
            again (goes_on x c) f = Fine-after x c f
