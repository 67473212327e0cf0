-- ===== src/Workflow/Job/Retold/Stops.antt =====
-- The replay of a whole job whose outcome is recorded.
use swf_go.Prelude.{
  ℕ, ◌+◌, ◌≡◌, refl, ap, ◌∙◌, Bool, true, false, String, Option, none, some, if◌then◌else◌,
}
use swf_go.Workflow.Policy.{Limits}
use swf_go.Workflow.Task.{Entry, Runner, Verdict, returns, fails, refuses, exits}
use swf_go.Workflow.Task.Live.{select_deadline}
use swf_go.Workflow.Task.Replay.{runner_at}
use swf_go.Workflow.Job.{
  Program, Answer, output, unreadable_data, job_error, nothing, World, JobState, JobTurn, job_stops,
  consume, Cached, run_program,
}
use swf_go.Workflow.Job.Turns.{
  later, in_time, replay_ends, settle_job, with_runner, by_cached, at_cached, answered,
  after_worker, wait_for_job_result, invocation_deadline, with_answer, run_worker,
}
use swf_go.Workflow.Job.Retold.Closed.{Closed, IsJobOutcome, cached_as, IsCalm, check_closed}

abbrev pub gives_answer : Answer → Bool
gives_answer (output text) = true
gives_answer (unreadable_data message) = true
gives_answer (job_error err) = true
gives_answer nothing = false

module _ (w : World) (calm : IsCalm w) (limits : Limits) (hash : String) (program : Program)
    (rounds fuel : ℕ) where
  Stops : JobTurn → Verdict → Type 0
  Stops turn v = (t : JobState) × (turn ≡ job_stops v t)

  by_cached-Stops :
      (v : Verdict) (e : Entry) (rest : JobTurn) (tick : ℕ) (s : JobState)
      → Closed limits e v
      → Stops (by_cached w limits hash none program rounds fuel (cached_as v e) rest tick s) v
  unfolding Stops
  by_cached-Stops (returns text) e rest tick s c =
      (consume s, simp (calm.reads tick, calm.replays) refl)
  by_cached-Stops (fails err) e rest tick s c = (s, refl)
  by_cached-Stops (refuses refusal) e rest tick s c = elim c [ ]
  by_cached-Stops exits e rest tick s c = elim c [ ]

  pub at_cached-Stops :
      (v : Verdict) (e : Entry) (attempt tick : ℕ) (s : JobState)
      → Closed limits e v
      → (t : JobState) × (at_cached w limits hash none program rounds fuel attempt
            (cached_as v e)
            tick
            s
          ≡ some (job_stops v t))
  at_cached-Stops (returns text) e attempt tick s c = (consume s, simp (calm.replays) refl)
  at_cached-Stops (fails err) e attempt tick s c = (s, refl)
  at_cached-Stops (refuses refusal) e attempt tick s c = elim c [ ]
  at_cached-Stops exits e attempt tick s c = elim c [ ]

  answered-Stops :
      (attempt : ℕ) (a : Answer) (tick : ℕ) (s : JobState) (e : Entry) (v : Verdict)
      → s.runner.story s.runner.story_counter ≡ some e
      → IsJobOutcome limits hash v e
      → Stops (answered w limits hash none program rounds fuel attempt a tick s) v
  unfolding Stops
  answered-Stops attempt a tick s e v at o =
      let (t, p) =
        by_cached-Stops v e
          (if w.host.replay
            then replay_ends w limits hash none program rounds fuel a s
            else settle_job w limits hash none program rounds fuel attempt a (tick + 9) s)
          (tick + 9) s (o.closed) in
      (
        t,
        ap
              (λ (c : Cached).
                by_cached w limits hash none program rounds fuel c
                  (if w.host.replay
                    then replay_ends w limits hash none program rounds fuel a s
                    else settle_job w limits hash none program rounds fuel attempt a (tick + 9) s)
                  (tick + 9) s)
              (check_closed w calm limits hash s tick e v at o)
            ∙ p,
      )

  after_worker-Stops :
      (attempt : ℕ) (a : Answer) (invocation : Option ℕ) (s : JobState) (e : Entry) (v : Verdict)
      → gives_answer a ≡ true
      → s.runner.story s.runner.story_counter ≡ some e
      → IsJobOutcome limits hash v e
      → Stops (after_worker w limits hash none program rounds fuel attempt a invocation s) v
  unfolding after_worker
  after_worker-Stops attempt (output text) invocation s e v g at o =
      answered-Stops attempt
        (in_time w limits hash none program rounds fuel (output text) (w.host.now s.runner.ticks)
          invocation)
        (s.runner.ticks + 1) (later 32 s) e v at o
  after_worker-Stops attempt (unreadable_data message) invocation s e v g at o =
      answered-Stops attempt
        (in_time w limits hash none program rounds fuel (unreadable_data message)
          (w.host.now s.runner.ticks) invocation)
        (s.runner.ticks + 1) (later 32 s) e v at o
  after_worker-Stops attempt (job_error err) invocation s e v g at o =
      answered-Stops attempt (job_error err) (s.runner.ticks + 1) (later 32 s) e v at o
  after_worker-Stops attempt nothing invocation s e v g at o = cc

  wait_for_job_result-calm :
      (d : Option ℕ) (tick : ℕ) (r : Runner)
      → wait_for_job_result w limits hash none program rounds fuel d tick r
        ≡ run_program w rounds fuel program r
  wait_for_job_result-calm none tick r = refl
  wait_for_job_result-calm (some at) tick r = simp (calm.patient tick) refl

  pub run_worker-Stops :
      (attempt tick : ℕ) (s : JobState) (a : Answer) (to after : ℕ) (e : Entry) (v : Verdict)
      → run_program w rounds fuel program s.runner
        ≡ (some a, runner_at s.runner.story to after s.runner.runs)
      → gives_answer a ≡ true
      → s.runner.story to ≡ some e
      → IsJobOutcome limits hash v e
      → (t : JobState) × (run_worker w limits hash none program rounds fuel attempt tick s
          ≡ some (job_stops v t))
  unfolding run_worker Stops
  run_worker-Stops attempt tick s a to after e v run g at o =
      let invocation : Option ℕ =
        invocation_deadline w limits hash none program rounds fuel (w.host.now tick) in
      let end : Runner = runner_at s.runner.story to after s.runner.runs in
      let (t, p) = after_worker-Stops attempt a invocation (with_runner s end) e v g at o in
      (
        t,
        ap (with_answer w limits hash none program rounds fuel attempt invocation s) (
              wait_for_job_result-calm (select_deadline w.host limits hash invocation none)
                (tick + 1) s.runner
              ∙ run)
            ∙ ap some p,
      )
