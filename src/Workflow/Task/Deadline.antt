-- ===== src/Workflow/Task/Deadline.antt =====
-- A task's total timeout on a replay.
use swf_go.Prelude.{
  ℕ, suc, ◌+◌, ◌-◌, ◌<◌, ◌≡◌, refl, false, String, Option, none, some, ◌==◌, str_eq_refl, arith,
  lt→ltb,
}
use swf_go.Workflow.Errors.{Chain}
use swf_go.Workflow.Policy.{Limits}
use swf_go.Workflow.Await.{Host, await_until, total_timeout_error}
use swf_go.Workflow.Task.{
  Entry, Runner, refuses, timed_out, undecoded, stop, chapter_to_task_data, prior_attempt, back_off,
  replay_payload, replay_entry,
}
use swf_go.Workflow.Task.Live.{task_turn, do_task}
use swf_go.Workflow.Task.Replay.{IsAttempt, runner_at, leb_refl}
use swf_go.Workflow.Task.Round.{ends}

module _ (host : Host) (limits : Limits) (hash : String)
    (reads : (tick : ℕ) → host.read_error tick ≡ none) where
  turn_deadline :
      (attempt from ticks runs : ℕ) (story : ℕ → Option Entry) (e start : Entry)
      → 0 < limits.total_timeout
      → story (from - 1) ≡ some start
      → story from ≡ some e
      → IsAttempt hash e
      → task_turn host limits hash attempt (runner_at story from ticks runs)
        ≡ replay_payload host limits hash e
            (chapter_to_task_data e.payload)
            (ticks + 1 + 1 + 1)
            (some (start.created_at + limits.total_timeout))
            (runner_at story (suc from) (ticks + 18) runs)
  unfolding task_turn replay_entry
  turn_deadline attempt from ticks runs story e start t before at a =
      let positive : (limits.total_timeout == 0) ≡ false = ground arith in
      simp
        (
          positive,
          reads ticks,
          reads (ticks + 1),
          before,
          at,
          leb_refl from,
          a.outcome,
          a.has_hash,
          a.same_input,
          str_eq_refl hash,
        )
        refl

  expired_lem :
      (prior from tick deadline : ℕ) (r : Runner)
      → 0 < limits.backoff prior
      → deadline < host.now tick
      → back_off host limits hash prior from tick (some deadline) r
        ≡ stop (refuses (timed_out (total_timeout_error host "task" limits.total_timeout))) r
  unfolding await_until
  expired_lem prior from tick deadline r b l =
      simp (lt→ltb 0 (limits.backoff prior) b, lt→ltb deadline (host.now tick) l) refl

  -- A story with a failed attempt that was retried after a backoff cannot be replayed once the
  -- total timeout has passed since the chapter before it: DoTask returns a total timeout at that
  -- attempt, whatever chapters follow, a success included.
  pub do_task-late :
      (attempt from ticks runs fuel : ℕ) (story : ℕ → Option Entry) (e start : Entry) (err : Chain)
      → 0 < limits.total_timeout
      → story (from - 1) ≡ some start
      → ((tick : ℕ) → start.created_at + limits.total_timeout < host.now tick)
      → story from ≡ some e
      → IsAttempt hash e
      → chapter_to_task_data e.payload ≡ undecoded err
      → ends limits err (prior_attempt e.attempt) ≡ false
      → 0 < limits.backoff (prior_attempt e.attempt)
      → do_task host limits hash (suc fuel) attempt (runner_at story from ticks runs)
        ≡ some (
          refuses (timed_out (total_timeout_error host "task" limits.total_timeout)),
          runner_at story (suc from) (ticks + 18) runs,
        )
  unfolding do_task
  do_task-late attempt from ticks runs fuel story e start err t before late at a d x b =
      rw
        (
          turn_deadline attempt from ticks runs story e start t before at a,
          d,
          x,
          expired_lem (prior_attempt e.attempt) e.created_at (ticks + 1 + 1 + 1)
              (start.created_at + limits.total_timeout)
              (runner_at story (suc from) (ticks + 18) runs) b (late _),
        )
        refl
