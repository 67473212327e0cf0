-- ===== src/Workflow/Task/Replay.antt =====
-- What a story says of a task, and the replay of it.
use swf_go.Prelude.{
  ℕ, zero, suc, ◌+◌, ◌≤◌, ◌<◌, ◌≡◌, refl, true, false, not, ◌||◌, String, Option, none, some, ltb,
  leb, str_eq, str_eq_refl, arith, Bool-cases, inl, inr,
}
use swf_go.Workflow.Errors.{Chain, is_retryable}
use swf_go.Workflow.Policy.{Limits}
use swf_go.Workflow.Await.{Host, Wait, await_until, ready}
use swf_go.Workflow.Task.{
  task_attempt_outcome, Entry, Runner, Verdict, returns, fails, decoded, undecoded,
  chapter_to_task_data, prior_attempt, back_off, again, replay_payload, replay_entry, backoff_wait,
}
use swf_go.Workflow.Task.Live.{task_turn, do_task}

-- The chapter of an attempt of a task with this input.
pub record IsAttempt (hash : String) (e : Entry) : Type 0 where
  pub outcome : e.chapter_type ≡ task_attempt_outcome
  pub same_input : e.input_hash ≡ hash
  pub has_hash : str_eq hash "" ≡ false

-- The verdict that the chapters from an ordinal on record: data, or an error that ends the task, after
-- errors that a policy has retried and whose backoffs are over at a given time. The last index is
-- the ordinal after the task's last chapter.
pub data Recorded (limits : Limits) (hash : String) (time : ℕ) (story : ℕ → Option Entry)
    : ℕ → Verdict → ℕ → Type 0 where
  success :
      {from : ℕ} {e : Entry} {text : String}
      → story from ≡ some e
      → IsAttempt hash e
      → chapter_to_task_data e.payload ≡ decoded text
      → Recorded limits hash time story from (returns text) (suc from)
  failure :
      {from : ℕ} {e : Entry} {err : Chain}
      → story from ≡ some e
      → IsAttempt hash e
      → chapter_to_task_data e.payload ≡ undecoded err
      → (not (is_retryable limits.names err) || leb limits.max_attempts (prior_attempt e.attempt))
        ≡ true
      → Recorded limits hash time story from (fails err) (suc from)
  retried :
      {from to : ℕ} {e : Entry} {err : Chain} {v : Verdict}
      → story from ≡ some e
      → IsAttempt hash e
      → chapter_to_task_data e.payload ≡ undecoded err
      → (not (is_retryable limits.names err) || leb limits.max_attempts (prior_attempt e.attempt))
        ≡ false
      → e.created_at + limits.backoff (prior_attempt e.attempt) ≤ time
      → Recorded limits hash time story (suc from) v to
      → Recorded limits hash time story from v to

-- The store answers, and the clock has come to a time.
pub record Ready (host : Host) (time : ℕ) : Type 0 where
  pub reads : (tick : ℕ) → host.read_error tick ≡ none
  pub late : (tick : ℕ) → time ≤ host.now tick

abbrev pub runner_at : (ℕ → Option Entry) → ℕ → ℕ → ℕ → Runner
runner_at story from ticks runs = record {
  story = story;
  story_counter = from;
  ticks = ticks;
  runs = runs;
}

pub leb_refl : (n : ℕ) → leb n n ≡ true
leb_refl n = ground arith

await_past :
    (host : Host) (w : Wait) (tick : ℕ)
    → w.total_deadline ≡ none
    → w.invocation_deadline ≡ none
    → w.wake ≤ host.now tick
    → await_until host w tick ≡ ready
unfolding await_until
await_past host w tick t i l = rw (t, i) (ground arith)

module _ (host : Host) (limits : Limits) (hash : String) (no_total : limits.total_timeout ≡ 0) where
  -- One round at a chapter that is there.
  turn_found :
      (r : Runner) (attempt : ℕ) (e : Entry) (time : ℕ)
      → Ready host time
      → r.story r.story_counter ≡ some e
      → IsAttempt hash e
      → task_turn host limits hash attempt r
        ≡ replay_payload host limits hash e
            (chapter_to_task_data e.payload)
            (r.ticks + 1 + 1 + 1)
            none
            (record r { story_counter = suc r.story_counter; ticks = r.ticks + 18 })
  unfolding task_turn replay_entry
  turn_found r attempt e time ok at a =
      simp
        (
          no_total,
          ok.reads (r.ticks + 1),
          at,
          leb_refl r.story_counter,
          a.outcome,
          a.has_hash,
          a.same_input,
          str_eq_refl hash,
        )
        refl

  back_off-next :
      (prior from tick : ℕ) (r : Runner) (time : ℕ)
      → Ready host time
      → from + limits.backoff prior ≤ time
      → back_off host limits hash prior from tick none r ≡ again (suc prior) r
  back_off-next prior from tick r time ok l = elim (Bool-cases (ltb 0 (limits.backoff prior))) [
    | inl b ↦
        rw
          (
            b,
            await_past host (backoff_wait host limits hash prior from none) tick refl refl
                (omega (arith, ok.late tick, l)),
          )
          refl
    | inr b ↦ rw b refl
  ]

  pub from_lt_to :
      {time : ℕ} {story : ℕ → Option Entry} {from to : ℕ} {v : Verdict}
      → Recorded limits hash time story from v to
      → from < to
  from_lt_to (success s a d) = omega arith
  from_lt_to (failure s a d x) = omega arith
  from_lt_to (retried s a d x l more) = omega (arith, from_lt_to more)

  -- The replay of a task that a story records gives the recorded verdict, at whatever attempt it starts,
  -- leaves the story as it is, starts no worker, and goes to the ordinal after the task's last
  -- chapter; the store must answer, the backoffs of the recorded attempts must be over, and the task have
  -- no total timeout. One round for each chapter is enough.
  pub do_task-Recorded :
      {time : ℕ} {story : ℕ → Option Entry} {from to : ℕ} {v : Verdict}
      → Ready host time
      → Recorded limits hash time story from v to
      → (fuel attempt ticks runs : ℕ) → to ≤ from + fuel
      → (end : ℕ) × (do_task host limits hash fuel attempt (runner_at story from ticks runs)
          ≡ some (v, runner_at story to end runs))
  unfolding do_task
  do_task-Recorded ok rec zero attempt ticks runs l = absurd (omega (arith, from_lt_to rec, l))
  do_task-Recorded {story = story} {from = from} ok (success s a d) (suc fuel) attempt ticks runs
        l =
      (ticks + 18, rw (turn_found (runner_at story from ticks runs) attempt _ _ ok s a, d) refl)
  do_task-Recorded {story = story} {from = from} ok (failure s a d x) (suc fuel) attempt ticks runs
        l =
      (ticks + 18, rw (turn_found (runner_at story from ticks runs) attempt _ _ ok s a, d, x) refl)
  do_task-Recorded {story = story} {from = from} ok (retried {e = e} s a d x b more) (suc fuel)
        attempt ticks runs l =
      let (end, p) =
        do_task-Recorded ok more fuel (suc (prior_attempt e.attempt)) (ticks + 18) runs
          (omega (arith, l)) in
      (
        end,
        rw
            (
              turn_found (runner_at story from ticks runs) attempt _ _ ok s a,
              d,
              x,
              back_off-next _ _ _ _ _ ok b,
            )
            p,
      )
