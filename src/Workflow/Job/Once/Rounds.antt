-- ===== src/Workflow/Job/Once/Rounds.antt =====
-- The rounds of the loop of DoJob of worker_runner.go of pkg/workflow, where the run is not a replay.
use swf_go.Prelude.{
  ℕ, suc, ◌≡◌, refl, ap, ◌∙◌, true, false, not, ◌||◌, String, Option, none, some, ltb, leb, ◌⊎◌,
  inl, inr, ◌+◌,
}
use swf_go.Workflow.Errors.{Chain, is_retryable}
use swf_go.Workflow.Policy.{Limits}
use swf_go.Workflow.Await.{
  Awaited, ready, expired, not_ready, reschedule_refused, done, leaves, await_until,
}
use swf_go.Workflow.Task.{Entry, Runner, returns, fails, decoded, chapter_to_task_data}
use swf_go.Workflow.Task.Replay.{leb_refl}
use swf_go.Workflow.Task.Story.{store_same}
use swf_go.Workflow.Task.Round.{store_preserves}
use swf_go.Workflow.Job.{
  Program, Answer, output, unreadable_data, job_error, nothing, World, JobState, JobTurn,
  Completion, put_missing, with_chapter, ends_with, Cached, not_cached, cached_error, cached_output,
  cached_retry, is_job_outcome, check_cached_job_result, job_wait,
}
use swf_go.Workflow.Job.Once.{
  Extends, Fine, goes_on, stays_open, closes_data, closes_error, Fine-after, either_of, Completing,
  accepts, rejects, with_chapter-Extends, complete_chapter-Completing, Says, absent, errs, gives,
  retries, check_cached_job_result-Says,
}
use swf_go.Workflow.Job.Turns.{
  later, waited, complete_failure, stored_state, put_answer, persisted, settle_job, replay_ends,
  complete_cached, reread, by_cached, answered, after_worker,
}

pub same_story : (s : JobState) → Extends s s
same_story s n e h = h

ends_failure :
    (err : Chain) (e : Entry) (s : JobState) {c : Completion}
    → Completing e (some err) s c
    → Fine s (ends_with (fails err) c)
ends_failure err e s (accepts {t = t} r d) =
    simp (leb_refl t.runner.story_counter)
      (closes_error (λ n f h. ap (λ (x : Runner). x.story n) r ∙ with_chapter-Extends e s n f h) d)
ends_failure err e s (rejects x d) = stays_open refl x d

-- The chapter that stands at the ordinal once it is completed with one that fits.
put_missing-at :
    (story : ℕ → Option Entry) (at : ℕ) (e : Entry) (old : Option Entry)
    → story at ≡ old
    → (old ≡ none) ⊎ (old ≡ some e)
    → put_missing story at e old at ≡ some e
put_missing-at story at e none h fits = store_same story at e
put_missing-at story at e (some old) h (inl p) = cc
put_missing-at story at e (some old) h (inr p) = h ∙ p

ends_data :
    (text : String) (e : Entry) (s : JobState) {c : Completion}
    → (s.runner.story s.runner.story_counter ≡ none)
      ⊎ (s.runner.story s.runner.story_counter ≡ some e)
    → is_job_outcome e.chapter_type ≡ true
    → chapter_to_task_data e.payload ≡ decoded text
    → Completing e none s c
    → Fine s (ends_with (returns text) c)
ends_data text e s fits outcome reads (rejects x d) = stays_open refl x d
ends_data text e s fits outcome reads (accepts {t = t} r d) =
    simp (leb_refl t.runner.story_counter) (
      closes_data (λ n f h. ap (λ (x : Runner). x.story n) r ∙ with_chapter-Extends e s n f h) d
        (record {
          entry = e;
          ordinal = t.runner.story_counter;
          last = refl;
          at =
              ap (λ (x : Runner). x.story t.runner.story_counter) r
              ∙ (ap ((with_chapter e s).runner.story) (ap (λ (x : Runner). x.story_counter) r)
                  ∙ put_missing-at s.runner.story s.runner.story_counter e
                      (s.runner.story s.runner.story_counter) refl fits);
          outcome = outcome;
          reads = reads;
        }))

waited-Fine :
    (s t : JobState) (attempt : ℕ) (a : Awaited)
    → Extends s t
    → t.completions ≡ s.completions
    → Fine s (waited a attempt t)
waited-Fine s t attempt ready x d = goes_on x d
waited-Fine s t attempt (expired e) x d = stays_open refl x d
waited-Fine s t attempt not_ready x d = stays_open refl x d
waited-Fine s t attempt (reschedule_refused message) x d = stays_open refl x d
waited-Fine s t attempt done x d = stays_open refl x d
waited-Fine s t attempt leaves x d = stays_open refl x d

module _ (w : World) (limits : Limits) (hash : String) (deadline : Option ℕ) (program : Program)
    (rounds fuel : ℕ) where
  pub complete_failure-Fine :
      (attempt : ℕ) (err : Chain) (tick : ℕ) (s : JobState)
      → Fine s (complete_failure w limits hash deadline program rounds fuel attempt err tick s)
  complete_failure-Fine attempt err tick s =
      ends_failure err _ s (complete_chapter-Completing w _ (some err) (tick + 1) s)

  settle_job-Fine :
      (attempt : ℕ) (a : Answer) (tick : ℕ) (s : JobState)
      → s.runner.story s.runner.story_counter ≡ none
      → Fine s (settle_job w limits hash deadline program rounds fuel attempt a tick s)
  settle_job-Fine attempt (output text) tick s free =
      ends_data text _ s (inl free) refl refl (complete_chapter-Completing w _ none (tick + 1) s)
  settle_job-Fine attempt (unreadable_data message) tick s free =
      stays_open refl (same_story s) refl
  settle_job-Fine attempt nothing tick s free = stays_open refl (same_story s) refl
  settle_job-Fine attempt (job_error err) tick s free =
      either_of (Fine s) (not (is_retryable limits.names err) || leb limits.max_attempts attempt)
        (complete_failure-Fine attempt err tick s)
        (by_put (put_answer w limits hash deadline program rounds fuel (tick + 1)))
    where
      stored : JobState
      stored = stored_state w limits hash deadline program rounds fuel attempt err (tick + 2) s

      more : Extends s stored
      more =
          simp (leb_refl s.runner.story_counter)
            (λ n e h. store_preserves s.runner.story s.runner.story_counter _ free n e h)

      settled : stored.completions ≡ s.completions
      settled = refl

      by_put :
          (o : Option String)
          → Fine s (persisted w limits hash deadline program rounds fuel o attempt err (tick + 2) s)
      by_put (some message) = stays_open refl (same_story s) refl
      by_put none = either_of (Fine s) (not (ltb 0 (limits.backoff attempt))) (goes_on more refl) (
          waited-Fine s stored (suc attempt)
            (await_until w.host (job_wait w limits hash deadline attempt (w.host.now (tick + 2)))
              (tick + 2 + 1))
            more refl)

  replay_ends-Fine :
      (a : Answer) (s : JobState)
      → Fine s (replay_ends w limits hash deadline program rounds fuel a s)
  replay_ends-Fine (job_error err) s = stays_open refl (same_story s) refl
  replay_ends-Fine (output text) s = stays_open refl (same_story s) refl
  replay_ends-Fine (unreadable_data message) s = stays_open refl (same_story s) refl
  replay_ends-Fine nothing s = stays_open refl (same_story s) refl

  module _ (live : w.host.replay ≡ false) where
    pub complete_cached-Fine :
        (e : Entry) (text : String) (tick : ℕ) (s : JobState)
        → s.runner.story s.runner.story_counter ≡ some e
        → is_job_outcome e.chapter_type ≡ true
        → chapter_to_task_data e.payload ≡ decoded text
        → Fine s (complete_cached w limits hash deadline program rounds fuel e text tick s)
    complete_cached-Fine e text tick s at outcome reads =
        simp live
          (ends_data text e s (inr at) outcome reads (complete_chapter-Completing w e none tick s))

    pub by_cached-Fine :
        (c : Cached) (rest : JobTurn) (tick : ℕ) (s : JobState)
        → Says s c
        → (s.runner.story s.runner.story_counter ≡ none → Fine s rest)
        → Fine s (by_cached w limits hash deadline program rounds fuel c rest tick s)
    by_cached-Fine not_cached rest tick s (absent at) f = f at
    by_cached-Fine (cached_error v) rest tick s (errs o) f = stays_open o (same_story s) refl
    by_cached-Fine (cached_output e text) rest tick s (gives at o d) f =
        by_reading (w.host.read_error tick)
      where
        by_reading :
            (c : Option String)
            → Fine s (reread w limits hash deadline program rounds fuel c e text (tick + 1) s)
        by_reading none = complete_cached-Fine e text (tick + 1) s at o d
        by_reading (some message) = stays_open refl (same_story s) refl
    by_cached-Fine (cached_retry next) rest tick s (retries at) f =
        simp (leb_refl s.runner.story_counter) (goes_on (same_story s) refl)

    answered-Fine :
        (attempt : ℕ) (a : Answer) (tick : ℕ) (s : JobState)
        → Fine s (answered w limits hash deadline program rounds fuel attempt a tick s)
    answered-Fine attempt a tick s =
        by_cached-Fine (check_cached_job_result w limits hash deadline s tick) _ (tick + 9) s
          (check_cached_job_result-Says w limits hash deadline s tick)
          (λ free.
            either_of (Fine s) w.host.replay (replay_ends-Fine a s)
              (settle_job-Fine attempt a (tick + 9) s free))

    pub after_worker-Fine :
        (attempt : ℕ) (a : Answer) (invocation : Option ℕ) (s : JobState)
        → Fine s (after_worker w limits hash deadline program rounds fuel attempt a invocation s)
    unfolding after_worker
    after_worker-Fine attempt nothing invocation s = stays_open refl (same_story s) refl
    after_worker-Fine attempt (output text) invocation s =
        Fine-after (same_story s) refl (answered-Fine attempt _ _ (later 32 s))
    after_worker-Fine attempt (unreadable_data message) invocation s =
        Fine-after (same_story s) refl (answered-Fine attempt _ _ (later 32 s))
    after_worker-Fine attempt (job_error err) invocation s =
        Fine-after (same_story s) refl (answered-Fine attempt (job_error err) _ (later 32 s))
