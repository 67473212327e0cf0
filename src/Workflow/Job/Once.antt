-- ===== src/Workflow/Job/Once.antt =====
-- What a round of the loop of DoJob of worker_runner.go of pkg/workflow does to the story and to the
-- lease, where the run is not a replay.
pub mod Rounds
pub mod Closing
use swf_go.Prelude.{
  ℕ, suc, ◌≡◌, refl, sym, ap, ◌∙◌, Bool, true, false, not, ◌&&◌, ◌||◌, String, Option, none, some,
  List, [], ◌∷◌, ltb, leb, str_eq, if◌then◌else◌, ◌⊎◌, inl, inr, ◌+◌,
}
use swf_go.Workflow.Errors.{Chain, completion_status, is_retryable}
use swf_go.Workflow.Policy.{Limits}
use swf_go.Workflow.Await.{
  Awaited, ready, expired, not_ready, reschedule_refused, done, leaves, past, await_until,
}
use swf_go.Workflow.Task.{
  Entry, Runner, Verdict, returns, fails, refuses, exits, Reading, unread, missing, found,
  reading_of, reading_or, Decoded, decoded, undecoded, chapter_to_task_data, prior_attempt,
  get_chapter,
}
use swf_go.Workflow.Task.Replay.{leb_refl}
use swf_go.Workflow.Task.Story.{store_same}
use swf_go.Workflow.Task.Round.{store_preserves}
use swf_go.Workflow.Job.{
  World, JobState, JobTurn, job_stops, job_again, Completion, completed, not_completed, put_missing,
  with_chapter, complete_answered, complete_chapter, conflicts, consume, ends_with, Cached,
  not_cached, cached_error, cached_output, cached_retry, is_job_outcome, cached_wait,
  cached_payload, cached_found, cached_reading, check_cached_job_result, job_wait,
}

abbrev pub gives_data : Verdict → Bool
gives_data (returns text) = true
gives_data (fails err) = false
gives_data (refuses refusal) = false
gives_data exits = false

-- No chapter is changed or lost.
abbrev pub Extends : JobState → JobState → Type 0
Extends s t = (n : ℕ) (e : Entry) → s.runner.story n ≡ some e → t.runner.story n ≡ some e

-- The chapter before the runner's ordinal is a job's outcome with this data.
pub record Stands (text : String) (t : JobState) : Type 0 where
  pub entry : Entry
  pub ordinal : ℕ
  pub last : t.runner.story_counter ≡ suc ordinal
  pub at : t.runner.story ordinal ≡ some entry
  pub outcome : is_job_outcome entry.chapter_type ≡ true
  pub reads : chapter_to_task_data entry.payload ≡ decoded text

-- A turn that extends the story, and that completes the lease at most once: as a success where DoJob
-- returns data, which is the story's last chapter then, and with the status of the error where DoJob
-- returns an error. Where DoJob goes on, the lease is as it was.
pub data Fine (s : JobState) : JobTurn → Type 0 where
  goes_on :
      {n : ℕ} {t : JobState} → Extends s t → t.completions ≡ s.completions → Fine s (job_again n t)
  stays_open :
      {v : Verdict} {t : JobState}
      → gives_data v ≡ false
      → Extends s t
      → t.completions ≡ s.completions
      → Fine s (job_stops v t)
  closes_data :
      {text : String} {t : JobState}
      → Extends s t
      → t.completions ≡ completion_status none ∷ s.completions
      → Stands text t
      → Fine s (job_stops (returns text) t)
  closes_error :
      {err : Chain} {t : JobState}
      → Extends s t
      → t.completions ≡ completion_status (some err) ∷ s.completions
      → Fine s (job_stops (fails err) t)

pub Fine-after :
    {s t : JobState} {turn : JobTurn}
    → Extends s t
    → t.completions ≡ s.completions
    → Fine t turn
    → Fine s turn
Fine-after x c (goes_on y d) = goes_on (λ n e h. y n e (x n e h)) (d ∙ c)
Fine-after x c (stays_open v y d) = stays_open v (λ n e h. y n e (x n e h)) (d ∙ c)
Fine-after x c (closes_data y d st) =
    closes_data (λ n e h. y n e (x n e h)) (d ∙ ap (λ l. completion_status none ∷ l) c) st
Fine-after x c (closes_error {err = err} y d) =
    closes_error (λ n e h. y n e (x n e h)) (d ∙ ap (λ l. completion_status (some err) ∷ l) c)

pub either_of {ℓ} :
    {A : Type ℓ} (P : A → Type 0) (b : Bool) {x y : A} → P x → P y → P (if b then x else y)
either_of P true p q = p
either_of P false p q = q

-- What Complete does to the story and to the lease.
pub data Completing (e : Entry) (err : Option Chain) (s : JobState) : Completion → Type 0 where
  accepts :
      {t : JobState}
      → t.runner ≡ (with_chapter e s).runner
      → t.completions ≡ completion_status err ∷ s.completions
      → Completing e err s (completed t)
  rejects :
      {message : String} {t : JobState}
      → Extends s t
      → t.completions ≡ s.completions
      → Completing e err s (not_completed message t)

pub put_missing-Extends :
    (story : ℕ → Option Entry) (at : ℕ) (e : Entry) (old : Option Entry)
    → story at ≡ old
    → (n : ℕ) (f : Entry) → story n ≡ some f
    → put_missing story at e old n ≡ some f
put_missing-Extends story at e none a n f h = store_preserves story at e a n f h
put_missing-Extends story at e (some old) a n f h = h

pub with_chapter-Extends : (e : Entry) (s : JobState) → Extends s (with_chapter e s)
with_chapter-Extends e s =
    put_missing-Extends s.runner.story s.runner.story_counter e
      (s.runner.story s.runner.story_counter) refl

pub complete_chapter-Completing :
    (w : World) (e : Entry) (err : Option Chain) (tick : ℕ) (s : JobState)
    → Completing e err s (complete_chapter w e err tick s)
unfolding complete_chapter
complete_chapter-Completing w e err tick s = either_of (Completing e err s) w.host.replay same (
    either_of (Completing e err s) (not w.host.has_lease) same (
      either_of (Completing e err s) (conflicts w e (s.runner.story s.runner.story_counter)) same
        (by_answer (w.complete_error tick) (w.half_done tick))))
  where
    same : {message : String} → Completing e err s (not_completed message s)
    same = rejects (λ n f h. h) refl

    by_answer :
        (o : Option String) (half : Bool)
        → Completing e err s (complete_answered o half e (completion_status err) s)
    by_answer none half = accepts refl refl
    by_answer (some message) true = rejects (with_chapter-Extends e s) refl
    by_answer (some message) false = same

-- What checkCachedJobResult says of the story at the runner's ordinal.
pub data Says (s : JobState) : Cached → Type 0 where
  absent : s.runner.story s.runner.story_counter ≡ none → Says s not_cached
  errs : {v : Verdict} → gives_data v ≡ false → Says s (cached_error v)
  gives :
      {e : Entry} {text : String}
      → s.runner.story s.runner.story_counter ≡ some e
      → is_job_outcome e.chapter_type ≡ true
      → chapter_to_task_data e.payload ≡ decoded text
      → Says s (cached_output e text)
  retries :
      {e : Entry} {next : ℕ}
      → s.runner.story s.runner.story_counter ≡ some e
      → Says s (cached_retry next)

module _ (w : World) (limits : Limits) (hash : String) (deadline : Option ℕ) where
  pub check_cached_job_result-Says :
      (s : JobState) (tick : ℕ) → Says s (check_cached_job_result w limits hash deadline s tick)
  unfolding check_cached_job_result
  check_cached_job_result-Says s tick =
      by_reading (w.host.read_error tick) (s.runner.story s.runner.story_counter) refl
    where
      by_wait :
          (e : Entry) (next : ℕ) (a : Awaited)
          → s.runner.story s.runner.story_counter ≡ some e
          → Says s (cached_wait next a)
      by_wait e next ready at = retries at
      by_wait e next (expired t) at = errs refl
      by_wait e next not_ready at = errs refl
      by_wait e next (reschedule_refused message) at = errs refl
      by_wait e next done at = errs refl
      by_wait e next leaves at = errs refl

      by_payload :
          (e : Entry) (d : Decoded) (k : ℕ)
          → s.runner.story s.runner.story_counter ≡ some e
          → is_job_outcome e.chapter_type ≡ true
          → chapter_to_task_data e.payload ≡ d
          → Says s (cached_payload w limits hash deadline e d k)
      by_payload e (decoded text) k at outcome d = gives at outcome d
      by_payload e (undecoded err) k at outcome d =
          either_of (Says s)
            (not (is_retryable limits.names err)
              || leb limits.max_attempts (prior_attempt e.attempt))
            (errs refl)
            (either_of (Says s)
              (ltb 0 (limits.backoff (prior_attempt e.attempt))
                && ltb (w.host.now k) (e.created_at + limits.backoff (prior_attempt e.attempt)))
              (by_wait e _
                (await_until w.host
                  (job_wait w limits hash deadline (prior_attempt e.attempt) e.created_at) (k + 1))
                at)
              (retries at))

      by_type :
          (e : Entry) (b : Bool)
          → s.runner.story s.runner.story_counter ≡ some e
          → is_job_outcome e.chapter_type ≡ b
          → Says s (cached_found w limits hash deadline e (tick + 1))
      by_type e false at outcome = simp outcome (errs refl)
      by_type e true at outcome = simp outcome (
          either_of (Says s) (not (str_eq e.input_hash "") && not (str_eq e.input_hash hash))
            (errs refl)
            (either_of (Says s) (past (w.host.now (tick + 1)) deadline) (errs refl)
              (by_payload e (chapter_to_task_data e.payload) _ at outcome refl)))

      by_reading :
          (o : Option String) (c : Option Entry)
          → s.runner.story s.runner.story_counter ≡ c
          → Says s (cached_reading w limits hash deadline (reading_or o (reading_of c)) (tick + 1))
      by_reading (some message) c at = errs refl
      by_reading none none at = absent at
      by_reading none (some e) at = by_type e (is_job_outcome e.chapter_type) at refl
