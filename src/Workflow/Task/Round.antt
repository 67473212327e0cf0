-- ===== src/Workflow/Task/Round.antt =====
-- What one round of DoTask's loop does.
pub mod Attempts
pub mod Turns
use swf_go.Prelude.{
  ℕ, suc, ◌+◌, ◌≤◌, ◌≡◌, refl, sym, ap, ◌∙◌, subst, Bool, true, false, not, ◌&&◌, ◌||◌, String,
  Option, none, some, [], ◌∷◌, ltb, leb, ◌==◌, str_eq, str_eq_iff, if◌then◌else◌, arith, Bool-cases,
  inl, inr, ◌⊎◌,
}
use swf_go.Workflow.Errors.{
  Chain, TimeoutPayload, timeout_error, error_payload, is_job_failed, as_timeout, stored_error,
  is_retryable,
}
use swf_go.Workflow.Policy.{Limits}
use swf_go.Workflow.Await.{
  Host, total_timeout_error, invocation_timeout_error, past, await_until, check_prerequisites,
  Awaited, ready, expired, not_ready, reschedule_refused, done, leaves, Attempt, failed, produced,
  unreadable, Arrival, finished, exited, Rescheduled, accepted, lease_lost, refused,
}
use swf_go.Workflow.Task.{
  Payload, app_payload, error_stored, Entry, Runner, Verdict, returns, fails, refuses, exits,
  Decoded, decoded, undecoded, chapter_to_task_data, prior_attempt, mark_consumed, store,
  backoff_wait, ended_wait, back_off, Turn, again, stop, Reading, found, unread, missing,
  reading_of, reading_or, is_task_chapter, is_restart_extra, missing_input_hash, input_mismatch,
  not_deterministic, unreadable_output, not_persisted, replay_payload, replay_checked, replay_entry,
}
use swf_go.Workflow.Task.Replay.{leb_refl}
use swf_go.Workflow.Task.Live.{
  select_deadline, invocation_deadline, arrived, settle_produced, settle_unreadable, late_error,
  handed_to_another, from_deadline, outcome_entry, put_or, put_answer, stored_runner, record_data,
  record_error, settle, select_result, run_attempt, live_turn, turn_of, total_deadline, task_turn,
}

abbrev pub is_other : Verdict → Bool
is_other (returns text) = false
is_other (fails err) = false
is_other (refuses refusal) = true
is_other exits = true

-- The next ordinal, over the same story, with no worker started.
pub record Keeps (r s : Runner) : Type 0 where
  pub same_story : s.story ≡ r.story
  pub next : s.story_counter ≡ suc r.story_counter
  pub no_run : s.runs ≡ r.runs

-- The next ordinal, over the story with a new chapter of an attempt, whose worker was started.
pub record Adds (hash : String) (attempt : ℕ) (payload : Payload) (r s : Runner) : Type 0 where
  pub created_at : ℕ
  pub absent : r.story r.story_counter ≡ none
  pub new_story :
      s.story ≡ store r.story r.story_counter (outcome_entry hash attempt created_at payload)
  pub next : s.story_counter ≡ suc r.story_counter
  pub one_run : s.runs ≡ suc r.runs

-- No chapter is changed or lost, and at most one worker was started.
pub record Preserves (r s : Runner) : Type 0 where
  pub kept : (n : ℕ) (e : Entry) → r.story n ≡ some e → s.story n ≡ some e
  pub few_runs : s.runs ≤ suc r.runs

abbrev pub ends : Limits → Chain → ℕ → Bool
ends limits err attempt = not (is_retryable limits.names err) || leb limits.max_attempts attempt

abbrev pub KeepsRetry : Limits → Chain → Type 0
KeepsRetry limits err =
    is_retryable limits.names (stored_error (error_payload err)) ≡ is_retryable limits.names err

-- The policy treats the errors of the worker as before once they are stored.
abbrev pub KeepsErrors : Host → Limits → Type 0
KeepsErrors host limits =
    (n : ℕ) (err : Chain) → host.arrival n ≡ finished (failed err) → KeepsRetry limits err

-- The chapter of an attempt of a task with this input, or of a restart's.
pub record IsOutcome (hash : String) (e : Entry) : Type 0 where
  pub kind : is_task_chapter e.chapter_type ≡ true
  pub same_input : e.input_hash ≡ hash
  pub has_hash : str_eq hash "" ≡ false

-- Where the error of an attempt comes from: the worker, or a deadline.
pub data Cause (host : Host) (limits : Limits) (err : Chain) : Type 0 where
  of_worker : (k : ℕ) → host.arrival k ≡ finished (failed err) → Cause host limits err
  of_total :
      err ≡ timeout_error (total_timeout_error host "task" limits.total_timeout) ∷ []
      → Cause host limits err
  of_invocation :
      err ≡ timeout_error (invocation_timeout_error host "task" limits.invocation_timeout) ∷ []
      → Cause host limits err

-- Why a round leaves DoTask with an error that is of no attempt, or with its goroutine ended: before
-- a worker was started; as the worker's output cannot be read, or storing was refused, or the worker
-- ended its goroutine; or in the wait after an attempt whose error was stored.
pub data Leaves (host : Host) (limits : Limits) (hash : String) (attempt : ℕ) (r : Runner)
    : Verdict → Runner → Type 0 where
  not_started :
      {v : Verdict} {s : Runner}
      → s.story ≡ r.story
      → s.runs ≡ r.runs
      → Leaves host limits hash attempt r v s
  output_unread :
      {message : String} {s : Runner} (k : ℕ)
      → host.arrival k ≡ finished (unreadable message)
      → s.story ≡ r.story
      → Leaves host limits hash attempt r (refuses (unreadable_output message)) s
  not_stored :
      {message : String} {s : Runner} (k : ℕ)
      → put_answer host limits hash k ≡ some message
      → s.story ≡ r.story
      → Leaves host limits hash attempt r (refuses (not_persisted message)) s
  worker_gone :
      {s : Runner} (k : ℕ)
      → host.arrival k ≡ exited
      → s.story ≡ r.story
      → Leaves host limits hash attempt r exits s
  while_waiting :
      {v : Verdict} {err : Chain} {s : Runner}
      → Cause host limits err
      → ends limits err attempt ≡ false
      → Adds hash attempt (error_stored (error_payload err)) r s
      → Leaves host limits hash attempt r v s

-- A round at a chapter that is there ends with its data or its error, or goes on after an error that
-- is retried; one at a chapter that is not there runs an attempt, stores what comes of it, and does
-- the same, with the output of the worker, its error, or a timeout; or DoTask is left for a reason.
pub data Round (host : Host) (limits : Limits) (hash : String) (attempt : ℕ) (r : Runner)
    : Turn → Type 0 where
  replays_data :
      {e : Entry} {text : String} {s : Runner}
      → r.story r.story_counter ≡ some e
      → IsOutcome hash e
      → chapter_to_task_data e.payload ≡ decoded text
      → Keeps r s
      → Round host limits hash attempt r (stop (returns text) s)
  replays_failure :
      {e : Entry} {err : Chain} {s : Runner}
      → r.story r.story_counter ≡ some e
      → IsOutcome hash e
      → chapter_to_task_data e.payload ≡ undecoded err
      → ends limits err (prior_attempt e.attempt) ≡ true
      → Keeps r s
      → Round host limits hash attempt r (stop (fails err) s)
  replays_retry :
      {e : Entry} {err : Chain} {s : Runner}
      → r.story r.story_counter ≡ some e
      → IsOutcome hash e
      → chapter_to_task_data e.payload ≡ undecoded err
      → ends limits err (prior_attempt e.attempt) ≡ false
      → Keeps r s
      → Round host limits hash attempt r (again (suc (prior_attempt e.attempt)) s)
  runs_data :
      {text : String} {s : Runner}
      → Adds hash attempt (app_payload text) r s
      → (k : ℕ) × (host.arrival k ≡ finished (produced text))
      → Round host limits hash attempt r (stop (returns text) s)
  runs_failure :
      {err : Chain} {s : Runner}
      → Cause host limits err
      → ends limits err attempt ≡ true
      → Adds hash attempt (error_stored (error_payload err)) r s
      → Round host limits hash attempt r (stop (fails err) s)
  runs_retry :
      (err : Chain) {s : Runner}
      → Cause host limits err
      → ends limits err attempt ≡ false
      → Adds hash attempt (error_stored (error_payload err)) r s
      → Round host limits hash attempt r (again (suc attempt) s)
  leaves_task :
      {v : Verdict} {s : Runner}
      → is_other v ≡ true
      → Preserves r s
      → Leaves host limits hash attempt r v s
      → Round host limits hash attempt r (stop v s)

pub store_preserves :
    (story : ℕ → Option Entry) (at : ℕ) (e : Entry)
    → story at ≡ none
    → (n : ℕ) (f : Entry) → story n ≡ some f
    → store story at e n ≡ some f
store_preserves story at e a n f h = elim (Bool-cases (n == at)) [
  | inl b ↦
      let same : n ≡ at = ground arith in absurd (none-some (sym a ∙ (ap story (sym same) ∙ h)))
  | inr b ↦ rw b h
]
  where
    none-some : ◌≡◌ {A = Option Entry} none (some f) → ⊥
    none-some p = cc

pub Adds-Preserves :
    {hash : String} {attempt : ℕ} {payload : Payload} {r s : Runner}
    → Adds hash attempt payload r s
    → Preserves r s
Adds-Preserves {r = r} a = record {
  kept = λ n e h. rw a.new_story (store_preserves r.story r.story_counter _ a.absent n e h);
  few_runs = omega (arith, a.one_run);
}

pub Keeps-Preserves : {r s : Runner} → Keeps r s → Preserves r s
Keeps-Preserves k = record { kept = λ n e h. rw k.same_story h; few_runs = omega (arith, k.no_run) }

pub Cause-KeepsRetry :
    {host : Host} {limits : Limits} {err : Chain}
    → Cause host limits err
    → KeepsErrors host limits
    → KeepsRetry limits err
unfolding stored_error error_payload is_job_failed as_timeout
Cause-KeepsRetry (of_worker k e) keep = keep k _ e
Cause-KeepsRetry {limits = limits} (of_total e) keep = subst (KeepsRetry limits) (sym e) refl
Cause-KeepsRetry {limits = limits} (of_invocation e) keep = subst (KeepsRetry limits) (sym e) refl

pub ticks-Preserves : (r : Runner) (k : ℕ) → Preserves r (record r { ticks = k })
ticks-Preserves r k = record { kept = λ n e h. h; few_runs = omega arith }

pub either : (P : Turn → Type 0) (b : Bool) {x y : Turn} → P x → P y → P (if b then x else y)
either P true p q = p
either P false p q = q

-- A round of the loop of DoTask.
abbrev pub Does : Host → Limits → String → ℕ → Runner → Turn → Type 0
Does host limits hash attempt r = Round host limits hash attempt r
