-- ===== src/Workflow/Task/Story.antt =====
-- What of a run of DoTask the story records.
use swf_go.Prelude.{
  ℕ, suc, ◌+◌, ◌≤◌, ◌≡◌, refl, true, false, String, Option, some, ◌==◌, str_eq, arith, Bool-cases,
  inl, inr, ◌⊎◌,
}
use swf_go.Workflow.Errors.{Chain, error_payload, stored_error}
use swf_go.Workflow.Policy.{plus, Limits}
use swf_go.Workflow.Await.{Host}
use swf_go.Workflow.Task.{
  task_attempt_outcome, ChapterType, is_task_chapter, is_restart_extra, Payload, Entry, Runner,
  Verdict, returns, fails, refuses, exits, undecoded, chapter_to_task_data, prior_attempt, store,
}
use swf_go.Workflow.Task.Live.{outcome_entry, do_task}
use swf_go.Workflow.Task.Replay.{IsAttempt, Recorded, success, failure, retried, runner_at}
use swf_go.Workflow.Task.Round.{Adds, ends, IsOutcome}

abbrev pub NoExtra : (ℕ → Option Entry) → Type 0
NoExtra story = (n : ℕ) (e : Entry) → story n ≡ some e → is_restart_extra e.chapter_type ≡ false

-- The verdict as a replay gives it: an error comes back as it is stored.
abbrev pub as_stored : Verdict → Verdict
as_stored (fails err) = fails (stored_error (error_payload err))
as_stored (returns text) = returns text
as_stored (refuses refusal) = refuses refusal
as_stored exits = exits

pub Recorded-later :
    {limits : Limits} {hash : String} {time later : ℕ} {story : ℕ → Option Entry} {from to : ℕ}
    {v : Verdict}
    → time ≤ later
    → Recorded limits hash time story from v to
    → Recorded limits hash later story from v to
Recorded-later l (success at a d) = success at a d
Recorded-later l (failure at a d x) = failure at a d x
Recorded-later l (retried at a d x b more) =
    retried at a d x (omega (arith, l, b)) (Recorded-later l more)

-- A time by which the backoff of each chapter is over.
abbrev pub Settled : Limits → ℕ → (ℕ → Option Entry) → Type 0
Settled limits time story =
    (n : ℕ) (e : Entry)
    → story n ≡ some e
    → e.created_at + limits.backoff (prior_attempt e.attempt) ≤ time

pub Recorded-Settled :
    {limits : Limits} {hash : String} {earlier time : ℕ} {story : ℕ → Option Entry} {from to : ℕ}
    {v : Verdict}
    → Settled limits time story
    → Recorded limits hash earlier story from v to
    → Recorded limits hash time story from v to
Recorded-Settled l (success at a d) = success at a d
Recorded-Settled l (failure at a d x) = failure at a d x
Recorded-Settled {from = from} l (retried {e = e} at a d x b more) =
    retried at a d x (l from e at) (Recorded-Settled l more)

-- The replay, by a host, of what gave a verdict and led to an ordinal.
pub record Replays (host : Host) (limits : Limits) (hash : String) (rounds : ℕ) (r : Runner)
    (v : Verdict) (to : ℕ) : Type 0 where
  pub verdict : Verdict
  pub same : (verdict ≡ v) ⊎ (verdict ≡ as_stored v)
  pub ticks : ℕ
  pub run : do_task host limits hash rounds 1 r ≡ some (verdict, runner_at r.story to ticks r.runs)

-- What a story records of a run's verdict.
abbrev pub Records : Limits → String → (ℕ → Option Entry) → ℕ → Verdict → ℕ → Type 0
Records limits hash story from v to =
    (time : ℕ) × (w : Verdict) × ((w ≡ v) ⊎ (w ≡ as_stored v))
    × Recorded limits hash time story from w to

pub Records-retry :
    {limits : Limits} {hash : String} {story : ℕ → Option Entry} {from to : ℕ} {v : Verdict}
    {e : Entry} {err : Chain}
    → story from ≡ some e
    → IsAttempt hash e
    → chapter_to_task_data e.payload ≡ undecoded err
    → ends limits err (prior_attempt e.attempt) ≡ false
    → (next : ℕ) → next ≡ suc from
    → Records limits hash story next v to
    → Records limits hash story from v to
Records-retry {limits = limits} {e = e} at a d x next n (time, w, same, rec) = (
  time + (e.created_at + limits.backoff (prior_attempt e.attempt)),
  w,
  same,
  retried at a d x (omega arith) (Recorded-later (omega arith) (rw n at rec)),
)

pub store_same : (story : ℕ → Option Entry) (n : ℕ) (e : Entry) → store story n e n ≡ some e
store_same story n e = ground arith

pub Adds-entry :
    {hash : String} {attempt : ℕ} {payload : Payload} {r s : Runner}
    (a : Adds hash attempt payload r s)
    → s.story r.story_counter ≡ some (outcome_entry hash attempt a.created_at payload)
Adds-entry {r = r} a = rw a.new_story (store_same r.story r.story_counter _)

pub outcome_entry-IsAttempt :
    {hash : String} (attempt time : ℕ) (payload : Payload)
    → str_eq hash "" ≡ false
    → IsAttempt hash (outcome_entry hash attempt time payload)
outcome_entry-IsAttempt attempt time payload h = record {
  outcome = refl;
  same_input = refl;
  has_hash = h;
}

pub prior_lem : (attempt : ℕ) → 1 ≤ attempt → prior_attempt (plus attempt) ≡ attempt
prior_lem attempt l = ground arith

pub store-NoExtra :
    (story : ℕ → Option Entry) (at : ℕ) (e : Entry)
    → is_restart_extra e.chapter_type ≡ false
    → NoExtra story
    → NoExtra (store story at e)
store-NoExtra story at e x extra n f h = elim (Bool-cases (n == at)) [
  | inl b ↦ let same : some e ≡ some f = rw b at h in ground (arith, same)
  | inr b ↦ extra n f (rw b at h)
]

pub outcome_lem :
    (t : ChapterType)
    → is_task_chapter t ≡ true
    → is_restart_extra t ≡ false
    → t ≡ task_attempt_outcome
outcome_lem t p q = ground arith

pub IsOutcome-IsAttempt :
    {hash : String} {e : Entry}
    → IsOutcome hash e
    → is_restart_extra e.chapter_type ≡ false
    → IsAttempt hash e
IsOutcome-IsAttempt {e = e} a x = record {
  outcome = outcome_lem e.chapter_type a.kind x;
  same_input = a.same_input;
  has_hash = a.has_hash;
}

pub true-false : true ≡ false → ⊥
true-false p = cc
