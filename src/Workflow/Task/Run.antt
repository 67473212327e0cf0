-- ===== src/Workflow/Task/Run.antt =====
-- A run of DoTask, and what it leaves in the story.
use swf_go.Prelude.{
  ℕ, zero, suc, ◌+◌, ◌≤◌, ◌≡◌, refl, sym, ◌∙◌, subst, false, String, some, str_eq, arith, none-some,
  some-injective, inl, inr,
}
use swf_go.Workflow.Errors.{error_payload, stored_error}
use swf_go.Workflow.Policy.{Limits}
use swf_go.Workflow.Await.{Host}
use swf_go.Workflow.Task.{
  app_payload, error_stored, Entry, Runner, Verdict, returns, fails, prior_attempt, Turn, again,
  stop,
}
use swf_go.Workflow.Task.Live.{continue_by, task_turn, do_task}
use swf_go.Workflow.Task.Replay.{success, failure, Ready, runner_at, do_task-Recorded}
use swf_go.Workflow.Task.Round.Turns.{task_turn-Round}
use swf_go.Workflow.Task.Round.{
  Keeps-Preserves, Adds-Preserves, Round, replays_data, replays_failure, replays_retry, runs_data,
  runs_failure, runs_retry, leaves_task, Preserves, is_other, KeepsErrors, Cause-KeepsRetry,
}
use swf_go.Workflow.Task.Story.{
  Replays, NoExtra, Settled, Recorded-Settled, Records, Records-retry, Adds-entry,
  outcome_entry-IsAttempt, prior_lem, store-NoExtra, IsOutcome-IsAttempt, true-false,
}

-- A run of the loop, round by round.
pub data Run (host : Host) (limits : Limits) (hash : String)
    : ℕ → Runner → Verdict → Runner → Type 0 where
  last :
      {attempt : ℕ} {r s : Runner} {v : Verdict}
      → Round host limits hash attempt r (stop v s)
      → Run host limits hash attempt r v s
  more :
      {attempt next : ℕ} {r s end : Runner} {v : Verdict}
      → Round host limits hash attempt r (again next s)
      → Run host limits hash next s v end
      → Run host limits hash attempt r v end

module _ {host : Host} {limits : Limits} {hash : String} where
  pub Round-Preserves-again :
      {attempt next : ℕ} {r s : Runner}
      → Round host limits hash attempt r (again next s)
      → Preserves r s
  Round-Preserves-again (replays_retry at a d x k) = Keeps-Preserves k
  Round-Preserves-again (runs_retry err ke x a) = Adds-Preserves a

  pub Round-Preserves-stop :
      {attempt : ℕ} {r s : Runner} {v : Verdict}
      → Round host limits hash attempt r (stop v s)
      → Preserves r s
  Round-Preserves-stop (replays_data at a d k) = Keeps-Preserves k
  Round-Preserves-stop (replays_failure at a d x k) = Keeps-Preserves k
  Round-Preserves-stop (runs_data a _) = Adds-Preserves a
  Round-Preserves-stop (runs_failure ke x a) = Adds-Preserves a
  Round-Preserves-stop (leaves_task o p _) = p

  -- A run of DoTask never changes or loses a chapter of the story, whatever happens.
  Run-kept :
      {attempt : ℕ} {r end : Runner} {v : Verdict}
      → Run host limits hash attempt r v end
      → (n : ℕ) (e : Entry) → r.story n ≡ some e
      → end.story n ≡ some e
  Run-kept (last round) n e h = (Round-Preserves-stop round).kept n e h
  Run-kept (more round run) n e h = Run-kept run n e ((Round-Preserves-again round).kept n e h)

  Round-NoExtra :
      {attempt next : ℕ} {r s : Runner}
      → Round host limits hash attempt r (again next s)
      → NoExtra r.story
      → NoExtra s.story
  Round-NoExtra (replays_retry at a d x k) extra = subst NoExtra (sym k.same_story) extra
  Round-NoExtra {attempt = attempt} {r = r} (runs_retry err ke x a) extra =
      subst NoExtra (sym a.new_story) (store-NoExtra r.story r.story_counter _ refl extra)

  Round-Records :
      {attempt : ℕ} {r s : Runner} {v : Verdict}
      → KeepsErrors host limits
      → NoExtra r.story
      → str_eq hash "" ≡ false
      → 1 ≤ attempt
      → is_other v ≡ false
      → Round host limits hash attempt r (stop v s)
      → Records limits hash s.story r.story_counter v s.story_counter
  Round-Records keep extra h l o (replays_data {e = e} {text = text} at a d k) = (
    0,
    returns text,
    inl refl,
    rw k.next (success (rw k.same_story at) (IsOutcome-IsAttempt a (extra _ e at)) d),
  )
  Round-Records keep extra h l o (replays_failure {e = e} {err = err} at a d x k) = (
    0,
    fails err,
    inl refl,
    rw k.next (failure (rw k.same_story at) (IsOutcome-IsAttempt a (extra _ e at)) d x),
  )
  Round-Records {attempt = attempt} keep extra h l o (runs_data {text = text} a _) = (
    0,
    returns text,
    inl refl,
    rw a.next (
        success (Adds-entry a) (outcome_entry-IsAttempt attempt a.created_at (app_payload text) h)
          refl),
  )
  Round-Records {attempt = attempt} keep extra h l o (runs_failure {err = err} ke x a) = (
    0,
    fails (stored_error (error_payload err)),
    inr refl,
    rw a.next (
        failure (Adds-entry a)
          (outcome_entry-IsAttempt attempt a.created_at (error_stored (error_payload err)) h) refl
          (rw (prior_lem attempt l, Cause-KeepsRetry ke keep) x)),
  )
  Round-Records keep extra h l o (leaves_task p q _) = absurd (true-false (sym p ∙ o))

  -- A run of DoTask that returns data or an attempt's error has recorded this in the story.
  pub Run-Records :
      {attempt : ℕ} {r end : Runner} {v : Verdict}
      → KeepsErrors host limits
      → NoExtra r.story
      → str_eq hash "" ≡ false
      → 1 ≤ attempt
      → is_other v ≡ false
      → Run host limits hash attempt r v end
      → Records limits hash end.story r.story_counter v end.story_counter
  Run-Records keep extra h l o (last round) = Round-Records keep extra h l o round
  Run-Records {attempt = attempt} {r = r} keep extra h l o
        (more {s = s} (replays_retry {e = e} at a d x k) run) =
      let round : Round host limits hash attempt r (again (suc (prior_attempt e.attempt)) s) =
        replays_retry at a d x k in
      Records-retry (Run-kept run r.story_counter e (rw k.same_story at))
        (IsOutcome-IsAttempt a (extra _ e at)) d x s.story_counter k.next
        (Run-Records keep (Round-NoExtra round extra) h (omega arith) o run)
  Run-Records {attempt = attempt} {r = r} keep extra h l o
        (more {s = s} (runs_retry err ke x a) run) =
      let round : Round host limits hash attempt r (again (suc attempt) s) =
        runs_retry err ke x a in
      Records-retry (Run-kept run r.story_counter _ (Adds-entry a))
        (outcome_entry-IsAttempt attempt a.created_at (error_stored (error_payload err)) h) refl
        (rw (prior_lem attempt l, Cause-KeepsRetry ke keep) x) s.story_counter a.next
        (Run-Records keep (Round-NoExtra round extra) h (omega arith) o run)

module _ (host : Host) (limits : Limits) (hash : String) where
  -- The loop as such rounds.
  pub do_task-Run :
      (fuel attempt : ℕ) (r : Runner) {v : Verdict} {end : Runner}
      → do_task host limits hash fuel attempt r ≡ some (v, end)
      → Run host limits hash attempt r v end
  unfolding do_task
  do_task-Run zero attempt r h = absurd (none-some h)
  do_task-Run (suc fuel) attempt r {v = v} {end = end} h =
      go (λ next s w end. do_task-Run fuel next s) (task_turn host limits hash attempt r)
        (task_turn-Round host limits hash attempt r) h
    where
      go :
          ((next : ℕ) (s : Runner) (w : Verdict) (end : Runner)
            → do_task host limits hash fuel next s ≡ some (w, end)
            → Run host limits hash next s w end)
          → (t : Turn) → Round host limits hash attempt r t
          → continue_by (do_task host limits hash fuel) t ≡ some (v, end)
          → Run host limits hash attempt r v end
      go ih (stop w s) round h =
          let e : (w, s) ≡ (v, end) = some-injective h in
          subst (λ (p : Verdict × Runner). Run host limits hash attempt r p.0 p.1) e (last round)
      go ih (again next s) round h = more round (ih next s v end h)

  -- A run of DoTask never changes or loses a chapter of the story, whatever it returns.
  pub do_task-kept :
      (fuel attempt : ℕ) (r : Runner) {v : Verdict} {end : Runner}
      → do_task host limits hash fuel attempt r ≡ some (v, end)
      → (n : ℕ) (e : Entry) → r.story n ≡ some e
      → end.story n ≡ some e
  do_task-kept fuel attempt r h = Run-kept (do_task-Run fuel attempt r h)

  -- A task is run once. When DoTask returns data or an attempt's error, a later replay of the story
  -- from the same ordinal, by whatever worker, returns the same, an error as it is stored; it starts
  -- no worker, leaves the story as it is and ends at the same ordinal. The input has a hash, no
  -- chapter was a restart's, the policy has no total timeout and treats the worker's errors as
  -- before once they are stored; the replay's store answers, and its clock is past the
  -- backoff of each chapter.
  pub do_task-Replays :
      (fuel : ℕ) (r : Runner) {v : Verdict} {end : Runner} (other : Host) (time rounds ticks : ℕ)
      → str_eq hash "" ≡ false
      → limits.total_timeout ≡ 0
      → NoExtra r.story
      → KeepsErrors host limits
      → do_task host limits hash fuel 1 r ≡ some (v, end)
      → is_other v ≡ false
      → Settled limits time end.story
      → Ready other time
      → end.story_counter ≤ r.story_counter + rounds
      → Replays other limits hash rounds
          (runner_at end.story r.story_counter ticks 0)
          v
          end.story_counter
  do_task-Replays fuel r other time rounds ticks hashed no_total extra keep run o settled ok l =
      let (late, w, same, rec) =
        Run-Records keep extra hashed (omega arith) o (do_task-Run fuel 1 r run) in
      let (after, p) =
        do_task-Recorded other limits hash no_total ok (Recorded-Settled settled rec) rounds 1 ticks
          0 l in
      record { verdict = w; same = same; ticks = after; run = p }
