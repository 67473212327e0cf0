-- ===== src/Workflow/Task/Round/Turns.antt =====
-- Rounds at a recorded attempt, and all rounds.
use swf_go.Prelude.{
  ℕ, suc, ◌+◌, ◌≡◌, refl, sym, subst, Bool, true, false, not, ◌&&◌, String, Option, none, some,
  str_eq, str_eq_iff, if◌then◌else◌, arith, inl, inr,
}
use swf_go.Workflow.Errors.{Chain}
use swf_go.Workflow.Policy.{Limits}
use swf_go.Workflow.Await.{Host, check_prerequisites}
use swf_go.Workflow.Task.{
  Entry, Runner, fails, refuses, Decoded, decoded, undecoded, chapter_to_task_data, prior_attempt,
  mark_consumed, back_off, stop, Reading, found, unread, missing, reading_of, reading_or,
  is_task_chapter, is_restart_extra, missing_input_hash, input_mismatch, not_deterministic,
  replay_payload, replay_checked, replay_entry,
}
use swf_go.Workflow.Task.Replay.{leb_refl}
use swf_go.Workflow.Task.Live.{from_deadline, turn_of, total_deadline, task_turn}
use swf_go.Workflow.Task.Round.{
  Keeps, Preserves, ends, IsOutcome, Does, replays_data, replays_failure, replays_retry,
  leaves_task, ticks-Preserves, not_started,
}
use swf_go.Workflow.Task.Round.Attempts.{back_off-again, live_turn_lem}

module _ (host : Host) (limits : Limits) (hash : String) where
  found_lem :
      (attempt : ℕ) (r : Runner) (e : Entry) (tick k : ℕ) (total : Option ℕ)
      → r.story r.story_counter ≡ some e
      → Does host limits hash attempt r (
          replay_entry host limits hash e tick total
            (mark_consumed r.story_counter (record r { ticks = k })))
  unfolding replay_entry
  found_lem attempt r e tick k total at =
      simp (leb_refl r.story_counter) (by_type (is_task_chapter e.chapter_type) refl)
    where
      s : Runner
      s = record r { ticks = k; story_counter = suc r.story_counter }

      left : Preserves r s
      left = record { kept = λ n e h. h; few_runs = omega arith }

      keeps : Keeps r s
      keeps = record { same_story = refl; next = refl; no_run = refl }

      by_end :
          (err : Chain) (b : Bool)
          → IsOutcome hash e
          → chapter_to_task_data e.payload ≡ undecoded err
          → ends limits err (prior_attempt e.attempt) ≡ b
          → Does host limits hash attempt r (
              if b
              then stop (fails err) s
              else back_off host limits hash
                  (prior_attempt e.attempt)
                  e.created_at
                  (tick + 1)
                  total
                  s)
      by_end err true a d q = replays_failure at a d q keeps
      by_end err false a d q =
          elim (back_off-again host limits hash (prior_attempt e.attempt) e.created_at (tick + 1)
            total s) [
              | inl b ↦
                  subst (Does host limits hash attempt r) (sym b) (replays_retry at a d q keeps)
              | inr (v, o, b) ↦
                  subst (Does host limits hash attempt r) (sym b)
                    (leaves_task o left (not_started refl refl))
            ]

      by_payload :
          (d : Decoded)
          → IsOutcome hash e
          → chapter_to_task_data e.payload ≡ d
          → Does host limits hash attempt r (replay_payload host limits hash e d (tick + 1) total s)
      by_payload (decoded text) a d = replays_data at a d keeps
      by_payload (undecoded err) a d =
          by_end err (ends limits err (prior_attempt e.attempt)) a d refl

      by_hash :
          (b c : Bool)
          → str_eq e.input_hash "" ≡ b
          → str_eq e.input_hash hash ≡ c
          → is_task_chapter e.chapter_type ≡ true
          → Does host limits hash attempt r (
              if b
              then stop (refuses missing_input_hash) s
              else if not c
              then stop (refuses (input_mismatch e.input_hash hash)) s
              else replay_payload host limits hash e
                  (chapter_to_task_data e.payload)
                  (tick + 1)
                  total
                  s)
      by_hash true c p q t = leaves_task refl left (not_started refl refl)
      by_hash false false p q t = leaves_task refl left (not_started refl refl)
      by_hash false true p q t =
          let same : e.input_hash ≡ hash = (str_eq_iff e.input_hash hash).0 q in
          by_payload (chapter_to_task_data e.payload)
            (record {
              kind = t;
              same_input = same;
              has_hash = subst (λ (h : String). str_eq h "" ≡ false) same p;
            })
            refl

      checked :
          (o : Option Chain)
          → is_task_chapter e.chapter_type ≡ true
          → Does host limits hash attempt r (replay_checked host limits hash e o (tick + 1) total s)
      checked none t = by_hash (str_eq e.input_hash "") (str_eq e.input_hash hash) refl refl t
      checked (some err) t = leaves_task refl left (not_started refl refl)

      by_type :
          (b : Bool)
          → is_task_chapter e.chapter_type ≡ b
          → Does host limits hash attempt r (
              if not b
              then stop (refuses not_deterministic) s
              else replay_checked host limits hash e
                  (if is_restart_extra e.chapter_type && (not host.replay && host.has_lease)
                    then check_prerequisites (host.job tick) e.prerequisites
                    else none)
                  (tick + 1)
                  total
                  s)
      by_type false t = leaves_task refl left (not_started refl refl)
      by_type true t = checked _ t

  -- Each round of DoTask's loop does one of these. At a chapter of the same input it returns the
  -- recorded data; or the recorded error, if that is not retryable or the attempt was the policy's
  -- last; or it goes on to the attempt after the recorded one; the story stays as it is, and no
  -- worker is started. Where no chapter is, it starts the worker once, and stores one chapter of this
  -- attempt: the data that the worker produced, which it returns; or the error that the worker
  -- failed with, or a timeout of the task, which it returns in the same two cases, or else goes on to
  -- the next attempt. Or DoTask returns an error that is of no attempt, or its goroutine ends. Then
  -- no worker was started; or the worker's output could not be read, storing was refused, or the
  -- worker ended the goroutine, and the story is as it was; or the error of the attempt was stored,
  -- it is one to retry, and the wait before the next attempt came to nothing.
  pub task_turn-Round :
      (attempt : ℕ) (r : Runner)
      → Does host limits hash attempt r (task_turn host limits hash attempt r)
  unfolding task_turn
  task_turn-Round attempt r = deadline (total_deadline host limits hash r.ticks r)
    where
      s : Runner
      s = record r { ticks = r.ticks + 18 }

      at_chapter :
          (message : Option String) (o : Option Entry) (tick : ℕ) (total : Option ℕ)
          → r.story r.story_counter ≡ o
          → Does host limits hash attempt r
              (turn_of host limits hash (reading_or message (reading_of o)) attempt tick total s)
      at_chapter (some message) o tick total e =
          leaves_task refl (ticks-Preserves r (r.ticks + 18)) (not_started refl refl)
      at_chapter none none tick total e =
          live_turn_lem host limits hash attempt r e tick (r.ticks + 18) total
      at_chapter none (some c) tick total e = found_lem attempt r c tick (r.ticks + 18) total e

      deadline :
          (d : Reading)
          → Does host limits hash attempt r
              (from_deadline host limits hash d attempt (r.ticks + 1) s)
      deadline (unread message) =
          leaves_task refl (ticks-Preserves r (r.ticks + 18)) (not_started refl refl)
      deadline missing = at_chapter _ (r.story r.story_counter) _ none refl
      deadline (found e) =
          at_chapter _ (r.story r.story_counter) _ (some (e.created_at + limits.total_timeout)) refl
