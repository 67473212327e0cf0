-- ===== src/Workflow/Task/Live.antt =====
-- DoTask of worker_runner.go of pkg/workflow: an attempt that runs, and the loop.
use swf_go.Prelude.{
  ℕ, zero, suc, ◌+◌, ◌-◌, Bool, false, not, ◌&&◌, String, Option, none, some, [], ◌∷◌, ltb, ◌==◌,
  if◌then◌else◌,
}
use swf_go.Workflow.Errors.{TimeoutPayload, Chain, timeout_error, error_payload, is_retryable}
use swf_go.Workflow.Policy.{plus, Limits}
use swf_go.Workflow.Await.{
  Rescheduled, accepted, lease_lost, refused, Attempt, failed, produced, unreadable, Arrival,
  finished, exited, Host, total_timeout_error, invocation_timeout_error, past,
}
use swf_go.Workflow.Task.{
  task_attempt_outcome, Payload, app_payload, error_stored, Entry, Runner, unread_deadline,
  unread_chapter, result_missing, timed_out, not_rescheduled, unreadable_output, not_persisted,
  Verdict, returns, fails, refuses, exits, Turn, stop, again, Reading, unread, missing, found,
  get_chapter, mark_consumed, store, back_off, replay_entry,
}

-- What is stored of an attempt's result.
abbrev pub outcome_entry : String → ℕ → ℕ → Payload → Entry
outcome_entry hash attempt created_at payload = record {
  chapter_type = task_attempt_outcome;
  input_hash = hash;
  attempt = plus attempt;
  created_at = created_at;
  prerequisites = [];
  payload = payload;
}

abbrev pub continue_by : (ℕ → Runner → Option (Verdict × Runner)) → Turn → Option (Verdict × Runner)
continue_by loop (stop v r) = some (v, r)
continue_by loop (again attempt r) = loop attempt r

module _ (host : Host) (limits : Limits) (hash : String) where
  -- From persistTaskDataChapter on, for a payload and what follows when it is stored.
  abbrev pub put_or : Option String → Turn → Runner → Turn
  put_or (some message) next r = stop (refuses (not_persisted message)) r
  put_or none next r = next

  abbrev pub put_answer : ℕ → Option String
  put_answer tick = if host.has_lease then host.put_error tick else some "lease is required"

  abbrev pub stored_runner : ℕ → ℕ → Payload → Runner → Runner
  stored_runner attempt tick payload r = mark_consumed r.story_counter (record r {
    story = store r.story r.story_counter (outcome_entry hash attempt (host.now tick) payload);
  })

  abbrev pub record_data : ℕ → String → ℕ → Runner → Turn
  record_data attempt text tick r =
      put_or (put_answer (tick + 1))
        (stop (returns text) (stored_runner attempt tick (app_payload text) r)) r

  abbrev pub record_error : ℕ → Chain → ℕ → Option ℕ → Runner → Turn
  record_error attempt err tick deadline r =
      let s : Runner = stored_runner attempt tick (error_stored (error_payload err)) r in
      put_or (put_answer (tick + 1))
        (if is_retryable limits.names err && ltb attempt limits.max_attempts
          then back_off host limits hash attempt (host.now (tick + 2)) (tick + 3) deadline s
          else stop (fails err) s)
        r

  -- The tests of the deadlines after the select, where the worker gave no error.
  abbrev pub late_error : ℕ → Option ℕ → Option ℕ → Option TimeoutPayload
  late_error now total invocation =
      if past now total
      then some (total_timeout_error host "task" limits.total_timeout)
      else if past now invocation
      then some (invocation_timeout_error host "task" limits.invocation_timeout)
      else none

  abbrev pub settle_produced : ℕ → String → Option TimeoutPayload → ℕ → Option ℕ → Runner → Turn
  settle_produced attempt text none tick deadline r = record_data attempt text tick r
  settle_produced attempt text (some t) tick deadline r =
      record_error attempt (timeout_error t ∷ []) tick deadline r

  abbrev pub settle_unreadable : ℕ → String → Option TimeoutPayload → ℕ → Option ℕ → Runner → Turn
  settle_unreadable attempt message none tick deadline r =
      stop (refuses (unreadable_output message)) r
  settle_unreadable attempt message (some t) tick deadline r =
      record_error attempt (timeout_error t ∷ []) tick deadline r

  -- From the reading of the clock after the select on.
  unfoldable pub settle : ℕ → Attempt → ℕ → Option ℕ → Option ℕ → Runner → Turn
  settle attempt (failed err) tick total invocation r = record_error attempt err (tick + 1) total r
  settle attempt (produced text) tick total invocation r =
      settle_produced attempt text (late_error (host.now tick) total invocation) (tick + 1) total r
  settle attempt (unreadable message) tick total invocation r =
      settle_unreadable attempt message (late_error (host.now tick) total invocation) (tick + 1)
        total r

  -- The deadline of the select: the earlier of the two.
  abbrev pub select_deadline : Option ℕ → Option ℕ → Option ℕ
  select_deadline none total = total
  select_deadline (some invocation) none = some invocation
  select_deadline (some invocation) (some total) =
      if ltb total invocation then some total else some invocation

  abbrev is_deadline : Option ℕ → ℕ → Bool
  is_deadline none deadline = false
  is_deadline (some total) deadline = deadline == total

  abbrev pub arrived : ℕ → Arrival → ℕ → Option ℕ → Option ℕ → Runner → Turn
  arrived attempt exited tick total invocation r = stop exits r
  arrived attempt (finished result) tick total invocation r =
      settle attempt result tick total invocation r

  -- The case of the timer that comes first.
  abbrev timer_fired : ℕ → ℕ → ℕ → Option ℕ → Option ℕ → Runner → Turn
  timer_fired attempt deadline tick total invocation r =
      record_error attempt
        (timeout_error (
            if is_deadline total deadline
            then total_timeout_error host "task" limits.total_timeout
            else invocation_timeout_error host "task" limits.invocation_timeout)
          ∷ [])
        (tick + 1) total r

  -- The select, with a timer if there is a deadline.
  abbrev pub select_result : ℕ → Option ℕ → ℕ → Option ℕ → Option ℕ → Runner → Turn
  select_result attempt none tick total invocation r =
      arrived attempt (host.arrival tick) (tick + 1) total invocation r
  select_result attempt (some deadline) tick total invocation r =
      if host.timer_first tick
      then timer_fired attempt deadline (tick + 1) total invocation r
      else arrived attempt (host.arrival tick) (tick + 1) total invocation r

  abbrev pub invocation_deadline : ℕ → Option ℕ
  invocation_deadline now =
      if ltb 0 limits.invocation_timeout then some (now + limits.invocation_timeout) else none

  -- From the start of the task on.
  unfoldable pub run_attempt : ℕ → ℕ → Option ℕ → Runner → Turn
  run_attempt attempt tick total r =
      let now : ℕ = host.now tick in
      if past now total
      then stop (refuses (timed_out (total_timeout_error host "task" limits.total_timeout))) r
      else select_result attempt (select_deadline (invocation_deadline now) total) (tick + 1) total
          (invocation_deadline now) (record r { runs = suc r.runs })

  abbrev pub handed_to_another : Rescheduled → Runner → Turn
  handed_to_another accepted r = stop exits r
  handed_to_another lease_lost r = stop exits r
  handed_to_another (refused message) r = stop (refuses (not_rescheduled message)) r

  -- The branch of a chapter that is not there.
  unfoldable pub live_turn : ℕ → ℕ → Option ℕ → Runner → Turn
  live_turn attempt tick total r =
      if host.replay
      then stop (refuses result_missing) r
      else if not host.has_worker
      then if not host.has_lease
        then stop (refuses result_missing) r
        else handed_to_another (host.reschedule tick) r
      else run_attempt attempt (tick + 1) total r

  abbrev pub turn_of : Reading → ℕ → ℕ → Option ℕ → Runner → Turn
  turn_of (unread message) attempt tick total r = stop (refuses (unread_chapter message)) r
  turn_of missing attempt tick total r = live_turn attempt tick total r
  turn_of (found e) attempt tick total r =
      replay_entry host limits hash e tick total (mark_consumed r.story_counter r)

  abbrev pub from_deadline : Reading → ℕ → ℕ → Runner → Turn
  from_deadline (unread message) attempt tick r = stop (refuses (unread_deadline message)) r
  from_deadline missing attempt tick r =
      turn_of (get_chapter host r tick r.story_counter) attempt (tick + 1) none r
  from_deadline (found e) attempt tick r =
      turn_of (get_chapter host r tick r.story_counter) attempt (tick + 1)
        (some (e.created_at + limits.total_timeout)) r

  -- taskTotalDeadline: no chapter is read where there is no total timeout.
  abbrev pub total_deadline : ℕ → Runner → Reading
  total_deadline tick r =
      if limits.total_timeout == 0 then missing else get_chapter host r tick (r.story_counter - 1)

  -- One round of the loop of DoTask, from the tick of the runner on; it asks at 18 ticks at most.
  unfoldable pub task_turn : ℕ → Runner → Turn
  task_turn attempt r =
      from_deadline (total_deadline r.ticks r) attempt (r.ticks + 1)
        (record r { ticks = r.ticks + 18 })

  -- The loop of DoTask, on fuel.
  unfoldable pub do_task : ℕ → ℕ → Runner → Option (Verdict × Runner)
  do_task zero attempt r = none
  do_task (suc fuel) attempt r = continue_by (do_task fuel) (task_turn attempt r)
