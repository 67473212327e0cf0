-- ===== src/Workflow/Task/Round/Attempts.antt =====
-- Rounds that run an attempt of a task.
use swf_go.Prelude.{
  ℕ, suc, ◌+◌, ◌≡◌, refl, sym, ap, subst, Bool, true, false, not, ◌&&◌, String, Option, none, some,
  [], ◌∷◌, ltb, if◌then◌else◌, arith, Bool-cases, inl, inr, ◌⊎◌, none-some, some-injective,
}
use swf_go.Workflow.Errors.{Chain, TimeoutPayload, timeout_error, error_payload, is_retryable}
use swf_go.Workflow.Policy.{Limits}
use swf_go.Workflow.Await.{
  Host, total_timeout_error, invocation_timeout_error, past, await_until, Awaited, ready, expired,
  not_ready, reschedule_refused, done, leaves, Attempt, failed, produced, unreadable, Arrival,
  finished, exited, Rescheduled, accepted, lease_lost, refused,
}
use swf_go.Workflow.Task.{
  Payload, app_payload, error_stored, Runner, Verdict, returns, fails, backoff_wait, ended_wait,
  back_off, again, stop,
}
use swf_go.Workflow.Task.Replay.{leb_refl}
use swf_go.Workflow.Task.Live.{
  select_deadline, invocation_deadline, arrived, settle_produced, settle_unreadable, late_error,
  handed_to_another, put_or, put_answer, stored_runner, record_data, record_error, settle,
  select_result, run_attempt, live_turn,
}
use swf_go.Workflow.Task.Round.{
  Adds, Preserves, Does, Cause, of_worker, of_total, of_invocation, not_started, output_unread,
  not_stored, worker_gone, while_waiting, runs_data, runs_failure, runs_retry, leaves_task,
  Adds-Preserves, ticks-Preserves, either, is_other,
}

module _ (host : Host) (limits : Limits) (hash : String) where
  pub back_off-again :
      (prior from tick : ℕ) (deadline : Option ℕ) (s : Runner)
      → (back_off host limits hash prior from tick deadline s ≡ again (suc prior) s)
        ⊎ ((v : Verdict) × (is_other v ≡ true)
            × (back_off host limits hash prior from tick deadline s ≡ stop v s))
  back_off-again prior from tick deadline s = elim (Bool-cases (ltb 0 (limits.backoff prior))) [
    | inr b ↦ rw b (inl refl)
    | inl b ↦
        rw b (ended (await_until host (backoff_wait host limits hash prior from deadline) tick))
  ]
    where
      ended :
          (a : Awaited)
          → (ended_wait a (suc prior) s ≡ again (suc prior) s)
            ⊎ ((v : Verdict) × (is_other v ≡ true) × (ended_wait a (suc prior) s ≡ stop v s))
      ended ready = inl refl
      ended (expired t) = inr (_, refl, refl)
      ended not_ready = inr (_, refl, refl)
      ended (reschedule_refused message) = inr (_, refl, refl)
      ended done = inr (_, refl, refl)
      ended leaves = inr (_, refl, refl)

  module _ (attempt : ℕ) (r : Runner) (absent : r.story r.story_counter ≡ none) where
    abbrev started : ℕ → Runner
    started k = record r { ticks = k; runs = suc r.runs }

    started-Preserves : (k : ℕ) → Preserves r (started k)
    started-Preserves k = record { kept = λ n e h. h; few_runs = omega arith }

    stored_runner-Adds :
        (k tick : ℕ) (payload : Payload)
        → Adds hash attempt payload r
            (stored_runner host limits hash attempt tick payload (started k))
    stored_runner-Adds k tick payload = record {
      created_at = host.now tick;
      absent = absent;
      new_story = rw (leb_refl r.story_counter) refl;
      next = rw (leb_refl r.story_counter) refl;
      one_run = rw (leb_refl r.story_counter) refl;
    }

    record_data_lem :
        (text : String) (tick k : ℕ)
        → (j : ℕ) × (host.arrival j ≡ finished (produced text))
        → Does host limits hash attempt r
            (record_data host limits hash attempt text tick (started k))
    record_data_lem text tick k from = put (put_answer host limits hash (tick + 1)) refl
      where
        put :
            (o : Option String)
            → put_answer host limits hash (tick + 1) ≡ o
            → Does host limits hash attempt r (
                put_or host limits hash o
                  (stop
                    (returns text)
                    (stored_runner host limits hash attempt tick (app_payload text) (started k)))
                  (started k))
        put none e = runs_data (stored_runner-Adds k tick (app_payload text)) from
        put (some message) e = leaves_task refl (started-Preserves k) (not_stored (tick + 1) e refl)

    record_error_lem :
        (err : Chain) (tick k : ℕ) (deadline : Option ℕ)
        → Cause host limits err
        → Does host limits hash attempt r
            (record_error host limits hash attempt err tick deadline (started k))
    record_error_lem err tick k deadline cause = put (put_answer host limits hash (tick + 1)) refl
      where
        s : Runner
        s =
            stored_runner host limits hash attempt tick (error_stored (error_payload err))
              (started k)

        go :
            (b : Bool)
            → (is_retryable limits.names err && ltb attempt limits.max_attempts) ≡ b
            → Does host limits hash attempt r (
                if b
                then back_off host limits hash attempt (host.now (tick + 2)) (tick + 3) deadline s
                else stop (fails err) s)
        go true e = elim (back_off-again attempt (host.now (tick + 2)) (tick + 3) deadline s) [
          | inl b ↦
              subst (Does host limits hash attempt r) (sym b)
                (runs_retry err cause (ground arith) (stored_runner-Adds k tick _))
          | inr (v, o, b) ↦ subst (Does host limits hash attempt r) (sym b) (
              leaves_task o
                (Adds-Preserves (stored_runner-Adds k tick (error_stored (error_payload err))))
                (while_waiting cause (ground arith) (stored_runner-Adds k tick _)))
        ]
        go false e = runs_failure cause (ground arith) (stored_runner-Adds k tick _)

        put :
            (o : Option String)
            → put_answer host limits hash (tick + 1) ≡ o
            → Does host limits hash attempt r (
                put_or host limits hash o
                  (if is_retryable limits.names err && ltb attempt limits.max_attempts
                    then back_off host limits hash attempt
                        (host.now (tick + 2))
                        (tick + 3)
                        deadline
                        s
                    else stop (fails err) s)
                  (started k))
        put none e = go (is_retryable limits.names err && ltb attempt limits.max_attempts) refl
        put (some message) e = leaves_task refl (started-Preserves k) (not_stored (tick + 1) e refl)

    -- What late_error gives, if anything, is one of the two timeouts.
    late-Cause :
        (now : ℕ) (total invocation : Option ℕ) {t : TimeoutPayload}
        → late_error host limits hash now total invocation ≡ some t
        → Cause host limits (timeout_error t ∷ [])
    late-Cause now total invocation {t = t} h = elim (Bool-cases (past now total)) [
      | inl b ↦ of_total (ap (λ u. timeout_error u ∷ []) (sym (some-injective (rw b at h))))
      | inr b ↦ elim (Bool-cases (past now invocation)) [
        | inl c ↦
            of_invocation (ap (λ u. timeout_error u ∷ []) (sym (some-injective (rw (b, c) at h))))
        | inr c ↦ absurd (none-some (rw (b, c) at h))
      ]
    ]

    settle_lem :
        (result : Attempt) (tick k : ℕ) (total invocation : Option ℕ)
        → (j : ℕ) × (host.arrival j ≡ finished result)
        → Does host limits hash attempt r
            (settle host limits hash attempt result tick total invocation (started k))
    unfolding settle
    settle_lem (failed err) tick k total invocation (j, e) =
        record_error_lem err (tick + 1) k total (of_worker j e)
    settle_lem (produced text) tick k total invocation from =
        late (late_error host limits hash (host.now tick) total invocation) refl
      where
        late :
            (o : Option TimeoutPayload)
            → late_error host limits hash (host.now tick) total invocation ≡ o
            → Does host limits hash attempt r
                (settle_produced host limits hash attempt text o (tick + 1) total (started k))
        late none e = record_data_lem text (tick + 1) k from
        late (some t) e =
            record_error_lem _ (tick + 1) k total (late-Cause (host.now tick) total invocation e)
    settle_lem (unreadable message) tick k total invocation (j, f) =
        late (late_error host limits hash (host.now tick) total invocation) refl
      where
        late :
            (o : Option TimeoutPayload)
            → late_error host limits hash (host.now tick) total invocation ≡ o
            → Does host limits hash attempt r
                (settle_unreadable host limits hash attempt message o (tick + 1) total (started k))
        late none e = leaves_task refl (started-Preserves k) (output_unread j f refl)
        late (some t) e =
            record_error_lem _ (tick + 1) k total (late-Cause (host.now tick) total invocation e)

    arrived_lem :
        (a : Arrival) (tick k : ℕ) (total invocation : Option ℕ)
        → (j : ℕ) × (host.arrival j ≡ a)
        → Does host limits hash attempt r
            (arrived host limits hash attempt a tick total invocation (started k))
    arrived_lem exited tick k total invocation (j, e) =
        leaves_task refl (started-Preserves k) (worker_gone j e refl)
    arrived_lem (finished result) tick k total invocation from =
        settle_lem result tick k total invocation from

    fired-Cause :
        (b : Bool)
        → Cause host limits (
            timeout_error (
              if b
              then total_timeout_error host "task" limits.total_timeout
              else invocation_timeout_error host "task" limits.invocation_timeout)
            ∷ [])
    fired-Cause true = of_total refl
    fired-Cause false = of_invocation refl

    select_result_lem :
        (deadline : Option ℕ) (tick k : ℕ) (total invocation : Option ℕ)
        → Does host limits hash attempt r
            (select_result host limits hash attempt deadline tick total invocation (started k))
    select_result_lem none tick k total invocation =
        arrived_lem (host.arrival tick) (tick + 1) k total invocation (tick, refl)
    select_result_lem (some deadline) tick k total invocation =
        elim (Bool-cases (host.timer_first tick)) [
          | inl b ↦ rw b (record_error_lem _ _ k total (fired-Cause _))
          | inr b ↦
              rw b (arrived_lem (host.arrival tick) (tick + 1) k total invocation (tick, refl))
        ]

  pub live_turn_lem :
      (attempt : ℕ) (r : Runner) (absent : r.story r.story_counter ≡ none) (tick k : ℕ)
      (total : Option ℕ)
      → Does host limits hash attempt r
          (live_turn host limits hash attempt tick total (record r { ticks = k }))
  unfolding live_turn run_attempt
  live_turn_lem attempt r absent tick k total =
      either (Does host limits hash attempt r) host.replay
        (leaves_task refl (ticks-Preserves r k) (not_started refl refl))
        (either (Does host limits hash attempt r) (not host.has_worker)
          (either (Does host limits hash attempt r) (not host.has_lease)
            (leaves_task refl (ticks-Preserves r k) (not_started refl refl))
            (handed (host.reschedule tick)))
          (either (Does host limits hash attempt r) (past (host.now (tick + 1)) total)
            (leaves_task refl (ticks-Preserves r k) (not_started refl refl))
            (select_result_lem attempt r absent
              (select_deadline host limits hash
                (invocation_deadline host limits hash (host.now (tick + 1))) total)
              (tick + 1 + 1) k total (invocation_deadline host limits hash (host.now (tick + 1))))))
    where
      handed :
          (a : Rescheduled)
          → Does host limits hash attempt r
              (handed_to_another host limits hash a (record r { ticks = k }))
      handed accepted = leaves_task refl (ticks-Preserves r k) (not_started refl refl)
      handed lease_lost = leaves_task refl (ticks-Preserves r k) (not_started refl refl)
      handed (refused message) = leaves_task refl (ticks-Preserves r k) (not_started refl refl)
