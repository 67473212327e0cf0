-- ===== src/Workflow/Task/Inspect.antt =====
-- A run that only replays, as the inspector of a job makes it.
use swf_go.Prelude.{
  ℕ, zero, suc, ◌+◌, ◌≡◌, refl, sym, ap, ◌∙◌, true, not, ◌||◌, String, Option, none, some, ltb, leb,
  str_eq, none-some, some-injective,
}
use swf_go.Workflow.Errors.{Chain, is_retryable}
use swf_go.Workflow.Policy.{Limits}
use swf_go.Workflow.Await.{
  Host, await_until, Awaited, ready, expired, not_ready, reschedule_refused, done, leaves,
}
use swf_go.Workflow.Task.{
  Entry, Runner, Verdict, Turn, stop, again, Decoded, decoded, undecoded, chapter_to_task_data,
  prior_attempt, is_task_chapter, backoff_wait, ended_wait, back_off, replay_payload,
  replay_checked, replay_entry, Reading, unread, missing, found,
}
use swf_go.Workflow.Task.Live.{
  from_deadline, turn_of, live_turn, total_deadline, continue_by, task_turn, do_task,
}
use swf_go.Workflow.Task.Replay.{leb_refl}
use swf_go.Workflow.Task.Round.{either}

abbrev runner_of : Turn → Runner
runner_of (stop v s) = s
runner_of (again next s) = s

-- A turn that leaves the story alone and starts no worker.
record Idle (r : Runner) (t : Turn) : Type 0 where
  same_story : (runner_of t).story ≡ r.story
  no_run : (runner_of t).runs ≡ r.runs

Idle-stop : (v : Verdict) (s : Runner) → Idle s (stop v s)
Idle-stop v s = record { same_story = refl; no_run = refl }

Idle-again : (next : ℕ) (s : Runner) → Idle s (again next s)
Idle-again next s = record { same_story = refl; no_run = refl }

module _ (host : Host) (limits : Limits) (hash : String) where
  back_off-Idle :
      (prior from tick : ℕ) (deadline : Option ℕ) (s : Runner)
      → Idle s (back_off host limits hash prior from tick deadline s)
  back_off-Idle prior from tick deadline s =
      either (Idle s) (not (ltb 0 (limits.backoff prior))) (Idle-again (suc prior) s)
        (ended (await_until host (backoff_wait host limits hash prior from deadline) tick))
    where
      ended : (a : Awaited) → Idle s (ended_wait a (suc prior) s)
      ended ready = Idle-again _ s
      ended (expired t) = Idle-stop _ s
      ended not_ready = Idle-stop _ s
      ended (reschedule_refused message) = Idle-stop _ s
      ended done = Idle-stop _ s
      ended leaves = Idle-stop _ s

  replay_payload-Idle :
      (e : Entry) (d : Decoded) (tick : ℕ) (total : Option ℕ) (s : Runner)
      → Idle s (replay_payload host limits hash e d tick total s)
  replay_payload-Idle e (decoded text) tick total s = Idle-stop _ s
  replay_payload-Idle e (undecoded err) tick total s =
      either (Idle s)
        (not (is_retryable limits.names err) || leb limits.max_attempts (prior_attempt e.attempt))
        (Idle-stop _ s) (back_off-Idle (prior_attempt e.attempt) e.created_at tick total s)

  replay_checked-Idle :
      (e : Entry) (o : Option Chain) (tick : ℕ) (total : Option ℕ) (s : Runner)
      → Idle s (replay_checked host limits hash e o tick total s)
  replay_checked-Idle e (some err) tick total s = Idle-stop _ s
  replay_checked-Idle e none tick total s =
      either (Idle s) (str_eq e.input_hash "") (Idle-stop _ s) (
        either (Idle s) (not (str_eq e.input_hash hash)) (Idle-stop _ s)
          (replay_payload-Idle e (chapter_to_task_data e.payload) tick total s))

  replay_entry-Idle :
      (e : Entry) (tick : ℕ) (total : Option ℕ) (s : Runner)
      → Idle s (replay_entry host limits hash e tick total s)
  unfolding replay_entry
  replay_entry-Idle e tick total s =
      either (Idle s) (not (is_task_chapter e.chapter_type)) (Idle-stop _ s)
        (replay_checked-Idle e _ (tick + 1) total s)

  task_turn-Idle :
      host.replay ≡ true
      → (attempt : ℕ) (r : Runner) → Idle r (task_turn host limits hash attempt r)
  unfolding task_turn live_turn
  task_turn-Idle replay attempt r = deadline (total_deadline host limits hash r.ticks r)
    where
      s : Runner
      s = record r { ticks = r.ticks + 18 }

      left : {v : Verdict} → Idle r (stop v s)
      left = record { same_story = refl; no_run = refl }

      lift : {t : Turn} (x : Runner) → x.story ≡ r.story → x.runs ≡ r.runs → Idle x t → Idle r t
      lift x p q i = record { same_story = i.same_story ∙ p; no_run = i.no_run ∙ q }

      turn :
          (d : Reading) (tick : ℕ) (total : Option ℕ)
          → Idle r (turn_of host limits hash d attempt tick total s)
      turn (unread message) tick total = left
      turn missing tick total = simp replay left
      turn (found e) tick total = simp (leb_refl r.story_counter) (
          lift (record r { ticks = r.ticks + 18; story_counter = suc r.story_counter }) refl refl
            (replay_entry-Idle e tick total
              (record r { ticks = r.ticks + 18; story_counter = suc r.story_counter })))

      deadline : (d : Reading) → Idle r (from_deadline host limits hash d attempt (r.ticks + 1) s)
      deadline (unread message) = left
      deadline missing = turn _ _ none
      deadline (found e) = turn _ _ (some (e.created_at + limits.total_timeout))

  -- A run that only replays never writes a chapter nor starts a worker, whatever it returns.
  pub do_task-Idle :
      host.replay ≡ true
      → (fuel attempt : ℕ) (r : Runner) {v : Verdict} {end : Runner}
      → do_task host limits hash fuel attempt r ≡ some (v, end)
      → (end.story ≡ r.story) × (end.runs ≡ r.runs)
  unfolding do_task
  do_task-Idle replay zero attempt r h = absurd (none-some h)
  do_task-Idle replay (suc fuel) attempt r {v = v} {end = end} h =
      go (λ next s w end. do_task-Idle replay fuel next s) (task_turn host limits hash attempt r)
        (task_turn-Idle replay attempt r) h
    where
      go :
          ((next : ℕ) (s : Runner) (w : Verdict) (end : Runner)
            → do_task host limits hash fuel next s ≡ some (w, end)
            → (end.story ≡ s.story) × (end.runs ≡ s.runs))
          → (t : Turn) → Idle r t
          → continue_by (do_task host limits hash fuel) t ≡ some (v, end)
          → (end.story ≡ r.story) × (end.runs ≡ r.runs)
      go ih (stop w s) idle h =
          let e : (w, s) ≡ (v, end) = some-injective h in
          let same : s ≡ end = ap (λ (p : Verdict × Runner). p.1) e in
          (
            sym (ap (λ (x : Runner). x.story) same) ∙ idle.same_story,
            sym (ap (λ (x : Runner). x.runs) same) ∙ idle.no_run,
          )
      go ih (again next s) idle h =
          let (same, runs) = ih next s v end h in (same ∙ idle.same_story, runs ∙ idle.no_run)
