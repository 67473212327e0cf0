-- ===== src/Workflow/Job/Retold/Tasks.antt =====
-- All tasks that a job's worker has called, replayed by another worker.
use swf_go.Prelude.{
  ℕ, suc, ◌≤◌, ◌≡◌, refl, ap, ◌∙◌, subst, false, String, Option, some, arith, some-injective, ◌⊎◌,
  inl, inr,
}
use swf_go.Workflow.Task.{Entry, Runner, Verdict, returns, fails, refuses, exits}
use swf_go.Workflow.Task.Replay.{Ready, runner_at}
use swf_go.Workflow.Task.Round.{is_other}
use swf_go.Workflow.Task.Story.{NoExtra, as_stored, true-false}
use swf_go.Workflow.Job.{
  Program, gives, garbles, breaks, gives_nothing, calls, Answer, output, unreadable_data, job_error,
  nothing, is_job_outcome, World, after_task, run_program,
}
use swf_go.Workflow.Job.Retold.{
  IsPartOf, Regular, with_data, with_garbage, with_error, with_nothing, with_task, after_task-next,
  same_program, Retells, task_retold, regular_step, end_part, task_first,
}

ended_same : (v x : Verdict) → is_other v ≡ false → (x ≡ v) ⊎ (x ≡ as_stored v) → is_other x ≡ false
ended_same v x o (inl p) = ap is_other p ∙ o
ended_same (returns text) x o (inr p) = ap is_other p
ended_same (fails err) x o (inr p) = ap is_other p
ended_same (refuses refusal) x o (inr p) = absurd (true-false o)
ended_same exits x o (inr p) = absurd (true-false o)

module _ (w : World) (rounds time : ℕ) (final : ℕ → Option Entry) (extra : NoExtra final)
    (other : World) (ok : (task_type : String) → Ready (other.task_host task_type) time)
    (more : ℕ) where
  abbrev Retold : ℕ → Program → Runner → Runner → Answer → Type 0
  Retold n p r end a =
      (r.story_counter ≤ end.story_counter)
      × (end.story_counter ≤ more
          → (ticks runs : ℕ)
          → Retells other more n p final r.story_counter ticks runs a end.story_counter)

  at_end :
      (n : ℕ) (p : Program) (r : Runner) {end : Runner} (b : Answer) {a : Answer}
      → ((s : Runner) → run_program other more n p s ≡ (some b, s))
      → ◌≡◌ {A = Option Answer × Runner} (some b, r) (some a, end)
      → Retold n p r end a
  at_end n p r {end} b {a} here h =
      let same : r ≡ end = ap (λ (q : Option Answer × Runner). q.1) h in
      let answer : some b ≡ some a = ap (λ (q : Option Answer × Runner). q.0) h in
      subst (λ e. Retold n p r e a) same
        (subst (λ c. Retold n p r r c) (some-injective answer)
          (
            omega arith,
            λ l ticks runs. record {
              after = ticks;
              run = here (runner_at final r.story_counter ticks runs);
            },
          ))

  Regular-Retold :
      {n : ℕ} {p : Program} {r end : Runner} {a : Answer}
      → Regular w rounds time final n p r
      → run_program w rounds n p r ≡ (some a, end)
      → IsPartOf end.story final
      → Retold n p r end a
  unfolding run_program
  Regular-Retold {n} {p} {r} (with_data text) h part =
      at_end n (gives text) r (output text) (λ s. refl) h
  Regular-Retold {n} {p} {r} (with_garbage message) h part =
      at_end n (garbles message) r (unreadable_data message) (λ s. refl) h
  Regular-Retold {n} {p} {r} (with_error err) h part =
      at_end n (breaks err) r (job_error err) (λ s. refl) h
  Regular-Retold {n} {p} {r} with_nothing h part = at_end n gives_nothing r nothing (λ s. refl) h
  Regular-Retold {r = r} {end = end} {a = a}
        (with_task {n = n} {s = s} {task_type = task_type} {limits = limits} {hash = hash}
          {next = next} {v = v} run regular rest)
        h part =
      let step : run_program w rounds n (next v) s ≡ (some a, end) =
        regular_step w rounds time final extra other ok more n r s task_type limits hash next run
          (regular.ended) h in
      let (grows, retell) = Regular-Retold rest step part in
      let (x, same, longer, again) =
        task_retold w rounds time final extra other ok more r s run regular
          (end_part w rounds time final extra other ok more (suc n)
            (calls task_type limits hash next) r h part)
          (end_part w rounds time final extra other ok more n (next v) s step part) in
      (
        omega (arith, grows, longer),
        λ l ticks runs.
            let (mid, e) = again ticks runs (omega (arith, l, grows)) in
            let t : Retells other more n (next v) final s.story_counter mid runs a
                end.story_counter =
              retell l mid runs in
            record {
              after = t.after;
              run =
                  ap
                    (after_task (run_program other more n) next
                      (runner_at final r.story_counter ticks runs))
                    e
                  ∙ (after_task-next (run_program other more n) next
                        (runner_at final r.story_counter ticks runs)
                        (runner_at final s.story_counter mid runs) x
                        (ended_same v x (regular.ended) same)
                      ∙ (ap
                            (λ q.
                              run_program other more n q (runner_at final s.story_counter mid runs))
                            (same_program next v x (regular.same_next) same)
                          ∙ t.run));
            },
      )

  -- A job's worker runs on as before. When the worker's run has come to an end over calls of DoTask
  -- that returned data or an attempt's error, another worker that runs the same code over the story,
  -- also when that has grown, gets the same answer, comes to the same ordinal, starts no worker of
  -- a task, and leaves the story as it is.
  pub run_program-Retells :
      (n : ℕ) (p : Program) (r : Runner) {end : Runner} {a : Answer} (ticks runs : ℕ)
      → Regular w rounds time final n p r
      → run_program w rounds n p r ≡ (some a, end)
      → IsPartOf end.story final
      → end.story_counter ≤ more
      → Retells other more n p final r.story_counter ticks runs a end.story_counter
  run_program-Retells n p r ticks runs regular h part l =
      (Regular-Retold regular h part).1 l ticks runs

  -- Where such a run has called a task, the chapter that it began at is not a job's outcome.
  pub Regular-first :
      {n : ℕ} {p : Program} {r end : Runner} {a : Answer}
      → Regular w rounds time final n p r
      → run_program w rounds n p r ≡ (some a, end)
      → IsPartOf end.story final
      → (r.story_counter ≡ end.story_counter)
        ⊎ ((e : Entry) × (final r.story_counter ≡ some e) × (is_job_outcome e.chapter_type ≡ false))
  unfolding run_program
  Regular-first (with_data text) h part =
      inl (ap (λ (q : Option Answer × Runner). q.1.story_counter) h)
  Regular-first (with_garbage message) h part =
      inl (ap (λ (q : Option Answer × Runner). q.1.story_counter) h)
  Regular-first (with_error err) h part =
      inl (ap (λ (q : Option Answer × Runner). q.1.story_counter) h)
  Regular-first with_nothing h part = inl (ap (λ (q : Option Answer × Runner). q.1.story_counter) h)
  Regular-first {r = r} {end = end} {a = a}
        (with_task {n = n} {s = s} {task_type = task_type} {limits = limits} {hash = hash}
          {next = next} {v = v} run regular rest)
        h part =
      let step : run_program w rounds n (next v) s ≡ (some a, end) =
        regular_step w rounds time final extra other ok more n r s task_type limits hash next run
          (regular.ended) h in
      inr (
        task_first w rounds time final extra other ok more r s run regular
          (end_part w rounds time final extra other ok more (suc n)
            (calls task_type limits hash next) r h part)
          (end_part w rounds time final extra other ok more n (next v) s step part))
