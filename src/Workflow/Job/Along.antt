-- ===== src/Workflow/Job/Along.antt =====
-- A worker's calls of DoTask in JobWorker.Run, one after another.
use swf_go.Prelude.{ℕ, zero, suc, ◌≡◌, refl, String, Option, none, some}
use swf_go.Workflow.Policy.{Limits}
use swf_go.Workflow.Task.{Runner, Verdict, returns, fails, refuses, exits}
use swf_go.Workflow.Task.Live.{do_task}
use swf_go.Workflow.Job.{
  Program, gives, garbles, breaks, gives_nothing, calls, World, after_task, run_program,
}

-- What holds along each call of DoTask holds along a worker's run.
module _ (w : World) (rounds : ℕ) (P : Runner → Runner → Type 0) (here : (r : Runner) → P r r)
    (and_then : (r s t : Runner) → P r s → P s t → P r t)
    (tasks : (task_type : String) (limits : Limits) (hash : String) (r : Runner) (v : Verdict)
        (end : Runner)
      → do_task (w.task_host task_type) limits hash rounds 1 r ≡ some (v, end)
      → P r end) where
  pub run_program-Along : (n : ℕ) (p : Program) (r : Runner) → P r (run_program w rounds n p r).1
  unfolding run_program
  run_program-Along n (gives text) r = here r
  run_program-Along n (garbles message) r = here r
  run_program-Along n (breaks err) r = here r
  run_program-Along n gives_nothing r = here r
  run_program-Along zero (calls task_type limits hash next) r = here r
  run_program-Along (suc n) (calls task_type limits hash next) r =
      go (λ q s. run_program-Along n q s) (do_task (w.task_host task_type) limits hash rounds 1 r)
        (λ v end e. tasks task_type limits hash r v end e)
    where
      go :
          ((q : Program) (s : Runner) → P s (run_program w rounds n q s).1)
          → (o : Option (Verdict × Runner))
          → ((v : Verdict) (end : Runner) → o ≡ some (v, end) → P r end)
          → P r (after_task (run_program w rounds n) next r o).1
      go ih none t = here r
      go ih (some (returns text, s)) t = and_then r s _ (t _ s refl) (ih (next (returns text)) s)
      go ih (some (fails err, s)) t = and_then r s _ (t _ s refl) (ih (next (fails err)) s)
      go ih (some (refuses refusal, s)) t =
          and_then r s _ (t _ s refl) (ih (next (refuses refusal)) s)
      go ih (some (exits, s)) t = t _ s refl
