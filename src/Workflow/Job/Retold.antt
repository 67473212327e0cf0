-- ===== src/Workflow/Job/Retold.antt =====
-- The replay, by another worker, of the tasks that a job's worker has called.
pub mod Tasks
pub mod Closed
pub mod Stops
pub mod Reproduces
use swf_go.Prelude.{
  ℕ, zero, suc, ◌+◌, ◌≤◌, ◌<◌, ◌≡◌, refl, sym, ap, ◌∙◌, subst, Bool, true, false, String, Option,
  none, some, str_eq, arith, some-injective, ◌⊎◌, inl, inr,
}
use swf_go.Workflow.Errors.{Chain}
use swf_go.Workflow.Policy.{Limits}
use swf_go.Workflow.Await.{Host}
use swf_go.Workflow.Task.{Entry, Runner, Verdict, returns, fails, refuses, exits}
use swf_go.Workflow.Task.Live.{do_task}
use swf_go.Workflow.Task.Replay.{
  Recorded, success, failure, retried, Ready, runner_at, do_task-Recorded, from_lt_to,
}
use swf_go.Workflow.Task.Round.{is_other, KeepsErrors}
use swf_go.Workflow.Task.Story.{NoExtra, Settled, Recorded-Settled, as_stored, true-false}
use swf_go.Workflow.Task.Run.{do_task-Run, do_task-kept, Run-Records}
use swf_go.Workflow.Job.{
  Program, gives, garbles, breaks, gives_nothing, calls, Answer, is_job_outcome, World, after_task,
  run_program,
}
use swf_go.Workflow.Job.Along.{run_program-Along}

-- No chapter of a story is changed or lost in another.
abbrev pub IsPartOf : (ℕ → Option Entry) → (ℕ → Option Entry) → Type 0
IsPartOf story final = (n : ℕ) (e : Entry) → story n ≡ some e → final n ≡ some e

Recorded-IsPartOf :
    {limits : Limits} {hash : String} {time : ℕ} {story final : ℕ → Option Entry} {from to : ℕ}
    {v : Verdict}
    → IsPartOf story final
    → Recorded limits hash time story from v to
    → Recorded limits hash time final from v to
Recorded-IsPartOf part (success at a d) = success (part _ _ at) a d
Recorded-IsPartOf part (failure at a d x) = failure (part _ _ at) a d x
Recorded-IsPartOf part (retried at a d x b more) =
    retried (part _ _ at) a d x b (Recorded-IsPartOf part more)

-- A call of DoTask that returned data or an attempt's error: the input has a hash, the policy has no
-- total timeout, treats the worker's errors as before once they are stored, and its backoffs are
-- over at a given time; and the job's code goes on in the same way with the error as it is stored.
pub record IsRegular (host : Host) (limits : Limits) (hash : String) (next : Verdict → Program)
    (time : ℕ) (final : ℕ → Option Entry) (v : Verdict) : Type 0 where
  pub hashed : str_eq hash "" ≡ false
  pub no_total : limits.total_timeout ≡ 0
  pub keeps : KeepsErrors host limits
  pub settled : Settled limits time final
  pub ended : is_other v ≡ false
  pub same_next : next (as_stored v) ≡ next v

-- A worker's run with such calls only.
pub data Regular (w : World) (rounds time : ℕ) (final : ℕ → Option Entry)
    : ℕ → Program → Runner → Type 0 where
  with_data : {n : ℕ} {r : Runner} (text : String) → Regular w rounds time final n (gives text) r
  with_garbage :
      {n : ℕ} {r : Runner} (message : String) → Regular w rounds time final n (garbles message) r
  with_error : {n : ℕ} {r : Runner} (err : Chain) → Regular w rounds time final n (breaks err) r
  with_nothing : {n : ℕ} {r : Runner} → Regular w rounds time final n gives_nothing r
  with_task :
      {n : ℕ} {r s : Runner} {task_type : String} {limits : Limits} {hash : String}
      {next : Verdict → Program} {v : Verdict}
      → do_task (w.task_host task_type) limits hash rounds 1 r ≡ some (v, s)
      → IsRegular (w.task_host task_type) limits hash next time final v
      → Regular w rounds time final n (next v) s
      → Regular w rounds time final (suc n) (calls task_type limits hash next) r

pub after_task-next :
    (rest : Program → Runner → Option Answer × Runner) (next : Verdict → Program) (r s : Runner)
    (v : Verdict)
    → is_other v ≡ false
    → after_task rest next r (some (v, s)) ≡ rest (next v) s
after_task-next rest next r s (returns text) o = refl
after_task-next rest next r s (fails err) o = refl
after_task-next rest next r s (refuses refusal) o = cc
after_task-next rest next r s exits o = cc

pub same_program :
    (next : Verdict → Program) (v x : Verdict)
    → next (as_stored v) ≡ next v
    → (x ≡ v) ⊎ (x ≡ as_stored v)
    → next x ≡ next v
same_program next v x same (inl p) = ap next p
same_program next v x same (inr p) = ap next p ∙ same

-- The replay of a worker's run: it gives the same answer and comes to the same ordinal.
pub record Retells (w : World) (rounds n : ℕ) (p : Program) (final : ℕ → Option Entry)
    (from ticks runs : ℕ) (a : Answer) (to : ℕ) : Type 0 where
  pub after : ℕ
  pub run :
      run_program w rounds n p (runner_at final from ticks runs)
      ≡ (some a, runner_at final to after runs)

run_program-kept :
    (w : World) (rounds n : ℕ) (p : Program) (r : Runner)
    → IsPartOf r.story (run_program w rounds n p r).1.story
run_program-kept w rounds n p r =
    run_program-Along w rounds (λ (q s : Runner). IsPartOf q.story s.story) (λ q k e h. h)
      (λ q s t f g k e h. g k e (f k e h))
      (λ task_type limits hash q v end run.
        do_task-kept (w.task_host task_type) limits hash rounds 1 q run)
      n p r

NoExtra-IsPartOf :
    {story final : ℕ → Option Entry} → IsPartOf story final → NoExtra final → NoExtra story
NoExtra-IsPartOf part extra n e h = extra n e (part n e h)

module _ (w : World) (rounds time : ℕ) (final : ℕ → Option Entry) (extra : NoExtra final)
    (other : World) (ok : (task_type : String) → Ready (other.task_host task_type) time)
    (more : ℕ) where
  -- One call of DoTask of such a run, replayed.
  pub task_retold :
      {task_type : String} {limits : Limits} {hash : String} {next : Verdict → Program}
      {v : Verdict} (r s : Runner)
      → do_task (w.task_host task_type) limits hash rounds 1 r ≡ some (v, s)
      → IsRegular (w.task_host task_type) limits hash next time final v
      → IsPartOf r.story final
      → IsPartOf s.story final
      → (x : Verdict) × ((x ≡ v) ⊎ (x ≡ as_stored v))
        × (r.story_counter < s.story_counter)
        × ((ticks runs : ℕ)
            → s.story_counter ≤ r.story_counter + more
            → (end : ℕ) × (do_task
                  (other.task_host task_type)
                  limits
                  hash
                  more
                  1
                  (runner_at final r.story_counter ticks runs)
                ≡ some (x, runner_at final s.story_counter end runs)))
  task_retold {task_type = task_type} {limits = limits} {hash = hash} {v = v} r s run regular before
        after =
      let (late, x, same, rec) =
        Run-Records (regular.keeps) (NoExtra-IsPartOf before extra) (regular.hashed) (omega arith)
          (regular.ended) (do_task-Run (w.task_host task_type) limits hash rounds 1 r run) in
      let told : Recorded limits hash time final r.story_counter x s.story_counter =
        Recorded-Settled (regular.settled) (Recorded-IsPartOf after rec) in
      (
        x,
        same,
        from_lt_to (other.task_host task_type) limits hash (regular.no_total) told,
        λ ticks runs l.
            do_task-Recorded (other.task_host task_type) limits hash (regular.no_total)
              (ok task_type) told more 1 ticks runs l,
      )

  -- The chapter that such a call began at.
  pub task_first :
      {task_type : String} {limits : Limits} {hash : String} {next : Verdict → Program}
      {v : Verdict} (r s : Runner)
      → do_task (w.task_host task_type) limits hash rounds 1 r ≡ some (v, s)
      → IsRegular (w.task_host task_type) limits hash next time final v
      → IsPartOf r.story final
      → IsPartOf s.story final
      → (e : Entry) × (final r.story_counter ≡ some e) × (is_job_outcome e.chapter_type ≡ false)
  task_first {task_type = task_type} {limits = limits} {hash = hash} {v = v} r s run regular before
        after =
      let (late, x, same, rec) =
        Run-Records (regular.keeps) (NoExtra-IsPartOf before extra) (regular.hashed) (omega arith)
          (regular.ended) (do_task-Run (w.task_host task_type) limits hash rounds 1 r run) in
      first_chapter after rec
    where
      first_chapter :
          {late : ℕ} {story : ℕ → Option Entry} {from to : ℕ} {x : Verdict}
          → IsPartOf story final
          → Recorded limits hash late story from x to
          → (e : Entry) × (final from ≡ some e) × (is_job_outcome e.chapter_type ≡ false)
      first_chapter part (success {e = e} at a d) = (e, part _ _ at, ap is_job_outcome a.outcome)
      first_chapter part (failure {e = e} at a d y) = (e, part _ _ at, ap is_job_outcome a.outcome)
      first_chapter part (retried {e = e} at a d y b m) =
          (e, part _ _ at, ap is_job_outcome a.outcome)

  pub regular_step :
      (n : ℕ) (r s : Runner) {end : Runner} (task_type : String) (limits : Limits) (hash : String)
      (next : Verdict → Program) {v : Verdict} {a : Answer}
      → do_task (w.task_host task_type) limits hash rounds 1 r ≡ some (v, s)
      → is_other v ≡ false
      → run_program w rounds (suc n) (calls task_type limits hash next) r ≡ (some a, end)
      → run_program w rounds n (next v) s ≡ (some a, end)
  unfolding run_program
  regular_step n r s task_type limits hash next {v = v} run o h =
      sym (after_task-next (run_program w rounds n) next r s v o)
      ∙ (sym (ap (after_task (run_program w rounds n) next r) run) ∙ h)

  pub end_part :
      (n : ℕ) (p : Program) (r : Runner) {end : Runner} {o : Option Answer}
      → run_program w rounds n p r ≡ (o, end)
      → IsPartOf end.story final
      → IsPartOf r.story final
  end_part n p r h part k e at = part k e (
      ap (λ (q : Option Answer × Runner). q.1.story k) (sym h)
      ∙ run_program-kept w rounds n p r k e at)
