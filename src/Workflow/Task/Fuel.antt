-- ===== src/Workflow/Task/Fuel.antt =====
-- How many rounds, attempts and starts of the worker a task takes.
use swf_go.Prelude.{
  ℕ, zero, suc, ◌+◌, ◌≤◌, ◌<◌, ◌≡◌, ◌≢◌, refl, sym, ◌∙◌, subst, false, String, Option, none, some,
  ltb, ◌==◌, arith, Bool-cases, ltb→lt, ltb-false→le, none-some, inl, inr, ◌⊎◌,
}
use swf_go.Workflow.Errors.{Chain}
use swf_go.Workflow.Policy.{Limits}
use swf_go.Workflow.Await.{Host}
use swf_go.Workflow.Task.{Entry, Runner, Verdict, Turn, again, stop, store, prior_attempt}
use swf_go.Workflow.Task.Live.{continue_by, task_turn, do_task}
use swf_go.Workflow.Task.Round.Turns.{task_turn-Round}
use swf_go.Workflow.Task.Round.{Round, replays_retry, runs_retry, Keeps, ends}
use swf_go.Workflow.Task.Run.{Run, last, more, Round-Preserves-stop, do_task-Run}

lt_or_eq : (a b : ℕ) → a ≤ b → (a < b) ⊎ (b ≡ a)
lt_or_eq a b l = elim (Bool-cases (ltb a b)) [
  | inl e ↦ inl (ltb→lt a b e)
  | inr e ↦ inr (omega (arith, ltb-false→le a b e, l))
]

-- No chapter from an ordinal on.
abbrev pub EndsAt : ℕ → (ℕ → Option Entry) → Type 0
EndsAt top story = (n : ℕ) → top ≤ n → story n ≡ none

store-EndsAt :
    (top at : ℕ) (story : ℕ → Option Entry) (e : Entry)
    → at < top
    → EndsAt top story
    → EndsAt top (store story at e)
store-EndsAt top at story e l b n m = elim (Bool-cases (n == at)) [
  | inl q ↦ let same : n ≡ at = ground arith in absurd (omega (arith, same, l, m))
  | inr q ↦ rw q (b n m)
]

not_ended :
    (limits : Limits) (err : Chain) (attempt : ℕ)
    → ends limits err attempt ≡ false
    → attempt < limits.max_attempts
not_ended limits err attempt x = ground arith

some_not_none :
    (story : ℕ → Option Entry) {n : ℕ} {e : Entry} → story n ≡ none → story n ≡ some e → ⊥
some_not_none story p q = none-some (sym p ∙ q)

-- Past the story's end a round that goes on has run an attempt.
record Lives (limits : Limits) (attempt next : ℕ) (r s : Runner) : Type 0 where
  pub grows : next ≡ suc attempt
  pub within : attempt < limits.max_attempts
  pub fresh : EndsAt (suc r.story_counter) s.story
  pub one_run : s.runs ≡ suc r.runs

module _ {host : Host} {limits : Limits} {hash : String} where
  again-next :
      {attempt next : ℕ} {r s : Runner}
      → Round host limits hash attempt r (again next s)
      → s.story_counter ≡ suc r.story_counter
  again-next (replays_retry at a d x k) = k.next
  again-next (runs_retry err ke x a) = a.next

  again-EndsAt :
      {attempt next top : ℕ} {r s : Runner}
      → r.story_counter < top
      → EndsAt top r.story
      → Round host limits hash attempt r (again next s)
      → EndsAt top s.story
  again-EndsAt l b (replays_retry at a d x k) = subst (EndsAt _) (sym k.same_story) b
  again-EndsAt {r = r} l b (runs_retry err ke x a) =
      subst (EndsAt _) (sym a.new_story) (store-EndsAt _ r.story_counter r.story _ l b)

  again-attempt :
      {attempt next : ℕ} {r s : Runner}
      → Round host limits hash attempt r (again next s)
      → (1 ≤ next) × (next ≤ limits.max_attempts)
  again-attempt (replays_retry {e = e} {err = err} at a d x k) =
      (omega arith, omega (arith, not_ended limits err (prior_attempt e.attempt) x))
  again-attempt {attempt = attempt} (runs_retry err ke x a) =
      (omega arith, omega (arith, not_ended limits err attempt x))

  again-Lives :
      {attempt next : ℕ} {r s : Runner}
      → EndsAt r.story_counter r.story
      → Round host limits hash attempt r (again next s)
      → Lives limits attempt next r s
  again-Lives {r = r} b (replays_retry at a d x k) =
      absurd (some_not_none r.story (b r.story_counter (omega arith)) at)
  again-Lives {attempt = attempt} {r = r} b (runs_retry err ke x a) = record {
    grows = refl;
    within = not_ended limits err attempt x;
    fresh = subst (EndsAt _) (sym a.new_story) (
        store-EndsAt (suc r.story_counter) r.story_counter r.story _ (omega arith)
          (λ n l. b n (omega (arith, l))));
    one_run = a.one_run;
  }

  Run-live :
      {attempt : ℕ} {r end : Runner} {v : Verdict}
      → attempt ≤ limits.max_attempts
      → EndsAt r.story_counter r.story
      → Run host limits hash attempt r v end
      → end.runs + attempt ≤ r.runs + limits.max_attempts + 1
  Run-live l b (last round) = omega (arith, (Round-Preserves-stop round).few_runs, l)
  Run-live {r = r} l b (more {s = s} round run) =
      let lives = again-Lives b round in
      let fresh : EndsAt s.story_counter s.story = rw (again-next round) lives.fresh in
      omega (
        arith,
        Run-live (omega (arith, lives.grows, lives.within)) fresh run,
        lives.grows,
        lives.one_run,
      )

  again-Keeps :
      {attempt next : ℕ} {r s : Runner}
      → r.story r.story_counter ≢ none
      → Round host limits hash attempt r (again next s)
      → Keeps r s
  again-Keeps n (replays_retry at a d x k) = k
  again-Keeps n (runs_retry err ke x a) = absurd (n a.absent)

  Run-runs :
      {attempt top : ℕ} {r end : Runner} {v : Verdict}
      → 1 ≤ attempt
      → attempt ≤ limits.max_attempts
      → r.story_counter ≤ top
      → EndsAt top r.story
      → ((n : ℕ) → r.story_counter ≤ n → n < top → r.story n ≢ none)
      → Run host limits hash attempt r v end
      → end.runs ≤ r.runs + limits.max_attempts
  Run-runs o l c b f (last round) = omega (arith, (Round-Preserves-stop round).few_runs, l, o)
  Run-runs {attempt = attempt} {top = top} {r = r} {end = end} o l c b f
        (more {next = next} {s = s} {v = v} round run) =
      elim (lt_or_eq r.story_counter top c) [
        | inl p ↦
            let k : Keeps r s = again-Keeps (f r.story_counter (omega arith) p) round in
            let ih : end.runs ≤ s.runs + limits.max_attempts =
              Run-runs (again-attempt round).0 (again-attempt round).1 (omega (arith, k.next, p))
                (subst (EndsAt top) (sym k.same_story) b)
                (λ n m q. rw k.same_story (f n (omega (arith, k.next, m)) q)) run in
            omega (arith, ih, k.no_run)
        | inr e ↦ omega (arith, Run-live l (rw e at b) (more round run), o)
      ]

module _ (host : Host) (limits : Limits) (hash : String) where
  -- A task's worker is started at most as often as the policy has attempts, whatever was replayed
  -- before. The policy has at least one attempt, and no chapter is missing between the next
  -- ordinal and the end of the story.
  pub do_task-runs :
      (fuel : ℕ) (r : Runner) (top : ℕ) {v : Verdict} {end : Runner}
      → 1 ≤ limits.max_attempts
      → r.story_counter ≤ top
      → EndsAt top r.story
      → ((n : ℕ) → r.story_counter ≤ n → n < top → r.story n ≢ none)
      → do_task host limits hash fuel 1 r ≡ some (v, end)
      → end.runs ≤ r.runs + limits.max_attempts
  do_task-runs fuel r top m c b f run =
      Run-runs (omega arith) m c b f (do_task-Run host limits hash fuel 1 r run)

  Total : ℕ → ℕ → Runner → Type 0
  Total fuel attempt r =
      (v : Verdict) × (end : Runner) × (do_task host limits hash fuel attempt r ≡ some (v, end))

  Total-live :
      (fuel attempt : ℕ) (r : Runner)
      → 1 ≤ fuel
      → limits.max_attempts + 1 ≤ fuel + attempt
      → EndsAt r.story_counter r.story
      → Total fuel attempt r
  unfolding do_task Total
  Total-live zero attempt r o l b = absurd (omega (arith, o))
  Total-live (suc fuel) attempt r o l b =
      go (Total-live fuel) (task_turn host limits hash attempt r)
        (task_turn-Round host limits hash attempt r)
    where
      go :
          ((next : ℕ) (s : Runner)
            → 1 ≤ fuel
            → limits.max_attempts + 1 ≤ fuel + next
            → EndsAt s.story_counter s.story
            → Total fuel next s)
          → (t : Turn) → Round host limits hash attempt r t
          → (v : Verdict) × (end : Runner) × (continue_by (do_task host limits hash fuel) t
              ≡ some (v, end))
      go ih (stop v s) round = (v, s, refl)
      go ih (again next s) round =
          let lives : Lives limits attempt next r s = again-Lives b round in
          ih next s (omega (arith, lives.within, l)) (omega (arith, lives.grows, lives.within, l))
            (rw (again-next round) lives.fresh)

  -- DoTask comes to an end: one round for each chapter up to the end of the story, one for each
  -- attempt of the policy, and one more are enough.
  pub do_task-total :
      (fuel attempt : ℕ) (r : Runner) (top : ℕ)
      → r.story_counter ≤ top
      → EndsAt top r.story
      → top + limits.max_attempts + 1 ≤ fuel + r.story_counter
      → (v : Verdict) × (end : Runner) × (do_task host limits hash fuel attempt r ≡ some (v, end))
  unfolding do_task Total
  do_task-total zero attempt r top c b l = absurd (omega (arith, c, l))
  do_task-total (suc fuel) attempt r top c b l = elim (lt_or_eq r.story_counter top c) [
    | inr e ↦ Total-live (suc fuel) attempt r (omega arith) (omega (arith, e, l)) (rw e at b)
    | inl p ↦
        go (do_task-total fuel) (task_turn host limits hash attempt r)
          (task_turn-Round host limits hash attempt r) p
  ]
    where
      go :
          ((next : ℕ) (s : Runner) (top : ℕ)
            → s.story_counter ≤ top
            → EndsAt top s.story
            → top + limits.max_attempts + 1 ≤ fuel + s.story_counter
            → Total fuel next s)
          → (t : Turn) → Round host limits hash attempt r t
          → r.story_counter < top
          → (v : Verdict) × (end : Runner) × (continue_by (do_task host limits hash fuel) t
              ≡ some (v, end))
      go ih (stop v s) round p = (v, s, refl)
      go ih (again next s) round p =
          ih next s top (omega (arith, again-next round, p)) (again-EndsAt p b round)
            (omega (arith, again-next round, l))
