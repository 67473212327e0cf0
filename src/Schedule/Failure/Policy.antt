-- ===== src/Schedule/Failure/Policy.antt =====
-- When ScheduleFailurePolicyViolated blocks a schedule.
use mathlib.Core.List.{reverse, reverse-append, reverse-reverse}
use swf_go.Prelude.{
  ℕ, zero, suc, ◌+◌, ◌*◌, ◌≤◌, ◌<◌, ◌≡◌, refl, sym, ap, ◌∙◌, true, List, [], ◌∷◌, ◌++◌, ◌==◌,
  if◌then◌else◌, arith, Bool-cases, inl, inr, ◌⊎◌, ◌≢◌, ◌↔◌, replicate,
}
use swf_go.Schedule.Failure.{
  ScheduleFailurePolicy, leading_failures, sequential_failures, tally, too_many_failures,
  too_few_successes, schedule_failure_policy_violated,
}

-- The number of entries equal to c.
abbrev pub count : ℕ → List ℕ → ℕ
count c [] = 0
count c (x ∷ xs) = if x == c then count c xs + 1 else count c xs

tally-count :
    (bits : List ℕ) (s t : ℕ)
    → tally bits (s, t) ≡ (s + count b'1' bits, t + (count b'1' bits + count b'0' bits))
unfolding tally
tally-count [] s t = ground arith
tally-count (c ∷ cs) s t =
    ground (arith, tally-count cs (s + 1) (t + 1), tally-count cs s (t + 1), tally-count cs s t)

leading_sound :
    (m : ℕ) (xs : List ℕ)
    → m ≤ leading_failures xs
    → (rest : List ℕ) × (xs ≡ replicate m b'0' ++ rest)
unfolding leading_failures
leading_sound zero xs h = (xs, refl)
leading_sound (suc m) [] h = absurd (omega arith)
leading_sound (suc m) (x ∷ xs) h =
    let fail : x ≡ b'0' = ground arith in
    let (rest, e) = leading_sound m xs (ground arith) in (rest, ground arith)

leading_complete : (m : ℕ) (rest : List ℕ) → m ≤ leading_failures (replicate m b'0' ++ rest)
unfolding leading_failures
leading_complete zero rest = omega arith
leading_complete (suc m) rest = ground (arith, leading_complete m rest)

replicate-snoc : (m a : ℕ) → replicate m a ++ a ∷ [] ≡ a ∷ replicate m a
replicate-snoc zero a = refl
replicate-snoc (suc m) a = ap (◌∷◌ a) (replicate-snoc m a)

reverse-replicate : (m a : ℕ) → reverse (replicate m a) ≡ replicate m a
reverse-replicate zero a = refl
reverse-replicate (suc m) a =
    reverse-append (a ∷ []) (replicate m a) ∙ rw (reverse-replicate m a) (replicate-snoc m a)

-- The history ends in at least m failures.
abbrev pub EndsInFailures : ℕ → List ℕ → Type 0
EndsInFailures m bits = (front : List ℕ) × (bits ≡ front ++ replicate m b'0')

sequential_sound : (m : ℕ) (bits : List ℕ) → m ≤ sequential_failures bits → EndsInFailures m bits
unfolding sequential_failures
sequential_sound m bits h =
    let (rest, e) = leading_sound m (reverse bits) h in
    (
      reverse rest,
      sym (reverse-reverse bits)
          ∙ ap reverse e
          ∙ reverse-append (replicate m b'0') rest
          ∙ rw (reverse-replicate m b'0') refl,
    )

sequential_complete : (m : ℕ) (bits : List ℕ) → EndsInFailures m bits → m ≤ sequential_failures bits
unfolding sequential_failures
sequential_complete m bits (front, e) = rw e (
    rw (reverse-append front (replicate m b'0'))
      (rw (reverse-replicate m b'0') (leading_complete m (reverse front))))

-- A history blocks the schedule exactly when it is not empty and one of the two rules is set and
-- broken: it ends in the forbidden number of failures in a row, or its share of successes among the
-- recorded outcomes lies below the wanted percentage.
pub schedule_failure_policy_violated_iff :
    (bits : List ℕ) (policy : ScheduleFailurePolicy)
    → (schedule_failure_policy_violated bits policy ≡ true) ↔ (
        (bits ≢ [])
        × (((0 < policy.max_sequential_failures)
              × EndsInFailures policy.max_sequential_failures bits)
            ⊎ ((0 < policy.min_success_percent)
                × (0 < count b'1' bits + count b'0' bits)
                × (count b'1' bits * 100
                    < policy.min_success_percent * (count b'1' bits + count b'0' bits)))))
unfolding schedule_failure_policy_violated too_many_failures too_few_successes
schedule_failure_policy_violated_iff [] policy = (λ h. ground arith, λ (n, _). absurd (n refl))
schedule_failure_policy_violated_iff (c ∷ cs) policy = (
  λ h. (
    λ e. ground arith,
    elim (Bool-cases (too_many_failures (c ∷ cs) policy)) [
      | inl many ↦
          inl
            (ground arith, sequential_sound policy.max_sequential_failures (c ∷ cs) (ground arith))
      | inr few ↦ inr (ground (arith, tally-count (c ∷ cs) 0 0))
    ],
  ),
  λ (n, r). elim r [
    | inl (p, ends) ↦
        ground (arith, sequential_complete policy.max_sequential_failures (c ∷ cs) ends)
    | inr (p, q, l) ↦ ground (arith, tally-count (c ∷ cs) 0 0)
  ],
)
