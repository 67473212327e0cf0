-- ===== src/Schedule/Failure.antt =====
-- schedule.go: AppendScheduleFailureBit and ScheduleFailurePolicyViolated. A history is the list of
-- its code points; a field of the policy that is not positive is 0.
pub mod History
pub mod Policy
use mathlib.Core.List.{reverse}
use swf_go.Prelude.{
  ℕ, zero, suc, ◌+◌, ◌-◌, ◌*◌, Bool, true, false, ◌&&◌, ◌||◌, List, [], ◌∷◌, ◌++◌, ltb, leb, ◌==◌,
  if◌then◌else◌, length, drop,
}

pub record ScheduleFailurePolicy : Type 0 where
  pub min_success_percent : ℕ
  pub window_size : ℕ
  pub max_sequential_failures : ℕ

abbrev pub is_bit : ℕ → Bool
is_bit c = c == b'0' || c == b'1'

-- The first loop: a history with any other sign in it is forgotten.
unfoldable pub all_bits : List ℕ → Bool
all_bits [] = true
all_bits (c ∷ cs) = let rest : Bool = all_bits cs in if is_bit c then rest else false

abbrev pub outcome_bit : Bool → ℕ
outcome_bit true = b'1'
outcome_bit false = b'0'

unfoldable pub append_schedule_failure_bit : List ℕ → Bool → ℕ → List ℕ
append_schedule_failure_bit bits success window =
    let kept : List ℕ = if all_bits bits then bits else [] in
    let grown : List ℕ = kept ++ outcome_bit success ∷ [] in
    if ltb 0 window && ltb window (length grown) then drop (length grown - window) grown else grown

-- The loop from the end of the history: it counts up to the first sign that is not a failure.
unfoldable pub leading_failures : List ℕ → ℕ
leading_failures [] = 0
leading_failures (c ∷ cs) = let rest : ℕ = leading_failures cs in if c == b'0' then rest + 1 else 0

unfoldable pub sequential_failures : List ℕ → ℕ
unfolding leading_failures
sequential_failures bits = leading_failures (reverse bits)

-- The second loop, over (successes, total).
unfoldable pub tally : List ℕ → ℕ × ℕ → ℕ × ℕ
tally [] counts = counts
tally (c ∷ cs) (successes, total) = tally cs (
    if c == b'1'
    then (successes + 1, total + 1)
    else if c == b'0'
    then (successes, total + 1)
    else (successes, total))

unfoldable pub too_many_failures : List ℕ → ScheduleFailurePolicy → Bool
too_many_failures bits policy =
    ltb 0 policy.max_sequential_failures
    && leb policy.max_sequential_failures (sequential_failures bits)

unfoldable pub too_few_successes : List ℕ → ScheduleFailurePolicy → Bool
too_few_successes bits policy =
    let (successes, total) = tally bits (0, 0) in
    ltb 0 policy.min_success_percent
    && (ltb 0 total && ltb (successes * 100) (policy.min_success_percent * total))

unfoldable pub schedule_failure_policy_violated : List ℕ → ScheduleFailurePolicy → Bool
unfolding too_many_failures too_few_successes
schedule_failure_policy_violated [] policy = false
schedule_failure_policy_violated (c ∷ cs) policy =
    if too_many_failures (c ∷ cs) policy then true else too_few_successes (c ∷ cs) policy
