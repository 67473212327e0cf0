-- ===== src/Workflow/Policy/Merge.antt =====
-- Normal policies, and what of two policies their merge takes.
use swf_go.Prelude.{
  ℕ, ◌≤◌, ◌<◌, ◌≡◌, refl, true, false, Option, none, some, [], ◌==◌, arith, Bool-cases, inl, inr,
}
use swf_go.Workflow.Policy.{
  Signed, plus, minus, positive, Floats, RetryPolicy, RunPolicy, normalize_retry_policy,
  normalize_timeout, normalize_run_policy, or_timeout, merge_retry_policy, merge_run_policy,
  compute_backoff, capped, effective_limits,
}

capped_le : (cap : ℕ) (d : Signed) → 0 < cap → capped cap d ≤ cap
capped_le cap (minus n) l = omega arith
capped_le cap (plus n) l = ground arith

normal_timeout : (o : Option Signed) → normalize_timeout (normalize_timeout o) ≡ normalize_timeout o
unfolding normalize_timeout
normal_timeout none = refl
normal_timeout (some (plus n)) = refl
normal_timeout (some (minus n)) = refl

module _ (floats : Floats) where
  -- Every effective policy with a maximum interval allows at least one attempt, and none of its
  -- backoffs is longer than that interval.
  pub effective_limits-bounds :
      (policy job_policy : RunPolicy floats) (attempt : ℕ)
      → 0 < positive (merge_run_policy floats policy job_policy).retry.maximum_interval
      → (1 ≤ (effective_limits floats policy job_policy).max_attempts)
        × ((effective_limits floats policy job_policy).backoff attempt
            ≤ positive (merge_run_policy floats policy job_policy).retry.maximum_interval)
  unfolding effective_limits normalize_run_policy normalize_retry_policy compute_backoff
  effective_limits-bounds policy job_policy attempt l = (
    attempts (merge_run_policy floats policy job_policy).retry,
    capped_le (positive (merge_run_policy floats policy job_policy).retry.maximum_interval) _ l,
  )
    where
      attempts :
          (p : RetryPolicy floats) → 1 ≤ positive (normalize_retry_policy floats p).maximum_attempts
      attempts p = elim (Bool-cases (positive p.maximum_attempts == 0)) [
        | inl e ↦ rw e (omega arith)
        | inr e ↦ rw e (ground arith)
      ]

  normal_retry :
      (p : RetryPolicy floats)
      → floats.is_zero_coefficient floats.one ≡ false
      → normalize_retry_policy floats (normalize_retry_policy floats p)
        ≡ normalize_retry_policy floats p
  unfolding normalize_retry_policy
  normal_retry p n = elim (Bool-cases (floats.is_zero_coefficient p.backoff_coefficient)) [
    | inl z ↦
        rw (z, n)
          (elim (Bool-cases (positive p.maximum_attempts == 0)) [
            | inl e ↦ rw e refl
            | inr e ↦ rw (e, e) refl
          ])
    | inr z ↦
        rw (z, z)
          (elim (Bool-cases (positive p.maximum_attempts == 0)) [
            | inl e ↦ rw e refl
            | inr e ↦ rw (e, e) refl
          ])
  ]

  -- A merged policy is normal: DoTask's second normalization of it changes nothing, where one is not
  -- the zero coefficient.
  pub merge_run_policy-normal :
      (a b : RunPolicy floats)
      → floats.is_zero_coefficient floats.one ≡ false
      → normalize_run_policy floats (merge_run_policy floats a b) ≡ merge_run_policy floats a b
  unfolding merge_run_policy normalize_run_policy
  merge_run_policy-normal a b n =
      rw
        (
          normal_retry (merge_retry_policy floats a.retry b.retry) n,
          normal_timeout (or_timeout a.invocation_timeout b.invocation_timeout),
          normal_timeout (or_timeout a.total_timeout b.total_timeout),
        )
        refl

  -- A retry policy that sets nothing leaves the base as it is; one that sets everything is taken as a
  -- whole.
  pub merge_retry_policy_identity :
      (base : RetryPolicy floats) {empty : RetryPolicy floats}
      → empty.initial_interval ≡ plus 0
      → floats.is_zero_coefficient empty.backoff_coefficient ≡ true
      → empty.maximum_interval ≡ plus 0
      → empty.maximum_attempts ≡ plus 0
      → empty.non_retryable_error_types ≡ []
      → merge_retry_policy floats empty base ≡ normalize_retry_policy floats base
  unfolding merge_retry_policy
  merge_retry_policy_identity base i c m a e = rw (i, c, m, a, e) refl
