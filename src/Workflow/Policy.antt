-- ===== src/Workflow/Policy.antt =====
-- worker_retry.go of pkg/workflow (the same text as in pkg/jobdb), over the run policies of
-- pkg/jobdb/types.go. Floating point is an argument: the type of the coefficient, its zero, its one,
-- and the conversion back to a Duration of a product with a power of it.
pub mod Merge
use swf_go.Prelude.{
  ℕ, zero, suc, ◌-◌, Bool, true, false, not, ◌&&◌, String, Option, none, some, List, [], ◌∷◌, ltb,
  leb, ◌==◌, if◌then◌else◌,
}

-- Go's signed integers, as far as their tests go: n, or -(n+1).
pub data Signed : Type 0 where
  plus minus : ℕ → Signed

abbrev pub is_zero : Signed → Bool
is_zero (plus n) = n == 0
is_zero (minus n) = false

abbrev pub is_negative : Signed → Bool
is_negative (plus n) = false
is_negative (minus n) = true

-- n if it is positive, and 0 if not
abbrev pub positive : Signed → ℕ
positive (plus n) = n
positive (minus n) = 0

pub record Floats : Type 1 where
  pub Coefficient : Type 0
  pub is_zero_coefficient : Coefficient → Bool
  pub one : Coefficient
  pub scaled : Signed → Coefficient → ℕ → Signed

pub record RetryPolicy (floats : Floats) : Type 0 where
  pub initial_interval : Signed
  pub backoff_coefficient : floats.Coefficient
  pub maximum_interval : Signed
  pub maximum_attempts : Signed
  pub non_retryable_error_types : List String

pub record RunPolicy (floats : Floats) : Type 0 where
  pub retry : RetryPolicy floats
  pub invocation_timeout : Option Signed
  pub total_timeout : Option Signed

-- normalizeTimeout
unfoldable pub normalize_timeout : Option Signed → Option Signed
normalize_timeout none = none
normalize_timeout (some (plus n)) = some (plus n)
normalize_timeout (some (minus n)) = none

abbrev pub or_base : Signed → Signed → Signed
or_base override base = if is_zero override then base else override

abbrev pub or_base_list : List String → List String → List String
or_base_list [] base = base
or_base_list (name ∷ names) base = name ∷ names

abbrev pub or_timeout : Option Signed → Option Signed → Option Signed
or_timeout none base = base
or_timeout (some d) base = normalize_timeout (some d)

-- `if maxInterval > 0 && dur > maxInterval { dur = maxInterval }; if dur < 0 { dur = 0 }`
abbrev pub capped : ℕ → Signed → ℕ
capped cap (minus n) = 0
capped cap (plus n) = if ltb 0 cap && ltb cap n then cap else n

module _ (floats : Floats) where
  -- normalizeRetryPolicy
  unfoldable pub normalize_retry_policy : RetryPolicy floats → RetryPolicy floats
  normalize_retry_policy p = record p {
    maximum_attempts = if positive p.maximum_attempts == 0 then plus 1 else p.maximum_attempts;
    backoff_coefficient =
        if floats.is_zero_coefficient p.backoff_coefficient
        then floats.one
        else p.backoff_coefficient;
  }

  -- normalizeRunPolicy
  unfoldable pub normalize_run_policy : RunPolicy floats → RunPolicy floats
  normalize_run_policy p = record {
    retry = normalize_retry_policy p.retry;
    invocation_timeout = normalize_timeout p.invocation_timeout;
    total_timeout = normalize_timeout p.total_timeout;
  }

  -- mergeRetryPolicy
  unfoldable pub merge_retry_policy : RetryPolicy floats → RetryPolicy floats → RetryPolicy floats
  merge_retry_policy override base = normalize_retry_policy (record {
    initial_interval = or_base override.initial_interval base.initial_interval;
    backoff_coefficient =
        if floats.is_zero_coefficient override.backoff_coefficient
        then base.backoff_coefficient
        else override.backoff_coefficient;
    maximum_interval = or_base override.maximum_interval base.maximum_interval;
    maximum_attempts = or_base override.maximum_attempts base.maximum_attempts;
    non_retryable_error_types =
        or_base_list override.non_retryable_error_types base.non_retryable_error_types;
  })

  -- mergeRunPolicy
  unfoldable pub merge_run_policy : RunPolicy floats → RunPolicy floats → RunPolicy floats
  merge_run_policy override base = normalize_run_policy (record {
    retry = merge_retry_policy override.retry base.retry;
    invocation_timeout = or_timeout override.invocation_timeout base.invocation_timeout;
    total_timeout = or_timeout override.total_timeout base.total_timeout;
  })

  -- computeBackoff
  unfoldable pub compute_backoff : RetryPolicy floats → ℕ → ℕ
  compute_backoff p attempt = capped (positive p.maximum_interval) (
      if ltb 1 attempt
      then floats.scaled p.initial_interval p.backoff_coefficient (attempt - 1)
      else p.initial_interval)

-- durationPtrToDuration, of which the callers only ask whether it is positive
abbrev pub timeout_ns : Option Signed → ℕ
timeout_ns none = 0
timeout_ns (some d) = positive d

-- What a run asks of its effective policy.
pub record Limits : Type 0 where
  pub max_attempts : ℕ
  pub names : List String
  pub backoff : ℕ → ℕ
  pub invocation_timeout : ℕ
  pub total_timeout : ℕ

-- The first lines of DoTask: the task's policy over the job's.
unfoldable pub effective_limits : (floats : Floats) → RunPolicy floats → RunPolicy floats → Limits
effective_limits floats policy job_policy =
    let effective : RunPolicy floats =
      normalize_run_policy floats (merge_run_policy floats policy job_policy) in
    record {
      max_attempts = positive effective.retry.maximum_attempts;
      names = effective.retry.non_retryable_error_types;
      backoff = compute_backoff floats effective.retry;
      invocation_timeout = timeout_ns effective.invocation_timeout;
      total_timeout = timeout_ns effective.total_timeout;
    }
