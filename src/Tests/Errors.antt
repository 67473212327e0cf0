-- ===== src/Tests/Errors.antt =====
-- Errors of attempts and run policies on concrete inputs.
use swf_go.Prelude.{
  ℕ, ◌*◌, ◌≤◌, ◌≡◌, refl, Bool, true, false, Option, none, some, [], ◌∷◌, ◌==◌, str_eq, arith,
  none-some,
}
use swf_go.Workflow.Errors.{
  Chain, OtherError, other_link, TimeoutPayload, timeout_mark, stored_app, stored_error,
  error_payload, error_text, is_job_failed, as_timeout, as_system, as_app, as_job_failed,
  non_retryable, is_retryable, is_cancelled, completion_status, job_failed_error, timeout_error,
  trim_prefix,
}
use swf_go.Workflow.Errors.Stored.{
  Plain, stored_error-error_payload, is_retryable-stored_error, stored_error_forgets,
  completion_status_differs,
}
use swf_go.Workflow.Policy.{
  plus, minus, Floats, RunPolicy, effective_limits, merge_run_policy, merge_retry_policy,
  normalize_retry_policy, normalize_run_policy, positive,
}
use swf_go.Workflow.Policy.Merge.{effective_limits-bounds, merge_run_policy-normal}

abbrev error_type : Option Bool → OtherError
error_type declared = record {
  name = "ValidationError";
  full_name = "*orders.ValidationError";
  message = "no such item";
  non_retryable = declared;
  is_job_failed = false;
  is_cancelled = false;
}

abbrev plain_error : Chain
plain_error = other_link (error_type none) ∷ []

abbrev final_error : Chain
final_error = other_link (error_type (some true)) ∷ []

type_Plain : (declared : Option Bool) → Plain (other_link (error_type declared) ∷ [])
unfolding is_job_failed as_app
type_Plain declared = record { own = refl; unmarked = λ a h. absurd (none-some h) }

abbrev job_timeout : TimeoutPayload
job_timeout = record {
  scope = "total";
  after = 60000000000;
  retryable = false;
  kind = "";
  component = "runner";
  code = "timeout_total";
  message = "job total timed out after 1m0s";
}

-- The failure of another job, which timed out.
stored_error-error_payload_example :
    stored_error (
      error_payload (
        stored_error (
          stored_app (record {
            message = "late";
            level = "error";
            attrs = [];
            mark = some (timeout_mark job_timeout);
          }))))
    ≡ stored_error (
        stored_app (record {
          message = "late";
          level = "error";
          attrs = [];
          mark = some (timeout_mark job_timeout);
        }))
stored_error-error_payload_example = stored_error-error_payload (
    stored_app (record {
      message = "late";
      level = "error";
      attrs = [];
      mark = some (timeout_mark job_timeout);
    }))

is_retryable-stored_error_run :
    is_retryable [] (stored_error (error_payload plain_error)) ≡ is_retryable [] plain_error
unfolding non_retryable
is_retryable-stored_error_run = is_retryable-stored_error plain_error (type_Plain none) refl

stored_error_forgets_example :
    (is_retryable [] final_error ≡ false)
    × (is_retryable [] (stored_error (error_payload final_error)) ≡ true)
unfolding non_retryable as_timeout
stored_error_forgets_example = stored_error_forgets final_error (type_Plain (some true)) refl refl

completion_status_differs_run :
    (completion_status (some plain_error) ≡ "failed_system")
    × (completion_status (some (stored_error (error_payload plain_error))) ≡ "failed_app")
unfolding as_timeout as_system as_app is_cancelled
completion_status_differs_run =
    completion_status_differs plain_error (type_Plain none) refl refl refl refl

failed_job_text :
    error_text (job_failed_error ∷ timeout_error job_timeout ∷ [])
    ≡ "job failed: job total timed out after 1m0s"
unfolding error_text as_job_failed str_eq
failed_job_text = refl

trimmed : trim_prefix "job failed: late" "job failed: " "job failed: late" ≡ "late"
unfolding trim_prefix str_eq
trimmed = refl

-- Coefficients that are whole numbers.
abbrev whole : Floats
whole = record {
  Coefficient = ℕ;
  is_zero_coefficient = λ c. c == 0;
  one = 1;
  scaled = λ interval c n. plus (positive interval * (c * n));
}

abbrev retrying : RunPolicy whole
retrying = record {
  retry = record {
    initial_interval = plus 1000000000;
    backoff_coefficient = 2;
    maximum_interval = plus 5000000000;
    maximum_attempts = plus 4;
    non_retryable_error_types = [];
  };
  invocation_timeout = none;
  total_timeout = some (minus 4);
}

effective_limits-bounds_run :
    (1 ≤ (effective_limits whole retrying retrying).max_attempts)
    × ((effective_limits whole retrying retrying).backoff 3
        ≤ positive (merge_run_policy whole retrying retrying).retry.maximum_interval)
unfolding merge_run_policy merge_retry_policy normalize_run_policy normalize_retry_policy
effective_limits-bounds_run = effective_limits-bounds whole retrying retrying 3 (omega arith)

merge_run_policy-normal_run :
    normalize_run_policy whole (merge_run_policy whole retrying retrying)
    ≡ merge_run_policy whole retrying retrying
merge_run_policy-normal_run = merge_run_policy-normal whole retrying retrying refl
