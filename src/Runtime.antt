-- ===== src/Runtime.antt =====
-- What the runtimes of pkg/jobdb share: job keys, statuses and the errors that callers tell apart.
use swf_go.Prelude.{
  Bool, true, false, ◌&&◌, String, str_eq, List, [], ◌∷◌, ◌≡◌, ◌↔◌, str_eq_iff, arith, refl, Result,
  ◌||◌, not,
}

-- types.go
pub record JobKey : Type 0 where
  pub tenant_id : String
  pub job_id : String

unfoldable pub key_eq : JobKey → JobKey → Bool
key_eq a b = str_eq a.tenant_id b.tenant_id && str_eq a.job_id b.job_id

pub key_eq_iff : (a b : JobKey) → (key_eq a b ≡ true) ↔ (a ≡ b)
unfolding key_eq
key_eq_iff a b = (
  λ h. ground (arith, str_eq_iff a.tenant_id b.tenant_id, str_eq_iff a.job_id b.job_id),
  λ e. ground (arith, str_eq_iff a.tenant_id b.tenant_id, str_eq_iff a.job_id b.job_id),
)

pub key_eq_refl : (a : JobKey) → key_eq a a ≡ true
key_eq_refl a = (key_eq_iff a a).1 refl

-- jobs.go
pub data JobStatus : Type 0 where
  ready expired pending_jobs awaiting_future active crash_concern cancelled completed : JobStatus

-- errors.go, with one constructor for all errors that have no identity of their own.
pub data RuntimeError : Type 0 where
  job_not_found execution_lease_lost conflict : RuntimeError
  existing_job_mismatch chapter_not_found : RuntimeError
  other_error : String → RuntimeError

abbrev pub Try {ℓ} : Type ℓ → Type ℓ
Try A = Result RuntimeError A

-- The set of the capabilities of a request, without the empty text.
unfoldable pub in_cap_set : List String → String → Bool
in_cap_set [] need = false
in_cap_set (c ∷ cs) need = (not (str_eq c "") && str_eq c need) || in_cap_set cs need

abbrev pub is_empty_set : List String → Bool
is_empty_set [] = true
is_empty_set (c ∷ cs) = str_eq c "" && is_empty_set cs
