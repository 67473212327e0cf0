-- ===== src/Claims.antt =====
-- pkg/jobdb/internal/leaseauth: the claims of a lease token that the remote server has validated,
-- and whether they allow a write. The claims in the context are an argument, `none` if it has none;
-- an expiry time of 0 is the zero time.
use swf_go.Prelude.{
  ℕ, ◌<◌, ◌≡◌, ◌↔◌, ◌⊎◌, Bool, true, false, not, ◌&&◌, String, Option, none, some, str_eq,
  str_eq_iff, ltb, ◌==◌, if◌then◌else◌, ok, err, arith,
}
use swf_go.Runtime.{JobKey, Try, execution_lease_lost}

pub record LeaseClaims : Type 0 where
  pub tenant_id : String
  pub job_id : String
  pub lease_id : String
  pub worker_id : String
  pub schema_hash : String
  pub expires_at : ℕ

-- Matches
unfoldable pub claims_match : LeaseClaims → JobKey → String → Bool
claims_match claims key lease_id =
    str_eq claims.tenant_id key.tenant_id
    && (str_eq claims.job_id key.job_id && str_eq claims.lease_id lease_id)

-- Authorize: the Boolean says whether there are claims at all, which is known also on an error.
unfoldable pub authorize : Option LeaseClaims → JobKey → String → ℕ → Bool × Try (Unit {0})
authorize none key lease_id now = (false, ok tt)
authorize (some claims) key lease_id now =
    if not (claims_match claims key lease_id)
    then (true, err execution_lease_lost)
    else if not (claims.expires_at == 0) && not (ltb now claims.expires_at)
    then (true, err execution_lease_lost)
    else (true, ok tt)

-- Claims allow a write exactly for the job and the lease that they name, and until they expire;
-- claims that do not allow it are a lost lease, and are never passed over as if there were none.
pub authorize_iff :
    (claims : LeaseClaims) (key : JobKey) (lease_id : String) (now : ℕ)
    → ((authorize (some claims) key lease_id now ≡ (true, ok tt)) ↔ (
        (claims.tenant_id ≡ key.tenant_id)
        × (claims.job_id ≡ key.job_id)
        × (claims.lease_id ≡ lease_id)
        × ((claims.expires_at ≡ 0) ⊎ (now < claims.expires_at))))
      × ((authorize (some claims) key lease_id now ≡ (true, ok tt))
          ⊎ (authorize (some claims) key lease_id now ≡ (true, err execution_lease_lost)))
unfolding authorize claims_match
authorize_iff claims key lease_id now = (
  (
    λ h. (
      ground (arith, str_eq_iff claims.tenant_id key.tenant_id),
      ground (arith, str_eq_iff claims.job_id key.job_id),
      ground (arith, str_eq_iff claims.lease_id lease_id),
      ground arith,
    ),
    λ (t, j, l, e). ground (
      arith,
      str_eq_iff claims.tenant_id key.tenant_id,
      str_eq_iff claims.job_id key.job_id,
      str_eq_iff claims.lease_id lease_id,
    ),
  ),
  ground arith,
)
