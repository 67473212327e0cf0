-- ===== src/Sqlite/Acquire.antt =====
-- sqlite/runtime.go: acquireOneLease, and the transaction of GetJobLease. The lease id that
-- ksuid.New gives and the clock are arguments.
pub mod Order
pub mod Grants
use Prim.Native.Nat.{Ordering}
use Prim.Native.String
use swf_go.Prelude.{
  ℕ, ◌+◌, Bool, true, false, not, ◌&&◌, ◌||◌, String, Option, none, some, List, [], ◌∷◌, str_eq,
  ltb, leb, ◌==◌, if◌then◌else◌, Result, ok, err, ◌>>=◌, ◌>>◌, fail_if,
}
use swf_go.Runtime.{
  JobKey, key_eq, JobStatus, ready, pending_jobs, awaiting_future, active, crash_concern, cancelled,
  completed, Try, job_not_found, execution_lease_lost, other_error, in_cap_set, is_empty_set,
  RuntimeError,
}
use swf_go.Sqlite.{
  JobRow, JobPayload, Table, is_some, find_row, update_row, decoded, is_after, has_live_lease,
  dependencies_ready, effective_next_need, lease_duration_or_default, time_to_ns, status_from_row,
  is_text, load_job_row,
}

-- The request, with the metadata predicates as the test that they make on a row's metadata.
pub record LeaseRequest : Type 0 where
  pub tenant_id : String
  pub worker_id : String
  pub capabilities : List String
  pub lease_duration : ℕ
  pub metadata_matches : String → Try Bool

-- executionLease
pub record ExecutionLease : Type 0 where
  pub job_key : JobKey
  pub lease_id : String
  pub worker_id : String
  pub capability : String
  pub payload : Option JobPayload
  pub duration : ℕ
  pub expires_at : ℕ

-- requestWorkerID
abbrev pub request_worker_id : String → String → String
request_worker_id own worker = if str_eq worker "" then own else worker

text_le : String → String → Bool
text_le a b = elim (String.compare a b) [ Ordering.gt ↦ false | _ ↦ true ]

-- ORDER BY created_at_ns ASC, job_id ASC
unfoldable pub row_le : JobRow → JobRow → Bool
unfolding text_le
row_le a b =
    ltb a.created_at b.created_at
    || (a.created_at == b.created_at && text_le a.key.job_id b.key.job_id)

unfoldable pub insert_row : JobRow → Table → Table
insert_row row [] = row ∷ []
insert_row row (r ∷ rows) = if row_le row r then row ∷ r ∷ rows else r ∷ insert_row row rows

-- SELECT ... WHERE archived_at_ns IS NULL ORDER BY ...
unfoldable pub select_candidates : Table → Table
select_candidates [] = []
select_candidates (row ∷ rows) =
    let rest : Table = select_candidates rows in
    if is_some row.archived_at then rest else insert_row row rest

-- The tests of the loop that come before the wait_for column is read.
unfoldable pub is_offered : LeaseRequest → ℕ → JobRow → Bool
is_offered req now row =
    str_eq row.key.tenant_id req.tenant_id
    && not row.cancel_requested
    && in_cap_set req.capabilities (effective_next_need row now).0
    && not (has_live_lease row now)

abbrev pub is_available : JobRow → ℕ → Bool
is_available row now = not (not (row.available_at == 0) && is_after row.available_at now)

-- Whether the loop goes on to lease the row.
unfoldable pub is_leaseable : LeaseRequest → ℕ → Table → JobRow → Try Bool
is_leaseable req now rows row =
    if is_offered req now row
    then (do
      wait_for ← decoded row.wait_for
      (if dependencies_ready rows row.key.tenant_id wait_for && is_available row now
          then req.metadata_matches row.metadata
          else ok false))
    else ok false

unfoldable pub pick_candidate : LeaseRequest → ℕ → Table → Table → Try (Option JobRow)
pick_candidate req now rows [] = ok none
pick_candidate req now rows (row ∷ candidates) =
    let later : Try (Option JobRow) = pick_candidate req now rows candidates in
    do hit ← is_leaseable req now rows row; if hit then ok (some row) else later

-- The UPDATE that grants a lease, on the row.
unfoldable pub grant_row : String → String → ℕ → ℕ → JobRow → JobRow
grant_row lease_id worker_id duration now row =
    let (need, fired) = effective_next_need row now in
    record row {
      next_need = need;
      lease_id = some lease_id;
      lease_worker_id = some worker_id;
      lease_expires_at = some (time_to_ns (now + lease_duration_or_default duration));
      alternate_need = if fired then none else row.alternate_need;
      alternate_at = if fired then none else row.alternate_at;
      updated_at = now;
    }

unfoldable pub granted_lease : String → String → ℕ → ℕ → JobRow → ExecutionLease
granted_lease lease_id worker_id duration now row = record {
  job_key = row.key;
  lease_id = lease_id;
  worker_id = worker_id;
  capability = (effective_next_need row now).0;
  payload = row.payload;
  duration = lease_duration_or_default duration;
  expires_at = now + lease_duration_or_default duration;
}

abbrev pub Leased : Type 0
Leased = Table × Option ExecutionLease

unfoldable pub grant_lease : String → String → ℕ → ℕ → Table → JobRow → Leased
grant_lease lease_id worker_id duration now rows row = (
  update_row row.key (grant_row lease_id worker_id duration now) rows,
  some (granted_lease lease_id worker_id duration now row),
)

abbrev pub lease_picked : LeaseRequest → String → String → ℕ → Table → Option JobRow → Leased
lease_picked req own lease_id now rows none = (rows, none)
lease_picked req own lease_id now rows (some row) =
    grant_lease lease_id (request_worker_id own req.worker_id) req.lease_duration now rows row

unfoldable pub acquire_one_lease : LeaseRequest → String → String → ℕ → Table → Try Leased
acquire_one_lease req own lease_id now rows = do
  picked ← pick_candidate req now rows (select_candidates rows)
  ok (lease_picked req own lease_id now rows picked)

abbrev pub is_leaseable_status : JobStatus → Bool
is_leaseable_status ready = true
is_leaseable_status crash_concern = true
is_leaseable_status _ = false

-- GetJobLease, up to the schedule check on the lease that it found.
unfoldable pub get_job_lease : LeaseRequest → String → String → ℕ → JobKey → Table → Try Leased
get_job_lease req own lease_id now key rows = do
  fail_if (is_empty_set req.capabilities) (other_error "at least one capability is required")
  elim (find_row key rows) [
    | none ↦ ok (rows, none)
    | some row ↦ (do
      status ← status_from_row rows row now
      ok (
          if is_leaseable_status status
            && in_cap_set req.capabilities (effective_next_need row now).0
          then grant_lease lease_id (request_worker_id own req.worker_id) req.lease_duration now
              rows row
          else (rows, none)))
  ]
