-- ===== src/Sqlite.antt =====
-- pkg/jobdb/runtime/sqlite: the job table of the default backend. A table is the list of its rows,
-- one for each key; a transaction is a function on it. A NULL column is `none`. Times are
-- nanoseconds since 1970, 0 for the zero time. The columns wait_for and payload hold encoded
-- values: `none` stands for bytes that do not decode.
pub mod Rows
pub mod Acquire
pub mod Lease
pub mod Listing
pub mod Schedules
pub mod Preflight
pub mod Submit
use swf_go.Prelude.{
  ℕ, ◌+◌, ◌%◌, Bool, true, false, not, ◌&&◌, ◌||◌, String, Option, none, some, List, [], ◌∷◌,
  str_eq, ltb, leb, ◌==◌, if◌then◌else◌, Result, ok, err, ◌>>=◌, ◌>>◌, fail_if,
}
use swf_go.Runtime.{
  JobKey, key_eq, JobStatus, ready, pending_jobs, awaiting_future, active, crash_concern, cancelled,
  completed, Try, job_not_found, execution_lease_lost, other_error,
}

pub record TaskWait : Type 0 where
  pub input_step : ℕ
  pub output_step : ℕ
  pub next : String
  pub input_hash : String

-- runtimecodec.SchedulerPayload; the run policy and the visible payload are carried along.
pub record JobPayload : Type 0 where
  pub run_policy : String
  pub task_wait : Option TaskWait
  pub visible_payload : String

pub record JobRow : Type 0 where
  pub key : JobKey
  pub job_type : String
  pub next_need : String
  pub payload : Option JobPayload
  pub metadata : String
  pub wait_for : Option (List String)
  pub available_at : ℕ
  pub created_at : ℕ
  pub updated_at : ℕ
  pub archived_at : Option ℕ
  pub cancel_requested : Bool
  pub completion_status : Option String
  pub completion_detail : Option String
  pub lease_id : Option String
  pub lease_worker_id : Option String
  pub lease_expires_at : Option ℕ
  pub alternate_need : Option String
  pub alternate_at : Option ℕ

abbrev pub Table : Type 0
Table = List JobRow

abbrev pub is_some {ℓ} : {A : Type ℓ} → Option A → Bool
is_some none = false
is_some (some a) = true

-- loadJobRow: SELECT by primary key.
unfoldable pub find_row : JobKey → Table → Option JobRow
find_row key [] = none
find_row key (row ∷ rows) = if key_eq row.key key then some row else find_row key rows

unfoldable pub load_job_row : Table → JobKey → Try JobRow
load_job_row rows key = elim (find_row key rows) [ none ↦ err job_not_found | some row ↦ ok row ]

-- UPDATE ... WHERE tenant_id = ? AND job_id = ?
unfoldable pub update_row : JobKey → (JobRow → JobRow) → Table → Table
update_row key change [] = []
update_row key change (row ∷ rows) =
    (if key_eq row.key key then change row else row) ∷ update_row key change rows

abbrev pub decoded {ℓ} : {A : Type ℓ} → Option A → Try A
decoded none = err (other_error "undecodable column")
decoded (some a) = ok a

-- timeFromNS(v).After(now)
abbrev pub is_after : ℕ → ℕ → Bool
is_after t now = ltb now t

abbrev pub is_text : Option String → String → Bool
is_text none text = false
is_text (some s) text = str_eq s text

abbrev pub present : Option String → Bool
present none = false
present (some s) = not (str_eq s "")

abbrev pub expires_after : Option ℕ → ℕ → Bool
expires_after none now = false
expires_after (some t) now = is_after t now

-- A row with a lease that has not run out.
abbrev pub has_live_lease : JobRow → ℕ → Bool
has_live_lease row now = present row.lease_id && expires_after row.lease_expires_at now

-- A dependency holds a job back while its row is there and not archived.
unfoldable pub dependency_open : Table → String → String → Bool
dependency_open rows tenant id =
    if str_eq id ""
    then false
    else elim (find_row (record { tenant_id = tenant; job_id = id }) rows) [
      | none ↦ false
      | some row ↦ not (is_some row.archived_at)
    ]

unfoldable pub dependencies_ready : Table → String → List String → Bool
dependencies_ready rows tenant [] = true
dependencies_ready rows tenant (id ∷ ids) =
    if dependency_open rows tenant id then false else dependencies_ready rows tenant ids

unfoldable pub archived_status : JobRow → JobStatus
archived_status row =
    if row.cancel_requested || is_text row.completion_status "cancelled"
    then cancelled
    else completed

unfoldable pub unleased_status : Table → JobRow → ℕ → List String → JobStatus
unleased_status rows row now wait_for =
    if not (dependencies_ready rows row.key.tenant_id wait_for)
    then pending_jobs
    else if not (row.available_at == 0) && is_after row.available_at now
    then awaiting_future
    else ready

unfoldable pub status_from_row : Table → JobRow → ℕ → Try JobStatus
unfolding archived_status
status_from_row rows row now =
    if is_some row.archived_at
    then ok (archived_status row)
    else if row.cancel_requested
    then ok cancelled
    else if present row.lease_id
    then ok (if expires_after row.lease_expires_at now then active else crash_concern)
    else (do wait_for ← decoded row.wait_for; ok (unleased_status rows row now wait_for))

-- effectiveNextNeed: the need, and whether the alternate fired.
abbrev alternate_fires : Option String → Option ℕ → ℕ → Bool
alternate_fires none at now = false
alternate_fires (some need) none now = false
alternate_fires (some need) (some t) now = not (str_eq need "") && not (is_after t now)

abbrev text_or : Option String → String → String
text_or none s = s
text_or (some t) s = t

unfoldable pub effective_next_need : JobRow → ℕ → String × Bool
effective_next_need row now =
    if alternate_fires row.alternate_need row.alternate_at now
    then (text_or row.alternate_need row.next_need, true)
    else (row.next_need, false)

abbrev pub default_lease_ns : ℕ
default_lease_ns = 30_000_000_000

-- leaseDurationOrDefault; a duration that is not positive is 0
unfoldable pub lease_duration_or_default : ℕ → ℕ
lease_duration_or_default d = if d == 0 then default_lease_ns else d

-- timeToNS of a time after 1970: its nanoseconds, wrapped to an int64. A negative one, which is a
-- time before 1970, stands as 1: it has passed as well, and it is not the zero time either.
unfoldable pub time_to_ns : ℕ → ℕ
time_to_ns t =
    let w : ℕ = t % 18_446_744_073_709_551_616 in if ltb w 9_223_372_036_854_775_808 then w else 1

-- validateLeaseRow
unfoldable pub validate_lease_row : JobRow → String → String → ℕ → Try (Unit {0})
validate_lease_row row lease_id worker_id now = do
  fail_if (is_some row.archived_at) execution_lease_lost
  fail_if (not (present row.lease_id && is_text row.lease_id lease_id)) execution_lease_lost
  fail_if (not (str_eq worker_id "") && not (is_text row.lease_worker_id worker_id))
      execution_lease_lost
  fail_if (not (expires_after row.lease_expires_at now)) execution_lease_lost
