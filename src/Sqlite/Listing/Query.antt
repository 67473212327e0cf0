-- ===== src/Sqlite/Listing/Query.antt =====
-- sqlite/runtime.go, ListJobs: the filters of a listing, its order and its pages. The reading of a
-- row's metadata, for the filter on it and for the parent's id, is an argument, as is the clock.
use Prim.Native.Nat.{Ordering}
use Prim.Native.String
use swf_go.Prelude.{
  ℕ, suc, zero, ◌-◌, Bool, true, false, not, ◌&&◌, ◌||◌, String, Option, none, some, List, [], ◌∷◌,
  str_eq, ltb, ◌==◌, if◌then◌else◌, ok, err, ◌>>=◌, ◌>>◌, fail_if,
}
use swf_go.Runtime.{
  JobKey, key_eq, JobStatus, ready, expired, pending_jobs, awaiting_future, active, crash_concern,
  cancelled, completed, Try, other_error,
}
use swf_go.Sqlite.{
  JobRow, JobPayload, Table, is_some, decoded, effective_next_need, status_from_row,
}
use swf_go.Sqlite.Listing.{JobStore, list_store_selection}

-- Where a listing goes on: DecodeListJobsPageToken.
pub record Cursor : Type 0 where
  pub created_at : ℕ
  pub key : JobKey

-- A page size that is not positive is 0. `none` stands for a filter that does not normalize, and for
-- a token that does not decode.
pub record ListJobsRequest : Type 0 where
  pub tenant_ids : List String
  pub statuses : List (Option JobStatus)
  pub stores : List (Option JobStore)
  pub job_types : List String
  pub job_tasks : List (String × String)
  pub job_keys : List JobKey
  pub parent_job_ids : List String
  pub root_only : Bool
  pub metadata_filter : Option (Option (String → Try Bool))
  pub created_after : Option ℕ
  pub created_before : Option ℕ
  pub page_size : ℕ
  pub page_token : Option (Option Cursor)

pub record JobSummary : Type 0 where
  pub key : JobKey
  pub status : JobStatus
  pub job_type : String
  pub next_need : String
  pub wait_for : List String
  pub available_at : ℕ
  pub lease_expires_at : Option ℕ
  pub cancel_requested : Bool
  pub created_at : ℕ
  pub archived_at : Option ℕ
  pub payload : Option JobPayload
  pub metadata : String
  pub parent_job_id : String

abbrev pub any_text : List String → String → Bool
any_text [] s = false
any_text (t ∷ ts) s = str_eq t s || any_text ts s

abbrev pub any_key : List JobKey → JobKey → Bool
any_key [] k = false
any_key (j ∷ js) k = key_eq j k || any_key js k

abbrev pub status_number : JobStatus → ℕ
status_number ready = 0
status_number expired = 1
status_number pending_jobs = 2
status_number awaiting_future = 3
status_number active = 4
status_number crash_concern = 5
status_number cancelled = 6
status_number completed = 7

abbrev pub is_status : Option JobStatus → JobStatus → Bool
is_status none status = false
is_status (some s) status = status_number s == status_number status

abbrev pub any_status : List (Option JobStatus) → JobStatus → Bool
any_status [] status = false
any_status (s ∷ ss) status = is_status s status || any_status ss status

abbrev pub is_empty {ℓ} : {A : Type ℓ} → List A → Bool
is_empty [] = true
is_empty (x ∷ xs) = false

-- workerCapability
abbrev pub worker_capability : String → String → String
worker_capability job_type task_type =
    if str_eq task_type "" then job_type else String.◌++◌ job_type (String.◌++◌ ":" task_type)

-- jobTaskMatches, of tasks that are there.
abbrev pub job_task_matches : String → List (String × String) → Bool
job_task_matches need [] = false
job_task_matches need ((job_type, task_type) ∷ tasks) =
    (not (str_eq job_type "" || str_eq task_type "")
      && str_eq need (worker_capability job_type task_type))
    || job_task_matches need tasks

abbrev pub key_text : JobKey → String
key_text key = String.◌++◌ key.tenant_id (String.◌++◌ "/" key.job_id)

abbrev pub text_lt : String → String → Bool
text_lt a b = elim (String.compare a b) [ Ordering.lt ↦ true | _ ↦ false ]

-- The order of a listing: the newest job first, and of two of one time the one with the greater key.
abbrev pub is_newer : ℕ → JobKey → ℕ → JobKey → Bool
is_newer a j b k = ltb b a || (a == b && text_lt (key_text k) (key_text j))

-- The rows that a cursor leaves: `createdAt.After(cursorTime)`, and equal times with `key >= cursorJob`, are passed over.
abbrev pub is_left : Option Cursor → ℕ → JobKey → Bool
is_left none created_at key = true
is_left (some c) created_at key = is_newer c.created_at c.key created_at key

abbrev pub not_before : Option ℕ → ℕ → Bool
not_before none t = true
not_before (some a) t = not (ltb t a)

abbrev pub not_after : Option ℕ → ℕ → Bool
not_after none t = true
not_after (some b) t = not (ltb b t)

-- The tests of a row that need no more than its columns and its status.
unfoldable pub passes : ListJobsRequest → Bool × Bool → JobRow → JobStatus → Bool
passes req (include_active, include_archive) row status =
    (if is_some row.archived_at then include_archive else include_active)
    && (is_empty req.statuses || any_status req.statuses status)
    && (is_empty req.job_keys || any_key req.job_keys row.key)
    && (is_empty req.job_types || any_text req.job_types row.job_type)
    && (is_empty req.job_tasks || job_task_matches row.next_need req.job_tasks)

-- The tests of the parent's id and of the creation time.
unfoldable pub passes_parent : ListJobsRequest → JobRow → String → Bool
passes_parent req row parent =
    not (req.root_only && not (str_eq parent ""))
    && (is_empty req.parent_job_ids || any_text req.parent_job_ids parent)
    && not_before req.created_after row.created_at
    && not_after req.created_before row.created_at

abbrev pub matches : Option (String → Try Bool) → JobRow → Try Bool
matches none row = ok true
matches (some test) row = test row.metadata

unfoldable pub summary_of : JobRow → JobStatus → ℕ → String → List String → JobSummary
summary_of row status now parent wait_for = record {
  key = row.key;
  status = status;
  job_type = row.job_type;
  next_need = (effective_next_need row now).0;
  wait_for = wait_for;
  available_at = row.available_at;
  lease_expires_at = row.lease_expires_at;
  cancel_requested = row.cancel_requested;
  created_at = row.created_at;
  archived_at = row.archived_at;
  payload = row.payload;
  metadata = row.metadata;
  parent_job_id = parent;
}

-- The next page's token is the last job of a full page, if more jobs are left.
pub record Page : Type 0 where
  pub jobs : List JobSummary
  pub next : Option Cursor

abbrev pub cursor_of : JobSummary → Cursor
cursor_of job = record { created_at = job.created_at; key = job.key }

abbrev pub cut_after : JobSummary → Page → Page
cut_after job page = record page { jobs = job ∷ page.jobs }

-- `out[:pageSize]`, for a page size of one more than the number.
unfoldable pub cut : ℕ → List JobSummary → Page
cut n [] = record { jobs = []; next = none }
cut n (job ∷ []) = record { jobs = job ∷ []; next = none }
cut zero (job ∷ more ∷ jobs) = record { jobs = job ∷ []; next = some (cursor_of job) }
cut (suc n) (job ∷ more ∷ jobs) = cut_after job (cut n (more ∷ jobs))

-- sort.Slice, as an insertion.
unfoldable pub insert_job : JobSummary → List JobSummary → List JobSummary
insert_job job [] = job ∷ []
insert_job job (j ∷ jobs) =
    if is_newer job.created_at job.key j.created_at j.key
    then job ∷ j ∷ jobs
    else j ∷ insert_job job jobs

unfoldable pub sort_jobs : List JobSummary → List JobSummary
sort_jobs [] = []
sort_jobs (job ∷ jobs) = insert_job job (sort_jobs jobs)

abbrev pub page_size_of : ListJobsRequest → ℕ
page_size_of req =
    if req.page_size == 0 then 100 else if ltb 200 req.page_size then 200 else req.page_size

module _ (parent_of : JobRow → Try String) (rows : Table) (now : ℕ) (req : ListJobsRequest)
    (filter : Option (String → Try Bool)) (selection : Bool × Bool) where
  -- The end of the loop's body for a row, from the cursor on.
  abbrev pub add_left :
      Option Cursor → JobRow → JobStatus → String → Try (List JobSummary) → Try (List JobSummary)
  add_left cursor row status parent rest =
      if not (is_left cursor row.created_at row.key)
      then rest
      else (decoded row.wait_for >>= λ wait_for.
          rest >>= λ jobs. ok (summary_of row status now parent wait_for ∷ jobs))

  abbrev pub add_matching :
      Option Cursor → JobRow → JobStatus → String → Try (List JobSummary) → Try (List JobSummary)
  add_matching cursor row status parent rest =
      if not (passes_parent req row parent)
      then rest
      else (matches filter row >>= λ matching.
          if not matching then rest else add_left cursor row status parent rest)

  abbrev pub add_row : Option Cursor → JobRow → Try (List JobSummary) → Try (List JobSummary)
  add_row cursor row rest =
      if not (any_text req.tenant_ids row.key.tenant_id)
      then rest
      else (status_from_row rows row now >>= λ status.
          if not (passes req selection row status)
          then rest
          else (parent_of row >>= λ parent. add_matching cursor row status parent rest))

  -- The loop of ListJobs.
  unfoldable pub list_rows : Option Cursor → Table → Try (List JobSummary)
  list_rows cursor [] = ok []
  list_rows cursor (row ∷ table) = add_row cursor row (list_rows cursor table)

abbrev pub given {ℓ} : {A : Type ℓ} → Option A → Try A
given none = err (other_error "invalid")
given (some a) = ok a

abbrev pub cursor_given : Option (Option Cursor) → Try (Option Cursor)
cursor_given none = ok none
cursor_given (some none) = err (other_error "invalid page token")
cursor_given (some (some c)) = ok (some c)

-- ListJobs
unfoldable pub list_jobs : (JobRow → Try String) → Table → ℕ → ListJobsRequest → Try Page
list_jobs parent_of rows now req = do
  fail_if (req.root_only && not (is_empty req.parent_job_ids))
      (other_error "RootOnly cannot be combined with ParentJobIDs")
  fail_if (is_empty req.tenant_ids) (other_error "tenant_ids is required for ListJobs")
  filter ← given req.metadata_filter
  cursor ← cursor_given req.page_token
  selection ← list_store_selection req.statuses req.stores
  jobs ← list_rows parent_of rows now req filter selection cursor rows
  ok (cut (page_size_of req - 1) (sort_jobs jobs))
