-- ===== src/Sqlite/Schedules.antt =====
-- sqlite/schedule.go: stored schedules and the runs that they submit. The target of a schedule is
-- left out, and so is the submission itself; the texts of job ids and the hash of a spec are
-- arguments. The only overlap policy is SERIAL, under which a run waits for the one before it.
-- Requests are taken to be valid.
pub mod Changes
use swf_go.Prelude.{
  ℕ, ◌+◌, Bool, true, false, not, ◌&&◌, String, Option, none, some, List, [], ◌∷◌, str_eq, ◌==◌,
  if◌then◌else◌, length, ok, err, ◌>>=◌, ◌>>◌, fail_if,
}
use swf_go.Runtime.{Try, job_not_found, conflict, other_error}
use swf_go.Schedule.Trigger.{ScheduleTrigger, LoadLocation, Fire, initial_schedule_fire}
use swf_go.Schedule.Failure.{ScheduleFailurePolicy}

pub data ScheduleState : Type 0 where
  active paused archived : ScheduleState

pub record ScheduleRow : Type 0 where
  pub tenant_id : String
  pub schedule_id : String
  pub state : ScheduleState
  pub generation : ℕ
  pub spec_hash : String
  pub trigger : ScheduleTrigger
  pub failure_policy : ScheduleFailurePolicy
  pub next_fire_at : Option ℕ
  pub next_job_id : Option String
  pub created_at : ℕ
  pub updated_at : ℕ

abbrev pub Schedules : Type 0
Schedules = List ScheduleRow

abbrev pub is_schedule : String → String → ScheduleRow → Bool
is_schedule tenant id row = str_eq row.tenant_id tenant && str_eq row.schedule_id id

-- loadScheduleRow
unfoldable pub find_schedule : String → String → Schedules → Option ScheduleRow
find_schedule tenant id [] = none
find_schedule tenant id (row ∷ rows) =
    if is_schedule tenant id row then some row else find_schedule tenant id rows

-- UPDATE, or INSERT of a row that is not there.
unfoldable pub store_schedule : ScheduleRow → Schedules → Schedules
store_schedule new [] = new ∷ []
store_schedule new (row ∷ rows) =
    if is_schedule new.tenant_id new.schedule_id row
    then new ∷ rows
    else row ∷ store_schedule new rows

abbrev pub state_eq : ScheduleState → ScheduleState → Bool
state_eq active active = true
state_eq paused paused = true
state_eq archived archived = true
state_eq _ _ = false

-- What the metadata of a run says of it, its job's id, and the job that it waits for.
pub record Occurrence : Type 0 where
  pub job_id : String
  pub schedule_id : String
  pub generation : ℕ
  pub spec_hash : String
  pub scheduled_at : ℕ
  pub previous_job_id : String
  pub bits : List ℕ
  pub window_size : ℕ
  pub manual : Bool
  pub wait_for : Option String

abbrev pub of_fire : Fire → Try (Option ℕ)
of_fire (ok next) = ok next
of_fire (err e) = err (other_error "trigger")

-- `if req.ExpectedGeneration != nil && ...`
abbrev pub is_expected : Option ℕ → ℕ → Bool
is_expected none generation = true
is_expected (some expected) generation = generation == expected

abbrev pub job_of : (String → ℕ → ℕ → String) → String → ℕ → Option ℕ → Option String
job_of run_job_id id generation none = none
job_of run_job_id id generation (some at) = some (run_job_id id generation at)

-- UpsertScheduleRequest
pub record UpsertScheduleRequest : Type 0 where
  pub tenant_id : String
  pub schedule_id : String
  pub trigger : ScheduleTrigger
  pub failure_policy : ScheduleFailurePolicy
  pub is_paused : Bool
  pub expected_generation : Option ℕ

-- The texts of job ids, of a timed run and of a manual one, and time.LoadLocation.
pub record Names : Type 0 where
  pub run_job_id : String → ℕ → ℕ → String
  pub manual_job_id : String → String → String
  pub load : LoadLocation

-- submitScheduledOccurrenceWithJobID: what it submits.
abbrev pub occurrence_of : ScheduleRow → String → ℕ → String → List ℕ → Bool → Occurrence
occurrence_of row job_id at previous bits manual = record {
  job_id = job_id;
  schedule_id = row.schedule_id;
  generation = row.generation;
  spec_hash = row.spec_hash;
  scheduled_at = at;
  previous_job_id = previous;
  bits = bits;
  window_size =
      if row.failure_policy.window_size == 0 then length bits else row.failure_policy.window_size;
  manual = manual;
  wait_for = if str_eq previous "" then none else some previous;
}

abbrev pub only_active : ScheduleState → Option ℕ → Option ℕ
only_active active next = next
only_active paused next = none
only_active archived next = none

module _ (names : Names) where
  -- submitScheduledOccurrence
  abbrev pub timed_occurrence : ScheduleRow → ℕ → String → List ℕ → Occurrence
  timed_occurrence row at previous bits =
      occurrence_of row (names.run_job_id row.schedule_id row.generation at) at previous bits false

  abbrev pub first_occurrence : ScheduleRow → Option ℕ → Option Occurrence
  first_occurrence row none = none
  first_occurrence row (some at) = some (timed_occurrence row at "" [])

  abbrev pub next_generation : Option ScheduleRow → ℕ
  next_generation none = 1
  next_generation (some row) = row.generation + 1

  abbrev first_created : Option ScheduleRow → ℕ → ℕ
  first_created none now = now
  first_created (some row) now = row.created_at

  abbrev pub upserted :
      UpsertScheduleRequest → String → ℕ → Option ℕ → Option ScheduleRow → ScheduleRow
  upserted req spec_hash now next existing =
      let state : ScheduleState = if req.is_paused then paused else active in
      record {
        tenant_id = req.tenant_id;
        schedule_id = req.schedule_id;
        state = state;
        generation = next_generation existing;
        spec_hash = spec_hash;
        trigger = req.trigger;
        failure_policy = req.failure_policy;
        next_fire_at = only_active state next;
        next_job_id =
            job_of names.run_job_id req.schedule_id (next_generation existing)
              (only_active state next);
        created_at = first_created existing now;
        updated_at = now;
      }

  -- The checks of UpsertSchedule in the transaction.
  abbrev pub check_existing : Option ℕ → Option ScheduleRow → Try (Unit {0})
  check_existing none none = ok tt
  check_existing (some expected) none = err conflict
  check_existing expected (some row) = do
    fail_if (state_eq row.state archived) conflict
    fail_if (not (is_expected expected row.generation)) conflict

  -- UpsertSchedule: the schedules after it, and the run that it submits.
  unfoldable pub upsert_schedule :
      UpsertScheduleRequest → String → ℕ → Schedules → Try (Schedules × Option Occurrence)
  upsert_schedule req spec_hash now rows =
      let existing : Option ScheduleRow = find_schedule req.tenant_id req.schedule_id rows in
      do
        next ← of_fire (initial_schedule_fire names.load req.trigger now)
        check_existing req.expected_generation existing
        ok (
          store_schedule (upserted req spec_hash now next existing) rows,
          first_occurrence (upserted req spec_hash now next existing)
              (upserted req spec_hash now next existing).next_fire_at,
        )

  abbrev pub found_schedule : Option ScheduleRow → Try ScheduleRow
  found_schedule none = err job_not_found
  found_schedule (some row) = ok row

  abbrev pub changed : ScheduleState → ℕ → Option ℕ → ScheduleRow → ScheduleRow
  changed state now next row = record row {
    state = state;
    generation = row.generation + 1;
    updated_at = now;
    next_fire_at = only_active state next;
    next_job_id =
        job_of names.run_job_id row.schedule_id (row.generation + 1) (only_active state next);
  }

  -- mutateScheduleState, of PauseSchedule, ResumeSchedule and ArchiveSchedule; only the second asks
  -- for a run to be submitted.
  unfoldable pub mutate_schedule_state :
      String
      → String
      → Option ℕ
      → ScheduleState
      → Bool
      → ℕ
      → Schedules
      → Try (Schedules × Option Occurrence)
  mutate_schedule_state tenant id expected state submit_first now rows = do
    row ← found_schedule (find_schedule tenant id rows)
    fail_if (not (is_expected expected row.generation)) conflict
    fail_if (state_eq row.state archived && not (state_eq state archived)) conflict
    next ← of_fire (initial_schedule_fire names.load row.trigger now)
    ok (
      store_schedule (changed state now next row) rows,
      if submit_first
          then first_occurrence (changed state now next row) (only_active state next)
          else none,
    )

  -- TriggerSchedule: the run that it submits, for a request with an id.
  unfoldable pub trigger_schedule : String → String → String → ℕ → Schedules → Try Occurrence
  trigger_schedule tenant id request_id now rows = do
    row ← found_schedule (find_schedule tenant id rows)
    fail_if (state_eq row.state archived) conflict
    ok (occurrence_of row (names.manual_job_id row.schedule_id request_id) now "" [] true)
