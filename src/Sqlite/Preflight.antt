-- ===== src/Sqlite/Preflight.antt =====
-- sqlite/schedule_preflight.go: the check of a schedule's run when its lease is granted. The number
-- of its chapters, the success of the run before it, and the answer of submitScheduledOccurrence to a
-- run are arguments; completing a cancelled run and errors of decoding and of the database are left
-- out.
pub mod Stale
pub mod Runs
use swf_go.Prelude.{
  ℕ, Bool, true, false, not, ◌&&◌, String, Option, none, some, List, str_eq, ltb, ◌==◌,
  if◌then◌else◌, Result, ok, err, ◌>>=◌, ◌>>◌,
}
use swf_go.Runtime.{Try}
use swf_go.Schedule.Trigger.{ScheduleTrigger, next_schedule_fire}
use swf_go.Schedule.Failure.{append_schedule_failure_bit, schedule_failure_policy_violated}
use swf_go.Sqlite.Schedules.{
  ScheduleState, active, paused, archived, ScheduleRow, Schedules, find_schedule, state_eq,
  Occurrence, of_fire, Names, timed_occurrence,
}

-- The run is cancelled for a reason; or it starts, after the next run was submitted, if there is one.
pub data Preflight : Type 0 where
  cancels : String → Preflight
  starts : Option Occurrence → Preflight

-- `row.trigger.EndAt != nil && occ.ScheduledAt.After(row.trigger.EndAt.UTC())`
abbrev pub has_ended : Option ℕ → ℕ → Bool
has_ended none at = false
has_ended (some end) at = ltb end at

-- The failure history with the outcome of the run before.
abbrev pub history : (String → Bool) → ScheduleRow → Occurrence → List ℕ
history succeeded row occ =
    if str_eq occ.previous_job_id ""
    then occ.bits
    else append_schedule_failure_bit occ.bits (succeeded occ.previous_job_id) (
        if row.failure_policy.window_size == 0
        then occ.window_size
        else row.failure_policy.window_size)

module _ (names : Names) (succeeded : String → Bool) (submit : Occurrence → Try (Unit {0}))
    (now : ℕ) where
  abbrev pub next_run : ScheduleRow → Occurrence → Option ℕ → Option Occurrence
  next_run row occ none = none
  next_run row occ (some at) =
      some (timed_occurrence names row at occ.job_id (history succeeded row occ))

  -- The run starts once the next one, if there is one, is submitted.
  abbrev submitted_run : Option Occurrence → Try Preflight
  submitted_run none = ok (starts none)
  submitted_run (some next) = do submit next; ok (starts (some next))

  abbrev started_run : ScheduleRow → Occurrence → Try (Option ℕ) → Try Preflight
  started_run row occ (ok next) = submitted_run (next_run row occ next)
  started_run row occ (err e) = err e

  -- From the checks of a row that is there on.
  unfoldable pub preflight_row : ScheduleRow → Occurrence → Try Preflight
  preflight_row row occ =
      if state_eq row.state paused
      then ok (cancels "schedule_paused")
      else if state_eq row.state archived
      then ok (cancels "schedule_archived")
      else if not (row.generation == occ.generation)
      then ok (cancels "schedule_generation_mismatch")
      else if not (str_eq row.spec_hash occ.spec_hash)
      then ok (cancels "schedule_spec_mismatch")
      else if has_ended row.trigger.end_at occ.scheduled_at
      then ok (cancels "schedule_ended")
      else if schedule_failure_policy_violated (history succeeded row occ) row.failure_policy
      then ok (cancels "failure_policy")
      else started_run row occ (of_fire (next_schedule_fire names.load row.trigger now))

  abbrev pub preflight_found : Option ScheduleRow → Occurrence → Try Preflight
  preflight_found none occ = ok (cancels "schedule_missing")
  preflight_found (some row) occ = preflight_row row occ

  -- preflightScheduleLease of a run of a tenant's schedule whose story has a number of chapters.
  unfoldable pub preflight_schedule_lease :
      String → ℕ → Schedules → Option Occurrence → Try Preflight
  preflight_schedule_lease tenant chapters rows none = ok (starts none)
  preflight_schedule_lease tenant chapters rows (some occ) =
      if ltb 1 chapters
      then ok (starts none)
      else preflight_found (find_schedule tenant occ.schedule_id rows) occ
