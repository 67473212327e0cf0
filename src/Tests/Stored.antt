-- ===== src/Tests/Stored.antt =====
-- A stored schedule that fires every minute, and its runs.
use swf_go.Prelude.{
  ℕ, ◌+◌, ◌≡◌, ◌≢◌, refl, true, false, none, some, List, [], ◌∷◌, str_eq, str_eq_refl, sym, ◌∙◌, ok,
  err, not, ◌||◌, Bool, Option, String, if◌then◌else◌, arith, some-injective, ap,
}
use swf_go.Runtime.{Try, existing_job_mismatch}
use swf_go.Schedule.Trigger.{ScheduleTrigger, interval, next_schedule_fire, initial_schedule_fire}
use swf_go.Schedule.Failure.{ScheduleFailurePolicy, schedule_failure_policy_violated}
use swf_go.Sqlite.Schedules.{
  active, paused, archived, ScheduleRow, find_schedule, store_schedule, Occurrence, Names,
  timed_occurrence, changed, mutate_schedule_state, trigger_schedule,
}
use swf_go.Sqlite.Preflight.{preflight_schedule_lease}
use swf_go.Sqlite.Schedules.Changes.{mutates, no_change}
use swf_go.Sqlite.Preflight.Stale.{
  Cancelled, preflight_schedule_lease-stale, preflight_schedule_lease-archived,
}
use swf_go.Sqlite.Preflight.Runs.{Endless, trigger_schedule-active, Refuses}

abbrev every_minute : ScheduleTrigger
every_minute = record {
  kind = interval;
  expression = [];
  timezone = [];
  start_at = none;
  end_at = none;
  interval = 60000000000;
}

abbrev never_blocks : ScheduleFailurePolicy
never_blocks = record { min_success_percent = 0; window_size = 0; max_sequential_failures = 0 }

abbrev report : ScheduleRow
report = record {
  tenant_id = "acme";
  schedule_id = "report";
  state = active;
  generation = 3;
  spec_hash = "abc";
  trigger = every_minute;
  failure_policy = never_blocks;
  next_fire_at = some 60000000000;
  next_job_id = some "run";
  created_at = 0;
  updated_at = 0;
}

abbrev names : Names
names = record {
  run_job_id = λ id generation at. "run";
  manual_job_id = λ id request. "manual";
  load = λ zone. none;
}

-- A submission that is always accepted.
abbrev accepts : Occurrence → Try (Unit {0})
accepts o = ok tt

abbrev paused_row : ScheduleRow
paused_row = changed names paused 5 (some 60000000005) report

abbrev first_run : Occurrence
first_run = timed_occurrence names report 60000000000 "" []

fires : (now : ℕ) → next_schedule_fire names.load every_minute now ≡ ok (some (now + 60000000000))
unfolding next_schedule_fire
fires now = refl

allowed : (bits : List ℕ) → schedule_failure_policy_violated bits never_blocks ≡ false
unfolding schedule_failure_policy_violated
allowed [] = refl
allowed (b ∷ bits) = refl

pause :
    mutate_schedule_state names "acme" "report" none paused false 5 (report ∷ [])
    ≡ ok (paused_row ∷ [], none)
unfolding mutate_schedule_state find_schedule store_schedule initial_schedule_fire str_eq
pause = refl

abbrev archived_row : ScheduleRow
archived_row = record report { state = archived }

endless : Endless names report
endless = record {
  is_active = refl;
  no_end = refl;
  allowed = allowed;
  fires = λ now. now + 60000000000;
  fire = fires;
}

stored :
    (row : ScheduleRow)
    → row.tenant_id ≡ "acme"
    → row.schedule_id ≡ "report"
    → find_schedule "acme" "report" (row ∷ []) ≡ some row
unfolding find_schedule
stored row t i = rw (t, i, str_eq_refl "acme", str_eq_refl "report") refl

touched : find_schedule "acme" "report" (paused_row ∷ []) ≢ some report
touched h =
    let same : paused_row ≡ report = some-injective (sym (stored paused_row refl refl) ∙ h) in
    absurd (omega (arith, ap (λ (r : ScheduleRow). r.generation) same))

preflight_schedule_lease-stale_example : Cancelled names (
    preflight_schedule_lease names
      (λ id. true)
      accepts
      60000000001
      "acme"
      1
      (paused_row ∷ [])
      (some first_run))
preflight_schedule_lease-stale_example =
    preflight_schedule_lease-stale names "acme" (report ∷ []) (paused_row ∷ []) (paused_row ∷ [])
      report first_run (λ id. true) accepts 60000000001 (stored report refl refl) (omega arith)
      (mutates "acme" "report" none paused false 5 none pause) touched no_change

preflight_schedule_lease-archived_example : Cancelled names (
    preflight_schedule_lease names
      (λ id. true)
      accepts
      60000000001
      "acme"
      1
      (archived_row ∷ [])
      (some first_run))
preflight_schedule_lease-archived_example =
    preflight_schedule_lease-archived names "acme" (archived_row ∷ []) (archived_row ∷ [])
      archived_row first_run (λ id. true) accepts 60000000001 (stored archived_row refl refl) refl
      no_change

abbrev there : Occurrence
there = timed_occurrence names report 60000000008 "" []

abbrev answer_to : Bool → Try (Unit {0})
answer_to same = if same then ok tt else err existing_job_mismatch

-- A submission that is accepted if it waits for nothing, or is under another id than `there`.
abbrev compares : Occurrence → Try (Unit {0})
compares o = answer_to (not (str_eq o.job_id there.job_id) || waits_not o.wait_for)
  where
    waits_not : Option String → Bool
    waits_not none = true
    waits_not (some id) = false

compares-Refuses : Refuses compares there
compares-Refuses o same other = by_wait o.wait_for refl
  where
    by_wait : (w : Option String) → o.wait_for ≡ w → compares o ≡ err existing_job_mismatch
    by_wait none e = absurd (other (e ∙ unfold str_eq in refl))
    by_wait (some id) e = rw (same, e, str_eq_refl there.job_id) refl

trigger_schedule-active_example :
    (run : Occurrence) × (trigger_schedule names "acme" "report" "request" 7 (report ∷ []) ≡ ok run)
    × (preflight_schedule_lease names (λ id. true) compares 8 "acme" 1 (report ∷ []) (some run)
        ≡ err existing_job_mismatch)
unfolding str_eq
trigger_schedule-active_example =
    trigger_schedule-active names (λ id. true) compares "acme" "request" 7 8 (report ∷ []) report
      endless (stored report refl refl) refl compares-Refuses
