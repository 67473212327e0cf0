-- ===== src/Tests/Schedules.antt =====
-- Concrete schedules for schedule_trigger.go and schedule.go.
use swf_go.Prelude.{
  ℕ, ◌+◌, ◌-◌, ◌*◌, ◌≤◌, ◌<◌, ◌%◌, ◌≡◌, ◌≢◌, ◌↔◌, ◌∙◌, refl, ◌⊎◌, none, some, List, [], ◌∷◌, ◌++◌,
  ok, arith, length, true, false,
}
use swf_go.Schedule.Text.{contains, split, fields, trim_space, atoi}
use swf_go.Schedule.Calendar.{minute_ns, truncate_minute, utc}
use swf_go.Schedule.Cron.{
  CronSpec, cron_range, cron_values, normalize, max_values, parse_cron_field, parse_cron_spec,
  matches, parse_parts, parse_part,
}
use swf_go.Schedule.Cron.Values.{cron_values_iff, cron_values_total, cron_values_overflow}
use swf_go.Schedule.Cron.Range.{cron_range-bounds}
use swf_go.Schedule.Trigger.{
  ScheduleTrigger, cron, interval, next_schedule_fire, initial_schedule_fire, first_cursor,
  search_window,
}
use swf_go.Schedule.Trigger.Search.{Found}
use swf_go.Schedule.Trigger.Fires.{
  IsCron, Earliest, next_schedule_fire-cron, next_schedule_fire-Found, next_schedule_fire-after,
  next_schedule_fire-Earliest, initial_schedule_fire-Earliest,
}
use swf_go.Schedule.Trigger.Start.{
  initial_schedule_fire_before_start, search_fire_first, search_window-suc,
}
use swf_go.Schedule.Failure.{
  ScheduleFailurePolicy, all_bits, outcome_bit, append_schedule_failure_bit,
  schedule_failure_policy_violated,
}
use swf_go.Schedule.Failure.History.{
  append_schedule_failure_bit_lem, append_schedule_failure_bit-all_bits,
}
use swf_go.Schedule.Failure.Policy.{EndsInFailures, count, schedule_failure_policy_violated_iff}

-- "* * * * *"
abbrev every_minute : ScheduleTrigger
every_minute = record {
  kind = cron;
  expression = 42 ∷ 32 ∷ 42 ∷ 32 ∷ 42 ∷ 32 ∷ 42 ∷ 32 ∷ 42 ∷ [];
  timezone = [];
  start_at = none;
  end_at = none;
  interval = 0;
}

abbrev every_spec : CronSpec
every_spec = record {
  minutes = cron_values max_values 0 59 1 false ++ [];
  hours = cron_values max_values 0 23 1 false ++ [];
  days = cron_values max_values 1 31 1 false ++ [];
  months = cron_values max_values 1 12 1 false ++ [];
  weekdays = cron_values max_values 0 7 1 true ++ [];
}

every_minute_run : parse_cron_spec every_minute.expression ≡ ok every_spec
unfolding parse_cron_spec fields parse_cron_field parse_parts split parse_part trim_space contains
    cron_range cron_values
every_minute_run = refl

-- "*/15 9-17 1,15 * 7": four minutes, nine hours, two days, and Sunday.
office_run :
    parse_cron_spec
      (42 ∷ 47 ∷ 49 ∷ 53 ∷ 32 ∷ 57 ∷ 45 ∷ 49 ∷ 55 ∷ 32 ∷ 49 ∷ 44 ∷ 49 ∷ 53 ∷ 32 ∷ 42 ∷ 32 ∷ 55 ∷ [])
    ≡ ok (record {
      minutes = 0 ∷ 15 ∷ 30 ∷ 45 ∷ [];
      hours = 9 ∷ 10 ∷ 11 ∷ 12 ∷ 13 ∷ 14 ∷ 15 ∷ 16 ∷ 17 ∷ [];
      days = 1 ∷ 15 ∷ [];
      months = 1 ∷ 2 ∷ 3 ∷ 4 ∷ 5 ∷ 6 ∷ 7 ∷ 8 ∷ 9 ∷ 10 ∷ 11 ∷ 12 ∷ [];
      weekdays = 0 ∷ [];
    })
unfolding parse_cron_spec fields parse_cron_field parse_parts split parse_part trim_space contains
    cron_range cron_values atoi
office_run = refl

every_minute-IsCron : IsCron (λ name. none) every_minute every_spec utc
unfolding trim_space
every_minute-IsCron = record { of_kind = refl; parsed = every_minute_run; located = refl }

next_schedule_fire-Found_example :
    Found every_spec utc search_window 0
      (first_cursor none 5)
      (next_schedule_fire (λ name. none) every_minute 5)
next_schedule_fire-Found_example =
    next_schedule_fire-Found (λ name. none) every_minute every_spec utc 5 every_minute-IsCron

matches_minute : matches every_spec (utc 60_000_000_000) ≡ true
unfolding matches utc contains cron_values
matches_minute = refl

next_minute_run : next_schedule_fire (λ name. none) every_minute 5 ≡ ok (some 60_000_000_000)
next_minute_run =
    next_schedule_fire-cron (λ name. none) every_minute every_spec utc 5 every_minute-IsCron
    ∙ rw search_window-suc (search_fire_first 2635199 every_spec utc 60_000_000_000 matches_minute)

next_schedule_fire-after_run :
    (5 < 60_000_000_000)
    × (60_000_000_000 % minute_ns ≡ 0)
    × (matches every_spec (utc 60_000_000_000) ≡ true)
next_schedule_fire-after_run =
    next_schedule_fire-after (λ name. none) every_minute every_spec utc 5 60_000_000_000
      every_minute-IsCron refl next_minute_run

-- It starts 30 seconds past the third minute.
abbrev late_start : ScheduleTrigger
late_start = record every_minute { start_at = some 210_000_000_000 }

late_start-IsCron : IsCron (λ name. none) late_start every_spec utc
unfolding trim_space
late_start-IsCron = record { of_kind = refl; parsed = every_minute_run; located = refl }

matches_third : matches every_spec (utc (truncate_minute 210_000_000_000)) ≡ true
unfolding matches utc contains cron_values
matches_third = refl

initial_schedule_fire_before_start_example :
    (initial_schedule_fire (λ name. none) late_start 5
      ≡ ok (some (truncate_minute 210_000_000_000)))
    × (truncate_minute 210_000_000_000 < 210_000_000_000)
initial_schedule_fire_before_start_example =
    initial_schedule_fire_before_start (λ name. none) late_start every_spec utc 5 210_000_000_000
      late_start-IsCron refl refl (omega arith) (omega arith) (omega arith) matches_third

abbrev every_hundred : ScheduleTrigger
every_hundred = record {
  kind = interval;
  expression = [];
  timezone = [];
  start_at = some 50;
  end_at = some 1000;
  interval = 100;
}

next_schedule_fire-Earliest_example :
    Earliest (some 50) (some 1000) (200 + 100) (next_schedule_fire (λ name. none) every_hundred 200)
next_schedule_fire-Earliest_example =
    next_schedule_fire-Earliest (λ name. none) every_hundred 200 refl (omega arith)

next_interval_run : next_schedule_fire (λ name. none) every_hundred 200 ≡ ok (some 300)
unfolding next_schedule_fire
next_interval_run = refl

initial_schedule_fire-Earliest_run :
    Earliest (some 50) (some 1000) 7 (initial_schedule_fire (λ name. none) every_hundred 7)
initial_schedule_fire-Earliest_run =
    initial_schedule_fire-Earliest (λ name. none) every_hundred 7 refl

cron_values_iff_run :
    (contains (cron_values max_values 0 59 15 false) 30 ≡ true)
    ↔ ((k : ℕ) × (0 + k * 15 ≤ 59) × (30 ≡ normalize false (0 + k * 15)))
cron_values_iff_run =
    cron_values_iff 0 59 15 false (omega arith) (omega arith) (omega arith) (omega arith) 30

cron_values_total_run : cron_values 500 0 59 1 false ≡ cron_values max_values 0 59 1 false
cron_values_total_run =
    cron_values_total 0 59 1 false 500 (omega arith) (omega arith) (omega arith) (omega arith)
      (omega arith)

cron_values_overflow_example :
    contains (cron_values max_values 10 10 9223372036854775807 false) (normalize false (10 - 2))
    ≡ true
cron_values_overflow_example = cron_values_overflow 10 false (omega arith) (omega arith)

-- "9-17"
nine_to_five : cron_range (57 ∷ 45 ∷ 49 ∷ 55 ∷ []) 0 23 ≡ ok (9, 17)
unfolding cron_range contains split atoi
nine_to_five = refl

cron_range-bounds_run : (0 ≤ 9) × (9 ≤ 17) × (17 ≤ 23)
cron_range-bounds_run =
    cron_range-bounds (57 ∷ 45 ∷ 49 ∷ 55 ∷ []) 0 23 (omega arith) (omega arith) nine_to_five

-- "10" with a failure, in a window of two.
append_schedule_failure_bit_lem_run :
    let grown = append_schedule_failure_bit (49 ∷ 48 ∷ []) false 2 in
    ((dropped : List ℕ) × (dropped ++ grown ≡ (49 ∷ 48 ∷ []) ++ outcome_bit false ∷ []))
    × ((kept : List ℕ) × (grown ≡ kept ++ outcome_bit false ∷ []))
    × (◌≡◌ {A = ℕ} 2 0 → length grown ≡ length {A = ℕ} (49 ∷ 48 ∷ []) + 1)
    × (0 < 2
        → (length grown ≤ 2)
          × ((length grown ≡ 2) ⊎ (length grown ≡ length {A = ℕ} (49 ∷ 48 ∷ []) + 1)))
unfolding all_bits
append_schedule_failure_bit_lem_run = append_schedule_failure_bit_lem (49 ∷ 48 ∷ []) false 2 refl

append_run : append_schedule_failure_bit (49 ∷ 48 ∷ []) false 2 ≡ 48 ∷ 48 ∷ []
unfolding append_schedule_failure_bit all_bits
append_run = refl

append_schedule_failure_bit-all_bits_run :
    (all_bits (append_schedule_failure_bit (49 ∷ 50 ∷ []) true 3) ≡ true)
    × (all_bits (49 ∷ 50 ∷ []) ≡ false
        → append_schedule_failure_bit (49 ∷ 50 ∷ []) true 3 ≡ outcome_bit true ∷ [])
append_schedule_failure_bit-all_bits_run =
    append_schedule_failure_bit-all_bits (49 ∷ 50 ∷ []) true 3

abbrev strict : ScheduleFailurePolicy
strict = record { min_success_percent = 50; window_size = 4; max_sequential_failures = 3 }

schedule_failure_policy_violated_iff_example :
    (schedule_failure_policy_violated (49 ∷ 48 ∷ 48 ∷ []) strict ≡ true) ↔ (
      ◌≢◌ {A = List ℕ} (49 ∷ 48 ∷ 48 ∷ []) []
      × (((0 < 3) × EndsInFailures 3 (49 ∷ 48 ∷ 48 ∷ []))
          ⊎ ((0 < 50)
              × (0 < count b'1' (49 ∷ 48 ∷ 48 ∷ []) + count b'0' (49 ∷ 48 ∷ 48 ∷ []))
              × (count b'1' (49 ∷ 48 ∷ 48 ∷ []) * 100
                  < 50 * (count b'1' (49 ∷ 48 ∷ 48 ∷ []) + count b'0' (49 ∷ 48 ∷ 48 ∷ []))))))
schedule_failure_policy_violated_iff_example =
    schedule_failure_policy_violated_iff (49 ∷ 48 ∷ 48 ∷ []) strict
