-- ===== src/Schedule/Trigger/Start.antt =====
-- The start time of a cron trigger.
use swf_go.Prelude.{
  ℕ, suc, ◌-◌, ◌≤◌, ◌<◌, ◌%◌, ◌≡◌, refl, ◌≢◌, ◌∙◌, true, none, some, ok, arith, lt→ltb,
}
use swf_go.Schedule.Calendar.{Zone, minute_ns, truncate_minute}
use swf_go.Schedule.Cron.{CronSpec, matches}
use swf_go.Schedule.Trigger.{
  ScheduleTrigger, cron, LoadLocation, next_schedule_fire, initial_schedule_fire, search_fire,
  first_cursor, search_window,
}
use swf_go.Schedule.Trigger.Fires.{IsCron, next_schedule_fire-cron}

pub search_fire_first :
    (rounds : ℕ) (spec : CronSpec) (zone : Zone) (cursor : ℕ)
    → matches spec (zone cursor) ≡ true
    → search_fire (suc rounds) spec zone 0 cursor ≡ ok (some cursor)
unfolding search_fire
search_fire_first rounds spec zone cursor h = rw h refl

first_cursor_start :
    (s : ℕ) → minute_ns ≤ s → first_cursor (some s) (s - minute_ns) ≡ truncate_minute s
first_cursor_start s h = ground arith

pub search_window-suc : search_window ≡ suc 2635199
unfolding search_window
search_window-suc = refl

initial_schedule_fire-future :
    (load : LoadLocation) (trigger : ScheduleTrigger) (now s : ℕ)
    → trigger.kind ≡ cron
    → trigger.start_at ≡ some s
    → now < s
    → initial_schedule_fire load trigger now ≡ next_schedule_fire load trigger (s - minute_ns)
unfolding initial_schedule_fire
initial_schedule_fire-future load trigger now s k e l =
    rw (k, initial_schedule_fire) (rw e (rw (lt→ltb now s l) refl))

-- A cron schedule with a start time that is not on a whole minute fires first before that start
-- time: when the start lies in the future, no end is set, and the minute in which the start lies
-- matches the expression, the first fire time is the beginning of that minute.
pub initial_schedule_fire_before_start :
    (load : LoadLocation) (trigger : ScheduleTrigger) (spec : CronSpec) (zone : Zone) (now s : ℕ)
    → IsCron load trigger spec zone
    → trigger.start_at ≡ some s
    → trigger.end_at ≡ none
    → now < s
    → minute_ns ≤ s
    → s % minute_ns ≢ 0
    → matches spec (zone (truncate_minute s)) ≡ true
    → (initial_schedule_fire load trigger now ≡ ok (some (truncate_minute s)))
      × (truncate_minute s < s)
initial_schedule_fire_before_start load trigger spec zone now s c e n l big odd m = (
  initial_schedule_fire-future load trigger now s c.of_kind e l
      ∙ next_schedule_fire-cron load trigger spec zone (s - minute_ns) c
      ∙ rw (n, e, search_window-suc, first_cursor_start s big) refl
      ∙ search_fire_first 2635199 spec zone (truncate_minute s) m,
  omega arith,
)
