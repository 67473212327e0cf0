-- ===== src/Schedule/Trigger.antt =====
-- schedule_trigger.go: InitialScheduleFire and NextScheduleFire. The zone database behind
-- time.LoadLocation is an argument; a nil `*time.Time` is `none`; an error is a TriggerError.
pub mod Search
pub mod Fires
pub mod Start
use swf_go.Prelude.{
  ℕ, zero, suc, ◌+◌, ◌-◌, Bool, true, false, ◌&&◌, not, Option, none, some, List, [], ◌∷◌, ltb, leb,
  ◌==◌, if◌then◌else◌, Result, ok, err, ◌>>=◌, ◌>>◌, fail_if,
}
use swf_go.Schedule.Text.{trim_space}
use swf_go.Schedule.Calendar.{Zone, minute_ns, truncate_minute, utc}
use swf_go.Schedule.Cron.{CronError, CronSpec, parse_cron_spec, matches}

pub data TriggerKind : Type 0 where
  cron interval other : TriggerKind

pub record ScheduleTrigger : Type 0 where
  pub kind : TriggerKind
  pub expression : List ℕ
  pub timezone : List ℕ
  pub start_at : Option ℕ
  pub end_at : Option ℕ
  pub interval : ℕ  -- the nanoseconds of a positive Duration, 0 for any other

pub data TriggerError : Type 0 where
  unsupported_kind nonpositive_interval unknown_timezone no_fire_time : TriggerError
  bad_cron : CronError → TriggerError

abbrev pub Fire : Type 0
Fire = Result TriggerError (Option ℕ)

abbrev pub LoadLocation : Type 0
LoadLocation = List ℕ → Option Zone

-- `if trigger.EndAt != nil && next.After(*trigger.EndAt) { return nil, nil }; return &next, nil`
abbrev pub until : Option ℕ → ℕ → Option ℕ
until none next = some next
until (some end) next = if ltb end next then none else some next

-- `if p != nil && t.Before(*p) { t = *p }`
abbrev pub not_before : Option ℕ → ℕ → ℕ
not_before none t = t
not_before (some start) t = if ltb t start then start else t

abbrev pub cron_outcome : Result CronError CronSpec → Result TriggerError CronSpec
cron_outcome (ok s) = ok s
cron_outcome (err e) = err (bad_cron e)

-- The search loop; the fuel is the number of rounds left.
unfoldable pub search_fire : ℕ → CronSpec → Zone → ℕ → ℕ → Fire
search_fire zero spec zone end cursor = err no_fire_time
search_fire (suc rounds) spec zone end cursor =
    let rest : Fire = search_fire rounds spec zone end (cursor + minute_ns) in
    if not (end == 0) && ltb end cursor
    then ok none
    else if matches spec (zone cursor)
    then ok (some cursor)
    else rest

-- 366*24*60*5
pub search_window : ℕ
search_window = 2635200

abbrev pub start_cursor : Option ℕ → ℕ → ℕ
start_cursor none cursor = cursor
start_cursor (some start) cursor = if ltb cursor start then truncate_minute start else cursor

-- The first minute that the search looks at.
abbrev pub first_cursor : Option ℕ → ℕ → ℕ
first_cursor start after = start_cursor start (truncate_minute after + minute_ns)

abbrev pub end_or_zero : Option ℕ → ℕ
end_or_zero none = 0
end_or_zero (some end) = end

abbrev blank : List ℕ → Bool
blank [] = true
blank (c ∷ cs) = false

abbrev pub location : LoadLocation → List ℕ → Result TriggerError Zone
location load name =
    if blank (trim_space name)
    then ok utc
    else elim (load name) [ none ↦ err unknown_timezone | some zone ↦ ok zone ]

next_cron : LoadLocation → ScheduleTrigger → ℕ → Fire
next_cron load trigger after = do
  spec ← cron_outcome (parse_cron_spec trigger.expression)
  zone ← location load trigger.timezone
  search_fire search_window spec zone (end_or_zero trigger.end_at)
      (first_cursor trigger.start_at after)

next_interval : ScheduleTrigger → ℕ → Fire
next_interval trigger after =
    if trigger.interval == 0
    then err nonpositive_interval
    else ok (until trigger.end_at (not_before trigger.start_at (after + trigger.interval)))

next_by_kind : TriggerKind → LoadLocation → ScheduleTrigger → ℕ → Fire
unfolding next_cron next_interval
next_by_kind interval load trigger after = next_interval trigger after
next_by_kind cron load trigger after = next_cron load trigger after
next_by_kind other load trigger after = err unsupported_kind

-- NextScheduleFire
unfoldable pub next_schedule_fire : LoadLocation → ScheduleTrigger → ℕ → Fire
unfolding next_by_kind
next_schedule_fire load trigger after = next_by_kind trigger.kind load trigger after

abbrev initial_after : Option ℕ → ℕ → ℕ
initial_after none now = now - 1
initial_after (some start) now = if ltb now start then start - minute_ns else now - 1

initial_by_kind : TriggerKind → LoadLocation → ScheduleTrigger → ℕ → Fire
initial_by_kind interval load trigger now =
    ok (until trigger.end_at (not_before trigger.start_at now))
initial_by_kind cron load trigger now =
    next_schedule_fire load trigger (initial_after trigger.start_at now)
initial_by_kind other load trigger now = err unsupported_kind

-- InitialScheduleFire
unfoldable pub initial_schedule_fire : LoadLocation → ScheduleTrigger → ℕ → Fire
unfolding initial_by_kind
initial_schedule_fire load trigger now = initial_by_kind trigger.kind load trigger now
