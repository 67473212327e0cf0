-- ===== src/Schedule/Trigger/Fires.antt =====
-- NextScheduleFire as a whole, for both kinds of trigger.
use swf_go.Prelude.{
  ℕ, ◌+◌, ◌≤◌, ◌<◌, ◌%◌, ◌≡◌, refl, ◌≢◌, true, false, Option, none, some, ltb, ◌==◌, ok, err, inl,
  inr, arith, Bool-cases,
}
use swf_go.Schedule.Calendar.{Zone, minute_ns}
use swf_go.Schedule.Cron.{CronSpec, matches, parse_cron_spec}
use swf_go.Schedule.Trigger.{
  ScheduleTrigger, cron, interval, LoadLocation, location, next_schedule_fire,
  initial_schedule_fire, until, not_before, Fire, search_fire, first_cursor, end_or_zero,
  search_window,
}
use swf_go.Schedule.Trigger.Search.{Found, search_fire-Found, first_cursor_lem}

-- The trigger is a cron trigger whose expression and time zone are understood.
pub record IsCron (load : LoadLocation) (trigger : ScheduleTrigger) (spec : CronSpec) (zone : Zone)
    : Type 0 where
  pub of_kind : trigger.kind ≡ cron
  pub parsed : parse_cron_spec trigger.expression ≡ ok spec
  pub located : location load trigger.timezone ≡ ok zone

pub next_schedule_fire-cron :
    (load : LoadLocation) (trigger : ScheduleTrigger) (spec : CronSpec) (zone : Zone) (after : ℕ)
    → IsCron load trigger spec zone
    → next_schedule_fire load trigger after
      ≡ search_fire search_window spec zone
          (end_or_zero trigger.end_at)
          (first_cursor trigger.start_at after)
unfolding next_schedule_fire
next_schedule_fire-cron load trigger spec zone after c =
    rw (c.of_kind, next_schedule_fire) (rw c.parsed (rw c.located refl))

-- For a cron trigger the next fire time is the first matching minute from the first cursor on, in
-- the trigger's time zone: it matches, it is not past the end, and no earlier minute of the search
-- matches. There is none only if the end comes before any match, and an error is given only if no
-- minute of the five-year window matches.
pub next_schedule_fire-Found :
    (load : LoadLocation) (trigger : ScheduleTrigger) (spec : CronSpec) (zone : Zone) (after : ℕ)
    → IsCron load trigger spec zone
    → Found spec zone search_window
        (end_or_zero trigger.end_at)
        (first_cursor trigger.start_at after)
        (next_schedule_fire load trigger after)
next_schedule_fire-Found load trigger spec zone after c =
    rw (next_schedule_fire-cron load trigger spec zone after c) (
      search_fire-Found spec zone search_window (end_or_zero trigger.end_at)
        (first_cursor trigger.start_at after))

-- So without a start time a cron trigger fires strictly after `after`, on a whole minute, and at a
-- time that its expression matches.
pub next_schedule_fire-after :
    (load : LoadLocation) (trigger : ScheduleTrigger) (spec : CronSpec) (zone : Zone) (after t : ℕ)
    → IsCron load trigger spec zone
    → trigger.start_at ≡ none
    → next_schedule_fire load trigger after ≡ ok (some t)
    → (after < t) × (t % minute_ns ≡ 0) × (matches spec (zone t) ≡ true)
next_schedule_fire-after load trigger spec zone after t c s e =
    let found : Found spec zone search_window (end_or_zero trigger.end_at)
        (first_cursor trigger.start_at after) (ok (some t)) =
      rw e at (next_schedule_fire-Found load trigger spec zone after c) in
    let (k, l, p, m, b, q) = found in
    let (aligned, later) = first_cursor_lem trigger.start_at after in
    let (above, _) = later s in (omega arith, omega arith, m)

abbrev pub NotBefore : Option ℕ → ℕ → Type 0
NotBefore none u = Unit {0}
NotBefore (some start) u = start ≤ u

abbrev pub NotAfter : Option ℕ → ℕ → Type 0
NotAfter none u = Unit {0}
NotAfter (some end) u = u ≤ end

-- A time at which an interval trigger may fire.
abbrev pub Admissible : Option ℕ → Option ℕ → ℕ → ℕ → Type 0
Admissible start end from u = (from ≤ u) × NotBefore start u × NotAfter end u

-- The outcome is the earliest admissible time; or nothing, since no time is admissible.
abbrev pub Earliest : Option ℕ → Option ℕ → ℕ → Fire → Type 0
Earliest start end from (ok (some t)) =
    Admissible start end from t × ((u : ℕ) → Admissible start end from u → t ≤ u)
Earliest start end from (ok none) = (u : ℕ) → ¬ Admissible start end from u
Earliest start end from (err e) = ⊥

until-Earliest :
    (start end : Option ℕ) (from : ℕ)
    → Earliest start end from (ok (until end (not_before start from)))
until-Earliest none none from = ((omega arith, tt, tt), λ u a. a.0)
until-Earliest (some s) none from = elim (Bool-cases (ltb from s)) [
  | inl b ↦ rw b ((ground arith, omega arith, tt), λ u a. a.1)
  | inr b ↦ rw b ((omega arith, ground arith, tt), λ u a. a.0)
]
until-Earliest none (some e) from = elim (Bool-cases (ltb e from)) [
  | inl b ↦ rw b (λ u a. ground arith)
  | inr b ↦ rw b ((omega arith, tt, ground arith), λ u a. a.0)
]
until-Earliest (some s) (some e) from = elim (Bool-cases (ltb from s)) [
  | inl b ↦ rw b (elim (Bool-cases (ltb e s)) [
    | inl c ↦ rw c (λ u a. ground arith)
    | inr c ↦ rw c ((ground arith, omega arith, ground arith), λ u a. a.1)
  ])
  | inr b ↦ rw b (elim (Bool-cases (ltb e from)) [
    | inl c ↦ rw c (λ u a. ground arith)
    | inr c ↦ rw c ((omega arith, ground arith, ground arith), λ u a. a.0)
  ])
]

-- An interval trigger with a positive interval fires next at the earliest time that is a whole
-- interval after `after`, not before the start and not after the end; it has no next fire time only
-- if there is no such time.
pub next_schedule_fire-Earliest :
    (load : LoadLocation) (trigger : ScheduleTrigger) (after : ℕ)
    → trigger.kind ≡ interval
    → trigger.interval ≢ 0
    → Earliest trigger.start_at trigger.end_at
        (after + trigger.interval)
        (next_schedule_fire load trigger after)
unfolding next_schedule_fire
next_schedule_fire-Earliest load trigger after k p =
    let positive : (trigger.interval == 0) ≡ false = ground arith in
    rw (k, next_schedule_fire)
      (rw positive (until-Earliest trigger.start_at trigger.end_at (after + trigger.interval)))

-- A new interval schedule fires first at the earliest time that is not before now, not before the
-- start and not after the end.
pub initial_schedule_fire-Earliest :
    (load : LoadLocation) (trigger : ScheduleTrigger) (now : ℕ)
    → trigger.kind ≡ interval
    → Earliest trigger.start_at trigger.end_at now (initial_schedule_fire load trigger now)
unfolding initial_schedule_fire
initial_schedule_fire-Earliest load trigger now k =
    rw (k, initial_schedule_fire) (until-Earliest trigger.start_at trigger.end_at now)
