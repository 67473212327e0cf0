-- ===== src/Schedule/Calendar.antt =====
-- What schedule_trigger.go uses of Go's package time. An instant is a number of nanoseconds since
-- Go's zero time, 1 January of year 1, 00:00 UTC, so that 0 is the zero time and Truncate is a
-- remainder. A time zone is the function from instants to the clock and calendar in that zone.
use swf_go.Prelude.{ℕ, ◌+◌, ◌-◌, ◌*◌, ◌/◌, ◌%◌, ltb, if◌then◌else◌}

abbrev pub minute_ns : ℕ
minute_ns = 60_000_000_000

pub record Civil : Type 0 where
  pub minute : ℕ
  pub hour : ℕ
  pub day : ℕ
  pub month : ℕ
  pub weekday : ℕ

abbrev pub Zone : Type 0
Zone = ℕ → Civil

-- time.Time.Truncate(time.Minute)
abbrev pub truncate_minute : ℕ → ℕ
truncate_minute t = t - t % minute_ns

-- The date from the days since 1 March of year 0: 400-year eras, years that begin in March.
abbrev month_day : ℕ → ℕ × ℕ
month_day z =
    let era_day : ℕ = z % 146097 in
    let year : ℕ = (era_day - era_day / 1460 + era_day / 36524 - era_day / 146096) / 365 in
    let year_day : ℕ = era_day - (365 * year + year / 4 - year / 100) in
    let m : ℕ = (5 * year_day + 2) / 153 in
    (if ltb m 10 then m + 3 else m - 9, year_day - (153 * m + 2) / 5 + 1)

-- time.UTC; 1 January of year 1 is a Monday, and lies 306 days after 1 March of year 0.
unfoldable pub utc : Zone
utc t =
    let minutes : ℕ = t / minute_ns in
    let days : ℕ = minutes / 1440 in
    let (m, d) = month_day (days + 306) in
    record {
      minute = minutes % 60;
      hour = minutes / 60 % 24;
      day = d;
      month = m;
      weekday = (days + 1) % 7;
    }
